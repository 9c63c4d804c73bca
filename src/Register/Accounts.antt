-- ===== src/Register/Accounts.antt =====
-- lwm2m_register.c: `register_on_server`, `update_on_server`, `lwm2m_register` and what the answers
-- of a server do. A thread that waits for a signal is given what the other threads do meanwhile.
use lynx_lwm2m.Base.{
  ℕ, Bool, true, false, Option, List, [], ◌∷◌, if◌then◌else◌, ltb_ℤ, ◌==ℤ◌, ℤ, pos, negsuc, ◌+ℤ◌,
  Run, ok, blocked, ◌>>=◌, deref,
}
use lynx_lwm2m.Items.{ladd, lfind, lremove}
use lynx_lwm2m.Model.{State, registering, registered, Instance, Server, Context, Task, update}
use lynx_lwm2m.Text.{codes, same_text, into_buffer}
use lynx_lwm2m.Scheduler.{schedule}
use lynx_lwm2m.Attribute.{server_instance_of}
use lynx_lwm2m.Reporting.{new_task}
use lynx_lwm2m.Management.{lock_tree, unlock_tree}
use lynx_lwm2m.Transport.{
  Surroundings, put_server, subscribe_server, perform_register_request, perform_update_request,
}
use lynx_lwm2m.Register.{
  serialize_objects_and_instances, has_server_instances, get_lifetime,
  serialize_registration_params, serialize_update_params, request_topic, server_account,
  register_data,
}

module _ (env : Surroundings) where
  -- The copy of the objects and instances has 200 bytes.
  unfoldable pub register_on_server : Context → Instance → Run Context
  unfolding server_account subscribe_server serialize_objects_and_instances into_buffer
      serialize_registration_params register_data perform_register_request
  register_on_server context server_instance = do
    (short_server_id, name) ← server_account context server_instance
    let server : Server = record {
      short_server_id = short_server_id;
      name = name;
      server_instance = server_instance.id;
      last_update_data = record {
        endpoint_client_name = [];
        binding_mode = [];
        lifetime = pos 0;
        object_and_instances = [];
      };
      pending_requests = pos 0;
      register_state = pos 1;
      server_mutex = true;
    }
    context ← subscribe_server context server
    objects_and_instances ← serialize_objects_and_instances context
    copy ← into_buffer 200 objects_and_instances
    registration_params ← serialize_registration_params context server
    last_update_data ← register_data context server objects_and_instances
    let server = record server { last_update_data = last_update_data }
    context ←
        perform_register_request context (request_topic env context server (codes "rr"))
          (record { content_type = 1; header = registration_params; payload = copy })
    ok (record context { servers = ladd context.servers short_server_id server })

  -- The objects and instances are sent only where they have changed.
  unfoldable pub update_on_server : Context → Server → Run Context
  unfolding lock_tree unlock_tree serialize_objects_and_instances serialize_update_params same_text
      register_data put_server perform_update_request
  update_on_server context server = do
    context ← lock_tree context
    objects_and_instances ← serialize_objects_and_instances context
    update_params ← serialize_update_params context server
    let request_payload =
        if same_text objects_and_instances server.last_update_data.object_and_instances
        then []
        else objects_and_instances
    last_update_data ← register_data context server objects_and_instances
    let server = record server { last_update_data = last_update_data }
    let context = unlock_tree (put_server context server)
    if server.register_state ==ℤ pos 1
        then perform_update_request context (request_topic env context server (codes "ru"))
            (record { content_type = 1; header = update_params; payload = request_payload })
        else ok context

  -- The task that updates the registration: `malloc` leaves its waking times as they are.
  abbrev pub update_task_of : Server → (period : ℤ) → Task
  update_task_of server period = record {
    id = env.task_id;
    short_server_id = server.short_server_id;
    period = period;
    waking_time = env.unset_time;
    last_waking_time = env.unset_time;
    function = update;
    server = server.short_server_id;
    token = [];
  }

  -- Whatever the server has answered, the client counts as registered.
  unfoldable pub on_server_register : Context → Server → (success : ℕ) → Run Context
  unfolding server_instance_of get_lifetime new_task
  on_server_register context server success = do
    server_instance ← server_instance_of context server
    lifetime ← get_lifetime server_instance
    let (scheduler, p) = new_task context.scheduler (update_task_of server lifetime)
    scheduler ← schedule env.now scheduler p
    ok (record context {
      update_tasks = ladd context.update_tasks server.short_server_id p;
      scheduler = scheduler;
      state = registered;
      registered_servers_num = context.registered_servers_num +ℤ pos 1;
    })

  -- The loop over the instances of SERVER_OBJECT_ID.
  unfoldable pub register_all : List (ℤ × Instance) → Context → Run Context
  unfolding register_on_server
  register_all [] context = ok context
  register_all ((key, server_instance) ∷ next) context = do
    context ← register_on_server context server_instance
    register_all next context

unfoldable pub on_server_deregister : Context → Server → (response_code : ℕ) → Context
on_server_deregister context server response_code = record context {
  servers = lremove context.servers server.short_server_id;
}

unfoldable pub on_server_update : Context → Option Server → (success : ℕ) → Context
on_server_update context server success = context

abbrev pub is_registered : State → Bool
is_registered registered = true
is_registered _ = false

-- What the other threads do until each signal; without a further signal the thread waits for ever.
unfoldable pub wait_for_registered : List (Context → Run Context) → Context → Run Context
wait_for_registered [] context = if is_registered context.state then ok context else blocked
wait_for_registered (others ∷ next) context =
    let rest = λ (context : Context). wait_for_registered next context in
    if is_registered context.state then ok context else (do context ← others context; rest context)

-- What follows once the state is REGISTERING: the context, and the value that is returned.
unfoldable pub register_and_wait :
    Surroundings → List (Context → Run Context) → Context → Run (Context × ℤ)
unfolding register_all wait_for_registered
register_and_wait env others context = do
  server_object ← deref (lfind context.object_tree (pos 1))
  context ← register_all env server_object.instances.first context
  context ← wait_for_registered others context
  ok (context, if ltb_ℤ (pos 0) context.registered_servers_num then pos 0 else negsuc 0)

unfoldable pub lwm2m_register :
    Surroundings → List (Context → Run Context) → Context → Run (Context × ℤ)
unfolding has_server_instances register_and_wait
lwm2m_register env others context = do
  found ← has_server_instances context
  if found
      then register_and_wait env others (record context { state = registering })
      else ok (context, negsuc 0)
