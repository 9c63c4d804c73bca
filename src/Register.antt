-- ===== src/Register.antt =====
-- lwm2m_register.c and lwm2m_parser_serialize_register.c: registering on the servers, updating and
-- ending the registrations.
pub mod Outcome
pub mod Params
pub mod Accounts
pub mod Leave
use lynx_lwm2m.Base.{
  ℕ, zero, suc, ◌+◌, Bool, true, false, not, Option, none, some, List, [], ◌∷◌, ◌++◌, if◌then◌else◌,
  ◌==◌, ltb, ltb_ℤ, ◌==ℤ◌, ℤ, pos, negsuc, ◌+ℤ◌, Run, ok, fault, blocked, ◌>>=◌, deref,
}
use lynx_lwm2m.Items.{Items, ladd, lfind, lremove}
use lynx_lwm2m.Model.{
  State, registering, registered, RegisterData, Resource, Instance, Object, Server, Context, Task,
  update, int_value,
}
use lynx_lwm2m.Cell.{as_int, as_bytes, read_string}
use lynx_lwm2m.Text.{codes, same_text, print_int, into_buffer, itoa}
use lynx_lwm2m.Scheduler.{schedule, cancel}
use lynx_lwm2m.Attribute.{server_instance_of}
use lynx_lwm2m.Reporting.{new_task}
use lynx_lwm2m.Management.{lock_tree, unlock_tree}
use lynx_lwm2m.Wire.{Topic, Request, RegisterRequest}
use lynx_lwm2m.Transport.{
  Surroundings, generate_token, put_server, subscribe_server, perform_register_request,
  perform_update_request, perform_deregister_request,
}

-- `create_object_string`
unfoldable pub object_link : (object_id : ℤ) → List ℕ
unfolding print_int
object_link object_id = b'<' ∷ b'/' ∷ print_int object_id ++ b'>' ∷ []

unfoldable pub instance_link : (object_id instance_id : ℤ) → List ℕ
unfolding print_int
instance_link object_id instance_id =
    b'<' ∷ b'/' ∷ print_int object_id ++ b'/' ∷ print_int instance_id ++ b'>' ∷ []

-- `create_object_with_instances_string`: the key of an instance's element is printed.
unfoldable pub instance_links : (object_id : ℤ) → List (ℤ × Instance) → List ℕ
unfolding instance_link
instance_links object_id [] = []
instance_links object_id ((key, i) ∷ []) = instance_link object_id key
instance_links object_id ((key, i) ∷ j ∷ next) =
    instance_link object_id key ++ b',' ∷ instance_links object_id (j ∷ next)

unfoldable pub object_text : Object → List ℕ
unfolding object_link instance_links
object_text object =
    if object.instances.size == 0
    then object_link object.id
    else instance_links object.id object.instances.first

unfoldable pub object_texts : List (ℤ × Object) → List ℕ
unfolding object_text
object_texts [] = []
object_texts ((key, object) ∷ []) = object_text object
object_texts ((key, object) ∷ o ∷ next) = object_text object ++ b',' ∷ object_texts (o ∷ next)

-- The message has 5000 bytes, and so has the buffer of one object.
unfoldable pub serialize_objects_and_instances : Context → Run (List ℕ)
unfolding object_texts into_buffer
serialize_objects_and_instances context = into_buffer 5000 (object_texts context.object_tree.first)

unfoldable pub has_server_instances : Context → Run Bool
has_server_instances context = do
  server_object ← deref (lfind context.object_tree (pos 1))
  ok (ltb 0 server_object.instances.size)

-- The resource LIFETIME_RESOURCE_ID.
unfoldable pub get_lifetime : Instance → Run ℤ
get_lifetime server_instance = do
  resource ← deref (lfind server_instance.resources (pos 1))
  value ← deref resource.value
  as_int value

-- The resource BINDING_RESOURCE_ID.
unfoldable pub get_binding_mode : Instance → Run (List ℕ)
get_binding_mode server_instance = do
  resource ← deref (lfind server_instance.resources (pos 7))
  value ← deref resource.value
  bytes ← as_bytes value
  read_string bytes

-- The buffer has 5000 pointers' room. A string value is never NULL in the model.
unfoldable pub serialize_registration_params : Context → Server → Run (List ℕ)
unfolding server_instance_of get_lifetime get_binding_mode itoa into_buffer
serialize_registration_params context server = do
  server_instance ← server_instance_of context server
  lifetime ← get_lifetime server_instance
  lt ←
      if ltb_ℤ (pos 0) lifetime then (do text ← itoa lifetime; ok (codes "&lt=" ++ text)) else ok []
  binding_mode ← get_binding_mode server_instance
  into_buffer 40000
      (codes "ep=" ++ context.endpoint_client_name ++ lt ++ codes "&b=" ++ binding_mode)

-- The name and the value of a changed parameter; the first one has no ampersand.
unfoldable pub update_param : (first_param changed : Bool) → (name value : List ℕ) → List ℕ
update_param first_param false name value = []
update_param true true name value = name ++ value
update_param false true name value = b'&' ∷ name ++ value

-- A changed lifetime is written as the name of the client, under "ep=".
unfoldable pub serialize_update_params : Context → Server → Run (List ℕ)
unfolding server_instance_of get_lifetime get_binding_mode same_text update_param into_buffer
serialize_update_params context server =
    let name = context.endpoint_client_name in
    let last = server.last_update_data in
    let new_name = not (same_text name last.endpoint_client_name) in
    do
      server_instance ← server_instance_of context server
      lifetime ← get_lifetime server_instance
      binding_mode ← get_binding_mode server_instance
      let new_lifetime = not (lifetime ==ℤ last.lifetime)
      let new_binding = not (same_text binding_mode last.binding_mode)
      into_buffer 5000 (
          update_param true new_name (codes "ep=") name
          ++ update_param (not new_name) new_lifetime (codes "ep=") name
          ++ update_param (if new_name then false else not new_lifetime) new_binding (codes "b=")
              binding_mode)

-- The topic of a request without a path.
abbrev pub request_topic : Surroundings → Context → Server → List ℕ → Topic
request_topic env context server operation = record {
  operation = operation;
  type = codes "req";
  client_id = context.client_id;
  server_id = server.name;
  token = generate_token env.rand;
  object_id = negsuc 0;
  instance_id = negsuc 0;
  resource_id = negsuc 0;
}

-- `pthread_mutex_lock(&server->server_mutex)`
unfoldable pub lock_server : Context → Server → Run (Context × Server)
unfolding put_server
lock_server context server =
    let held = record server { server_mutex = false } in
    if server.server_mutex then ok (put_server context held, held) else blocked

module _ (env : Surroundings) where
  -- Where a request is pending the thread waits; it goes on when the mutex is free again and none is.
  unfoldable pub deregister_on_server : Context → Server → Run Context
  unfolding lock_server lock_tree unlock_tree put_server
  deregister_on_server context server = do
    (context, server) ← lock_server context server
    if ltb_ℤ (pos 0) server.pending_requests then blocked else (do
      context ← lock_tree context
      let server = record server { register_state = pos 0 }
      let context = put_server context server
      update_task ← deref (lfind context.update_tasks server.short_server_id)
      scheduler ← cancel context.scheduler update_task
      let context = record context { scheduler = scheduler }
      context ←
          perform_deregister_request env.stale context
            (request_topic env context server (codes "rd"))
            (record { content_type = 0; payload = [] })
      let context = unlock_tree context
      ok (put_server context (record server { server_mutex = true })))

-- The resource 10 of a security instance is the server's identifier.
unfoldable pub find_security_instance :
    List (ℤ × Instance) → (short_server_id : ℤ) → Run (Option Instance)
find_security_instance [] short_server_id = ok none
find_security_instance ((key, security_instance) ∷ next) short_server_id =
    let rest = find_security_instance next short_server_id in
    do id_resource ← deref (lfind security_instance.resources (pos 10)); has_id id_resource rest
  where
    has_id : Resource → Run (Option Instance) → Run (Option Instance)
    has_id id_resource rest = elim id_resource.value [
      | none ↦ rest
      | some value ↦ do
        n ← as_int value
        if n ==ℤ short_server_id then ok (some security_instance) else rest
    ]

-- The identifier and the name of the server that an instance of SERVER_OBJECT_ID describes.
unfoldable pub server_account : Context → Instance → Run (ℤ × List ℕ)
unfolding find_security_instance
server_account context server_instance = do
  id_resource ← deref (lfind server_instance.resources (pos 0))
  id_value ← deref id_resource.value
  short_server_id ← as_int id_value
  security_object ← deref (lfind context.object_tree (pos 0))
  found ← find_security_instance security_object.instances.first short_server_id
  security_instance ← deref found
  uri_resource ← deref (lfind security_instance.resources (pos 0))
  uri_value ← deref uri_resource.value
  bytes ← as_bytes uri_value
  name ← read_string bytes
  ok (short_server_id, name)

-- `server->last_update_data` after a registration or an update.
unfoldable pub register_data : Context → Server → List ℕ → Run RegisterData
unfolding server_instance_of get_lifetime get_binding_mode
register_data context server objects_and_instances = do
  server_instance ← server_instance_of context server
  binding_mode ← get_binding_mode server_instance
  lifetime ← get_lifetime server_instance
  ok (record {
    endpoint_client_name = context.endpoint_client_name;
    binding_mode = binding_mode;
    lifetime = lifetime;
    object_and_instances = objects_and_instances;
  })
