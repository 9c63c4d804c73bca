-- ===== src/Reporting/Send.antt =====
-- lwm2m_information_reporting.c: the functions of the tasks that observe, which send a notification.
-- `now` is what `time(0)` gives.
use lynx_lwm2m.Base.{
  ℕ, Option, none, some, List, [], ◌∷◌, if◌then◌else◌, ℤ, negsuc, Run, ok, ◌>>=◌, deref,
}
use lynx_lwm2m.Items.{Items, list_new, ladd}
use lynx_lwm2m.Model.{Resource, Instance, Object, Server, Context, TaskPtr, op_read, code_content}
use lynx_lwm2m.Libc.{Libc}
use lynx_lwm2m.Text.{codes}
use lynx_lwm2m.AccessControl.{check_resource_operation_supported}
use lynx_lwm2m.Scheduler.{put_task}
use lynx_lwm2m.Tlv.Value.{serialize_resource_text}
use lynx_lwm2m.Tlv.Serialize.{serialize_multiple_resource, serialize_instance}
use lynx_lwm2m.Wire.{Topic}
use lynx_lwm2m.Transport.{perform_notify_response}

-- The resources that can be read.
unfoldable pub readable : List (ℤ × Resource) → Items Resource → Items Resource
readable [] resources_to_parse = resources_to_parse
readable ((key, resource) ∷ next) resources_to_parse = readable next (
    if check_resource_operation_supported resource op_read
    then ladd resources_to_parse resource.id resource
    else resources_to_parse)

abbrev pub notify_topic :
    Context → Server → List ℕ → (object_id instance_id resource_id : ℤ) → Topic
notify_topic context server token object_id instance_id resource_id = record {
  operation = codes "io";
  type = codes "res";
  client_id = context.client_id;
  server_id = server.name;
  token = token;
  object_id = object_id;
  instance_id = instance_id;
  resource_id = resource_id;
}

-- `task->last_waking_time = time(0)`
unfoldable pub touch_task : ℤ → Context → TaskPtr → Run Context
unfolding put_task
touch_task now context p = do
  task ← deref (context.scheduler.heap p)
  ok (record context {
    scheduler = put_task context.scheduler p (record task { last_waking_time = now });
  })

unfoldable pub notify_instance_on_server :
    ℤ → Context → TaskPtr → Server → Object → Instance → (token : List ℕ) → Run Context
unfolding readable touch_task
notify_instance_on_server now context p server object i token = do
  payload ← serialize_instance (readable i.resources.first list_new)
  context ←
      perform_notify_response context (notify_topic context server token object.id i.id (negsuc 0))
        (record { content_type = 4; response_code = code_content; payload = payload })
  touch_task now context p

unfoldable pub notify_object_loop :
    ℤ → Context → TaskPtr → Server → Object → (token : List ℕ) → List (ℤ × Instance) → Run Context
unfolding notify_instance_on_server
notify_object_loop now context p server object token [] = ok context
notify_object_loop now context p server object token ((key, i) ∷ next) = do
  context ← notify_instance_on_server now context p server object i token
  notify_object_loop now context p server object token next

-- The last argument, an instance, is NULL unless a change in that instance is the reason.
unfoldable pub notify_object_func :
    ℤ → Context → TaskPtr → Server → Object → (token : List ℕ) → Option Instance → Run Context
unfolding notify_object_loop notify_instance_on_server touch_task
notify_object_func now context p server object token none = do
  context ← notify_object_loop now context p server object token object.instances.first
  touch_task now context p
notify_object_func now context p server object token (some i) = do
  context ← notify_instance_on_server now context p server object i token
  touch_task now context p

unfoldable pub notify_instance_func :
    ℤ → Context → TaskPtr → Server → Object → Instance → (token : List ℕ) → Run Context
unfolding notify_instance_on_server
notify_instance_func now context p server object i token =
    notify_instance_on_server now context p server object i token

module _ (c : Libc) where
  unfoldable pub notify_resource_on_server :
      ℤ → Context → TaskPtr → Server → Object → Instance → Resource → (token : List ℕ) → Run Context
  unfolding touch_task
  notify_resource_on_server now context p server object i resource token =
      let send = λ (content_type : ℕ) (payload : List ℕ). (do
        context ←
            perform_notify_response context
              (notify_topic context server token object.id i.id resource.id)
              (record {
                content_type = content_type;
                response_code = code_content;
                payload = payload;
              })
        touch_task now context p) in
      if resource.multiple
      then (do
        instances ← deref resource.instances
        payload ← serialize_multiple_resource instances
        send 4 payload)
      else (do payload ← serialize_resource_text c (resource.cell); send 1 payload)

  unfoldable pub notify_resource_func :
      ℤ → Context → TaskPtr → Server → Object → Instance → Resource → (token : List ℕ) → Run Context
  unfolding notify_resource_on_server
  notify_resource_func now context p server object i resource token =
      notify_resource_on_server now context p server object i resource token
