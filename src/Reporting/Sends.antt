-- ===== src/Reporting/Sends.antt =====
-- lwm2m_information_reporting.c: how many messages a notification is.
use lynx_lwm2m.Base.{
  ℕ, suc, ◌+◌, ◌≡◌, none, List, [], ◌∷◌, ℤ, negsuc, length, ok, ◌>>=◌, >>=-eq-ok, ok-inj, arith, ap,
  sym, ◌∙◌, deref,
}
use lynx_lwm2m.Items.{list_new}
use lynx_lwm2m.Model.{Instance, Object, Server, Context, Response, Task, TaskPtr, code_content}
use lynx_lwm2m.Scheduler.{put_task}
use lynx_lwm2m.Tlv.Serialize.{serialize_instance}
use lynx_lwm2m.Wire.{Topic, serialize_topic, serialize_response}
use lynx_lwm2m.Transport.{perform_notify_response, publish}
use lynx_lwm2m.Reporting.Send.{
  readable, notify_topic, touch_task, notify_instance_on_server, notify_object_loop,
  notify_object_func,
}

-- How many messages were sent so far.
abbrev sent : Context → ℕ
sent context = length context.published

perform_sent :
    (context after : Context) (topic : Topic) (response : Response)
    → perform_notify_response context topic response ≡ ok after
    → sent after ≡ suc (sent context)
unfolding perform_notify_response publish
perform_sent context after topic response returned =
    let send = λ (text message : List ℕ). ok (publish context text message) in
    let later = λ (text : List ℕ). serialize_response response >>= send text in
    let (text, e, rest) = >>=-eq-ok (serialize_topic 100 topic) later returned in
    let (message, e', same) = >>=-eq-ok (serialize_response response) (send text) rest in
    ap sent (sym (ok-inj same))

touch_sent :
    (now : ℤ) (context after : Context) (p : TaskPtr)
    → touch_task now context p ≡ ok after
    → sent after ≡ sent context
unfolding touch_task
touch_sent now context after p returned =
    let put = λ (task : Task). ok (record context {
      scheduler = put_task context.scheduler p (record task { last_waking_time = now });
    }) in
    let (task, e, same) = >>=-eq-ok (deref (context.scheduler.heap p)) put returned in
    ap sent (sym (ok-inj same))

abbrev notification : List ℕ → Response
notification payload = record { content_type = 4; response_code = code_content; payload = payload }

instance_sent :
    (now : ℤ) (context after : Context) (p : TaskPtr) (server : Server) (object : Object)
    (i : Instance) (token : List ℕ)
    → notify_instance_on_server now context p server object i token ≡ ok after
    → sent after ≡ suc (sent context)
unfolding notify_instance_on_server
instance_sent now context after p server object i token returned =
    let touch = λ (c : Context). touch_task now c p in
    let topic = notify_topic context server token object.id i.id (negsuc 0) in
    let send = λ (payload : List ℕ).
      perform_notify_response context topic (notification payload) >>= touch in
    let (payload, e, rest) =
      >>=-eq-ok (serialize_instance (readable i.resources.first list_new)) send returned in
    let (c, e', touched) =
      >>=-eq-ok (perform_notify_response context topic (notification payload)) touch rest in
    touch_sent now c after p touched ∙ perform_sent context c topic (notification payload) e'

loop_sent :
    (now : ℤ) (context after : Context) (p : TaskPtr) (server : Server) (object : Object)
    (token : List ℕ) (instances : List (ℤ × Instance))
    → notify_object_loop now context p server object token instances ≡ ok after
    → sent after ≡ length instances + sent context
unfolding notify_object_loop
loop_sent now context after p server object token [] returned =
    omega (arith, ap sent (sym (ok-inj returned)))
loop_sent now context after p server object token ((key, i) ∷ next) returned =
    let later = λ (c : Context). notify_object_loop now c p server object token next in
    let (c, e, rest) =
      >>=-eq-ok (notify_instance_on_server now context p server object i token) later returned in
    omega (
      arith,
      loop_sent now c after p server object token next rest,
      instance_sent now context c p server object i token e,
    )

-- The task that observes an object, called by the scheduler, sends exactly one message for each
-- instance of the object when it returns.
pub notify_object_func_sent :
    (now : ℤ) (context after : Context) (p : TaskPtr) (server : Server) (object : Object)
    (token : List ℕ)
    → notify_object_func now context p server object token none ≡ ok after
    → length after.published ≡ length object.instances.first + length context.published
unfolding notify_object_func
notify_object_func_sent now context after p server object token returned =
    let touch = λ (c : Context). touch_task now c p in
    let (c, e, touched) =
      >>=-eq-ok (notify_object_loop now context p server object token object.instances.first) touch
        returned in
    touch_sent now c after p touched
    ∙ loop_sent now context c p server object token object.instances.first e
