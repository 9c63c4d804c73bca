-- ===== src/Transport/Receive.antt =====
-- lwm2m_transport_mqtt.c: what happens to a message that arrives. While a request is handled its
-- server's mutex is held.
use lynx_lwm2m.Base.{
  ℕ, Bool, true, Option, none, some, List, if◌then◌else◌, pos, ◌+ℤ◌, ◌-ℤ◌, ◌==ℤ◌, Run, ok, fault,
  ◌>>=◌, deref,
}
use lynx_lwm2m.Model.{Server, Context, Response}
use lynx_lwm2m.Text.{codes, same_text}
use lynx_lwm2m.Wire.{Topic, Request, parse_topic, parse_request, parse_response, serialize_topic}
use lynx_lwm2m.Transport.{Surroundings, resolve_server, put_server, publish_response}
use lynx_lwm2m.Register.{lock_server}
use lynx_lwm2m.Register.Accounts.{on_server_register, on_server_deregister, on_server_update}
use lynx_lwm2m.Transport.Handle.{
  handle_bootstrap_delete_request, handle_bootstrap_write_request, handle_bootstrap_finish_request,
  handle_write_request, handle_read_request, handle_create_request, handle_delete_request,
  handle_discover_request, handle_observe_request, handle_cancel_observe_request,
  handle_write_attributes_request, handle_execute_request,
}

-- The handlers but for that of CREATE leave the topic as it is.
abbrev with_topic : Topic → Run (Context × Response) → Run (Context × Topic × Response)
with_topic topic handled = handled >>= (λ result. ok (result.0, topic, result.1))

abbrev is_operation : Topic → List ℕ → Bool
is_operation topic name = same_text name topic.operation

abbrev pub answer_topic : Topic → Topic
answer_topic topic = record topic { type = codes "res" }

module _ (env : Surroundings) where
  -- The call of the operation's handler; the operations are different texts. An operation that none
  -- of the tests finds leaves `response` uninitialised, and its payload is read through it.
  unfoldable pub handle_request : Context → Topic → Request → Run (Context × Topic × Response)
  unfolding same_text handle_write_request handle_read_request handle_create_request
      handle_delete_request handle_discover_request handle_observe_request
      handle_cancel_observe_request handle_write_attributes_request handle_execute_request
  handle_request context topic request =
      if is_operation topic (codes "mw")
      then with_topic topic (handle_write_request env context topic request)
      else if is_operation topic (codes "mr")
      then with_topic topic (handle_read_request env context topic request)
      else if is_operation topic (codes "mc")
      then handle_create_request env context topic request
      else if is_operation topic (codes "md")
      then with_topic topic (handle_delete_request context topic request)
      else if is_operation topic (codes "mm")
      then with_topic topic (handle_discover_request env context topic request)
      else if is_operation topic (codes "io")
      then with_topic topic (handle_observe_request env context topic request)
      else if is_operation topic (codes "ic")
      then with_topic topic (handle_cancel_observe_request context topic request)
      else if is_operation topic (codes "ma")
      then with_topic topic (handle_write_attributes_request env context topic request)
      else if is_operation topic (codes "me")
      then with_topic topic (handle_execute_request env context topic request)
      else fault

  -- `if (--server->pending_requests == 0)` only signals; then the mutex is free again.
  unfoldable pub end_request : Context → Topic → Run Context
  unfolding resolve_server put_server
  end_request context topic = do
    server ← deref (resolve_server context topic)
    ok (
        put_server context (record server {
          pending_requests = server.pending_requests -ℤ pos 1;
          server_mutex = true;
        }))

  -- A request of a registered server: handled, answered, counted off.
  unfoldable pub answer_request : Context → Topic → Request → Run Context
  unfolding handle_request publish_response end_request
  answer_request context topic request = do
    (context, topic', response) ← handle_request context topic request
    context ← publish_response context (answer_topic topic') response
    end_request context topic

  -- The topic is printed from a buffer of 100 bytes before the request is ignored.
  unfoldable pub ignore_request : Context → Topic → Run Context
  unfolding serialize_topic
  ignore_request context topic = do topic_str ← serialize_topic 100 topic; ok context

  unfoldable pub receive_from : Context → Server → Topic → Request → Run Context
  unfolding lock_server put_server answer_request ignore_request end_request
  receive_from context server topic request = do
    (context, server) ← lock_server context server
    let counted = record server { pending_requests = server.pending_requests +ℤ pos 1 }
    let context = put_server context counted
    if server.register_state ==ℤ pos 1
        then answer_request context topic request
        else (do context ← ignore_request context topic; end_request context topic)

  -- The bootstrap operations need no server.
  unfoldable pub receive_bootstrap : Context → Topic → Run (Context × Response) → Run Context
  unfolding publish_response
  receive_bootstrap context topic handled = do
    (context, response) ← handled
    publish_response context (answer_topic topic) response

  unfoldable pub receive_known : Option Server → Context → Topic → Request → Run Context
  unfolding receive_from ignore_request
  receive_known none context topic request = ignore_request context topic
  receive_known (some server) context topic request = receive_from context server topic request

  unfoldable pub receive_request : Context → Topic → List ℕ → Run Context
  unfolding same_text parse_request receive_bootstrap handle_bootstrap_delete_request
      handle_bootstrap_write_request handle_bootstrap_finish_request resolve_server receive_known
  receive_request context topic message = do
    request ← parse_request message
    if is_operation topic (codes "bd")
        then receive_bootstrap context topic (handle_bootstrap_delete_request context topic request)
        else if is_operation topic (codes "bw")
        then receive_bootstrap context topic
            (handle_bootstrap_write_request env context topic request)
        else if is_operation topic (codes "bf")
        then receive_bootstrap context topic (handle_bootstrap_finish_request context topic request)
        else receive_known (resolve_server context topic) context topic request

  -- A server that is not known is NULL: two of the three handlers read it.
  unfoldable pub handle_register_response : Context → Topic → Response → Run Context
  unfolding resolve_server on_server_register
  handle_register_response context topic response = do
    server ← deref (resolve_server context topic)
    on_server_register env context server response.response_code

  unfoldable pub handle_deregister_response : Context → Topic → Response → Run Context
  unfolding resolve_server on_server_deregister
  handle_deregister_response context topic response = do
    server ← deref (resolve_server context topic)
    ok (on_server_deregister context server response.response_code)

  unfoldable pub handle_update_response : Context → Topic → Response → Run Context
  unfolding resolve_server on_server_update
  handle_update_response context topic response =
      ok (on_server_update context (resolve_server context topic) response.response_code)

  unfoldable pub receive_response : Context → Topic → List ℕ → Run Context
  unfolding same_text parse_response handle_register_response handle_update_response
      handle_deregister_response
  receive_response context topic message = do
    response ← parse_response message
    if is_operation topic (codes "rr")
        then handle_register_response context topic response
        else if is_operation topic (codes "ru")
        then handle_update_response context topic response
        else if is_operation topic (codes "rd")
        then handle_deregister_response context topic response
        else ok context

  unfoldable pub receive_message : Context → (topic_string message : List ℕ) → Run Context
  unfolding parse_topic same_text receive_request receive_response
  receive_message context topic_string message = do
    topic ← parse_topic topic_string
    if same_text (codes "req") topic.type
        then receive_request context topic message
        else if same_text (codes "res") topic.type
        then receive_response context topic message
        else ok context
