-- ===== src/Transport/Answered.antt =====
-- lwm2m_transport_mqtt.c: a request that is handled and answered.
use lynx_lwm2m.Base.{ℕ, ◌≡◌, refl, true, false, some, List, ◌∷◌, pos, ◌==ℤ◌, ok, ap, ◌∙◌}
use lynx_lwm2m.Model.{Server, Context, Response}
use lynx_lwm2m.Wire.{Topic, Request, serialize_topic, serialize_response}
use lynx_lwm2m.Transport.{Surroundings, resolve_server, put_server, publish, publish_response}
use lynx_lwm2m.Transport.Sent.{in_request, end_request-in_request, put_server_twice}
use lynx_lwm2m.Transport.Receive.{
  answer_topic, handle_request, answer_request, receive_known, receive_from, end_request,
}
use lynx_lwm2m.Register.{lock_server}
use lynx_lwm2m.Transport.Frames.Handlers.{handle_request-Keeps}

module _ (env : Surroundings) (context : Context) (server : Server) (topic : Topic)
    (found : resolve_server context topic ≡ some server) (free : server.server_mutex ≡ true) where
  -- What a handler leaves in the context, with the servers as they are while it runs.
  abbrev pub handling : Context → Context
  handling rest = record rest { servers = (put_server context (in_request server)).servers }

  abbrev pub answered : Context → (text message : List ℕ) → Context
  answered rest text message = record rest {
    servers = context.servers;
    published = record { topic = text; message = message } ∷ rest.published;
  }

  end_request-handling :
      (rest : Context)
      → end_request env (handling rest) topic ≡ ok (record rest { servers = context.servers })
  unfolding resolve_server put_server
  end_request-handling rest =
      end_request-in_request env (record rest { servers = context.servers }) server topic found free

  in_request-handling : put_server context (in_request server) ≡ handling context
  unfolding put_server
  in_request-handling = refl

  publish_response-run :
      (rest : Context) (topic' : Topic) (response : Response) (text message : List ℕ)
      → serialize_topic 200 topic' ≡ ok text
      → serialize_response response ≡ ok message
      → publish_response (handling rest) topic' response
        ≡ ok (
            handling (record rest {
              published = record { topic = text; message = message } ∷ rest.published;
            }))
  unfolding publish_response publish
  publish_response-run rest topic' response text message serialized sent =
      rw (serialized, sent) refl

  answer_request-run :
      (request : Request) (rest : Context) (topic' : Topic) (response : Response)
      (text message : List ℕ)
      → handle_request env (handling context) topic request ≡ ok (handling rest, topic', response)
      → serialize_topic 200 (answer_topic topic') ≡ ok text
      → serialize_response response ≡ ok message
      → answer_request env (handling context) topic request ≡ ok (answered rest text message)
  unfolding answer_request
  answer_request-run request rest topic' response text message handled serialized sent =
      rw
        (
          handled,
          publish_response-run rest (answer_topic topic') response text message serialized sent,
          end_request-handling (record rest {
            published = record { topic = text; message = message } ∷ rest.published;
          }),
        )
        refl

  receive_known-open :
      (request : Request)
      → (server.register_state ==ℤ pos 1) ≡ true
      → receive_known env (some server) context topic request
        ≡ answer_request env
            (put_server
              (put_server context (record server { server_mutex = false }))
              (in_request server))
            topic
            request
  unfolding receive_known receive_from lock_server
  receive_known-open request state = rw (free, state) refl

  receive_known-handled :
      (request : Request) (rest : Context) (topic' : Topic) (response : Response)
      (text message : List ℕ)
      → (server.register_state ==ℤ pos 1) ≡ true
      → handle_request env (handling context) topic request ≡ ok (handling rest, topic', response)
      → serialize_topic 200 (answer_topic topic') ≡ ok text
      → serialize_response response ≡ ok message
      → receive_known env (some server) context topic request ≡ ok (answered rest text message)
  receive_known-handled request rest topic' response text message state handled serialized sent =
      receive_known-open request state
      ∙ ap (λ c. answer_request env c topic request)
          (put_server_twice context (record server { server_mutex = false }) (in_request server)
              refl
            ∙ in_request-handling)
      ∙ answer_request-run request rest topic' response text message handled serialized sent

  -- A request of a registered server whose mutex is free, with a handler that returns, and an answer
  -- that fits its buffers: the client is then as the handler left it, has sent that answer and nothing
  -- else, under the request's topic with the type "res", and the servers, with the counter of
  -- pending requests and the mutex of this one, are as they were before.
  pub receive_known-answered :
      (request : Request) (rest : Context) (topic' : Topic) (response : Response)
      (text message : List ℕ)
      → (server.register_state ==ℤ pos 1) ≡ true
      → handle_request env (handling context) topic request ≡ ok (rest, topic', response)
      → serialize_topic 200 (answer_topic topic') ≡ ok text
      → serialize_response response ≡ ok message
      → receive_known env (some server) context topic request ≡ ok (answered rest text message)
  receive_known-answered request rest topic' response text message state handled serialized sent =
      let kept =
        handle_request-Keeps env (handling context) topic request (rest, topic', response)
          handled in
      receive_known-handled request rest topic' response text message state
        (handled ∙ ap (λ servers. ok (record rest { servers = servers }, topic', response)) kept)
        serialized sent
