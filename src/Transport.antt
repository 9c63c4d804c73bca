-- ===== src/Transport.antt =====
-- lwm2m_transport.c and lwm2m_transport_mqtt.c: messages that the client sends. `MQTTAsync_send` and
-- `MQTTAsync_subscribe` are taken to enter what they are given in the context; what they return is
-- not looked at.
pub mod Handle
pub mod Incomplete
pub mod Receive
pub mod Sent
pub mod Answered
pub mod Frames
use lynx_lwm2m.Base.{
  ℕ, zero, suc, ◌+◌, ◌%◌, Bool, Option, none, some, List, [], ◌∷◌, ◌++◌, map, if◌then◌else◌, ℤ, pos,
  negsuc, ◌==ℤ◌, get_elem?, Run, ok, fault, blocked, ◌>>=◌, deref,
}
use lynx_lwm2m.Items.{Items, lfind}
use lynx_lwm2m.Model.{Cell, Resource, Instance, Object, Server, Published, Context, Response}
use lynx_lwm2m.Libc.{Libc}
use lynx_lwm2m.Text.{codes, same_text, into_buffer}
use lynx_lwm2m.Wire.{
  Topic, Request, RegisterRequest, serialize_topic, serialize_response, serialize_request,
  serialize_register_request,
}

-- What a call finds around it: the C library, enough fuel for the parser, the time, the values of
-- `rand`, and what uninitialised memory holds (`unset`, `unset_time`, `stale`).
pub record Surroundings : Type 0 where
  pub libc : Libc
  pub fuel : ℕ
  pub now : ℤ
  pub rand : ℕ → ℕ
  pub task_id : ℤ
  pub unset : Cell
  pub unset_time : ℤ
  pub stale : List ℕ

-- CHARSET
abbrev pub charset : List ℕ
charset = codes "abcdefghijklmnopqrstuvwxyz1234567890"

abbrev pub char_at : Option ℕ → ℕ
char_at none = 0
char_at (some b) = b

-- The characters from the place `i` on, `n` of them.
unfoldable pub token_from : (rand : ℕ → ℕ) → (n i : ℕ) → List ℕ
token_from rand zero i = []
token_from rand (suc n) i = char_at (get_elem? charset (rand i % 36)) ∷ token_from rand n (suc i)

-- TOKEN_LENGTH is 8.
unfoldable pub generate_token : (rand : ℕ → ℕ) → List ℕ
unfolding token_from
generate_token rand = token_from rand 8 0

unfoldable pub server_named : List (ℤ × Server) → List ℕ → Option Server
unfolding same_text
server_named [] name = none
server_named ((key, server) ∷ next) name =
    if same_text server.name name then some server else server_named next name

-- `__resolve_server`, which both files have.
unfoldable pub resolve_server : Context → Topic → Option Server
unfolding server_named
resolve_server context topic = server_named context.servers.first topic.server_id

unfoldable pub resolve_object : Context → Topic → Option Object
resolve_object context topic = lfind context.object_tree topic.object_id

unfoldable pub resolve_instance : Option Object → Topic → Option Instance
resolve_instance none topic = none
resolve_instance (some object) topic =
    if topic.instance_id ==ℤ negsuc 0 then none else lfind object.instances topic.instance_id

unfoldable pub resolve_resource : Option Instance → Topic → Option Resource
resolve_resource none topic = none
resolve_resource (some i) topic =
    if topic.resource_id ==ℤ negsuc 0 then none else lfind i.resources topic.resource_id

-- A write through the pointer that `__resolve_server` returned.
unfoldable pub store_named : List (ℤ × Server) → Server → List (ℤ × Server)
unfolding same_text
store_named [] server = []
store_named ((key, s) ∷ next) server =
    if same_text s.name server.name
    then (key, server) ∷ next
    else (key, s) ∷ store_named next server

unfoldable pub put_server : Context → Server → Context
unfolding store_named
put_server context server = record context {
  servers = record (context.servers) { first = store_named context.servers.first server };
}

unfoldable pub publish : Context → (topic message : List ℕ) → Context
publish context topic message = record context {
  published = record { topic = topic; message = message } ∷ context.published;
}

unfoldable pub publish_response : Context → Topic → Response → Run Context
unfolding publish serialize_topic serialize_response
publish_response context topic response = do
  topic_str ← serialize_topic 200 topic
  message ← serialize_response response
  ok (publish context topic_str message)

unfoldable pub perform_bootstrap_request :
    (stale : List ℕ) → Context → Topic → Request → Run Context
unfolding publish serialize_topic serialize_request
perform_bootstrap_request stale context topic request = do
  topic_str ← serialize_topic 100 topic
  message ← serialize_request stale request
  ok (publish context topic_str message)

unfoldable pub perform_deregister_request :
    (stale : List ℕ) → Context → Topic → Request → Run Context
unfolding publish serialize_topic serialize_request
perform_deregister_request stale context topic request = do
  topic_str ← serialize_topic 100 topic
  message ← serialize_request stale request
  ok (publish context topic_str message)

unfoldable pub perform_register_request : Context → Topic → RegisterRequest → Run Context
unfolding publish serialize_topic serialize_register_request
perform_register_request context topic request = do
  topic_str ← serialize_topic 100 topic
  message ← serialize_register_request request
  ok (publish context topic_str message)

unfoldable pub perform_update_request : Context → Topic → RegisterRequest → Run Context
unfolding publish serialize_topic serialize_register_request
perform_update_request context topic request = do
  topic_str ← serialize_topic 1000 topic
  message ← serialize_register_request request
  ok (publish context topic_str message)

unfoldable pub perform_notify_response : Context → Topic → Response → Run Context
unfolding publish serialize_topic serialize_response
perform_notify_response context topic response = do
  topic_str ← serialize_topic 100 topic
  message ← serialize_response response
  ok (publish context topic_str message)

unfoldable pub publish_connected : Context → Run Context
unfolding publish into_buffer
publish_connected context = do
  topic ← into_buffer 100 (codes "lynx/clients/" ++ context.client_id)
  ok (publish context topic (codes "1"))

-- `sprintf(topic_server, ...); MQTTAsync_subscribe(...)` for each text in turn.
subscribe_all : List (List ℕ) → Context → Run Context
unfolding into_buffer
subscribe_all [] context = ok context
subscribe_all (text ∷ next) context = do
  topic_server ← into_buffer 100 text
  subscribe_all next (record context { subscriptions = topic_server ∷ context.subscriptions })

unfoldable pub subscribe_init : Context → Run Context
unfolding subscribe_all
subscribe_init context =
    let client = context.client_id in
    subscribe_all
      ((codes "lynx/br/res/+/" ++ client ++ codes "/+")
        ∷ (codes "lynx/bw/req/+/" ++ client ++ codes "/+/#")
        ∷ (codes "lynx/bd/req/+/" ++ client ++ codes "/+/#")
        ∷ (codes "lynx/bd/req/+/" ++ client ++ codes "/+")
        ∷ (codes "lynx/bf/req/+/" ++ client ++ codes "/+")
        ∷ (codes "lynx/rr/res/+/" ++ client ++ codes "/+")
        ∷ [])
      context

-- "lynx/<operation>/<type>/+/<client>/<server><rest>"
unfoldable pub server_topic : (head client name rest : List ℕ) → List ℕ
server_topic head client name rest =
    codes "lynx/" ++ head ++ codes "/+/" ++ client ++ b'/' ∷ name ++ rest

-- The texts of `subscribe_server` in its order; "%%" prints one percent sign.
unfoldable pub server_topics : (client name : List ℕ) → List (List ℕ)
unfolding server_topic
server_topics client name =
    server_topic (codes "ru/res") client name []
    ∷ server_topic (codes "rd/res") client name []
    ∷ server_topic (codes "mr/req") client name (codes "/#")
    ∷ server_topic (codes "mw/req") client name (codes "/#")
    ∷ server_topic (codes "mr/req") (codes "%") name (codes "/#")
    ∷ server_topic (codes "mw/req") (codes "%") name (codes "/#")
    ∷ server_topic (codes "me/req") client name (codes "/+/+/+")
    ∷ server_topic (codes "mc/req") client name (codes "/#")
    ∷ server_topic (codes "mc/req") (codes "%") name (codes "/#")
    ∷ server_topic (codes "md/req") client name (codes "/+/+")
    ∷ server_topic (codes "ma/req") client name (codes "/#")
    ∷ server_topic (codes "mm/req") client name (codes "/#")
    ∷ server_topic (codes "io/req") client name (codes "/#")
    ∷ server_topic (codes "ic/req") client name (codes "/#")
    ∷ []

unfoldable pub subscribe_server : Context → Server → Run Context
unfolding subscribe_all server_topics
subscribe_server context server =
    subscribe_all (server_topics context.client_id server.name) context
