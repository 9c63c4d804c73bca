-- ===== src/Transport/Sent.antt =====
-- lwm2m_transport_mqtt.c: requests that are ignored, and the servers' own state around a request.
use mathlib.Core.Path.{subst}
use lynx_lwm2m.Base.{
  ℕ, ◌≡◌, refl, true, false, Option, none, some, List, [], ◌∷◌, ℤ, pos, ◌+ℤ◌, ◌-ℤ◌, ◌==ℤ◌, length,
  ok, fault, arith, ap, ltb, Bool-cases, inl, inr, if◌then◌else◌, sym, ◌∙◌,
}
use lynx_lwm2m.Model.{Server, Context}
use lynx_lwm2m.Text.{codes, same_text, into_buffer}
use lynx_lwm2m.Text.Same.{same_text_refl, same_text-eq}
use lynx_lwm2m.Wire.{Topic, Request, parse_request}
use lynx_lwm2m.Wire.Topics.{Fits, topic_text, serialize_topic_lem}
use lynx_lwm2m.Transport.{Surroundings, server_named, store_named, resolve_server, put_server}
use lynx_lwm2m.Transport.Receive.{
  receive_known, receive_from, receive_request, ignore_request, end_request,
}
use lynx_lwm2m.Register.{lock_server}

server_named-store :
    (l : List (ℤ × Server)) (server s : Server)
    → server_named l server.name ≡ some s
    → server_named (store_named l server) server.name ≡ some server
unfolding server_named store_named
server_named-store [] server s found = absurd (cc)
server_named-store ((key, t) ∷ l) server s found =
    ground (arith, same_text_refl server.name, server_named-store l server s)

-- The server that is found has the name.
server_named-name :
    (l : List (ℤ × Server)) (name : List ℕ) (s : Server)
    → server_named l name ≡ some s
    → s.name ≡ name
unfolding server_named
server_named-name [] name s found = absurd (cc)
server_named-name ((key, t) ∷ l) name s found = elim (Bool-cases (same_text t.name name)) [
  | inl hit ↦ cc (same_text-eq t.name name hit, rw hit at found)
  | inr miss ↦ server_named-name l name s (rw miss at found)
]

-- Writing twice through the same pointer keeps the second write.
store_named_twice :
    (l : List (ℤ × Server)) (a b : Server)
    → a.name ≡ b.name
    → store_named (store_named l a) b ≡ store_named l b
unfolding store_named
store_named_twice [] a b e = refl
store_named_twice ((key, t) ∷ l) a b e = elim (Bool-cases (same_text t.name b.name)) [
  | inl hit ↦
      rw
        (ap (same_text t.name) e ∙ hit, hit, ap (λ n. same_text n b.name) e ∙ same_text_refl b.name)
        refl
  | inr miss ↦
      rw (ap (same_text t.name) e ∙ miss, miss) (ap (λ r. (key, t) ∷ r) (store_named_twice l a b e))
]

-- Writing back what is there changes nothing.
store_named_same :
    (l : List (ℤ × Server)) (server : Server)
    → server_named l server.name ≡ some server
    → store_named l server ≡ l
unfolding server_named store_named
store_named_same [] server found = refl
store_named_same ((key, t) ∷ l) server found = elim (Bool-cases (same_text t.name server.name)) [
  | inl hit ↦ rw hit (cc (rw hit at found))
  | inr miss ↦ rw miss (ap (λ r. (key, t) ∷ r) (store_named_same l server (rw miss at found)))
]

-- A server while one of its requests is handled.
abbrev pub in_request : Server → Server
in_request server = record server {
  pending_requests = server.pending_requests +ℤ pos 1;
  server_mutex = false;
}

count_back : (n : ℤ) → (n +ℤ pos 1) -ℤ pos 1 ≡ n
count_back n = ground arith

pub put_server_named :
    (context : Context) (server s : Server) (topic : Topic)
    → s.name ≡ server.name
    → resolve_server context topic ≡ some server
    → resolve_server (put_server context s) topic ≡ some s
unfolding resolve_server put_server
put_server_named context server s topic e found =
    let named = server_named-name context.servers.first topic.server_id server found in
    subst (λ n. server_named (store_named context.servers.first s) n ≡ some s) (e ∙ named)
      (server_named-store context.servers.first s server
        (subst (λ n. server_named context.servers.first n ≡ some server) (sym (e ∙ named)) found))

pub put_server_twice :
    (context : Context) (a b : Server)
    → a.name ≡ b.name
    → put_server (put_server context a) b ≡ put_server context b
unfolding put_server
put_server_twice context a b e = rw (store_named_twice context.servers.first a b e) refl

put_server_same :
    (context : Context) (server : Server) (topic : Topic)
    → resolve_server context topic ≡ some server
    → put_server context server ≡ context
unfolding put_server resolve_server
put_server_same context server topic found =
    let named = server_named-name context.servers.first topic.server_id server found in
    rw
      (store_named_same context.servers.first server
        (subst (λ n. server_named context.servers.first n ≡ some server) (sym named) found))
      refl

abbrev pub counted_off : Server → Server
counted_off server = record server {
  pending_requests = (server.pending_requests +ℤ pos 1) -ℤ pos 1;
  server_mutex = true;
}

pub counted_off-eq : (server : Server) → server.server_mutex ≡ true → counted_off server ≡ server
counted_off-eq server free = cc (count_back server.pending_requests, free)

pub end_request-in_request :
    (env : Surroundings) (context : Context) (server : Server) (topic : Topic)
    → resolve_server context topic ≡ some server
    → server.server_mutex ≡ true
    → end_request env (put_server context (in_request server)) topic ≡ ok context
unfolding end_request
end_request-in_request env context server topic found free =
    rw
      (
        put_server_named context server (in_request server) topic refl found,
        put_server_twice context (in_request server) (counted_off server) refl,
        counted_off-eq server free,
        put_server_same context server topic found,
      )
      refl

ignore_request-eq :
    (env : Surroundings) (context : Context) (topic : Topic)
    → Fits topic.object_id
    → Fits topic.instance_id
    → Fits topic.resource_id
    → ignore_request env context topic
      ≡ (if ltb (length (topic_text topic)) 100 then ok context else fault)
unfolding ignore_request into_buffer
ignore_request-eq env context topic o i r = rw (serialize_topic_lem 100 topic o i r) (ground arith)

-- A server that the client does not know, or one with which it is not registered (any more) and whose
-- mutex is free.
abbrev pub Ignored : Option Server → Type 0
Ignored none = Unit {0}
Ignored (some server) = (server.server_mutex ≡ true) × ((server.register_state ==ℤ pos 1) ≡ false)

receive_known-Ignored :
    (env : Surroundings) (context : Context) (found : Option Server) (topic : Topic)
    (request : Request)
    → resolve_server context topic ≡ found
    → Ignored found
    → Fits topic.object_id
    → Fits topic.instance_id
    → Fits topic.resource_id
    → receive_known env found context topic request
      ≡ (if ltb (length (topic_text topic)) 100 then ok context else fault)
unfolding receive_known receive_from lock_server
receive_known-Ignored env context none topic request e h o i r =
    ignore_request-eq env context topic o i r
receive_known-Ignored env context (some server) topic request e (free, state) o i r =
    rw
      (
        free,
        state,
        put_server_twice context (record server { server_mutex = false }) (in_request server) refl,
        ignore_request-eq env (put_server context (in_request server)) topic o i r,
      )
      (elim (Bool-cases (ltb (length (topic_text topic)) 100)) [
        | inl short ↦ rw short (end_request-in_request env context server topic e free)
        | inr long ↦ rw long refl
      ])

-- A request of at least one byte that is no bootstrap operation, from a server that the client does not know or is not
-- registered with, whose mutex is free, and whose identifiers have at most the digits that `itoa` has
-- room for: where its topic has less than 100 bytes the client is left exactly as it was, the server's
-- counter and mutex included; a longer one runs over the buffer that it is printed from.
pub receive_request-Ignored :
    (env : Surroundings) (context : Context) (topic : Topic) (b : ℕ) (payload : List ℕ)
    → Ignored (resolve_server context topic)
    → Fits topic.object_id
    → Fits topic.instance_id
    → Fits topic.resource_id
    → same_text (codes "bd") topic.operation ≡ false
    → same_text (codes "bw") topic.operation ≡ false
    → same_text (codes "bf") topic.operation ≡ false
    → receive_request env context topic (b ∷ payload)
      ≡ (if ltb (length (topic_text topic)) 100 then ok context else fault)
unfolding receive_request parse_request
receive_request-Ignored env context topic b payload ignored o i r not_delete not_write not_finish =
    rw (not_delete, not_write, not_finish)
      (receive_known-Ignored env context (resolve_server context topic) topic _ refl ignored o i r)
