-- ===== src/Register/Leave.antt =====
-- lwm2m_register.c: a client that leaves a server, and the token of a request.
use lynx_lwm2m.Base.{
  ℕ, suc, ◌<◌, ◌%◌, ◌≡◌, refl, true, false, not, some, List, ◌∷◌, ◌==◌, pos, length, ok, arith,
  ltb_ℤ, get_elem?, all_below, all_below_sound, ◌∙◌,
}
use lynx_lwm2m.Items.{lfind, lremove}
use lynx_lwm2m.Model.{Server, Context, TaskPtr, Task}
use lynx_lwm2m.Cell.{c_string}
use lynx_lwm2m.Scheduler.{cancel}
use lynx_lwm2m.Management.{lock_tree, unlock_tree}
use lynx_lwm2m.Text.{codes}
use lynx_lwm2m.Text.Split.{Word}
use lynx_lwm2m.Wire.{Topic, serialize_topic, serialize_request, parse_topic}
use lynx_lwm2m.Wire.Topics.{IsTopic, topic_text, parse_topic-serialize_topic}
use lynx_lwm2m.Transport.{
  Surroundings, charset, char_at, generate_token, resolve_server, put_server, publish,
  perform_deregister_request,
}
use lynx_lwm2m.Transport.Sent.{put_server_named}
use lynx_lwm2m.Register.{request_topic, lock_server, deregister_on_server}

charset_free : (k : ℕ) → k < 36 → (char_at (get_elem? charset k) == b'/') ≡ false
unfolding all_below
charset_free k h =
    ground (arith, all_below_sound 36 (λ i. not (char_at (get_elem? charset i) == b'/')) k h refl)

token_Word : (rand : ℕ → ℕ) (i : ℕ) → (char_at (get_elem? charset (rand i % 36)) == b'/') ≡ false
token_Word rand i = charset_free (rand i % 36) (omega arith)

-- A token that is made from any random numbers has eight characters, and none is a slash.
pub generate_token-Word :
    (rand : ℕ → ℕ) → Word b'/' (generate_token rand) × (length (generate_token rand) ≡ 8)
unfolding generate_token
generate_token-Word rand =
    let free = token_Word rand in
    ((free 0, (free 1, (free 2, (free 3, (free 4, (free 5, (free 6, (free 7, tt)))))))), refl)

request_topic-IsTopic :
    (env : Surroundings) (context : Context) (server : Server) (operation : List ℕ)
    → Word b'/' operation
    → Word b'/' context.client_id
    → Word b'/' server.name
    → IsTopic (request_topic env context server operation)
request_topic-IsTopic env context server operation o c s = record {
  operation = o;
  type = (refl, (refl, (refl, tt)));
  token = (generate_token-Word env.rand).0;
  client_id = c;
  server_id = s;
  object_fits = (omega arith, omega arith);
  instance_fits = (omega arith, omega arith);
  resource_fits = (omega arith, omega arith);
  object_first = λ e. e;
  instance_first = λ e. e;
}

-- The server as it is left.
abbrev pub gone : Server → Server
gone server = record server { register_state = pos 0; server_mutex = true }

-- The context but for the servers.
abbrev left : Surroundings → Context → Task → (text : List ℕ) → Context
left env context task text = record context {
  scheduler = record (context.scheduler) { l = lremove context.scheduler.l task.id };
  published = record { topic = text; message = 0 ∷ c_string env.stale } ∷ context.published;
}

-- The topic of the request that ends the registration.
abbrev pub leaving : Surroundings → Context → Server → Topic
leaving env context server = request_topic env context server (codes "rd")

module _ (env : Surroundings) (context : Context) (server : Server) (n : ℕ) (p : TaskPtr)
    (task : Task) (free : server.server_mutex ≡ true)
    (idle : ltb_ℤ (pos 0) server.pending_requests ≡ false)
    (unlocked : context.object_tree_lock ≡ suc n)
    (updated : lfind context.update_tasks server.short_server_id ≡ some p)
    (task_there : context.scheduler.heap p ≡ some task) where
  deregister-run :
      (text : List ℕ)
      → serialize_topic 100 (leaving env context server) ≡ ok text
      → deregister_on_server env context server
        ≡ ok (
            put_server
              (put_server
                (put_server (left env context task text) (record server { server_mutex = false }))
                (record server { register_state = pos 0; server_mutex = false }))
              (gone server))
  unfolding deregister_on_server lock_server put_server lock_tree unlock_tree cancel publish
      perform_deregister_request serialize_request
  deregister-run text serialized = rw (free, idle, unlocked, updated, task_there, serialized) refl

  left-resolve :
      (text : List ℕ) (topic : Topic)
      → resolve_server (left env context task text) topic ≡ resolve_server context topic
  unfolding resolve_server
  left-resolve text topic = refl

  -- Where no request of the server is pending, the lock is free and the update task is there, and the
  -- names are words of a topic that has less than 100 bytes: `deregister_on_server` returns. It has
  -- sent one message, whose topic is read as that of the request and whose content is what the buffer
  -- held before; the lock and the mutex are free again, and the server is no longer registered.
  pub deregister_on_server_lem :
      (topic : Topic)
      → resolve_server context topic ≡ some server
      → Word b'/' context.client_id
      → Word b'/' server.name
      → length (topic_text (leaving env context server)) < 100
      → (context' : Context) × (text : List ℕ) × (deregister_on_server env context server
          ≡ ok context')
        × (parse_topic text ≡ ok (leaving env context server))
        × (context'.published
            ≡ record { topic = text; message = 0 ∷ c_string env.stale } ∷ context.published)
        × (context'.object_tree_lock ≡ context.object_tree_lock)
        × (resolve_server context' topic ≡ some (gone server))
  unfolding put_server
  deregister_on_server_lem topic found client_word server_word short =
      let (text, serialized, parsed) =
        parse_topic-serialize_topic 100 (leaving env context server)
          (request_topic-IsTopic env context server (codes "rd") (refl, (refl, tt)) client_word
            server_word)
          short in
      let locked = record server { server_mutex = false } in
      let going = record server { register_state = pos 0; server_mutex = false } in
      (
        _,
        text,
        deregister-run text serialized,
        parsed,
        refl,
        refl,
        put_server_named _ going (gone server) topic refl (
            put_server_named _ locked going topic refl (
              put_server_named (left env context task text) server locked topic refl
                (left-resolve text topic ∙ found))),
      )
