-- ===== src/Wire/Topics.antt =====
-- lwm2m_transport.c and lwm2m_transport_mqtt.c: `parse_topic` reads what `serialize_topic` writes.
use lynx_lwm2m.Base.{
  ℕ, ◌<◌, ◌≡◌, refl, sym, true, false, List, [], ◌∷◌, ◌++◌, if◌then◌else◌, ℤ, pos, negsuc, ◌==ℤ◌,
  ◌≤ℤ◌, length, length-append, append_assoc, append-nil, All, Run, ok, fault, blocked, out_of_fuel,
  ltb, ◌>>=◌, arith, ap, ◌∙◌, Bool-cases, inl, inr, ==ℤ_iff,
}
use lynx_lwm2m.Text.{codes, strtok_all, print_int, into_buffer}
use lynx_lwm2m.Text.Decimal.{itoa_fits, atoi-print_int, print_int-Word}
use lynx_lwm2m.Text.Split.{Word, join, strtok_all-join}
use lynx_lwm2m.Wire.{Topic, append_id, topic_head, serialize_topic, parse_ids, parse_topic}

-- An identifier in a topic: the word it adds.
abbrev pub id_words : ℤ → List (List ℕ)
id_words id = if id ==ℤ negsuc 0 then [] else print_int id ∷ []

abbrev pub id_text : ℤ → List ℕ
id_text id = if id ==ℤ negsuc 0 then [] else b'/' ∷ print_int id

-- The identifiers that `itoa` has room for.
abbrev pub Fits : ℤ → Type 0
Fits id = (negsuc 99999998 ≤ℤ id) × (id ≤ℤ pos 999999999)

-- The text of a topic, whatever buffer it goes to.
unfoldable pub topic_text : Topic → List ℕ
unfolding topic_head
topic_text topic =
    ((topic_head topic ++ id_text topic.object_id) ++ id_text topic.instance_id)
    ++ id_text topic.resource_id

append_id_lem :
    (size : ℕ) (id : ℤ) (a : List ℕ)
    → Fits id
    → ltb (length a) size ≡ true
    → append_id size id a ≡ into_buffer size (a ++ id_text id)
unfolding append_id
append_id_lem size id a h short = elim (Bool-cases (id ==ℤ negsuc 0)) [
  | inl hit ↦ rw (hit, append-nil, short) refl
  | inr miss ↦ rw (miss, (itoa_fits id).0 h) refl
]

into_buffer_long :
    (size : ℕ) (a b : List ℕ) → ltb (length a) size ≡ false → into_buffer size (a ++ b) ≡ fault
unfolding into_buffer
into_buffer_long size a b long = ground (arith, length-append a b)

-- One more identifier is put into the buffer together with what is there.
append_id-into_buffer :
    (size : ℕ) (id : ℤ) (a : List ℕ)
    → Fits id
    → (into_buffer size a >>= append_id size id) ≡ into_buffer size (a ++ id_text id)
unfolding into_buffer
append_id-into_buffer size id a h = elim (Bool-cases (ltb (length a) size)) [
  | inl short ↦ rw short (append_id_lem size id a h short)
  | inr long ↦ rw long (sym (into_buffer_long size a _ long))
]

bind_assoc :
    {A B C : Type 0} (m : Run A) (f : A → Run B) (g : B → Run C)
    → (m >>= (λ x. f x >>= g)) ≡ ((m >>= f) >>= g)
bind_assoc (ok a) f g = refl
bind_assoc fault f g = refl
bind_assoc blocked f g = refl
bind_assoc out_of_fuel f g = refl

-- Where the identifiers have at most the digits that `itoa` has room for, the text of a topic is
-- written if it fits the buffer with its final zero; if it does not fit, the write is a fault.
pub serialize_topic_lem :
    (size : ℕ) (topic : Topic)
    → Fits topic.object_id
    → Fits topic.instance_id
    → Fits topic.resource_id
    → serialize_topic size topic ≡ into_buffer size (topic_text topic)
unfolding serialize_topic topic_text
serialize_topic_lem size topic o i r =
    bind_assoc (into_buffer size (topic_head topic)) (append_id size topic.object_id) _
    ∙ rw (append_id-into_buffer size topic.object_id (topic_head topic) o) (
        bind_assoc _ (append_id size topic.instance_id) (append_id size topic.resource_id)
        ∙ rw
            (append_id-into_buffer size topic.instance_id
              (topic_head topic ++ id_text topic.object_id) i)
            (append_id-into_buffer size topic.resource_id
              ((topic_head topic ++ id_text topic.object_id) ++ id_text topic.instance_id) r))

-- The words of a topic's text.
abbrev names : Topic → List (List ℕ)
names topic = topic.operation ∷ topic.type ∷ topic.token ∷ topic.client_id ∷ topic.server_id ∷ []

abbrev topic_words : Topic → List (List ℕ)
topic_words topic =
    codes "lynx"
    ∷ (((names topic ++ id_words topic.object_id) ++ id_words topic.instance_id)
        ++ id_words topic.resource_id)

-- An identifier is defined only below one that is, and the names are words.
pub record IsTopic (topic : Topic) : Type 0 where
  pub operation : Word b'/' topic.operation
  pub type : Word b'/' topic.type
  pub token : Word b'/' topic.token
  pub client_id : Word b'/' topic.client_id
  pub server_id : Word b'/' topic.server_id
  pub object_fits : Fits topic.object_id
  pub instance_fits : Fits topic.instance_id
  pub resource_fits : Fits topic.resource_id
  pub object_first : (topic.object_id ≡ negsuc 0) → topic.instance_id ≡ negsuc 0
  pub instance_first : (topic.instance_id ≡ negsuc 0) → topic.resource_id ≡ negsuc 0

id_words-parse :
    (o i r : ℤ)
    → (o ≡ negsuc 0 → i ≡ negsuc 0)
    → (i ≡ negsuc 0 → r ≡ negsuc 0)
    → parse_ids ((id_words o ++ id_words i) ++ id_words r) ≡ (o, i, r)
unfolding parse_ids
id_words-parse o i r ho hi = ground (
  arith,
  atoi-print_int o,
  atoi-print_int i,
  atoi-print_int r,
  ==ℤ_iff o (negsuc 0),
  ==ℤ_iff i (negsuc 0),
  ==ℤ_iff r (negsuc 0),
)

join_id :
    (w : List ℕ) (ws : List (List ℕ)) (id : ℤ)
    → (join b'/' (w ∷ ws) ++ id_text id) ≡ join b'/' ((w ∷ ws) ++ id_words id)
unfolding join
join_id w [] id = elim (Bool-cases (id ==ℤ negsuc 0)) [
  | inl hit ↦ rw (hit, append-nil) refl
  | inr miss ↦ rw miss refl
]
join_id w (v ∷ ws) id =
    append_assoc w (b'/' ∷ join b'/' (v ∷ ws)) (id_text id)
    ∙ ap (λ t. w ++ b'/' ∷ t) (join_id v ws id)

head_join : (topic : Topic) → topic_head topic ≡ join b'/' (codes "lynx" ∷ names topic)
unfolding join topic_head
head_join topic = refl

topic_text-join : (topic : Topic) → topic_text topic ≡ join b'/' (topic_words topic)
unfolding topic_text
topic_text-join topic =
    let o = topic.object_id in
    let i = topic.instance_id in
    let r = topic.resource_id in
    ap (λ h. ((h ++ id_text o) ++ id_text i) ++ id_text r) (head_join topic)
    ∙ ap (λ h. (h ++ id_text i) ++ id_text r) (join_id (codes "lynx") (names topic) o)
    ∙ ap (λ h. h ++ id_text r) (join_id (codes "lynx") (names topic ++ id_words o) i)
    ∙ join_id (codes "lynx") ((names topic ++ id_words o) ++ id_words i) r

id_words-Word : (id : ℤ) → All (Word b'/') (id_words id)
id_words-Word id = elim (Bool-cases (id ==ℤ negsuc 0)) [
  | inl hit ↦ rw hit tt
  | inr miss ↦ rw miss (print_int-Word id, tt)
]

All-append : {A : Type 0} (P : A → Type 0) (xs ys : List A) → All P xs → All P ys → All P (xs ++ ys)
All-append P [] ys h k = k
All-append P (x ∷ xs) ys (h, hs) k = (h, All-append P xs ys hs k)

ids-Word : (o i r : ℤ) → All (Word b'/') ((id_words o ++ id_words i) ++ id_words r)
ids-Word o i r =
    All-append (Word b'/') (id_words o ++ id_words i) (id_words r)
      (All-append (Word b'/') (id_words o) (id_words i) (id_words-Word o) (id_words-Word i))
      (id_words-Word r)

topic_words-Word : (topic : Topic) → IsTopic topic → All (Word b'/') (topic_words topic)
topic_words-Word topic v =
    let ids = ids-Word topic.object_id topic.instance_id topic.resource_id in
    (
      (refl, (refl, (refl, (refl, tt)))),
      (v.operation, (v.type, (v.token, (v.client_id, (v.server_id, ids))))),
    )

parse_words :
    (topic : Topic) (s : List ℕ)
    → IsTopic topic
    → strtok_all b'/' s ≡ topic_words topic
    → parse_topic s ≡ ok topic
unfolding parse_topic
parse_words topic s v e =
    rw
      (
        e,
        id_words-parse topic.object_id topic.instance_id topic.resource_id v.object_first
            v.instance_first,
      )
      refl

into_buffer_fits : (size : ℕ) (s : List ℕ) → length s < size → into_buffer size s ≡ ok s
unfolding into_buffer
into_buffer_fits size s h = ground arith

-- Where the names of a topic are words without a slash, an identifier is undefined below one that is,
-- and each is small enough for `itoa`: the text that `serialize_topic` writes to a buffer that has
-- room for it is read back by `parse_topic` to the same topic.
pub parse_topic-serialize_topic :
    (size : ℕ) (topic : Topic)
    → IsTopic topic
    → length (topic_text topic) < size
    → (message : List ℕ) × (serialize_topic size topic ≡ ok message)
      × (parse_topic message ≡ ok topic)
parse_topic-serialize_topic size topic v room = (
  topic_text topic,
  serialize_topic_lem size topic v.object_fits v.instance_fits v.resource_fits
      ∙ into_buffer_fits size (topic_text topic) room,
  parse_words topic (topic_text topic) v (
      ap (strtok_all b'/') (topic_text-join topic)
      ∙ strtok_all-join b'/' (topic_words topic) (topic_words-Word topic v)),
)
