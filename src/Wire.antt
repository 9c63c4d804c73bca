-- ===== src/Wire.antt =====
-- lwm2m_transport.c and lwm2m_transport_mqtt.c: the texts of topics and the bytes of messages.
pub mod Topics
pub mod Messages
use lynx_lwm2m.Base.{
  ℕ, suc, ◌+◌, ◌-◌, ◌%◌, ◌≤◌, Bool, true, false, not, ◌&&◌, Option, none, some, List, [], ◌∷◌, ◌++◌,
  if◌then◌else◌, ◌==◌, ltb, bit_and, ℤ, pos, negsuc, ◌==ℤ◌, length, drop, Run, ok, fault, ◌>>=◌,
  deref,
}
use lynx_lwm2m.Items.{Items, list_new, ladd}
use lynx_lwm2m.Model.{ExecuteParam, Response}
use lynx_lwm2m.Libc.{Libc}
use lynx_lwm2m.Cell.{c_string, read_string}
use lynx_lwm2m.Text.{codes, itoa, atoi, strtok_all, into_buffer}

-- lwm2m_topic: an identifier is -1 when undefined.
pub record Topic : Type 0 where
  pub operation : List ℕ
  pub type : List ℕ
  pub client_id : List ℕ
  pub server_id : List ℕ
  pub token : List ℕ
  pub object_id : ℤ
  pub instance_id : ℤ
  pub resource_id : ℤ

-- lwm2m_request; the payload is as long as `payload_len` says.
pub record Request : Type 0 where
  pub content_type : ℕ
  pub payload : List ℕ

-- lwm2m_register_request
pub record RegisterRequest : Type 0 where
  pub content_type : ℕ
  pub header : List ℕ
  pub payload : List ℕ

-- `if (id != -1) { strcat(message, "/"); strcat(message, itoa(id)); }`
unfoldable pub append_id : (size : ℕ) → ℤ → List ℕ → Run (List ℕ)
unfolding itoa into_buffer
append_id size id message =
    if id ==ℤ negsuc 0
    then ok message
    else (do text ← itoa id; into_buffer size (message ++ b'/' ∷ text))

-- `sprintf(message, "lynx/%s/%s/%s/%s/%s", ...)`
unfoldable pub topic_head : Topic → List ℕ
topic_head topic =
    codes "lynx/"
    ++ (topic.operation
        ++ b'/'
          ∷ (topic.type
              ++ b'/' ∷ (topic.token ++ b'/' ∷ (topic.client_id ++ b'/' ∷ topic.server_id))))

-- `size` is the length of the caller's buffer.
unfoldable pub serialize_topic : (size : ℕ) → Topic → Run (List ℕ)
unfolding append_id topic_head into_buffer
serialize_topic size topic = do
  message ← into_buffer size (topic_head topic)
  message ← append_id size topic.object_id message
  message ← append_id size topic.instance_id message
  append_id size topic.resource_id message

-- The three `atoi` at the end of `parse_topic`: object, instance and resource.
unfoldable pub parse_ids : List (List ℕ) → ℤ × ℤ × ℤ
parse_ids [] = (negsuc 0, negsuc 0, negsuc 0)
parse_ids (o ∷ []) = (atoi o, negsuc 0, negsuc 0)
parse_ids (o ∷ i ∷ []) = (atoi o, atoi i, negsuc 0)
parse_ids (o ∷ i ∷ r ∷ rest) = (atoi o, atoi i, atoi r)

-- The tokens of `parse_topic`: a missing one before the identifiers is NULL, which is read.
parse_tokens : List (List ℕ) → Run Topic
unfolding parse_ids
parse_tokens (lynx ∷ operation ∷ type ∷ token ∷ client_id ∷ server_id ∷ ids) =
    let (object_id, instance_id, resource_id) = parse_ids ids in
    ok (record {
      operation = operation;
      type = type;
      client_id = client_id;
      server_id = server_id;
      token = token;
      object_id = object_id;
      instance_id = instance_id;
      resource_id = resource_id;
    })
parse_tokens _ = fault

unfoldable pub parse_topic : List ℕ → Run Topic
unfolding parse_tokens strtok_all
parse_topic topic_string = parse_tokens (strtok_all b'/' topic_string)

-- An empty message has no first byte.
unfoldable pub parse_request : List ℕ → Run Request
parse_request [] = fault
parse_request (b ∷ rest) = ok (record { content_type = bit_and b 7; payload = rest })

-- `payload + 1`: the byte of the response code is still the first one of the payload.
unfoldable pub parse_response : List ℕ → Run Response
parse_response (b ∷ code ∷ rest) = ok (record {
  content_type = bit_and b 7;
  response_code = (if bit_and code 128 == 0 then 200 else 400) + bit_and code 127;
  payload = code ∷ rest;
})
parse_response _ = fault

-- The buffer of the message has 5000 bytes. `response_code / 100 == 200` holds from 20000 on only,
-- where bit 7 of a byte that is 0 is kept.
unfoldable pub serialize_response : Response → Run (List ℕ)
serialize_response response =
    let message = response.content_type % 256 ∷ response.response_code % 100 ∷ response.payload in
    if ltb 5000 (length message) then fault else ok message

-- The length of the message is that of the payload up to its first zero byte. The bytes after the
-- copied payload, up to the first zero one, are what the buffer held before: `stale`.
unfoldable pub serialize_request : (stale : List ℕ) → Request → Run (List ℕ)
serialize_request stale request =
    if ltb 5000 (suc (length request.payload))
    then fault
    else ok (request.content_type % 256 ∷ c_string (request.payload ++ stale))

unfoldable pub serialize_register_request : RegisterRequest → Run (List ℕ)
unfolding into_buffer
serialize_register_request request = do
  text ← into_buffer 4999 (request.header ++ b'?' ∷ request.payload)
  ok (request.content_type % 256 ∷ text)

unfoldable pub param_new : ExecuteParam
param_new = record { key = negsuc 0; int_value = none; float_value = none; string_value = none }

-- `strchr(buf, byte) != NULL`
unfoldable pub has_byte : ℕ → List ℕ → Bool
has_byte byte [] = false
has_byte byte (b ∷ s) = if b == byte then true else has_byte byte s

unfoldable pub last_byte : List ℕ → ℕ
last_byte [] = 0
last_byte (b ∷ []) = b
last_byte (b ∷ c ∷ s) = last_byte (c ∷ s)

-- A text without its last byte.
unfoldable pub but_last : List ℕ → List ℕ
but_last [] = []
but_last (b ∷ []) = []
but_last (b ∷ c ∷ s) = b ∷ but_last (c ∷ s)

-- A text in quotes is a string; a single quote alone has no room for both, and the copy of -1 bytes
-- is a fault.
unfoldable pub quoted : List ℕ → Bool
unfolding last_byte
quoted [] = false
quoted (b ∷ s) = b == b'\'' && (last_byte (b ∷ s) == b'\'')

module _ (c : Libc) where
  open c use {atof_float}

  unfoldable pub set_param : List ℕ → ExecuteParam → Run ExecuteParam
  unfolding quoted has_byte but_last
  set_param buf param =
      if quoted buf
      then (if ltb (length buf) 2
          then fault
          else ok (record param { string_value = some (but_last (drop 1 buf)) }))
      else if has_byte b'.' buf
      then ok (record param { float_value = some (atof_float buf) })
      else ok (record param { int_value = some (atoi buf) })

  -- The two calls of `strtok` with "=": where one finds nothing, NULL is read.
  parse_arg : List (List ℕ) → Items ExecuteParam → Run (Items ExecuteParam)
  unfolding set_param param_new
  parse_arg (name ∷ value ∷ rest) args = do
    param ← set_param value (record param_new { key = atoi name })
    ok (ladd args param.key param)
  parse_arg _ args = fault

  parse_elems : List (List ℕ) → Items ExecuteParam → Run (Items ExecuteParam)
  unfolding parse_arg
  parse_elems [] args = ok args
  parse_elems (elem ∷ next) args = do
    args ← parse_arg (strtok_all b'=' elem) args
    parse_elems next args

  -- `elems` has ten places. `strtok` reads the payload up to a zero byte.
  unfoldable pub parse_args : Request → Run (Items ExecuteParam)
  unfolding parse_elems
  parse_args request =
      let text = read_string request.payload in
      if length request.payload == 0 then ok list_new else (do
        text ← text
        let elems = strtok_all b',' text
        if ltb 10 (length elems) then fault else parse_elems elems list_new)
