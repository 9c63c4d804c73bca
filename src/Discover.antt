-- ===== src/Discover.antt =====
-- lwm2m_parser_serialize_discover.c, and the discover operations of lwm2m_attribute.c. Every text is
-- first written to a `buffer` of 10 bytes; the message has 500.
pub mod Bounds
use Prim.Native.String.{String}
use lynx_lwm2m.Base.{
  ℕ, zero, suc, Option, none, some, List, [], ◌∷◌, ◌++◌, length, ℤ, pos, Run, ok, ◌>>=◌,
}
use lynx_lwm2m.Model.{Resource, Instance, Object, Server, Context, Response, code_changed}
use lynx_lwm2m.Libc.{Libc}
use lynx_lwm2m.Text.{codes, print_int, into_buffer}
use lynx_lwm2m.Attribute.{
  get_object_pmin, get_object_pmax, get_instance_pmin, get_instance_pmax, get_resource_pmin,
  get_resource_pmax, get_resource_dim, get_resource_gt, get_resource_lt, get_resource_stp,
}

-- `sprintf(buffer, ...); strcat(message, buffer);` with `separator` in front.
unfoldable pub append_buffer : (separator text message : List ℕ) → Run (List ℕ)
unfolding into_buffer
append_buffer separator text message = do
  buffer ← into_buffer 10 text
  into_buffer 500 (message ++ (separator ++ buffer))

-- `if (attr != NULL) { sprintf(buffer, ";name=%d", *attr); strcat(message, buffer); }`
unfoldable pub append_int : String → Option ℤ → List ℕ → Run (List ℕ)
unfolding append_buffer print_int
append_int name none message = ok message
append_int name (some n) message = append_buffer [] (codes name ++ print_int n) message

-- "<%d/%d/%d>"
unfoldable pub resource_link : (object_id instance_id resource_id : ℤ) → List ℕ
unfolding print_int
resource_link object_id instance_id resource_id =
    b'<' ∷ print_int object_id
    ++ b'/' ∷ print_int instance_id
    ++ b'/' ∷ print_int resource_id
    ++ b'>' ∷ []

unfoldable pub append_object_attr : Context → Server → Object → ℕ → List ℕ → Run (List ℕ)
unfolding append_int
append_object_attr context server object lookup message = do
  pmin ← get_object_pmin context server object lookup
  message ← append_int ";pmin=" pmin message
  pmax ← get_object_pmax context server object lookup
  append_int ";pmax=" pmax message

unfoldable pub append_instance_attr :
    Context → Server → Object → Instance → ℕ → List ℕ → Run (List ℕ)
unfolding append_int
append_instance_attr context server object i lookup message = do
  pmin ← get_instance_pmin context server object i lookup
  message ← append_int ";pmin=" pmin message
  pmax ← get_instance_pmax context server object i lookup
  append_int ";pmax=" pmax message

-- The loop over `resource_def`: the identifier is the place in the array.
append_definitions : (object_id : ℤ) → List Resource → (id : ℕ) → List ℕ → Run (List ℕ)
unfolding append_buffer resource_link
append_definitions object_id [] id message = ok message
append_definitions object_id (r ∷ next) id message = do
  message ← append_buffer (b',' ∷ []) (resource_link object_id (pos 0) (pos id)) message
  append_definitions object_id next (suc id) message

unfoldable pub serialize_object_discover : Context → Server → Object → Run (List ℕ)
unfolding append_object_attr append_definitions
serialize_object_discover context server object = do
  message ← into_buffer 500 (b'<' ∷ print_int object.id ++ codes "/>")
  message ← append_object_attr context server object 0 message
  append_definitions object.id object.resource_def 0 message

-- A response with a text.
abbrev discover_response : List ℕ → Response
discover_response payload = record {
  content_type = 1;
  response_code = code_changed;
  payload = payload;
}

-- No access is checked.
unfoldable pub on_object_discover : Context → Server → Object → Run (Context × Response)
unfolding serialize_object_discover
on_object_discover context server object = do
  payload ← serialize_object_discover context server object
  ok (context, discover_response payload)

module _ (c : Libc) where
  open c use {print_float}

  unfoldable pub append_float : String → Option ℕ → List ℕ → Run (List ℕ)
  unfolding append_buffer
  append_float name none message = ok message
  append_float name (some f) message = append_buffer [] (codes name ++ print_float f) message

  unfoldable pub append_resource_attr :
      Context → Server → Object → Instance → Resource → ℕ → List ℕ → Run (List ℕ)
  unfolding append_int append_float
  append_resource_attr context server object i resource lookup message = do
    message ← append_int ";dim=" (get_resource_dim server resource) message
    message ← append_float ";gt=" (get_resource_gt server resource) message
    message ← append_float ";lt=" (get_resource_lt server resource) message
    message ← append_float ";stp=" (get_resource_stp server resource) message
    pmin ← get_resource_pmin context server object i resource lookup
    message ← append_int ";pmin=" pmin message
    pmax ← get_resource_pmax context server object i resource lookup
    append_int ";pmax=" pmax message

  append_resources :
      Context → Server → Object → Instance → List (ℤ × Resource) → List ℕ → Run (List ℕ)
  unfolding append_buffer resource_link append_resource_attr
  append_resources context server object i [] message = ok message
  append_resources context server object i ((key, resource) ∷ next) message = do
    message ← append_buffer (b',' ∷ []) (resource_link object.id i.id resource.id) message
    message ← append_resource_attr context server object i resource 0 message
    append_resources context server object i next message

  unfoldable pub serialize_instance_discover : Context → Server → Object → Instance → Run (List ℕ)
  unfolding append_instance_attr append_resources
  serialize_instance_discover context server object i = do
    message ← into_buffer 500 (b'<' ∷ print_int object.id ++ b'/' ∷ print_int i.id ++ b'>' ∷ [])
    message ← append_instance_attr context server object i 0 message
    append_resources context server object i i.resources.first message

  unfoldable pub serialize_resource_discover :
      Context → Server → Object → Instance → Resource → Run (List ℕ)
  unfolding resource_link append_resource_attr
  serialize_resource_discover context server object i resource = do
    message ← into_buffer 500 (resource_link object.id i.id resource.id)
    append_resource_attr context server object i resource 1 message

  unfoldable pub on_instance_discover :
      Context → Server → Object → Instance → Run (Context × Response)
  unfolding serialize_instance_discover
  on_instance_discover context server object i = do
    payload ← serialize_instance_discover context server object i
    ok (context, discover_response payload)

  unfoldable pub on_resource_discover :
      Context → Server → Object → Instance → Resource → Run (Context × Response)
  unfolding serialize_resource_discover
  on_resource_discover context server object i resource = do
    payload ← serialize_resource_discover context server object i resource
    ok (context, discover_response payload)
