-- ===== src/Attribute.antt =====
-- lwm2m_attribute.c and `parse_attributes` of lwm2m_parser_deserialize.c.
pub mod Levels
pub mod Periods
use lynx_lwm2m.Base.{
  ℕ, zero, suc, ◌<◌, Bool, true, false, ◌&&◌, Option, none, some, List, [], ◌∷◌, if◌then◌else◌, ltb,
  ◌==◌, ℤ, pos, length, Run, ok, fault, ◌>>=◌, deref,
}
use lynx_lwm2m.Items.{Items, ladd, lfind, store}
use lynx_lwm2m.Model.{Value, Attributes, Resource, Instance, Object, Server, Context}
use lynx_lwm2m.Cell.{as_int, read_string}
use lynx_lwm2m.Libc.{Libc}
use lynx_lwm2m.Text.{atoi, same_text, strtok_all}

abbrev pub empty_attr : Attributes
empty_attr = record { pmin = none; pmax = none; gt = none; lt = none; stp = none; dim = none }

-- LOOKUP_FULL
abbrev pub lookup_full : ℕ
lookup_full = 2

-- `attr == NULL ? NULL : attr->field`
abbrev pub field_of {ℓ} : {A : Type ℓ} → (Attributes → Option A) → Option Attributes → Option A
field_of field none = none
field_of field (some attr) = field attr

abbrev is_none {ℓ} : {A : Type ℓ} → Option A → Bool
is_none none = true
is_none (some a) = false

-- `server->server_instance`, which points into the object tree.
unfoldable pub server_instance_of : Context → Server → Run Instance
server_instance_of context server = do
  server_object ← deref (lfind context.object_tree (pos 1))
  deref (lfind server_object.instances server.server_instance)

-- The value of a resource of the server's instance as an `int *`.
unfoldable pub get_default : ℤ → Context → Server → Run (Option ℤ)
unfolding server_instance_of
get_default resource_id context server = do
  server_instance ← server_instance_of context server
  resource ← deref (lfind server_instance.resources resource_id)
  int_pointer resource.value
  where
    int_pointer : Option Value → Run (Option ℤ)
    int_pointer none = ok none
    int_pointer (some value) = do n ← as_int value; ok (some n)

unfoldable pub get_default_pmin : Context → Server → Run (Option ℤ)
unfolding get_default
get_default_pmin = get_default (pos 2)

unfoldable pub get_default_pmax : Context → Server → Run (Option ℤ)
unfolding get_default
get_default_pmax = get_default (pos 3)

-- The attribute that is read here is `pmax`, as in the source.
unfoldable pub get_object_pmin : Context → Server → Object → ℕ → Run (Option ℤ)
unfolding get_default_pmin
get_object_pmin context server object lookup =
    let pmin = field_of (λ attr. attr.pmax) (lfind object.attributes server.short_server_id) in
    if is_none pmin && lookup == 2 then get_default_pmin context server else ok pmin

unfoldable pub get_object_pmax : Context → Server → Object → ℕ → Run (Option ℤ)
unfolding get_default_pmax
get_object_pmax context server object lookup =
    let pmax = field_of (λ attr. attr.pmax) (lfind object.attributes server.short_server_id) in
    if is_none pmax && lookup == 2 then get_default_pmax context server else ok pmax

unfoldable pub get_instance_pmin : Context → Server → Object → Instance → ℕ → Run (Option ℤ)
unfolding get_object_pmin
get_instance_pmin context server object i lookup =
    let pmin = field_of (λ attr. attr.pmin) (lfind i.attributes server.short_server_id) in
    if is_none pmin && ltb 0 lookup then get_object_pmin context server object lookup else ok pmin

unfoldable pub get_instance_pmax : Context → Server → Object → Instance → ℕ → Run (Option ℤ)
unfolding get_object_pmax
get_instance_pmax context server object i lookup =
    let pmax = field_of (λ attr. attr.pmax) (lfind i.attributes server.short_server_id) in
    if is_none pmax && ltb 0 lookup then get_object_pmax context server object lookup else ok pmax

unfoldable pub get_resource_pmin :
    Context → Server → Object → Instance → Resource → ℕ → Run (Option ℤ)
unfolding get_instance_pmin
get_resource_pmin context server object i resource lookup =
    let pmin = field_of (λ attr. attr.pmin) (lfind resource.attributes server.short_server_id) in
    if is_none pmin && ltb 0 lookup
    then get_instance_pmin context server object i lookup
    else ok pmin

unfoldable pub get_resource_pmax :
    Context → Server → Object → Instance → Resource → ℕ → Run (Option ℤ)
unfolding get_instance_pmax
get_resource_pmax context server object i resource lookup =
    let pmax = field_of (λ attr. attr.pmax) (lfind resource.attributes server.short_server_id) in
    if is_none pmax && ltb 0 lookup
    then get_instance_pmax context server object i lookup
    else ok pmax

unfoldable pub get_resource_dim : Server → Resource → Option ℤ
get_resource_dim server resource =
    field_of (λ attr. attr.dim) (lfind resource.attributes server.short_server_id)

unfoldable pub get_resource_gt : Server → Resource → Option ℕ
get_resource_gt server resource =
    field_of (λ attr. attr.gt) (lfind resource.attributes server.short_server_id)

unfoldable pub get_resource_lt : Server → Resource → Option ℕ
get_resource_lt server resource =
    field_of (λ attr. attr.lt) (lfind resource.attributes server.short_server_id)

unfoldable pub get_resource_stp : Server → Resource → Option ℕ
get_resource_stp server resource =
    field_of (λ attr. attr.stp) (lfind resource.attributes server.short_server_id)

-- `if (new != NULL) old = new`
abbrev override {ℓ} : {A : Type ℓ} → Option A → Option A → Option A
override old none = old
override old (some a) = some a

unfoldable pub merge_attributes : Attributes → Attributes → Attributes
merge_attributes old_attr new_attr = record {
  pmin = override old_attr.pmin new_attr.pmin;
  pmax = override old_attr.pmax new_attr.pmax;
  gt = override old_attr.gt new_attr.gt;
  lt = override old_attr.lt new_attr.lt;
  stp = override old_attr.stp new_attr.stp;
  dim = override old_attr.dim new_attr.dim;
}

-- The state of the loop over `elems`: the attributes, `buf`, and the tokens that `strtok` has left.
abbrev Parsing : Type 0
Parsing = Attributes × List ℕ × List (List ℕ)

-- `if (!strcmp(buf, name)) { buf = strtok(NULL, "="); ... }`; NULL is read by the conversion.
attribute_test : List ℕ → (List ℕ → Attributes → Attributes) → Parsing → Run Parsing
unfolding same_text
attribute_test name set (attributes, buf, rest) =
    if same_text buf name then take_value rest else ok (attributes, buf, rest)
  where
    take_value : List (List ℕ) → Run Parsing
    take_value [] = fault
    take_value (value ∷ rest) = ok (set value attributes, value, rest)

module _ (c : Libc) where
  open c use {atof_float}

  -- The names, from "dim" to "stp", in bytes.
  unfoldable pub parse_element : Attributes → List (List ℕ) → Run Attributes
  unfolding attribute_test
  parse_element attributes [] = fault
  parse_element attributes (buf ∷ rest) = do
    p ←
        attribute_test (b'd' ∷ b'i' ∷ b'm' ∷ []) (λ v a. record a { dim = some (atoi v) })
          (attributes, buf, rest)
    p ← attribute_test (b'p' ∷ b'm' ∷ b'a' ∷ b'x' ∷ []) (λ v a. record a { pmax = some (atoi v) }) p
    p ← attribute_test (b'p' ∷ b'm' ∷ b'i' ∷ b'n' ∷ []) (λ v a. record a { pmin = some (atoi v) }) p
    p ← attribute_test (b'g' ∷ b't' ∷ []) (λ v a. record a { gt = some (atof_float v) }) p
    p ← attribute_test (b'l' ∷ b't' ∷ []) (λ v a. record a { lt = some (atof_float v) }) p
    p ← attribute_test (b's' ∷ b't' ∷ b'p' ∷ []) (λ v a. record a { stp = some (atof_float v) }) p
    ok p.0

  unfoldable pub parse_elements : List (List ℕ) → Attributes → Run Attributes
  unfolding parse_element
  parse_elements [] attributes = ok attributes
  parse_elements (elem ∷ next) attributes = do
    attributes ← parse_element attributes (strtok_all b'=' elem)
    parse_elements next attributes

  -- `elems` has six places. `strtok` reads the message up to a zero byte.
  unfoldable pub parse_attributes : Attributes → List ℕ → Run Attributes
  unfolding parse_elements
  parse_attributes attributes message = do
    text ← read_string message
    let elems = strtok_all b'&' text
    if ltb 6 (length elems) then fault else parse_elements elems attributes

  -- The attributes of one server in `attributes`, made if they are not there, merged with the payload.
  unfoldable pub write_attributes : Server → Items Attributes → List ℕ → Run (Items Attributes)
  unfolding parse_attributes merge_attributes
  write_attributes server attributes payload =
      let key = server.short_server_id in
      let attributes' =
        if is_none (lfind attributes key) then ladd attributes key empty_attr else attributes in
      do
        new_attr ← parse_attributes empty_attr payload
        old_attr ← deref (lfind attributes' key)
        ok (store attributes' key (merge_attributes old_attr new_attr))

  unfoldable pub on_resource_write_attributes : Server → Resource → List ℕ → Run Resource
  unfolding write_attributes
  on_resource_write_attributes server resource payload = do
    attributes ← write_attributes server resource.attributes payload
    ok (record resource { attributes = attributes })

  unfoldable pub on_instance_write_attributes : Server → Instance → List ℕ → Run Instance
  unfolding write_attributes
  on_instance_write_attributes server i payload = do
    attributes ← write_attributes server i.attributes payload
    ok (record i { attributes = attributes })

  unfoldable pub on_object_write_attributes : Server → Object → List ℕ → Run Object
  unfolding write_attributes
  on_object_write_attributes server object payload = do
    attributes ← write_attributes server object.attributes payload
    ok (record object { attributes = attributes })
