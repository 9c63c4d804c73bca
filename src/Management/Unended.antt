-- ===== src/Management/Unended.antt =====
-- lwm2m_device_management.c and lwm2m_parser_deserialize.c: a text that no zero byte ends.
use lynx_lwm2m.Base.{
  ℕ, ◌≡◌, refl, true, false, some, List, [], ◌∷◌, All, ◌==◌, arith, get_elem?, length, ℤ, pos, ok,
  fault,
}
use lynx_lwm2m.Model.{string, Resource, Server, Context, op_write}
use lynx_lwm2m.Libc.{Libc}
use lynx_lwm2m.Cell.{read_string, set_value}
use lynx_lwm2m.Tlv.Value.{parse_value_text}
use lynx_lwm2m.Tlv.Parse.{parse_resource, create_resource, address}
use lynx_lwm2m.AccessControl.{check_instance_access_control, check_resource_operation_supported}
use lynx_lwm2m.Object.Merge.{Place, find_place}
use lynx_lwm2m.Management.{lock_tree, on_resource_write}

read_string_unended : (s : List ℕ) → All (λ b. (b == 0) ≡ false) s → read_string s ≡ fault
unfolding read_string
read_string_unended [] h = refl
read_string_unended (b ∷ s) (h, hs) = rw (h, read_string_unended s hs) refl

module _ (c : Libc) (fuel : ℕ) (context c1 : Context) (server : Server) (o i : ℤ) (k : ℕ)
    (place : Place) (definition : Resource) (message : List ℕ) where
  parse_unended :
      get_elem? place.object.resource_def k ≡ some definition
      → definition.kind ≡ string
      → definition.multiple ≡ false
      → All (λ b. (b == 0) ≡ false) message
      → parse_resource c fuel place.object (pos k) message (pos (length message)) ≡ fault
  unfolding parse_resource create_resource address parse_value_text set_value
  parse_unended defined kind single unended =
      ground (arith, defined, kind, single, read_string_unended message unended)

  -- A write that is granted, to a single string resource that supports it, with a payload without a
  -- zero byte, empty or not: the text is read beyond the payload, a fault.
  pub on_resource_write-unended :
      (now : ℤ)
      → lock_tree context ≡ ok c1
      → find_place c1 o i (pos k) ≡ ok place
      → check_instance_access_control c1 server place.object place.instance' op_write ≡ ok true
      → check_resource_operation_supported place.resource op_write ≡ true
      → place.resource.id ≡ pos k
      → get_elem? place.object.resource_def k ≡ some definition
      → definition.kind ≡ string
      → definition.multiple ≡ false
      → All (λ b. (b == 0) ≡ false) message
      → on_resource_write c fuel now context server o i (pos k) message ≡ fault
  unfolding on_resource_write
  on_resource_write-unended now lock found granted supported id defined kind single unended =
      rw (lock, found, granted, supported, id, parse_unended defined kind single unended) refl
