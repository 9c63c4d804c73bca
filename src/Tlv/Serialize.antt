-- ===== src/Tlv/Serialize.antt =====
-- lwm2m_parser_serialize.c: `serialize_multiple_resource`, `serialize_instance` and
-- `serialize_object`. The buffers are taken to be large enough.
use lynx_lwm2m.Base.{ℕ, List, [], ◌∷◌, ◌++◌, if◌then◌else◌, ℤ, length, Run, ok, ◌>>=◌, deref}
use lynx_lwm2m.Items.{Items}
use lynx_lwm2m.Model.{Cell, Resource, Instance}
use lynx_lwm2m.Tlv.Header.{
  resource_instance, multiple_resource, resource, object_instance, serialize_header,
}
use lynx_lwm2m.Tlv.Value.{serialize_value}

unfoldable pub serialize_single_resource : Cell → Run (List ℕ)
serialize_single_resource cell = serialize_value cell

unfoldable pub multiple_elems : List (ℤ × Cell) → Run (List ℕ)
unfolding serialize_single_resource
multiple_elems [] = ok []
multiple_elems ((key, instance') ∷ next) = do
  value ← serialize_single_resource instance'
  rest ← multiple_elems next
  ok (serialize_header instance'.id resource_instance (length value) ++ (value ++ rest))

unfoldable pub serialize_multiple_resource : Items Cell → Run (List ℕ)
unfolding multiple_elems
serialize_multiple_resource resources = multiple_elems resources.first

-- The header and the value of one resource.
unfoldable pub serialize_element : Resource → Run (List ℕ)
unfolding serialize_multiple_resource serialize_single_resource
serialize_element r =
    if r.multiple
    then (do
      instances ← deref r.instances
      value ← serialize_multiple_resource instances
      ok (serialize_header r.id multiple_resource (length value) ++ value))
    else (do
      value ← serialize_single_resource (r.cell)
      ok (serialize_header r.id resource (length value) ++ value))

unfoldable pub instance_elems : List (ℤ × Resource) → Run (List ℕ)
unfolding serialize_element
instance_elems [] = ok []
instance_elems ((key, r) ∷ next) = do
  element ← serialize_element r
  rest ← instance_elems next
  ok (element ++ rest)

unfoldable pub serialize_instance : Items Resource → Run (List ℕ)
unfolding instance_elems
serialize_instance resources = instance_elems resources.first

unfoldable pub object_elems : List (ℤ × Instance) → Run (List ℕ)
unfolding serialize_instance
object_elems [] = ok []
object_elems ((key, i) ∷ next) = do
  value ← serialize_instance i.resources
  rest ← object_elems next
  ok (serialize_header i.id object_instance (length value) ++ (value ++ rest))

unfoldable pub serialize_object : Items Instance → Run (List ℕ)
unfolding object_elems
serialize_object instances = object_elems instances.first
