-- ===== src/Tlv/Parse.antt =====
-- lwm2m_parser_deserialize.c: `parse_multiple_resource`, `parse_resource`, `parse_instance` and
-- `parse_object`. A payload is the memory that can be read, with positions in it for pointers.
pub mod Endless
pub mod RoundTrip
use lynx_lwm2m.Base.{
  ℕ, zero, suc, ◌+◌, ◌-◌, ◌==◌, Bool, true, false, Option, none, some, List, [], ◌∷◌, if◌then◌else◌,
  ℤ, pos, negsuc, ◌+ℤ◌, ltb_ℤ, length, get_elem?, drop, Run, ok, fault, out_of_fuel, ◌>>=◌, deref,
}
use lynx_lwm2m.Items.{Items, list_new, ladd}
use lynx_lwm2m.Model.{Cell, Resource, Instance, Object, Attributes, TaskPtr}
use lynx_lwm2m.Cell.{set_value}
use lynx_lwm2m.Libc.{Libc}
use lynx_lwm2m.Tlv.Header.{TlvHeader, multiple_resource, type_bits, parse_tlv_header}
use lynx_lwm2m.Tlv.Value.{parse_value_text, parse_value}

-- A position from an integer: an address before the payload is a fault.
unfoldable pub address : ℤ → Run ℕ
address (pos n) = ok n
address (negsuc n) = fault

-- A copy of the definition with the index; an index out of range is a fault.
unfoldable pub create_resource : Object → ℤ → Run Resource
unfolding address
create_resource object resource_id = do
  i ← address resource_id
  deref (get_elem? object.resource_def i)

-- `parse_tlv_header` at a position: the header and the position behind it.
unfoldable pub header_at : List ℕ → ℕ → Run (TlvHeader × ℕ)
header_at memory curr = do
  (header, rest) ← parse_tlv_header (drop curr memory)
  ok (header, length memory - length rest)

module _ (c : Libc) where
  -- The instance that one round of `parse_multiple_resource` reads, and the position behind it.
  unfoldable pub parse_resource_instance : Object → ℤ → List ℕ → ℕ → Run (Cell × ℕ)
  unfolding create_resource address header_at
  parse_resource_instance object resource_id memory curr = do
    (header, curr) ← header_at memory curr
    definition ← create_resource object resource_id
    value ← parse_value c (drop curr memory) header.length definition.kind
    (instance', _) ←
        set_value (record (definition.cell) { id = header.id; parsed = true }) (some value)
          header.length
    next ← address (pos curr +ℤ header.length)
    ok (instance', next)

  unfoldable pub parse_multiple_loop :
      ℕ → Object → ℤ → List ℕ → (limit : ℤ) → (curr : ℕ) → Items Cell → Run (Items Cell)
  parse_multiple_loop zero object resource_id memory limit curr resources = out_of_fuel
  parse_multiple_loop (suc fuel) object resource_id memory limit curr resources =
      elim (ltb_ℤ (pos curr) limit) [
        | false ↦ ok resources
        | true ↦ do
          (instance', next) ← parse_resource_instance object resource_id memory curr
          parse_multiple_loop fuel object resource_id memory limit next
              (ladd resources instance'.id instance')
      ]

  unfoldable pub parse_multiple_resource : ℕ → Object → ℤ → List ℕ → ℕ → ℤ → Run (Items Cell)
  unfolding parse_multiple_loop
  parse_multiple_resource fuel object resource_id memory message message_len =
      parse_multiple_loop fuel object resource_id memory (pos message +ℤ message_len) message
        list_new

  unfoldable pub parse_resource : ℕ → Object → ℤ → List ℕ → ℤ → Run Resource
  unfolding create_resource parse_multiple_resource
  parse_resource fuel object resource_id message message_len = do
    resource ← create_resource object resource_id
    if resource.multiple
        then (do
          instances ← parse_multiple_resource fuel object resource_id message 0 message_len
          ok (record resource { instances = some instances }))
        else (do
          value ← parse_value_text c message message_len resource.kind
          (cell, _) ← set_value (resource.cell) (some value) message_len
          ok (record resource { cell = cell }))

  -- The resource that one round of `parse_instance` reads, and the position behind it.
  unfoldable pub parse_instance_resource : ℕ → Object → List ℕ → ℕ → Run (Resource × ℕ)
  unfolding create_resource parse_multiple_resource address header_at
  parse_instance_resource fuel object memory curr = do
    (header, curr) ← header_at memory curr
    resource ← create_resource object header.id
    parsed ←
        if header.type == type_bits multiple_resource
        then (do
          instances ← parse_multiple_resource fuel object resource.id memory curr header.length
          ok (record resource { instances = some instances; multiple = true }))
        else (do
          value ← parse_value c (drop curr memory) header.length resource.kind
          (cell, _) ← set_value (resource.cell) (some value) header.length
          ok (record resource { cell = cell }))
    next ← address (pos curr +ℤ header.length)
    ok (parsed, next)

  unfoldable pub parse_instance_loop :
      ℕ → Object → List ℕ → (limit : ℤ) → (curr : ℕ) → Items Resource → Run (Items Resource)
  parse_instance_loop zero object memory limit curr resources = out_of_fuel
  parse_instance_loop (suc fuel) object memory limit curr resources =
      elim (ltb_ℤ (pos curr) limit) [
        | false ↦ ok resources
        | true ↦ do
          (resource, next) ← parse_instance_resource fuel object memory curr
          parse_instance_loop fuel object memory limit next (ladd resources resource.id resource)
      ]

  unfoldable pub parse_instance : ℕ → Object → List ℕ → ℕ → ℤ → Run (Items Resource)
  unfolding parse_instance_loop
  parse_instance fuel object memory message message_len =
      parse_instance_loop fuel object memory (pos message +ℤ message_len) message list_new

  -- Of a parsed instance only the identifier and the resources are set.
  abbrev parsed_instance : ℤ → Items Resource → Instance
  parsed_instance id resources = record {
    id = id;
    resources = resources;
    attributes = list_new;
    observers = list_new;
  }

  parse_object_loop :
      ℕ → Object → List ℕ → (limit : ℤ) → (curr : ℕ) → Items Instance → Run (Items Instance)
  unfolding parse_instance
  parse_object_loop zero object memory limit curr instances = out_of_fuel
  parse_object_loop (suc fuel) object memory limit curr instances = elim (ltb_ℤ (pos curr) limit) [
    | false ↦ ok instances
    | true ↦ do
      (header, curr) ← header_at memory curr
      resources ← parse_instance fuel object memory curr header.length
      next ← address (pos curr +ℤ header.length)
      parse_object_loop fuel object memory limit next
          (ladd instances header.id (parsed_instance header.id resources))
  ]

  unfoldable pub parse_object : ℕ → Object → List ℕ → ℤ → Run (Items Instance)
  unfolding parse_object_loop
  parse_object fuel object memory message_len =
      parse_object_loop fuel object memory message_len 0 list_new
