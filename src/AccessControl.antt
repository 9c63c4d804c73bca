-- ===== src/AccessControl.antt =====
-- lwm2m_access_control.c: who may do what with an instance, from the access control objects.
pub mod Decision
use lynx_lwm2m.Base.{
  ℕ, ◌<◌, ◌^◌, bit_and, Bool, true, false, not, ◌&&◌, Option, none, some, List, [], ◌∷◌,
  if◌then◌else◌, ltb, ◌==◌, ◌==ℤ◌, ℤ, pos, pattern_of, Run, ok, fault, ◌>>=◌, deref,
}
use lynx_lwm2m.Items.{Items, lfind}
use lynx_lwm2m.Model.{
  Value, Cell, Resource, Instance, Object, Server, Context, access_control_object_id, op_create,
}
use lynx_lwm2m.Cell.{as_int, follow}

-- The identifier that an access control instance for a whole object has.
abbrev pub max_id : ℤ
max_id = pos 66535

unfoldable pub aco_object : Context → Option Object
aco_object context = lfind context.object_tree access_control_object_id

-- `resource->value->int_value`
unfoldable pub int_of : Cell → Run ℤ
int_of cell = do cell ← follow cell; value ← deref cell.value; as_int value

-- `((lwm2m_resource *) lfind(instance->resources, id))->value->int_value`
unfoldable pub int_resource : Instance → ℤ → Run ℤ
unfolding int_of
int_resource i id = do resource ← deref (lfind i.resources id); int_of (resource.cell)

unfoldable pub find_aco : List (ℤ × Instance) → ℤ → ℤ → Run (Option Instance)
unfolding int_resource
find_aco [] object_id instance_id = ok none
find_aco ((key, aco_instance) ∷ next) object_id instance_id =
    let rest = find_aco next object_id instance_id in
    do
      o ← int_resource aco_instance (pos 0)
      i ← int_resource aco_instance (pos 1)
      if (o ==ℤ object_id) && (i ==ℤ instance_id) then ok (some aco_instance) else rest

unfoldable pub aco_for_instance : Context → Object → Instance → Run (Option Instance)
unfolding aco_object find_aco
aco_for_instance context object i = do
  aco ← deref (aco_object context)
  find_aco aco.instances.first object.id i.id

unfoldable pub aco_for_object : Context → Object → Run (Option Instance)
unfolding aco_object find_aco
aco_for_object context object = do
  aco ← deref (aco_object context)
  find_aco aco.instances.first object.id max_id

unfoldable pub get_access_control_owner : Context → Object → Instance → Run ℤ
unfolding aco_for_instance int_resource
get_access_control_owner context object i = do
  found ← aco_for_instance context object i
  aco_instance ← deref found
  int_resource aco_instance (pos 3)

-- `flags & operation` as a condition.
abbrev pub has_flag : ℤ → ℕ → Bool
has_flag flags operation = not (bit_and (pattern_of (2 ^ 32) flags) operation == 0)

-- The check of one ACL resource instance, or of the default one, or neither.
granted_by : Option Cell → Bool → Option Cell → ℕ → Run Bool
unfolding int_of
granted_by (some acl) owner default operation = do flags ← int_of acl; ok (has_flag flags operation)
granted_by none true default operation = ok true
granted_by none false none operation = ok false
granted_by none false (some acl) operation = do flags ← int_of acl; ok (has_flag flags operation)

-- The resource with the identifier ACL_RESOURCE_ID and its instances.
unfoldable pub acl_instances : Instance → Run (Items Cell)
acl_instances aco_instance = do
  acl_resource ← deref (lfind aco_instance.resources (pos 2))
  deref acl_resource.instances

-- The owner is read only where there is no entry for the server.
owner_if_absent : Option Cell → Run ℤ → ℤ → Run Bool
owner_if_absent (some acl) owner id = ok false
owner_if_absent none owner id = do o ← owner; ok (o ==ℤ id)

unfoldable pub check_instance_access_control : Context → Server → Object → Instance → ℕ → Run Bool
unfolding aco_for_instance acl_instances owner_if_absent get_access_control_owner granted_by
check_instance_access_control context server object i operation =
    if context.servers.size == 1 then ok true else (do
      found ← aco_for_instance context object i
      aco_instance ← deref found
      acl ← acl_instances aco_instance
      owner ←
          owner_if_absent (lfind acl server.short_server_id)
            (get_access_control_owner context object i) server.short_server_id
      granted_by (lfind acl server.short_server_id) owner (lfind acl (pos 0)) operation)

create_granted : Server → Option Instance → Run Bool
unfolding acl_instances granted_by
create_granted server none = ok false
create_granted server (some aco_instance) = do
  acl ← acl_instances aco_instance
  granted_by (lfind acl server.short_server_id) false (lfind acl (pos 0)) op_create

unfoldable pub check_create_object_access_control : Context → Server → Object → Run Bool
unfolding aco_for_object create_granted
check_create_object_access_control context server object = do
  aco_instance ← aco_for_object context object
  create_granted server aco_instance

unfoldable pub check_resource_operation_supported : Resource → ℕ → Bool
check_resource_operation_supported resource operation =
    not (bit_and resource.operations operation == 0)
