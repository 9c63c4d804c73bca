-- ===== src/Management/Read.antt =====
-- lwm2m_device_management.c: `on_resource_read`, `on_instance_read` and `on_object_read`.
use lynx_lwm2m.Base.{
  ℕ, Bool, ◌&&◌, Option, none, some, List, [], ◌∷◌, if◌then◌else◌, ltb, ℤ, is_some, Run, ok, ◌>>=◌,
  deref,
}
use lynx_lwm2m.Items.{Items, list_new, ladd, lfind}
use lynx_lwm2m.Model.{
  Kind, opaque, Cell, Resource, Instance, Object, Server, Context, Response, op_read, code_changed,
  code_unauthorized, code_method_not_allowed,
}
use lynx_lwm2m.Libc.{Libc}
use lynx_lwm2m.Tlv.Value.{serialize_resource_text}
use lynx_lwm2m.Tlv.Serialize.{serialize_multiple_resource, serialize_instance, serialize_object}
use lynx_lwm2m.AccessControl.{check_instance_access_control, check_resource_operation_supported}
use lynx_lwm2m.Object.{put_object, put_instance}
use lynx_lwm2m.Object.Merge.{find_instance, find_place, put_place}
use lynx_lwm2m.Management.{lock_tree, unlock_tree}
use lynx_lwm2m.Reporting.{empty_response}

-- `if (resource->read_callback != NULL) resource->read_callback(resource);`
unfoldable pub read_callback : Resource → Resource
read_callback resource = called resource.read_callback
  where
    called : Option (Cell → Cell) → Resource
    called none = resource
    called (some callback) = record resource { cell = callback (resource.cell) }

abbrev content_type_of : Kind → ℕ
content_type_of opaque = 3
content_type_of _ = 1

module _ (c : Libc) where
  -- The response with the value: TLV for a multiple resource, else text.
  unfoldable pub read_response : Resource → Run Response
  read_response resource =
      if resource.multiple
      then (do
        instances ← deref resource.instances
        payload ← serialize_multiple_resource instances
        ok (record { content_type = 4; response_code = code_changed; payload = payload }))
      else (do
        payload ← serialize_resource_text c (resource.cell)
        ok (record {
          content_type = content_type_of resource.kind;
          response_code = code_changed;
          payload = payload;
        }))

  -- The two early returns keep the lock.
  unfoldable pub on_resource_read :
      Context → Server → (object_id instance_id resource_id : ℤ) → Run (Context × Response)
  unfolding read_callback read_response
  on_resource_read context server object_id instance_id resource_id = do
    context ← lock_tree context
    place ← find_place context object_id instance_id resource_id
    granted ← check_instance_access_control context server place.object place.instance' op_read
    if granted
        then (if check_resource_operation_supported place.resource op_read
            then (let resource = read_callback place.resource in
                do
                  response ← read_response resource
                  ok (unlock_tree (put_place context place resource), response))
            else ok (context, empty_response code_method_not_allowed))
        else ok (context, empty_response code_unauthorized)

-- A resource after one round of the reading loops.
unfoldable pub read_one : Resource → Resource
unfolding read_callback
read_one resource =
    if check_resource_operation_supported resource op_read then read_callback resource else resource

-- Whether that round adds the resource to those that are serialized.
unfoldable pub is_read : Resource → Bool
unfolding read_one
is_read resource =
    check_resource_operation_supported resource op_read && is_some (read_one resource).value

-- The resources after the loop, and `resources_to_parse`.
unfoldable pub read_loop :
    List (ℤ × Resource) → Items Resource → List (ℤ × Resource) × Items Resource
read_loop [] resources_to_parse = ([], resources_to_parse)
read_loop ((key, resource) ∷ next) resources_to_parse =
    let r = read_one resource in
    let (rest, found) =
      read_loop next
        (if is_read resource then ladd resources_to_parse r.id r else resources_to_parse) in
    ((key, r) ∷ rest, found)

-- The instance after the loop, and `resources_to_parse`.
unfoldable pub read_resources : Instance → Instance × Items Resource
unfolding read_loop
read_resources i =
    let (resources, resources_to_parse) = read_loop i.resources.first list_new in
    (record i { resources = record (i.resources) { first = resources } }, resources_to_parse)

-- The early return keeps the lock.
unfoldable pub on_instance_read :
    Context → Server → (object_id instance_id : ℤ) → Run (Context × Response)
unfolding read_resources
on_instance_read context server object_id instance_id = do
  context ← lock_tree context
  (object, i) ← find_instance context object_id instance_id
  granted ← check_instance_access_control context server object i op_read
  if granted
      then (let (read, resources_to_parse) = read_resources i in
          do
            payload ← serialize_instance resources_to_parse
            ok (
              unlock_tree (put_object context (put_instance object read)),
              record { content_type = 4; response_code = code_changed; payload = payload },
            ))
      else ok (context, empty_response code_unauthorized)

-- An instance as it is serialized: its identifier and the resources that are read.
abbrev instance_to_parse : Instance → Items Resource → Instance
instance_to_parse i resources = record {
  id = i.id;
  resources = resources;
  attributes = list_new;
  observers = list_new;
}

-- The instances after the loop, and `instances_to_parse`: those that may be read and have
-- resources to serialize.
read_instances_loop :
    Context
    → Server
    → Object
    → List (ℤ × Instance)
    → Items Instance
    → Run (List (ℤ × Instance) × Items Instance)
unfolding read_resources
read_instances_loop context server object [] instances_to_parse = ok ([], instances_to_parse)
read_instances_loop context server object ((key, i) ∷ next) instances_to_parse =
    let (read, resources) = read_resources i in
    let added =
      if ltb 0 resources.size
      then ladd instances_to_parse i.id (instance_to_parse i resources)
      else instances_to_parse in
    do
      granted ← check_instance_access_control context server object i op_read
      (rest, found) ←
          read_instances_loop context server object next
            (if granted then added else instances_to_parse)
      ok ((key, if granted then read else i) ∷ rest, found)

unfoldable pub on_object_read : Context → Server → (object_id : ℤ) → Run (Context × Response)
unfolding read_instances_loop
on_object_read context server object_id = do
  context ← lock_tree context
  object ← deref (lfind context.object_tree object_id)
  (instances, instances_to_parse) ←
      read_instances_loop context server object object.instances.first list_new
  payload ← serialize_object instances_to_parse
  let object = record object { instances = record (object.instances) { first = instances } }
  ok (
    unlock_tree (put_object context object),
    record { content_type = 4; response_code = code_changed; payload = payload },
  )
