-- ===== src/Object.antt =====
-- lwm2m_object.c: the object tree. A function that changes an instance or an object returns it.
pub mod Merge
pub mod Instances
pub mod Nulls
pub mod Places
use lynx_lwm2m.Base.{
  ℕ, zero, suc, ◌+◌, Bool, true, false, not, ◌&&◌, Option, none, some, List, [], ◌∷◌, if◌then◌else◌,
  ltb, ◌==ℤ◌, ℤ, pos, ◌+ℤ◌, is_some, Run, ok, fault, ◌>>=◌, deref,
}
use lynx_lwm2m.Items.{Items, list_new, ladd, lfind, lremove, store}
use lynx_lwm2m.Model.{
  no_kind, Value, int_value, Cell, Resource, Instance, Object, Server, Context,
  access_control_object_id, op_read, op_write, op_execute, op_delete,
}
use lynx_lwm2m.Cell.{set_value_int}
use lynx_lwm2m.AccessControl.{aco_object, aco_for_instance}

-- The object with this identifier, put back into the tree.
unfoldable pub put_object : Context → Object → Context
put_object context object = record context {
  object_tree = store context.object_tree object.id object;
}

unfoldable pub put_instance : Object → Instance → Object
put_instance object i = record object { instances = store object.instances i.id i }

unfoldable pub put_resource : Instance → Resource → Instance
put_resource i resource = record i { resources = store i.resources resource.id resource }

-- A resource from its definition: the kind, the flags and the callbacks are copied.
unfoldable pub resource_from_def : Resource → Resource
resource_from_def definition = record definition {
  cell = record (definition.cell) { value = none; length = pos 0 };
  instances = if definition.multiple then some list_new else none;
  attributes = list_new;
  observers = list_new;
}

unfoldable pub resources_loop : ℤ → List Resource → Items Resource → Items Resource
unfolding resource_from_def
resources_loop id [] resources = resources
resources_loop id (definition ∷ next) resources =
    resources_loop (id +ℤ pos 1) next (ladd resources id (resource_from_def definition))

unfoldable pub create_resources_from_def : Object → Items Resource
unfolding resources_loop
create_resources_from_def object = resources_loop (pos 0) object.resource_def list_new

-- The object with the new instance, and the instance.
unfoldable pub instance_new_with_id : Object → ℤ → Object × Instance
unfolding create_resources_from_def
instance_new_with_id object instance_id =
    let i : Instance = record {
      id = instance_id;
      resources = create_resources_from_def object;
      attributes = list_new;
      observers = list_new;
    } in
    (record object { instances = ladd object.instances instance_id i }, i)

unfoldable pub instance_new : Object → Object × Instance
unfolding instance_new_with_id
instance_new object = instance_new_with_id object (object.instances.greatest_key +ℤ pos 1)

-- `__set_value_int(lfind(instance->resources, id), value)`
unfoldable pub set_int_resource : Instance → ℤ → ℤ → Run Instance
unfolding set_value_int
set_int_resource i id value = do
  resource ← deref (lfind i.resources id)
  ok (record i {
    resources =
        store i.resources id (record resource { cell = (set_value_int (resource.cell) value).0 });
  })

-- lwm2m_access_control.c: the access control instance for a new instance, with all rights but
-- CREATE for the server that made it. The resource instance's identifier and kind are not set.
unfoldable pub instance_create_aco_instance :
    (unset : Cell) → Context → Server → Object → Instance → Run Context
unfolding instance_new set_int_resource set_value_int put_object put_instance aco_object
instance_create_aco_instance unset context server object i = do
  aco ← deref (aco_object context)
  let (aco, aco_instance) = instance_new aco
  aco_instance ← set_int_resource aco_instance (pos 0) object.id
  aco_instance ← set_int_resource aco_instance (pos 1) i.id
  aco_instance ← set_int_resource aco_instance (pos 3) server.short_server_id
  acl_resource ← deref (lfind aco_instance.resources (pos 2))
  acl ← deref acl_resource.instances
  let rights = (set_value_int (record unset { value = none; length = pos 0 }) (pos 15)).0
  let acl_resource = record acl_resource {
    instances = some (ladd acl server.short_server_id rights);
  }
  let aco_instance = record aco_instance {
    resources = store aco_instance.resources (pos 2) acl_resource;
  }
  ok (put_object context (put_instance aco aco_instance))

-- The same for an object; its ACL gets no entry.
unfoldable pub object_create_aco_instance : Context → Server → Object → Run Context
unfolding instance_new set_int_resource put_object put_instance aco_object
object_create_aco_instance context server object = do
  aco ← deref (aco_object context)
  let (aco, aco_instance) = instance_new aco
  aco_instance ← set_int_resource aco_instance (pos 0) object.id
  aco_instance ← set_int_resource aco_instance (pos 1) (pos 0)
  aco_instance ← set_int_resource aco_instance (pos 3) server.short_server_id
  ok (put_object context (put_instance aco aco_instance))

-- The access control instance of an instance goes with it, unless the instance is one itself.
unfoldable pub delete_aco : Context → Option Instance → Run Context
unfolding aco_object put_object
delete_aco context none = ok context
delete_aco context (some aco_instance) = do
  aco ← deref (aco_object context)
  ok (put_object context (record aco { instances = lremove aco.instances aco_instance.id }))

unfoldable pub delete_aco_of : Context → Object → Instance → Run Context
unfolding delete_aco aco_for_instance
delete_aco_of context object i =
    if object.id ==ℤ access_control_object_id
    then ok context
    else (do aco_instance ← aco_for_instance context object i; delete_aco context aco_instance)

-- `instance->object` is read again after the access control instance is gone.
unfoldable pub delete_instance : Context → Object → Instance → Run Context
unfolding delete_aco_of put_object
delete_instance context object i = do
  context ← delete_aco_of context object i
  object ← deref (lfind context.object_tree object.id)
  ok (put_object context (record object { instances = lremove object.instances i.id }))
