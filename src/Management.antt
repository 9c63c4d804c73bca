-- ===== src/Management.antt =====
-- lwm2m_device_management.c: the operations that a server asks for. Every wait on
-- `object_tree_lock` and every post is in the model: a path that returns without the post keeps
-- the lock.
pub mod Read
pub mod Create
pub mod Lock
pub mod Delete
pub mod Freed
pub mod WriteRead
pub mod Unended
use lynx_lwm2m.Base.{
  ℕ, zero, suc, Bool, true, false, not, ◌&&◌, ◌||◌, Option, none, some, List, [], ◌∷◌,
  if◌then◌else◌, ◌==◌, ltb, ◌==ℤ◌, ℤ, pos, negsuc, is_some, length, Run, ok, fault, blocked, ◌>>=◌,
  deref,
}
use lynx_lwm2m.Items.{Items, list_new, ladd, lfind, lcontains, store}
use lynx_lwm2m.Model.{
  Kind, no_kind, opaque, Value, Cell, ExecuteParam, Resource, Instance, Object, Server, Context,
  Response, op_read, op_write, op_execute, op_delete, code_created, code_deleted, code_changed,
  code_unauthorized, code_method_not_allowed,
}
use lynx_lwm2m.Libc.{Libc}
use lynx_lwm2m.Tlv.Parse.{parse_resource, parse_instance}
use lynx_lwm2m.Tlv.Value.{serialize_resource_text}
use lynx_lwm2m.Tlv.Serialize.{serialize_multiple_resource, serialize_instance, serialize_object}
use lynx_lwm2m.AccessControl.{
  check_instance_access_control, check_create_object_access_control,
  check_resource_operation_supported,
}
use lynx_lwm2m.Object.{
  put_object, put_instance, instance_new, instance_new_with_id, instance_create_aco_instance,
  delete_instance,
}
use lynx_lwm2m.Object.Merge.{
  Place, find_instance, find_place, put_place, merge_resource, merge_resources,
  notify_instance_object,
}
use lynx_lwm2m.Reporting.{empty_response}

-- `sem_wait(&context->object_tree_lock)`
unfoldable pub lock_tree : Context → Run Context
lock_tree context = take context.object_tree_lock
  where
    take : ℕ → Run Context
    take zero = blocked
    take (suc n) = ok (record context { object_tree_lock = n })

-- `sem_post(&context->object_tree_lock)`
unfoldable pub unlock_tree : Context → Context
unlock_tree context = record context { object_tree_lock = suc context.object_tree_lock }

-- `__free_parsed_resource`: of the resource instances in the tree, those that a merge has entered
-- there from the parsed resource lose their memory with it. An instance that was in the tree before
-- is no memory of this parsed resource.
unfoldable pub mark_freed : Items Cell → List (ℤ × Cell) → List (ℤ × Cell)
mark_freed before [] = []
mark_freed before ((key, cell) ∷ next) =
    (key, if cell.parsed && not (lcontains before key) then record cell { freed = true } else cell)
    ∷ mark_freed before next

unfoldable pub free_added : Option (Items Cell) → Option (Items Cell) → Option (Items Cell)
unfolding mark_freed
free_added (some before) (some after) =
    some (record after { first = mark_freed before after.first })
free_added _ after = after

unfoldable pub free_parsed_resource : Resource → Resource → Resource
unfolding free_added
free_parsed_resource before after = record after {
  instances = free_added before.instances after.instances;
}

free_in_resources : Items Resource → List (ℤ × Resource) → List (ℤ × Resource)
unfolding free_parsed_resource
free_in_resources before [] = []
free_in_resources before ((key, after) ∷ next) =
    (key, free_in (lfind before key)) ∷ free_in_resources before next
  where
    free_in : Option Resource → Resource
    free_in none = after
    free_in (some old) = free_parsed_resource old after

-- `__free_parsed_resources` after a merge into the instance `before`.
unfoldable pub free_parsed_resources : Instance → Instance → Instance
unfolding free_in_resources
free_parsed_resources before after = record after {
  resources = record (after.resources) {
    first = free_in_resources before.resources after.resources.first;
  };
}

-- Whether every parsed resource can be written.
unfoldable pub all_writable : List (ℤ × Resource) → Bool
all_writable [] = true
all_writable ((key, resource) ∷ next) =
    check_resource_operation_supported resource op_write && all_writable next

module _ (c : Libc) (fuel : ℕ) where
  unfoldable pub on_resource_write :
      (now : ℤ)
      → Context
      → Server
      → (object_id instance_id resource_id : ℤ) → List ℕ
      → Run (Context × ℕ)
  unfolding lock_tree unlock_tree free_parsed_resource
  on_resource_write now context server object_id instance_id resource_id message =
      let write = λ (context : Context) (place : Place). (do
        parsed ← parse_resource c fuel place.object place.resource.id message (pos (length message))
        (context, servers_to_notify) ←
            merge_resource c now context object_id instance_id resource_id parsed true true
        merged ← find_place context object_id instance_id resource_id
        context ←
            notify_instance_object now context merged.object merged.instance' servers_to_notify
        merged ← find_place context object_id instance_id resource_id
        ok (
          unlock_tree
              (put_place context merged (free_parsed_resource place.resource merged.resource)),
          code_changed,
        )) in
      do
        context ← lock_tree context
        place ← find_place context object_id instance_id resource_id
        granted ← check_instance_access_control context server place.object place.instance' op_write
        if granted
            then (if check_resource_operation_supported place.resource op_write
                then write context place
                else ok (unlock_tree context, code_method_not_allowed))
            else ok (unlock_tree context, code_unauthorized)

  -- The two early returns keep the lock.
  unfoldable pub on_instance_write :
      (now : ℤ) → Context → Server → (object_id instance_id : ℤ) → List ℕ → Run (Context × ℕ)
  unfolding lock_tree unlock_tree all_writable free_parsed_resources
  on_instance_write now context server object_id instance_id message =
      let merge = λ (context : Context) (i : Instance) (parsed : Items Resource). (do
        context ← merge_resources c now context object_id instance_id parsed true true
        (object, merged) ← find_instance context object_id instance_id
        ok (
          unlock_tree (put_object context (put_instance object (free_parsed_resources i merged))),
          code_changed,
        )) in
      do
        context ← lock_tree context
        (object, i) ← find_instance context object_id instance_id
        granted ← check_instance_access_control context server object i op_write
        if granted
            then (do
              parsed ← parse_instance c fuel object message 0 (pos (length message))
              if all_writable parsed.first
                  then merge context i parsed
                  else ok (context, code_method_not_allowed))
            else ok (context, code_unauthorized)

unfoldable pub on_instance_delete :
    Context → Server → (object_id instance_id : ℤ) → Run (Context × Response)
unfolding lock_tree unlock_tree
on_instance_delete context server object_id instance_id = do
  context ← lock_tree context
  (object, i) ← find_instance context object_id instance_id
  granted ← check_instance_access_control context server object i op_delete
  if granted
      then (do
        context ← delete_instance context object i
        ok (unlock_tree context, empty_response code_deleted))
      else ok (unlock_tree context, empty_response code_unauthorized)

-- The lock is not taken, and the tree is left as it is but for what the callback does.
unfoldable pub on_resource_execute :
    Context
    → Server
    → (object_id instance_id resource_id : ℤ) → (args : Items ExecuteParam)
    → Run (Context × Response)
on_resource_execute context server object_id instance_id resource_id args = do
  place ← find_place context object_id instance_id resource_id
  granted ← check_instance_access_control context server place.object place.instance' op_execute
  if granted
      then (if check_resource_operation_supported place.resource op_execute
          then (do
            callback ← deref place.resource.execute_callback
            ok (
              put_place context place
                  (record (place.resource) { cell = callback args (place.resource.cell) }),
              empty_response code_changed,
            ))
          else ok (context, empty_response code_method_not_allowed))
      else ok (context, empty_response code_unauthorized)
