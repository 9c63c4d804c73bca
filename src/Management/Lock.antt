-- ===== src/Management/Lock.antt =====
-- lwm2m_device_management.c: which answers give `object_tree_lock` back, and which keep it.
use lynx_lwm2m.Base.{
  ℕ, suc, ◌≡◌, refl, Bool, true, false, not, some, is_some, List, arith, inl, inr, ◌&&◌, Bool-cases,
  if◌then◌else◌, length, ℤ, pos, ok, fault, blocked,
}
use lynx_lwm2m.Items.{Items, lfind}
use lynx_lwm2m.Model.{
  Cell, Resource, Instance, Object, Server, Context, op_read, op_write, op_delete,
  code_unauthorized, code_method_not_allowed,
}
use lynx_lwm2m.Libc.{Libc}
use lynx_lwm2m.Tlv.Parse.{parse_instance}
use lynx_lwm2m.AccessControl.{
  check_instance_access_control, check_create_object_access_control,
  check_resource_operation_supported, aco_for_instance, aco_for_object, aco_object,
}
use lynx_lwm2m.Object.Merge.{Place, find_instance, find_place}
use lynx_lwm2m.Reporting.{empty_response}
use lynx_lwm2m.Management.{
  lock_tree, unlock_tree, on_resource_write, on_instance_write, on_instance_delete, all_writable,
}
use lynx_lwm2m.Management.Read.{on_resource_read, on_instance_read, on_object_read}
use lynx_lwm2m.Management.Create.{on_instance_create}

-- The context with the lock at 0.
abbrev pub held : Context → Context
held context = record context { object_tree_lock = 0 }

module _ (c : Libc) (fuel : ℕ) (unset : Cell) where
  -- While the lock is at 0, each of the seven operations that take it waits for ever.
  operations_locked :
      (context : Context)
      → context.object_tree_lock ≡ 0
      → (now : ℤ) (server : Server) (o i r : ℤ) (message : List ℕ)
      → (on_resource_write c fuel now context server o i r message ≡ blocked)
        × (on_instance_write c fuel now context server o i message ≡ blocked)
        × (on_instance_delete context server o i ≡ blocked)
        × (on_resource_read c context server o i r ≡ blocked)
        × (on_instance_read context server o i ≡ blocked)
        × (on_object_read context server o ≡ blocked)
        × (on_instance_create c fuel unset now context server o i message ≡ blocked)
  unfolding on_resource_write on_instance_write on_instance_delete on_resource_read on_instance_read
      on_object_read on_instance_create lock_tree
  operations_locked context h now server o i r message =
      rw h (refl, refl, refl, refl, refl, refl, refl)

  module _ (context : Context) (server : Server) (o i r : ℤ) (place : Place)
      (free : context.object_tree_lock ≡ 1) (found : find_place context o i r ≡ ok place) where
    -- With the lock at 1, a resource found and WRITE refused to the server: `on_resource_write`
    -- answers 401 and leaves the context as it was, `on_instance_write` answers 401 and leaves
    -- the lock at 0.
    on_write-unauthorized :
        (now : ℤ) (message : List ℕ)
        → check_instance_access_control context server place.object place.instance' op_write
          ≡ ok false
        → (on_resource_write c fuel now context server o i r message
            ≡ ok (context, code_unauthorized))
          × (on_instance_write c fuel now context server o i message
              ≡ ok (held context, code_unauthorized))
    unfolding on_resource_write on_instance_write lock_tree find_place find_instance unlock_tree
        check_instance_access_control aco_for_instance aco_object
    on_write-unauthorized now message denied = ground (arith, free, found, denied)

    -- With the lock at 1, a resource found and READ refused to the server, `on_resource_read` and
    -- `on_instance_read` answer 401, change nothing else and leave the lock at 0.
    on_read-unauthorized :
        check_instance_access_control context server place.object place.instance' op_read ≡ ok false
        → (on_resource_read c context server o i r
            ≡ ok (held context, empty_response code_unauthorized))
          × (on_instance_read context server o i
              ≡ ok (held context, empty_response code_unauthorized))
    unfolding on_resource_read on_instance_read lock_tree find_place find_instance
        check_instance_access_control aco_for_instance aco_object
    on_read-unauthorized denied = ground (arith, free, found, denied)

    -- With the lock at 1 and a resource found: after a READ of the resource or of its instance that is
    -- refused to the server, each of the seven operations that take the lock waits for ever, for
    -- whatever server, place and payload.
    pub on_read_refused_blocks :
        check_instance_access_control context server place.object place.instance' op_read ≡ ok false
        → (after : Context) × (on_resource_read c context server o i r
            ≡ ok (after, empty_response code_unauthorized))
          × (on_instance_read context server o i ≡ ok (after, empty_response code_unauthorized))
          × ((now : ℤ) (server' : Server) (o' i' r' : ℤ) (message : List ℕ)
              → (on_resource_write c fuel now after server' o' i' r' message ≡ blocked)
                × (on_instance_write c fuel now after server' o' i' message ≡ blocked)
                × (on_instance_delete after server' o' i' ≡ blocked)
                × (on_resource_read c after server' o' i' r' ≡ blocked)
                × (on_instance_read after server' o' i' ≡ blocked)
                × (on_object_read after server' o' ≡ blocked)
                × (on_instance_create c fuel unset now after server' o' i' message ≡ blocked))
    on_read_refused_blocks denied =
        let (by_resource, by_instance) = on_read-unauthorized denied in
        (held context, by_resource, by_instance, operations_locked (held context) refl)

    -- With the lock at 1, a resource found that does not support READ, and READ granted to the
    -- server, `on_resource_read` answers 405, changes nothing else and leaves the lock at 0.
    on_resource_read-not_allowed :
        check_instance_access_control context server place.object place.instance' op_read ≡ ok true
        → check_resource_operation_supported place.resource op_read ≡ false
        → on_resource_read c context server o i r
          ≡ ok (held context, empty_response code_method_not_allowed)
    unfolding on_resource_read lock_tree find_place find_instance check_instance_access_control
        aco_for_instance aco_object
    on_resource_read-not_allowed granted refused = ground (arith, free, found, granted, refused)

  module _ (context : Context) (server : Server) (o i : ℤ) (object : Object) (instance' : Instance)
      (found : find_instance context o i ≡ ok (object, instance')) where
    -- With the lock at 1, an instance found, WRITE granted, and a payload that parses to
    -- resources of which one does not support WRITE: `on_instance_write` answers 405, changes
    -- nothing else and leaves the lock at 0.
    on_instance_write-not_allowed :
        (now : ℤ) (message : List ℕ) (parsed : Items Resource)
        → context.object_tree_lock ≡ 1
        → check_instance_access_control context server object instance' op_write ≡ ok true
        → parse_instance c fuel object message 0 (pos (length message)) ≡ ok parsed
        → all_writable parsed.first ≡ false
        → on_instance_write c fuel now context server o i message
          ≡ ok (held context, code_method_not_allowed)
    unfolding on_instance_write lock_tree find_instance check_instance_access_control
        aco_for_instance aco_object
    on_instance_write-not_allowed now message parsed free granted parses refused =
        ground (arith, free, found, granted, parses, refused)

    -- With the lock free and an instance found, a delete that is refused answers 401 and changes
    -- nothing.
    pub on_instance_delete-unauthorized :
        (n : ℕ)
        → context.object_tree_lock ≡ suc n
        → check_instance_access_control context server object instance' op_delete ≡ ok false
        → on_instance_delete context server o i ≡ ok (context, empty_response code_unauthorized)
    unfolding on_instance_delete lock_tree unlock_tree find_instance check_instance_access_control
        aco_for_instance aco_object
    on_instance_delete-unauthorized n free denied = ground (arith, free, found, denied)

  module _ (context : Context) (server : Server) (o i : ℤ) (object : Object) (n : ℕ)
      (free : context.object_tree_lock ≡ suc n)
      (found : lfind context.object_tree o ≡ some object) where
    -- With the lock free and the object found: a CREATE that is refused to the server answers 401,
    -- and a granted one with an identifier in use, on an object of several instances, answers 405;
    -- both change nothing but that they keep the lock. A CREATE granted on an object of a single
    -- instance is a fault.
    pub on_instance_create-refused :
        (now : ℤ) (message : List ℕ) (granted : Bool)
        → check_create_object_access_control context server object ≡ ok granted
        → (granted && (object.multiple && not (is_some (lfind object.instances i)))) ≡ false
        → on_instance_create c fuel unset now context server o i message ≡ (
            if granted
            then (if object.multiple
                then ok (
                  record context { object_tree_lock = n },
                  i,
                  empty_response code_method_not_allowed,
                )
                else fault)
            else ok (record context { object_tree_lock = n }, i, empty_response code_unauthorized))
    unfolding on_instance_create lock_tree check_create_object_access_control aco_for_object
        aco_object
    on_instance_create-refused now message granted check refused = elim (Bool-cases granted) [
      | inl may ↦ ground (arith, free, found, check, refused, may)
      | inr may_not ↦ ground (arith, free, found, check, may_not)
    ]
