-- ===== src/Management/Delete.antt =====
-- lwm2m_device_management.c: a DELETE that is granted.
use lynx_lwm2m.Base.{ℕ, suc, ◌≡◌, ◌≢◌, refl, sym, ap, ◌∙◌, true, some, if◌then◌else◌, ◌==ℤ◌, ℤ, ok}
use lynx_lwm2m.Items.{lfind, lremove}
use lynx_lwm2m.Model.{
  Instance, Object, Server, Context, access_control_object_id, op_delete, code_deleted,
}
use lynx_lwm2m.AccessControl.{check_instance_access_control, aco_for_instance, aco_object}
use lynx_lwm2m.Object.{delete_instance}
use lynx_lwm2m.Object.Instances.{delete_instance-lookup}
use lynx_lwm2m.Object.Merge.{find_instance}
use lynx_lwm2m.Reporting.{empty_response}
use lynx_lwm2m.Management.{lock_tree, unlock_tree, on_instance_delete}

delete_run :
    (context c1 d : Context) (server : Server) (o j : ℤ) (object : Object) (i : Instance)
    → lock_tree context ≡ ok c1
    → find_instance c1 o j ≡ ok (object, i)
    → check_instance_access_control c1 server object i op_delete ≡ ok true
    → delete_instance c1 object i ≡ ok d
    → on_instance_delete context server o j ≡ ok (unlock_tree d, empty_response code_deleted)
unfolding on_instance_delete
delete_run context c1 d server o j object i lock found granted run =
    rw (lock, found, granted, run) refl

-- With the lock free, for an instance of an object other than the access control object, with an
-- access control instance, and DELETE granted to the server: the operation answers 202; the object
-- is then without the instance and the access control object without the instance for it, every
-- other object is as before, and so are the lock, the servers and the scheduler.
pub on_instance_delete-granted :
    (context : Context) (n : ℕ) (server : Server) (object aco : Object) (i aco_instance : Instance)
    → context.object_tree_lock ≡ suc n
    → lfind context.object_tree object.id ≡ some object
    → lfind object.instances i.id ≡ some i
    → check_instance_access_control context server object i op_delete ≡ ok true
    → object.id ≢ access_control_object_id
    → aco.id ≡ access_control_object_id
    → lfind context.object_tree access_control_object_id ≡ some aco
    → aco_for_instance context object i ≡ ok (some aco_instance)
    → (after : Context) × (on_instance_delete context server object.id i.id
        ≡ ok (after, empty_response code_deleted))
      × ((j : ℤ)
          → lfind after.object_tree j ≡ (
              if object.id ==ℤ j
              then some (record object { instances = lremove object.instances i.id })
              else if aco.id ==ℤ j
              then some (record aco { instances = lremove aco.instances aco_instance.id })
              else lfind context.object_tree j))
      × (after ≡ (record context { object_tree = after.object_tree }))
unfolding lock_tree unlock_tree find_instance check_instance_access_control aco_for_instance
    aco_object
on_instance_delete-granted context n server object aco i aco_instance free found instance_found
      granted other id_eq aco_found aco_of =
    let c1 = record context { object_tree_lock = n } in
    let (d, run, lookup, kept) =
      delete_instance-lookup c1 object aco i aco_instance other id_eq found aco_found aco_of in
    (
      unlock_tree d,
      delete_run context c1 d server object.id i.id object i (rw free refl)
          (rw (found, instance_found) refl) granted run,
      lookup,
      ap unlock_tree kept
          ∙ ap (λ m. record context { object_tree = d.object_tree; object_tree_lock = m })
              (sym free),
    )
