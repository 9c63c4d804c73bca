-- ===== src/Transport/Frames/Operations.antt =====
-- lwm2m_device_management.c, lwm2m_information_reporting.c: the list of servers in the operations.
use lynx_lwm2m.Base.{
  ℕ, zero, suc, ◌≡◌, Option, none, some, List, ℤ, pos, length, Option-cases, inl, inr, refl,
}
use lynx_lwm2m.Items.{Items, list_new}
use lynx_lwm2m.Model.{Server, Context, Object, Instance, Resource, Cell, ExecuteParam}
use lynx_lwm2m.Libc.{Libc}
use lynx_lwm2m.Tlv.Parse.{parse_instance}
use lynx_lwm2m.Object.{
  put_object, delete_aco, delete_aco_of, delete_instance, instance_create_aco_instance,
}
use lynx_lwm2m.Object.Merge.{put_place}
use lynx_lwm2m.Management.{
  lock_tree, unlock_tree, on_resource_write, on_instance_write, on_instance_delete,
  on_resource_execute,
}
use lynx_lwm2m.Management.Read.{on_resource_read, on_instance_read, on_object_read}
use lynx_lwm2m.Management.Create.{filter_parsed, fill_instance, on_instance_create}
use lynx_lwm2m.Reporting.{
  on_resource_observe, on_instance_observe, on_object_observe, on_resource_cancel_observe,
  on_instance_cancel_observe, on_object_cancel_observe,
}
use lynx_lwm2m.Transport.Frames.{
  Returns, keeping_rules, Keeps, KeepsFirst, returns_rules, Returns-after, KeepsTriple,
}
use lynx_lwm2m.Transport.Frames.Notify.{
  notify_instance_object-Keeps, merge_resource-Keeps, merge_resources-Keeps,
}

pub lock_tree-Keeps :
    (servers : Items Server) (context : Context)
    → context.servers ≡ servers
    → Keeps servers (lock_tree context)
unfolding lock_tree Returns
lock_tree-Keeps servers context h = locked context.object_tree_lock refl
  where
    locked : (n : ℕ) → context.object_tree_lock ≡ n → Keeps servers (lock_tree context)
    locked zero e = rw e tt
    locked (suc n) e = rw e h

delete_aco-Keeps :
    (servers : Items Server) (context : Context) (aco_instance : Option Instance)
    → context.servers ≡ servers
    → Keeps servers (delete_aco context aco_instance)
unfolding delete_aco put_object
delete_aco-Keeps servers context none h = search returns_rules
delete_aco-Keeps servers context (some i) h = search returns_rules depth 12

delete_instance-Keeps :
    (servers : Items Server) (context : Context) (object : Object) (i : Instance)
    → context.servers ≡ servers
    → Keeps servers (delete_instance context object i)
unfolding delete_instance put_object delete_aco_of
delete_instance-Keeps servers context object i h = search (keeping_rules, delete_aco-Keeps) depth 12

create_aco-Keeps :
    (servers : Items Server) (unset : Cell) (context : Context) (server : Server) (object : Object)
    (i : Instance)
    → context.servers ≡ servers
    → Keeps servers (instance_create_aco_instance unset context server object i)
unfolding instance_create_aco_instance put_object
create_aco-Keeps servers unset context server object i h = search returns_rules depth 20

fill_instance-Keeps :
    (c : Libc) (fuel : ℕ) (unset : Cell) (servers : Items Server) (now : ℤ) (context : Context)
    (server : Server) (object : Object) (i : Instance) (message : List ℕ)
    → context.servers ≡ servers
    → KeepsTriple servers (fill_instance c fuel unset now context server object i message)
unfolding fill_instance unlock_tree put_object
fill_instance-Keeps c fuel unset servers now context server object i message h =
    Returns-after (λ result. result.0.servers ≡ servers)
      (parse_instance c fuel object message 0 (pos (length message))) _
      (λ all_parsed. elim (Option-cases (filter_parsed i.resources.first all_parsed list_new)) [
        | inl e ↦ rw e (search keeping_rules)
        | inr (parsed, e) ↦
            rw e (search (keeping_rules, create_aco-Keeps, merge_resources-Keeps) depth 16)
      ])

module _ (context : Context) (server : Server) where
  pub on_resource_cancel_observe-Keeps :
      (resource : Resource)
      → KeepsTriple context.servers (on_resource_cancel_observe context server resource)
  unfolding on_resource_cancel_observe
  on_resource_cancel_observe-Keeps resource = search returns_rules depth 12

  pub on_resource_observe-Keeps :
      (now task_id : ℤ) (object : Object) (i : Instance) (resource : Resource) (token : List ℕ)
      → KeepsTriple context.servers
          (on_resource_observe now task_id context server object i resource token)
  unfolding on_resource_observe
  on_resource_observe-Keeps now task_id object i resource token = search returns_rules depth 12

  pub on_resource_execute-Keeps :
      (o i r : ℤ) (args : Items ExecuteParam)
      → KeepsFirst context.servers (on_resource_execute context server o i r args)
  unfolding on_resource_execute put_place put_object
  on_resource_execute-Keeps o i r args = search returns_rules depth 12

  pub on_instance_delete-Keeps :
      (o i : ℤ) → KeepsFirst context.servers (on_instance_delete context server o i)
  unfolding on_instance_delete unlock_tree
  on_instance_delete-Keeps o i =
      search (keeping_rules, lock_tree-Keeps, delete_instance-Keeps) depth 12

  pub on_instance_cancel_observe-Keeps :
      (i : Instance) → KeepsTriple context.servers (on_instance_cancel_observe context server i)
  unfolding on_instance_cancel_observe
  on_instance_cancel_observe-Keeps i = search returns_rules depth 12

  pub on_object_cancel_observe-Keeps :
      (object : Object)
      → KeepsTriple context.servers (on_object_cancel_observe context server object)
  unfolding on_object_cancel_observe
  on_object_cancel_observe-Keeps object = search returns_rules depth 12

  pub on_instance_observe-Keeps :
      (now task_id : ℤ) (object : Object) (i : Instance) (token : List ℕ)
      → KeepsTriple context.servers (on_instance_observe now task_id context server object i token)
  unfolding on_instance_observe
  on_instance_observe-Keeps now task_id object i token = search returns_rules depth 12

  pub on_object_observe-Keeps :
      (now task_id : ℤ) (object : Object) (token : List ℕ)
      → KeepsTriple context.servers (on_object_observe now task_id context server object token)
  unfolding on_object_observe
  on_object_observe-Keeps now task_id object token = search returns_rules depth 12

  pub on_instance_read-Keeps :
      (o i : ℤ) → KeepsFirst context.servers (on_instance_read context server o i)
  unfolding on_instance_read unlock_tree put_object
  on_instance_read-Keeps o i = search (keeping_rules, lock_tree-Keeps) depth 12

  pub on_object_read-Keeps : (o : ℤ) → KeepsFirst context.servers (on_object_read context server o)
  unfolding on_object_read unlock_tree put_object
  on_object_read-Keeps o = search (keeping_rules, lock_tree-Keeps) depth 12

  module _ (c : Libc) where
    pub on_resource_read-Keeps :
        (o i r : ℤ) → KeepsFirst context.servers (on_resource_read c context server o i r)
    unfolding on_resource_read unlock_tree put_place put_object
    on_resource_read-Keeps o i r = search (keeping_rules, lock_tree-Keeps) depth 12

    module _ (fuel : ℕ) (now : ℤ) (o i : ℤ) (message : List ℕ) where
      pub on_resource_write-Keeps :
          (r : ℤ)
          → KeepsFirst context.servers (on_resource_write c fuel now context server o i r message)
      unfolding on_resource_write unlock_tree put_place put_object
      on_resource_write-Keeps r =
          search
            (keeping_rules, lock_tree-Keeps, merge_resource-Keeps, notify_instance_object-Keeps)
            depth 16

      pub on_instance_write-Keeps :
          KeepsFirst context.servers (on_instance_write c fuel now context server o i message)
      unfolding on_instance_write unlock_tree put_object
      on_instance_write-Keeps =
          search (keeping_rules, lock_tree-Keeps, merge_resources-Keeps) depth 16

      pub on_instance_create-Keeps :
          (unset : Cell)
          → KeepsTriple context.servers
              (on_instance_create c fuel unset now context server o i message)
      unfolding on_instance_create unlock_tree put_object
      on_instance_create-Keeps unset =
          search (keeping_rules, lock_tree-Keeps, fill_instance-Keeps) depth 16
