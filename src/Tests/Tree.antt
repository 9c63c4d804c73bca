-- ===== src/Tests/Tree.antt =====
-- The theorems on the object tree and access control at concrete contexts.
use lynx_lwm2m.Base.{ℕ, ◌≡◌, ◌≢◌, refl, none, some, ℤ, pos, ◌==ℤ◌, if◌then◌else◌, get_elem?, ok}
use mathlib.Core.Option.{map}
use lynx_lwm2m.Items.{lfind, ladd, lremove}
use lynx_lwm2m.Items.Lookup.{IsValid, list_new-IsValid, ladd-IsValid}
use lynx_lwm2m.Model.{Context}
use lynx_lwm2m.AccessControl.{aco_for_instance}
use lynx_lwm2m.Object.{instance_new, resource_from_def, delete_instance}
use lynx_lwm2m.Object.Instances.{instance_new-fresh, delete_instance-lookup}
use lynx_lwm2m.Tests.Data.{meter, meters, aco, meter_acl, context, tree}

instance_new-fresh_example :
    let (object', i) = instance_new meters in
    (lfind meters.instances i.id ≡ none)
    × ((j : ℤ)
        → lfind object'.instances j ≡ (if i.id ==ℤ j then some i else lfind meters.instances j))
    × IsValid object'.instances
    × ((k : ℕ)
        → lfind i.resources (pos k) ≡ map resource_from_def (get_elem? meters.resource_def k))
instance_new-fresh_example = instance_new-fresh meters (ladd-IsValid (pos 1) meter list_new-IsValid)

delete_instance-lookup_example :
    (after : Context) × (delete_instance context meters meter ≡ ok after)
    × ((j : ℤ)
        → lfind after.object_tree j ≡ (
            if pos 5 ==ℤ j
            then some (record meters { instances = lremove meters.instances (pos 1) })
            else if pos 2 ==ℤ j
            then some (record aco { instances = lremove aco.instances (pos 0) })
            else lfind tree j))
    × (after ≡ (record context { object_tree = after.object_tree }))
unfolding aco_for_instance ladd lfind
delete_instance-lookup_example =
    delete_instance-lookup context meters aco meter meter_acl other refl refl refl refl
  where
    other : pos 5 ≢ pos 2
    other = cc
