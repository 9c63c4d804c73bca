-- ===== src/Object/Instances.antt =====
-- lwm2m_object.c: new instances with their resources, and deleting an instance.
use lynx_lwm2m.Base.{
  ℕ, zero, suc, ◌+◌, ◌<◌, ◌≡◌, ◌≢◌, refl, ◌∙◌, false, none, some, List, [], ◌∷◌, arith,
  if◌then◌else◌, get_elem?, ==ℤ-refl, ==ℤ_iff, ◌==ℤ◌, ℤ, pos, ◌+ℤ◌, ok,
}
use mathlib.Core.Option.{map}
use lynx_lwm2m.Items.{Items, list_new, ladd, lfind, lremove, store}
use lynx_lwm2m.Items.Lookup.{IsValid, lfind-ladd, greatest_key_fresh, ladd-IsValid}
use lynx_lwm2m.Items.Store.{lfind-store}
use lynx_lwm2m.Model.{Resource, Instance, Object, Context, access_control_object_id}
use lynx_lwm2m.Object.{
  resource_from_def, resources_loop, create_resources_from_def, instance_new, instance_new_with_id,
  put_object, delete_instance,
}
use lynx_lwm2m.AccessControl.{aco_object, aco_for_instance}

pos_suc : (n : ℕ) → (pos n +ℤ pos 1) ≡ pos (suc n)
pos_suc n = ground arith

resources_loop_below :
    (base : ℕ) (definitions : List Resource) (acc : Items Resource) (j : ℕ)
    → j < base
    → lfind (resources_loop (pos base) definitions acc) (pos j) ≡ lfind acc (pos j)
unfolding resources_loop
resources_loop_below base [] acc j h = refl
resources_loop_below base (d ∷ ds) acc j h = rw (pos_suc base) (
    resources_loop_below (suc base) ds (ladd acc (pos base) (resource_from_def d)) j (omega arith)
    ∙ ground (
      arith,
      lfind-ladd acc (pos base) (pos j) (resource_from_def d),
      ==ℤ_iff (pos base) (pos j),
    ))

resources_loop-lookup :
    (base : ℕ) (definitions : List Resource) (n k : ℕ) (acc : Items Resource)
    → k ≡ base + n
    → lfind acc (pos k) ≡ none
    → lfind (resources_loop (pos base) definitions acc) (pos k)
      ≡ map resource_from_def (get_elem? definitions n)
unfolding resources_loop
resources_loop-lookup base [] n k acc e h = h
resources_loop-lookup base (d ∷ ds) zero k acc e h =
    let next = ladd acc (pos base) (resource_from_def d) in
    let same : pos k ≡ pos base = ground arith in
    rw (pos_suc base, same)
      (resources_loop_below (suc base) ds next base (omega arith)
        ∙ rw (lfind-ladd acc (pos base) (pos base) (resource_from_def d), ==ℤ-refl (pos base)) refl)
resources_loop-lookup base (d ∷ ds) (suc n) k acc e h =
    let next = ladd acc (pos base) (resource_from_def d) in
    let absent : lfind next (pos k) ≡ none = ground (
      arith,
      h,
      lfind-ladd acc (pos base) (pos k) (resource_from_def d),
      ==ℤ_iff (pos base) (pos k),
    ) in
    rw (pos_suc base) (resources_loop-lookup (suc base) ds n k next (omega arith) absent)

-- With a valid list of instances, `instance_new` takes an identifier that no instance has; the
-- object then finds the new instance under it and every other one as before, the list of
-- instances stays valid, and the instance's resource `k` is made from the object's definition `k`,
-- or is absent where there is none.
pub instance_new-fresh :
    (object : Object)
    → IsValid object.instances
    → let (object', i) = instance_new object in
      (lfind object.instances i.id ≡ none)
      × ((j : ℤ)
          → lfind object'.instances j ≡ (if i.id ==ℤ j then some i else lfind object.instances j))
      × IsValid object'.instances
      × ((k : ℕ)
          → lfind i.resources (pos k) ≡ map resource_from_def (get_elem? object.resource_def k))
unfolding instance_new instance_new_with_id create_resources_from_def lfind
instance_new-fresh object v = (
  greatest_key_fresh v,
  λ j.
      lfind-ladd object.instances (object.instances.greatest_key +ℤ pos 1) j
        (instance_new object).1,
  ladd-IsValid (object.instances.greatest_key +ℤ pos 1) (instance_new object).1 v,
  λ k. resources_loop-lookup 0 object.resource_def k k list_new (omega arith) refl,
)

-- Deleting an instance of an object other than the access control object, where the access
-- control object has an instance for it: the tree then holds the object without the instance, the
-- access control object without that access control instance, and every other object as before;
-- servers, lock and scheduler are untouched.
pub delete_instance-lookup :
    (context : Context) (object aco : Object) (i aco_instance : Instance)
    → object.id ≢ access_control_object_id
    → aco.id ≡ access_control_object_id
    → lfind context.object_tree object.id ≡ some object
    → lfind context.object_tree access_control_object_id ≡ some aco
    → aco_for_instance context object i ≡ ok (some aco_instance)
    → (after : Context) × (delete_instance context object i ≡ ok after)
      × ((j : ℤ)
          → lfind after.object_tree j ≡ (
              if object.id ==ℤ j
              then some (record object { instances = lremove object.instances i.id })
              else if aco.id ==ℤ j
              then some (record aco { instances = lremove aco.instances aco_instance.id })
              else lfind context.object_tree j))
      × (after ≡ (record context { object_tree = after.object_tree }))
unfolding delete_instance put_object aco_object lfind
delete_instance-lookup context object aco i aco_instance ne id_eq found aco_found aco_of =
    let aco' = record aco { instances = lremove aco.instances aco_instance.id } in
    let object' = record object { instances = lremove object.instances i.id } in
    let tree1 = store context.object_tree aco.id aco' in
    let other : (object.id ==ℤ access_control_object_id) ≡ false =
      ground (arith, ==ℤ_iff object.id access_control_object_id) in
    let still : lfind tree1 object.id ≡ some object =
      ground
        (arith, lfind-store context.object_tree aco.id object.id aco', ==ℤ_iff aco.id object.id) in
    (
      record context { object_tree = store tree1 object.id object' },
      rw (other, aco_of, aco_found, still) refl,
      λ j. ground (
        arith,
        lfind-store tree1 object.id j object',
        lfind-store context.object_tree aco.id j aco',
        ==ℤ_iff object.id j,
        ==ℤ_iff aco.id j,
        still,
      ),
      refl,
    )
