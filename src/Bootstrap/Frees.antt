-- ===== src/Bootstrap/Frees.antt =====
-- lwm2m_bootstrap.c: what the functions that free memory leave behind.
use mathlib.Core.Path.{subst}
use lynx_lwm2m.Base.{
  All, sym, ok-inj, ◌≡◌, ◌↔◌, refl, inl, inr, true, ◌||◌, ◌&&◌, Option, none, some, List, [], ◌∷◌,
  ℤ, arith, Run, ok, fault, ◌>>=◌, deref, is_some, >>=-eq-ok, ◌==ℤ◌, Bool-cases, ap, ◌∙◌,
}
use lynx_lwm2m.Items.{lfind, find_from}
use lynx_lwm2m.Model.{Attributes, Resource, Instance, Object, Context}
use lynx_lwm2m.Object.Merge.{Place, find_place, find_instance}
use lynx_lwm2m.Bootstrap.{
  free_attribute, free_attributes, freed_resources, free_instance, free_instances, delete_all_loop,
  on_bootstrap_delete_all,
}

-- Freeing an attribute is a fault, a pointer freed twice, exactly where `pmin` and another field are
-- set.
pub free_attribute_twice :
    (attribute : Attributes)
    → ((is_some attribute.pmin
          && (is_some attribute.pmax
              || is_some attribute.dim
              || is_some attribute.stp
              || is_some attribute.lt
              || is_some attribute.gt))
        ≡ true)
      ↔ (free_attribute attribute ≡ fault)
unfolding free_attribute
free_attribute_twice attribute = ground arith

abbrev IsFreed : ℤ × Resource → Type 0
IsFreed (key, resource) = resource.freed ≡ true

abbrev ResourcesFreed : ℤ × Instance → Type 0
ResourcesFreed (key, i) = All IsFreed i.resources.first

abbrev InstancesFreed : ℤ × Object → Type 0
InstancesFreed (key, object) = All ResourcesFreed object.instances.first

-- A value that is found is one of the list.
find_from-All :
    {V : Type 0} (P : ℤ × V → Type 0) (l : List (ℤ × V)) (j : ℤ) (v : V)
    → All P l
    → find_from l j ≡ some v
    → (k : ℤ) × P (k, v)
unfolding find_from
find_from-All P [] j v all found = absurd (cc)
find_from-All P ((k, w) ∷ l) j v (p, ps) found = elim (Bool-cases (k ==ℤ j)) [
  | inl hit ↦ (k, subst (λ x. P (k, x)) (cc (rw hit at found)) p)
  | inr miss ↦ find_from-All P l j v ps (rw miss at found)
]

freed_resources-All : (l : List (ℤ × Resource)) → All IsFreed (freed_resources l)
unfolding freed_resources
freed_resources-All [] = tt
freed_resources-All ((key, resource) ∷ l) = (refl, freed_resources-All l)

abbrev with_freed : Instance → Instance
with_freed i = record i {
  resources = record (i.resources) { first = freed_resources i.resources.first };
}

free_instance-IsFreed :
    (i freed : Instance) → free_instance i ≡ ok freed → All IsFreed freed.resources.first
unfolding free_instance
free_instance-IsFreed i freed returned =
    let (p, e, same) =
      >>=-eq-ok (free_attributes i.attributes.first) (λ p. ok (with_freed i)) returned in
    subst (λ (j : Instance). All IsFreed j.resources.first) (ok-inj same)
      (freed_resources-All i.resources.first)

free_instances-All :
    (l freed : List (ℤ × Instance)) → free_instances l ≡ ok freed → All ResourcesFreed freed
unfolding free_instances
free_instances-All [] freed returned = subst (All ResourcesFreed) (ok-inj returned) tt
free_instances-All ((key, i) ∷ l) freed returned =
    let later = λ (j : Instance). free_instances l >>= (λ rest. ok ((key, j) ∷ rest)) in
    let (j, e, r) = >>=-eq-ok (free_instance i) later returned in
    let (rest, e', same) = >>=-eq-ok (free_instances l) (λ rest. ok ((key, j) ∷ rest)) r in
    subst (All ResourcesFreed) (ok-inj same)
      (free_instance-IsFreed i j e, free_instances-All l rest e')

abbrev with_instances : Object → List (ℤ × Instance) → Object
with_instances object instances = record object {
  instances = record (object.instances) { first = instances };
}

delete_all_loop-All :
    (l freed : List (ℤ × Object)) → delete_all_loop l ≡ ok freed → All InstancesFreed freed
unfolding delete_all_loop
delete_all_loop-All [] freed returned = subst (All InstancesFreed) (ok-inj returned) tt
delete_all_loop-All ((key, object) ∷ l) freed returned =
    let join = λ (is : List (ℤ × Instance)) (rest : List (ℤ × Object)).
      ok ((key, with_instances object is) ∷ rest) in
    let later = λ (is : List (ℤ × Instance)). delete_all_loop l >>= join is in
    let (is, e, r) = >>=-eq-ok (free_instances object.instances.first) later returned in
    let (rest, e', same) = >>=-eq-ok (delete_all_loop l) (join is) r in
    subst (All InstancesFreed) (ok-inj same)
      (free_instances-All object.instances.first is e, delete_all_loop-All l rest e')

deref-ok : {A : Type 0} (o : Option A) (a : A) → deref o ≡ ok a → o ≡ some a
deref-ok none a e = absurd (cc)
deref-ok (some b) a e = ap some (ok-inj e)

abbrev Pair : Type 0
Pair = Object × Instance

found_instance :
    (context : Context) (o i : ℤ) (pair : Pair)
    → All InstancesFreed context.object_tree.first
    → find_instance context o i ≡ ok pair
    → All IsFreed pair.1.resources.first
unfolding find_instance lfind
found_instance context o i pair all found =
    let pair_with = λ (object : Object) (j : Instance). ok (object, j) in
    let later = λ (object : Object). deref (lfind object.instances i) >>= pair_with object in
    let (object, e, rest) = >>=-eq-ok (deref (lfind context.object_tree o)) later found in
    let (j, e', same) = >>=-eq-ok (deref (lfind object.instances i)) (pair_with object) rest in
    let (k, instances) =
      find_from-All InstancesFreed context.object_tree.first o object all (deref-ok _ object e) in
    let (k', resources) =
      find_from-All ResourcesFreed object.instances.first i j instances (deref-ok _ j e') in
    subst (λ (p : Pair). All IsFreed p.1.resources.first) (ok-inj same) resources

abbrev place_of : Pair → Resource → Run Place
place_of pair resource = ok (record { object = pair.0; instance' = pair.1; resource = resource })

found_place :
    (context : Context) (o i r : ℤ) (place : Place)
    → All InstancesFreed context.object_tree.first
    → find_place context o i r ≡ ok place
    → place.resource.freed ≡ true
unfolding find_place lfind
found_place context o i r place all found =
    let later = λ (pair : Pair). deref (lfind pair.1.resources r) >>= place_of pair in
    let (pair, e, rest) = >>=-eq-ok (find_instance context o i) later found in
    let (resource, e', same) = >>=-eq-ok (deref (lfind pair.1.resources r)) (place_of pair) rest in
    let (k, freed) =
      find_from-All IsFreed pair.1.resources.first r resource
        (found_instance context o i pair all e) (deref-ok _ resource e') in
    ap (λ (p : Place). p.resource.freed) (sym (ok-inj same)) ∙ freed

-- Where `on_bootstrap_delete_all` returns, every resource that is still found under some identifiers
-- is freed memory.
pub on_bootstrap_delete_all-freed :
    (context context' : Context) (o i r : ℤ) (place : Place)
    → on_bootstrap_delete_all context ≡ ok context'
    → find_place context' o i r ≡ ok place
    → place.resource.freed ≡ true
unfolding on_bootstrap_delete_all
on_bootstrap_delete_all-freed context context' o i r place returned found =
    let with_objects = λ (objects : List (ℤ × Object)).
      ok (record context { object_tree = record (context.object_tree) { first = objects } }) in
    let (objects, e, same) =
      >>=-eq-ok (delete_all_loop context.object_tree.first) with_objects returned in
    found_place context' o i r place
      (subst (λ (c : Context). All InstancesFreed c.object_tree.first) (ok-inj same)
        (delete_all_loop-All context.object_tree.first objects e))
      found
