-- ===== src/Bootstrap/Missing.antt =====
-- lwm2m_bootstrap.c: a write that lacks a mandatory resource.
use lynx_lwm2m.Base.{◌≡◌, refl, true, false, some, ℤ, ok, ==ℤ-refl, ◌∙◌, ℕ}
use lynx_lwm2m.Items.{Items, lfind}
use lynx_lwm2m.Items.Lookup.{lfind-ladd}
use lynx_lwm2m.Items.Store.{lfind-store_eq}
use lynx_lwm2m.Model.{Resource, Instance, Object, Context, code_method_not_allowed}
use lynx_lwm2m.Object.{put_object, instance_new_with_id}
use lynx_lwm2m.Object.Merge.{find_instance}
use lynx_lwm2m.Transport.{Surroundings}
use lynx_lwm2m.Bootstrap.Operations.{
  has_mandatory, number_instance, number_created, bootstrap_create_instance,
}

found_put :
    (context : Context) (old object : Object) (i' : Instance) (o i : ℤ)
    → lfind context.object_tree o ≡ some old
    → object.id ≡ o
    → lfind object.instances i ≡ some i'
    → find_instance (put_object context object) o i ≡ ok (object, i')
unfolding find_instance put_object
found_put context old object i' o i found e h =
    rw (lfind-store_eq context.object_tree o object.id old object e found, h) refl

lfind-put_object :
    (context : Context) (old object : Object) (o : ℤ)
    → lfind context.object_tree o ≡ some old
    → object.id ≡ o
    → lfind (put_object context object).object_tree o ≡ some object
unfolding put_object
lfind-put_object context old object o found e =
    lfind-store_eq context.object_tree o object.id old object e found

new_instance_found :
    (object : Object) (i : ℤ)
    → lfind (instance_new_with_id object i).0.instances i ≡ some (instance_new_with_id object i).1
unfolding instance_new_with_id
new_instance_found object i = lfind-ladd object.instances i i _ ∙ rw (==ℤ-refl i) refl

new_instance_id : (object : Object) (i : ℤ) → (instance_new_with_id object i).0.id ≡ object.id
unfolding instance_new_with_id
new_instance_id object i = refl

new_instance_multiple :
    (object : Object) (i : ℤ) → (instance_new_with_id object i).0.multiple ≡ object.multiple
unfolding instance_new_with_id
new_instance_multiple object i = refl

number_created-multiple :
    (context : Context) (object : Object) (i' : Instance) (o i : ℤ) (code : ℕ)
    → find_instance context o i ≡ ok (object, i')
    → object.multiple ≡ true
    → number_created context o i code ≡ ok (put_object context object, code)
unfolding number_created number_instance
number_created-multiple context object i' o i code found multiple = rw (found, multiple) refl

-- The creation of an instance of an object of several ones, with parsed resources that lack a
-- mandatory one: the code is 405, and yet the empty instance is in the object afterwards.
pub bootstrap_create_instance-missing :
    (env : Surroundings) (context : Context) (object : Object) (o i : ℤ) (parsed : Items Resource)
    → lfind context.object_tree o ≡ some object
    → object.id ≡ o
    → object.multiple ≡ true
    → has_mandatory (instance_new_with_id object i).1.resources.first parsed ≡ false
    → (context' : Context) × (bootstrap_create_instance env context o i parsed
        ≡ ok (context', code_method_not_allowed))
      × (find_instance context' o i ≡ ok (instance_new_with_id object i))
unfolding bootstrap_create_instance
bootstrap_create_instance-missing env context object o i parsed found e multiple missing =
    let new = (instance_new_with_id object i).0 in
    let i' = (instance_new_with_id object i).1 in
    let once = put_object context new in
    let here = new_instance_found object i in
    let e' = new_instance_id object i ∙ e in
    (
      put_object once new,
      rw (found, missing)
          (number_created-multiple once new i' o i code_method_not_allowed
            (found_put context object new i' o i found e' here)
            (new_instance_multiple object i ∙ multiple)),
      found_put once new new i' o i (lfind-put_object context object new o found e') e' here,
    )
