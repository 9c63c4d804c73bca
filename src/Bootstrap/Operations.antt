-- ===== src/Bootstrap/Operations.antt =====
-- lwm2m_bootstrap.c: the write operations, which need no access right and tell no server.
use lynx_lwm2m.Base.{
  ℕ, Bool, true, false, not, ◌&&◌, ◌||◌, none, some, List, [], ◌∷◌, if◌then◌else◌, ℤ, pos, length,
  is_some, Run, ok, ◌>>=◌, deref,
}
use lynx_lwm2m.Items.{Items, lfind, store}
use lynx_lwm2m.Model.{
  Kind, no_kind, Resource, Instance, Object, Context, code_created, code_changed,
  code_method_not_allowed,
}
use lynx_lwm2m.Tlv.Parse.{parse_resource, parse_multiple_resource, parse_instance, parse_object}
use lynx_lwm2m.Object.{put_object, put_instance, instance_new_with_id}
use lynx_lwm2m.Object.Merge.{find_instance, find_place, put_place, merge_resource, merge_resources}
use lynx_lwm2m.Management.{free_parsed_resource, free_parsed_resources}
use lynx_lwm2m.Transport.{Surroundings}

abbrev is_no_kind : Kind → Bool
is_no_kind no_kind = true
is_no_kind _ = false

-- Whether every mandatory resource is among the parsed ones.
unfoldable pub has_mandatory : List (ℤ × Resource) → Items Resource → Bool
has_mandatory [] parsed = true
has_mandatory ((key, template) ∷ next) parsed =
    (not (template.mandatory && not (is_no_kind template.kind)) || is_some (lfind parsed key))
    && has_mandatory next parsed

-- Where one instance is allowed, its identifier is 0, while its key stays.
unfoldable pub number_instance : Object → (key : ℤ) → Instance → Object
number_instance object key i =
    if object.multiple
    then object
    else record object { instances = store object.instances key (record i { id = pos 0 }) }

unfoldable pub number_created :
    Context → (object_id instance_id : ℤ) → (code : ℕ) → Run (Context × ℕ)
unfolding number_instance put_object
number_created context object_id instance_id code = do
  (object, i) ← find_instance context object_id instance_id
  ok (put_object context (number_instance object instance_id i), code)

module _ (env : Surroundings) where
  -- The instance is in the tree before the mandatory resources are looked for, and stays there. The
  -- identifier is set after the merge, which does not read it.
  unfoldable pub bootstrap_create_instance :
      Context → (object_id instance_id : ℤ) → Items Resource → Run (Context × ℕ)
  unfolding instance_new_with_id put_object has_mandatory number_created
  bootstrap_create_instance context object_id instance_id parsed = do
    object ← deref (lfind context.object_tree object_id)
    let (object, i) = instance_new_with_id object instance_id
    let context = put_object context object
    if has_mandatory i.resources.first parsed
        then (do
          context ← merge_resources env.libc env.now context object_id instance_id parsed true false
          number_created context object_id instance_id code_created)
        else number_created context object_id instance_id code_method_not_allowed

  object_write_loop : Context → (object_id : ℤ) → List (ℤ × Instance) → Run Context
  unfolding bootstrap_create_instance
  object_write_loop context object_id [] = ok context
  object_write_loop context object_id ((key, new_instance) ∷ next) =
      let merge =
        merge_resources env.libc env.now context object_id key new_instance.resources true false in
      let create = (do
        (context, code) ←
            bootstrap_create_instance context object_id new_instance.id new_instance.resources
        ok context) in
      do
        object ← deref (lfind context.object_tree object_id)
        context ← if is_some (lfind object.instances key) then merge else create
        object_write_loop context object_id next

  unfoldable pub on_bootstrap_object_write : Context → (object_id : ℤ) → List ℕ → Run (Context × ℕ)
  unfolding object_write_loop
  on_bootstrap_object_write context object_id message = do
    object ← deref (lfind context.object_tree object_id)
    parsed ← parse_object env.libc env.fuel object message (pos (length message))
    context ← object_write_loop context object_id parsed.first
    ok (context, code_changed)

  -- The parsed resources are merged into the instance that is there, and freed.
  unfoldable pub merge_into_instance :
      Context → (object_id instance_id : ℤ) → Instance → Items Resource → Run (Context × ℕ)
  merge_into_instance context object_id instance_id old_instance parsed = do
    context ← merge_resources env.libc env.now context object_id instance_id parsed true false
    (object, merged) ← find_instance context object_id instance_id
    ok (
      put_object context (put_instance object (free_parsed_resources old_instance merged)),
      code_changed,
    )

  unfoldable pub on_bootstrap_instance_write :
      Context → (object_id instance_id : ℤ) → List ℕ → Run (Context × ℕ)
  unfolding bootstrap_create_instance merge_into_instance
  on_bootstrap_instance_write context object_id instance_id message = do
    object ← deref (lfind context.object_tree object_id)
    parsed ← parse_instance env.libc env.fuel object message 0 (pos (length message))
    elim (lfind object.instances instance_id) [
      | none ↦ bootstrap_create_instance context object_id instance_id parsed
      | some old_instance ↦ merge_into_instance context object_id instance_id old_instance parsed
    ]

  -- Of a parsed multiple resource the identifier, the flag and the instances are set.
  unfoldable pub parse_for_write : Object → Resource → List ℕ → Run Resource
  parse_for_write object resource message =
      let fresh = record resource { cell = record (env.unset) { id = resource.id } } in
      if resource.multiple
      then (do
        instances ←
            parse_multiple_resource env.libc env.fuel object resource.id message 0
              (pos (length message))
        ok (record fresh { instances = some instances }))
      else parse_resource env.libc env.fuel object resource.id message (pos (length message))

  unfoldable pub on_bootstrap_resource_write :
      Context → (object_id instance_id resource_id : ℤ) → List ℕ → Run (Context × ℕ)
  unfolding parse_for_write
  on_bootstrap_resource_write context object_id instance_id resource_id message = do
    place ← find_place context object_id instance_id resource_id
    parsed ← parse_for_write place.object place.resource message
    (context, servers) ←
        merge_resource env.libc env.now context object_id instance_id resource_id parsed true false
    merged ← find_place context object_id instance_id resource_id
    ok (
      put_place context merged (free_parsed_resource place.resource merged.resource),
      code_changed,
    )
