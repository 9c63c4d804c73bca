-- ===== src/Management/Create.antt =====
-- lwm2m_device_management.c: `on_instance_create`.
use lynx_lwm2m.Base.{
  ℕ, Bool, true, false, Option, none, some, List, [], ◌∷◌, if◌then◌else◌, ltb, ◌==ℤ◌, ℤ, pos,
  negsuc, is_some, length, Run, ok, fault, ◌>>=◌, deref,
}
use lynx_lwm2m.Items.{Items, list_new, ladd, lfind}
use lynx_lwm2m.Model.{
  Kind, no_kind, Cell, Resource, Instance, Object, Server, Context, Response, code_created,
  code_unauthorized, code_method_not_allowed,
}
use lynx_lwm2m.Libc.{Libc}
use lynx_lwm2m.Tlv.Parse.{parse_instance}
use lynx_lwm2m.AccessControl.{check_create_object_access_control}
use lynx_lwm2m.Object.{
  put_object, put_instance, instance_new, instance_new_with_id, instance_create_aco_instance,
}
use lynx_lwm2m.Object.Merge.{find_instance, merge_resources}
use lynx_lwm2m.Management.{lock_tree, unlock_tree, free_parsed_resources}
use lynx_lwm2m.Reporting.{empty_response}

abbrev is_no_kind : Kind → Bool
is_no_kind no_kind = true
is_no_kind _ = false

-- One round of the filter: `rest` goes on with the resources collected so far.
filter_found :
    Resource
    → Option Resource
    → Items Resource
    → (Items Resource → Option (Items Resource))
    → Option (Items Resource)
filter_found template none parsed rest = if template.mandatory then none else rest parsed
filter_found template (some found) parsed rest =
    rest (if is_no_kind template.kind then parsed else ladd parsed found.id found)

-- The parsed resources that are merged, or `none` where a mandatory one is missing.
unfoldable pub filter_parsed :
    List (ℤ × Resource) → Items Resource → Items Resource → Option (Items Resource)
unfolding filter_found
filter_parsed [] all_parsed parsed = some parsed
filter_parsed ((key, template) ∷ next) all_parsed parsed =
    filter_found template (lfind all_parsed key) parsed (λ p. filter_parsed next all_parsed p)

-- `*instance_id == -1` asks for an identifier.
unfoldable pub create_in : Object → ℤ → Object × Instance
unfolding instance_new instance_new_with_id
create_in object instance_id =
    if instance_id ==ℤ negsuc 0
    then instance_new object
    else instance_new_with_id object instance_id

module _ (c : Libc) (fuel : ℕ) (unset : Cell) where
  -- What follows once the instance is in the tree.
  unfoldable pub fill_instance :
      (now : ℤ) → Context → Server → Object → Instance → List ℕ → Run (Context × ℤ × Response)
  unfolding filter_parsed
  fill_instance now context server object i message =
      let merge = λ (parsed : Items Resource). (do
        context ←
            if ltb 1 context.servers.size
            then instance_create_aco_instance unset context server object i
            else ok context
        context ← merge_resources c now context object.id i.id parsed true true
        (object, merged) ← find_instance context object.id i.id
        ok (
          unlock_tree (put_object context (put_instance object (free_parsed_resources i merged))),
          i.id,
          empty_response code_created,
        )) in
      do
        all_parsed ← parse_instance c fuel object message 0 (pos (length message))
        elim (filter_parsed i.resources.first all_parsed list_new) [
          | none ↦ ok (context, i.id, empty_response code_method_not_allowed)
          | some parsed ↦ merge parsed
        ]

  -- The context, the value of `*instance_id` and the response. Where only one instance is allowed,
  -- the source sets the pointer `instance_id` to 0 and then reads through it. The early returns
  -- keep the lock.
  unfoldable pub on_instance_create :
      (now : ℤ)
      → Context
      → Server
      → (object_id instance_id : ℤ) → List ℕ
      → Run (Context × ℤ × Response)
  unfolding lock_tree unlock_tree create_in fill_instance
  on_instance_create now context server object_id instance_id message =
      let create = λ (context : Context) (object : Object).
        (let (object, i) = create_in object instance_id in
          fill_instance now (put_object context object) server object i message) in
      do
        context ← lock_tree context
        object ← deref (lfind context.object_tree object_id)
        granted ← check_create_object_access_control context server object
        if granted
            then (if object.multiple
                then (if is_some (lfind object.instances instance_id)
                    then ok (context, instance_id, empty_response code_method_not_allowed)
                    else create context object)
                else fault)
            else ok (context, instance_id, empty_response code_unauthorized)
