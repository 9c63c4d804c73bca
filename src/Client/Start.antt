-- ===== src/Client/Start.antt =====
-- lwm2m_client.c: what the standard objects allow.
use mathlib.Core.Path.{subst}
use lynx_lwm2m.Base.{
  Bool, ◌≡◌, refl, false, true, Option, none, some, List, [], ◌∷◌, ℤ, pos, All, ◌==ℤ◌, ◌+ℤ◌,
  Bool-cases, inl, inr,
}
use lynx_lwm2m.Items.{Items, list_new, lfind, ladd}
use lynx_lwm2m.Items.Lookup.{lfind-ladd}
use lynx_lwm2m.Model.{Kind, Cell, ExecuteParam, Resource, Instance, op_read, op_write, op_execute}
use lynx_lwm2m.AccessControl.{check_resource_operation_supported}
use lynx_lwm2m.Object.{
  create_resources_from_def, resource_from_def, resources_loop, instance_new_with_id,
}
use lynx_lwm2m.Client.{definition, create_security_object_resources, standard_object}

-- No operation is supported.
abbrev pub Closed : Resource → Type 0
Closed resource =
    (check_resource_operation_supported resource op_read ≡ false)
    × (check_resource_operation_supported resource op_write ≡ false)
    × (check_resource_operation_supported resource op_execute ≡ false)

abbrev Found : Option Resource → Type 0
Found none = Unit {0}
Found (some resource) = Closed resource

Found-some :
    {o : Option Resource} {resource : Resource} → o ≡ some resource → Found o → Closed resource
Found-some e h = subst Found e h

Found-ladd :
    (id j : ℤ) (d : Resource) (resources : Items Resource)
    → Closed d
    → Found (lfind resources j)
    → Found (lfind (ladd resources id d) j)
Found-ladd id j d resources c h =
    rw (lfind-ladd resources id j d)
      (elim (Bool-cases (id ==ℤ j)) [ inl hit ↦ rw hit c | inr miss ↦ rw miss h ])

resource_from_def-Closed : (d : Resource) → Closed d → Closed (resource_from_def d)
unfolding resource_from_def check_resource_operation_supported
resource_from_def-Closed d c = c

resources_loop-Closed :
    (definitions : List Resource) (id j : ℤ) (resources : Items Resource)
    → All Closed definitions
    → Found (lfind resources j)
    → Found (lfind (resources_loop id definitions resources) j)
unfolding resources_loop
resources_loop-Closed [] id j resources all h = h
resources_loop-Closed (d ∷ ds) id j resources (c, cs) h =
    resources_loop-Closed ds (id +ℤ pos 1) j _ cs
      (Found-ladd id j (resource_from_def d) resources (resource_from_def-Closed d c) h)

list_new-Found : (j : ℤ) → Found (lfind (list_new {V = Resource}) j)
unfolding lfind
list_new-Found j = tt

definition-Closed :
    (unset : Option (Items ExecuteParam → Cell → Cell)) (id : ℤ) (kind : Kind)
    (multiple mandatory : Bool)
    → Closed (definition unset id kind multiple mandatory 0)
unfolding definition check_resource_operation_supported
definition-Closed unset id kind multiple mandatory = (refl, refl, refl)

security-Closed :
    (unset : Option (Items ExecuteParam → Cell → Cell))
    → All Closed (create_security_object_resources unset)
unfolding create_security_object_resources
security-Closed unset =
    let closed = definition-Closed unset in
    (
      closed _ _ _ _,
      (
        closed _ _ _ _,
        (
          closed _ _ _ _,
          (
            closed _ _ _ _,
            (
              closed _ _ _ _,
              (
                closed _ _ _ _,
                (
                  closed _ _ _ _,
                  (
                    closed _ _ _ _,
                    (
                      closed _ _ _ _,
                      (closed _ _ _ _, (closed _ _ _ _, (closed _ _ _ _, (closed _ _ _ _, tt)))),
                    ),
                  ),
                ),
              ),
            ),
          ),
        ),
      ),
    )

-- An instance of the security object, made under a key.
abbrev pub security_instance : Option (Items ExecuteParam → Cell → Cell) → ℤ → Instance
security_instance unset key =
    let object = standard_object unset (pos 0) true (create_security_object_resources unset) in
    (instance_new_with_id object key).1

-- Whatever identifier an instance of the standard security object gets, no resource of it supports
-- that a server reads, writes or executes it.
pub security_instance-Closed :
    (unset : Option (Items ExecuteParam → Cell → Cell)) (key j : ℤ) (resource : Resource)
    → lfind (security_instance unset key).resources j ≡ some resource
    → Closed resource
unfolding instance_new_with_id create_resources_from_def standard_object
security_instance-Closed unset key j resource found = Found-some found (
    resources_loop-Closed (create_security_object_resources unset) (pos 0) j list_new
      (security-Closed unset) (list_new-Found j))
