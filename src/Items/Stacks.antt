-- ===== src/Items/Stacks.antt =====
-- list.c: the list as a stack of values for each key, which forgets the order between the keys, the
-- cached size and the cached greatest key.
use lynx_lwm2m.Base.{
  ℕ, suc, ◌≢◌, Run, ok, ◌>>=◌, ◌≡◌, refl, Option, none, some, List, [], ◌∷◌, if◌then◌else◌, ℤ,
  ◌==ℤ◌, ==ℤ_iff, arith, ap, ◌∙◌, is_some,
}
use lynx_lwm2m.Items.{
  Items, contains_from, find_from, lcontains, lfind, ladd, unlink_from, lremove, remove_items,
  store, store_from, Guarded, guarded_ladd, guarded_lremove, guarded_lfind, guarded_lcontains,
}

-- The operations that change a list.
pub data Operation (V : Type 0) : Type 0 where
  add : ℤ → V → Operation V
  remove : ℤ → Operation V
  write : ℤ → V → Operation V

module _ {V : Type 0} where
  abbrev pub top : List V → Option V
  top [] = none
  top (v ∷ vs) = some v

  abbrev pub pop : List V → List V
  pop [] = []
  pop (v ∷ vs) = vs

  abbrev pub replace_top : V → List V → List V
  replace_top v [] = []
  replace_top v (w ∷ vs) = v ∷ vs

  -- The values of a key, the latest first.
  unfoldable pub values_from : List (ℤ × V) → ℤ → List V
  values_from [] key = []
  values_from ((k, v) ∷ next) key =
      let rest = values_from next key in if k ==ℤ key then v ∷ rest else rest

  unfoldable pub stack_of : Items V → ℤ → List V
  unfolding values_from
  stack_of l key = values_from l.first key

  unfoldable pub apply : Operation V → Items V → Items V
  apply (add key value) l = ladd l key value
  apply (remove key) l = lremove l key
  apply (write key value) l = store l key value

  unfoldable pub run : List (Operation V) → Items V → Items V
  unfolding apply
  run [] l = l
  run (o ∷ os) l = run os (apply o l)

  -- What an operation means for the stack of one key.
  unfoldable pub on_stack : ℤ → Operation V → List V → List V
  on_stack j (add key value) vs = if key ==ℤ j then value ∷ vs else vs
  on_stack j (remove key) vs = if key ==ℤ j then pop vs else vs
  on_stack j (write key value) vs = if key ==ℤ j then replace_top value vs else vs

  unfoldable pub run_on_stack : ℤ → List (Operation V) → List V → List V
  unfolding on_stack
  run_on_stack j [] vs = vs
  run_on_stack j (o ∷ os) vs = run_on_stack j os (on_stack j o vs)

  values_from-unlink :
      (key j : ℤ) (l : List (ℤ × V))
      → values_from (unlink_from l key).0 j
        ≡ (if key ==ℤ j then pop (values_from l j) else values_from l j)
  unfolding values_from unlink_from
  values_from-unlink key j [] = ground arith
  values_from-unlink key j ((k, v) ∷ l) =
      ground (arith, ==ℤ_iff k key, ==ℤ_iff k j, ==ℤ_iff key j, values_from-unlink key j l)

  values_from-store :
      (key j : ℤ) (value : V) (l : List (ℤ × V))
      → values_from (store_from l key value) j
        ≡ (if key ==ℤ j then replace_top value (values_from l j) else values_from l j)
  unfolding values_from store_from
  values_from-store key j value [] = ground arith
  values_from-store key j value ((k, v) ∷ l) =
      ground (arith, ==ℤ_iff k key, ==ℤ_iff k j, ==ℤ_iff key j, values_from-store key j value l)

  values_from-remove :
      (key j : ℤ) (es : List (ℤ × V)) (l : Items V)
      → l.first ≡ es
      → values_from (remove_items es key l).first j
        ≡ (if key ==ℤ j then pop (values_from es j) else values_from es j)
  unfolding values_from remove_items
  values_from-remove key j [] l e = rw e (ground arith)
  values_from-remove key j ((k, v) ∷ next) l e =
      ground (arith, ==ℤ_iff k key, ==ℤ_iff k j, ==ℤ_iff key j, values_from-unlink key j next)

  apply-stack :
      (o : Operation V) (l : Items V) (j : ℤ) → stack_of (apply o l) j ≡ on_stack j o (stack_of l j)
  unfolding apply on_stack stack_of ladd lremove store
  apply-stack (add key value) l j = refl
  apply-stack (remove key) l j = values_from-remove key j l.first l refl
  apply-stack (write key value) l j = values_from-store key j value l.first

  run-stack :
      (os : List (Operation V)) (l : Items V) (j : ℤ)
      → stack_of (run os l) j ≡ run_on_stack j os (stack_of l j)
  unfolding run run_on_stack
  run-stack [] l j = refl
  run-stack (o ∷ os) l j = run-stack os (apply o l) j ∙ ap (run_on_stack j os) (apply-stack o l j)

  lfind-stack : (l : List (ℤ × V)) (j : ℤ) → find_from l j ≡ top (values_from l j)
  unfolding find_from values_from
  lfind-stack [] j = refl
  lfind-stack ((k, v) ∷ l) j = ground (arith, lfind-stack l j)

  lcontains-stack : (l : List (ℤ × V)) (j : ℤ) → contains_from l j ≡ is_some (top (values_from l j))
  unfolding contains_from values_from
  lcontains-stack [] j = refl
  lcontains-stack ((k, v) ∷ l) j = ground (arith, lcontains-stack l j)

  -- An operation on the list with its guard; a write goes through the pointer that `lfind` returns.
  unfoldable pub guarded_apply : Operation V → Guarded V → Run (Guarded V)
  guarded_apply (add key value) l = guarded_ladd l key value
  guarded_apply (remove key) l = guarded_lremove l key
  guarded_apply (write key value) l = do
    (found, l) ← guarded_lfind l key
    ok (record l { items = store l.items key value })

  unfoldable pub guarded_run : List (Operation V) → Guarded V → Run (Guarded V)
  unfolding guarded_apply
  guarded_run [] l = ok l
  guarded_run (o ∷ os) l = do l ← guarded_apply o l; guarded_run os l

  -- No removal meets an empty list, on which `lremove` keeps the guard.
  abbrev pub Applicable : Operation V → Items V → Type 0
  Applicable (remove key) l = l.first ≢ []
  Applicable _ l = Unit {0}

  abbrev pub AllApplicable : List (Operation V) → Items V → Type 0
  AllApplicable [] l = Unit {0}
  AllApplicable (o ∷ os) l = Applicable o l × AllApplicable os (apply o l)

  guarded_apply-apply :
      (o : Operation V) (l : Guarded V) (n : ℕ)
      → l.guard ≡ suc n
      → Applicable o l.items
      → guarded_apply o l ≡ ok (record l { items = apply o l.items })
  unfolding guarded_apply apply guarded_ladd guarded_lremove guarded_lfind
  guarded_apply-apply (add key value) l n e h = ground arith
  guarded_apply-apply (remove key) l n e h = ground arith
  guarded_apply-apply (write key value) l n e h = ground arith

  guarded_run-run :
      (os : List (Operation V)) (l : Guarded V) (n : ℕ)
      → l.guard ≡ suc n
      → AllApplicable os l.items
      → guarded_run os l ≡ ok (record l { items = run os l.items })
  unfolding guarded_run run
  guarded_run-run [] l n e h = refl
  guarded_run-run (o ∷ os) l n e (h, hs) =
      rw (guarded_apply-apply o l n e h)
        (guarded_run-run os (record l { items = apply o l.items }) n e hs)

  -- The list refines a stack of values for each key: after any sequence of `ladd`, `lremove` and
  -- writes through a found pointer, in which no removal meets an empty list, on a list whose guard is
  -- free: the sequence returns, `lfind` then finds the top of the stack that pushing, popping and
  -- replacing the top gives, `lcontains` tells whether there is one, and the guard is free again.
  pub items_refine_stacks :
      (os : List (Operation V)) (l : Guarded V) (n : ℕ) (j : ℤ)
      → l.guard ≡ suc n
      → AllApplicable os l.items
      → (m : Guarded V) × (guarded_run os l ≡ ok m)
        × (m.guard ≡ suc n)
        × (stack_of m.items j ≡ run_on_stack j os (stack_of l.items j))
        × (guarded_lfind m j ≡ ok (top (run_on_stack j os (stack_of l.items j)), m))
        × (guarded_lcontains m j ≡ ok (is_some (top (run_on_stack j os (stack_of l.items j))), m))
  unfolding guarded_lfind guarded_lcontains lfind lcontains stack_of
  items_refine_stacks os l n j e h =
      let m = record l { items = run os l.items } in
      let same = run-stack os l.items j in
      let found : find_from m.items.first j ≡ top (run_on_stack j os (stack_of l.items j)) =
        lfind-stack m.items.first j ∙ ap top same in
      let contained = lcontains-stack m.items.first j ∙ ap (λ vs. is_some (top vs)) same in
      (m, guarded_run-run os l n e h, e, same, rw (e, found) refl, rw (e, contained) refl)
