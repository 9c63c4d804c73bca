-- ===== src/Items.antt =====
-- list.c: the linked list that the client uses as a map from an `int` key to a pointer.
pub mod Lookup
pub mod Guard
pub mod Store
pub mod Stacks
use lynx_lwm2m.Base.{
  ℕ, zero, suc, ◌+◌, ◌-◌, Bool, true, false, Option, none, some, List, [], ◌∷◌, if◌then◌else◌, ℤ,
  pos, negsuc, ◌==ℤ◌, ltb_ℤ, Run, ok, blocked, ◌>>=◌,
}

-- `struct list` without its guard: what the critical sections read and write.
pub record Items {ℓ} (V : Type ℓ) : Type ℓ where
  pub first : List (ℤ × V)
  pub size : ℕ
  pub greatest_key : ℤ

module _ {ℓ} {V : Type ℓ} where
  abbrev pub list_new : Items V
  list_new = record { first = []; size = 0; greatest_key = negsuc 0 }

  -- The `while` loops over `curr`, as recursions on the elements that are left.
  unfoldable pub contains_from : List (ℤ × V) → ℤ → Bool
  contains_from [] key = false
  contains_from ((k, v) ∷ next) key = if k ==ℤ key then true else contains_from next key

  unfoldable pub find_from : List (ℤ × V) → ℤ → Option V
  find_from [] key = none
  find_from ((k, v) ∷ next) key = if k ==ℤ key then some v else find_from next key

  unfoldable pub lcontains : Items V → ℤ → Bool
  unfolding contains_from
  lcontains l key = contains_from l.first key

  unfoldable pub lfind : Items V → ℤ → Option V
  unfolding find_from
  lfind l key = find_from l.first key

  unfoldable pub ladd : Items V → ℤ → V → Items V
  ladd l key value = record {
    first = (key, value) ∷ l.first;
    size = suc l.size;
    greatest_key = if ltb_ℤ l.greatest_key key then key else l.greatest_key;
  }

  -- The `for` loop that looks for the greatest key anew.
  unfoldable pub greatest_from : ℤ → List (ℤ × V) → ℤ
  greatest_from g [] = g
  greatest_from g ((k, v) ∷ next) = greatest_from (if ltb_ℤ g k then k else g) next

  -- The elements without the first one behind the head that has the key, and whether there was one.
  unfoldable pub unlink_from : List (ℤ × V) → ℤ → List (ℤ × V) × Bool
  unlink_from [] key = ([], false)
  unlink_from ((k, v) ∷ next) key =
      let (rest, found) = unlink_from next key in
      if k ==ℤ key then (next, true) else ((k, v) ∷ rest, found)

  -- `l->greatest_key` after a removal of `key`.
  unfoldable pub regreatest : ℤ → ℤ → List (ℤ × V) → ℤ
  unfolding greatest_from
  regreatest key g l = if key ==ℤ g then greatest_from (negsuc 0) l else g

  -- What is left of a list that is not empty.
  remove_items : List (ℤ × V) → ℤ → Items V → Items V
  unfolding unlink_from regreatest
  remove_items [] key l = l
  remove_items ((k, v) ∷ next) key l =
      if k ==ℤ key
      then record {
        first = next;
        size = l.size - 1;
        greatest_key = regreatest key l.greatest_key next;
      }
      else (let (rest, found) = unlink_from next key in
          record {
            first = (k, v) ∷ rest;
            size = if found then l.size - 1 else l.size;
            greatest_key = regreatest key l.greatest_key ((k, v) ∷ rest);
          })

  -- What `lremove` does to a list between its wait and its post. On an empty list the source has no
  -- post: `guarded_lremove` keeps the guard there.
  unfoldable pub lremove : Items V → ℤ → Items V
  unfolding remove_items
  lremove l key = remove_items l.first key l

module _ {ℓ} {V : Type ℓ} where
  unfoldable store_from : List (ℤ × V) → ℤ → V → List (ℤ × V)
  store_from [] key value = []
  store_from ((k, v) ∷ next) key value =
      if k ==ℤ key then (k, value) ∷ next else (k, v) ∷ store_from next key value

  -- A write through the pointer that `lfind` returned: the element now holds the new value.
  unfoldable pub store : Items V → ℤ → V → Items V
  unfolding store_from
  store l key value = record l { first = store_from l.first key value }

-- `struct list` with its guard, a semaphore that starts at 1.
pub record Guarded {ℓ} (V : Type ℓ) : Type ℓ where
  pub items : Items V
  pub guard : ℕ

module _ {ℓ} {V : Type ℓ} where
  take_guard : ℕ → Items V → Run (Guarded V)
  take_guard zero l = blocked
  take_guard (suc n) l = ok (record { items = l; guard = n })

  -- `sem_wait` on a guard at 0 waits for ever in a single thread: `blocked`.
  unfoldable pub sem_wait : Guarded V → Run (Guarded V)
  unfolding take_guard
  sem_wait l = take_guard l.guard l.items

  unfoldable pub sem_post : Guarded V → Guarded V
  sem_post l = record l { guard = suc l.guard }

  unfoldable pub guarded_lcontains : Guarded V → ℤ → Run (Bool × Guarded V)
  unfolding sem_wait sem_post lcontains
  guarded_lcontains l key = do held ← sem_wait l; ok (lcontains held.items key, sem_post held)

  unfoldable pub guarded_ladd : Guarded V → ℤ → V → Run (Guarded V)
  unfolding sem_wait sem_post ladd
  guarded_ladd l key value = do
    held ← sem_wait l
    ok (sem_post (record held { items = ladd held.items key value }))

  unfoldable pub guarded_lfind : Guarded V → ℤ → Run (Option V × Guarded V)
  unfolding sem_wait sem_post lfind
  guarded_lfind l key = do held ← sem_wait l; ok (lfind held.items key, sem_post held)

  -- On an empty list the function returns without `sem_post`.
  guarded_remove_items : List (ℤ × V) → ℤ → Guarded V → Guarded V
  unfolding sem_post lremove
  guarded_remove_items [] key held = held
  guarded_remove_items (e ∷ next) key held =
      sem_post (record held { items = lremove held.items key })

  unfoldable pub guarded_lremove : Guarded V → ℤ → Run (Guarded V)
  unfolding sem_wait guarded_remove_items
  guarded_lremove l key = do held ← sem_wait l; ok (guarded_remove_items held.items.first key held)
