-- ===== src/Items/Store.antt =====
-- list.c: writes through the pointers that `lfind` returned.
use lynx_lwm2m.Base.{
  ◌≡◌, ◌≢◌, none, some, is_some, List, [], ◌∷◌, arith, if◌then◌else◌, ℤ, ◌==ℤ◌, ==ℤ_iff,
}
use lynx_lwm2m.Items.{Items, find_from, store_from, lfind, store}

module _ {ℓ} {V : Type ℓ} where
  find_from-store_from :
      (l : List (ℤ × V)) (key j : ℤ) (value : V)
      → find_from (store_from l key value) j ≡ (
          if key ==ℤ j
          then (if is_some (find_from l j) then some value else none)
          else find_from l j)
  unfolding find_from store_from
  find_from-store_from [] key j value = ground arith
  find_from-store_from ((k, v) ∷ l) key j value =
      ground (arith, find_from-store_from l key j value, ==ℤ_iff k key, ==ℤ_iff k j, ==ℤ_iff key j)

  -- After a write through the pointer to the key's element, the key, if it was there, finds the
  -- new value, and every other key what it found before.
  pub lfind-store :
      (l : Items V) (key j : ℤ) (value : V)
      → lfind (store l key value) j
        ≡ (if key ==ℤ j then (if is_some (lfind l j) then some value else none) else lfind l j)
  unfolding lfind store
  lfind-store l key j value = find_from-store_from l.first key j value

  -- A write through a pointer that was found, under the identifier that the element has.
  pub lfind-store_eq :
      (l : Items V) (key id : ℤ) (old value : V)
      → id ≡ key
      → lfind l key ≡ some old
      → lfind (store l id value) key ≡ some value
  lfind-store_eq l key id old value e h =
      rw (lfind-store l id key value) (ground (arith, ==ℤ_iff id key, e, h))

  pub lfind-store_ne :
      (l : Items V) (key j : ℤ) (value : V) → key ≢ j → lfind (store l key value) j ≡ lfind l j
  lfind-store_ne l key j value ne = ground (arith, lfind-store l key j value, ==ℤ_iff key j)
