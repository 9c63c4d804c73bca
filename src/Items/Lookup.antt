-- ===== src/Items/Lookup.antt =====
-- list.c: lookups after updates, and the well-formedness of the cached size and greatest key.
use lynx_lwm2m.Base.{
  ◌+◌, ◌≡◌, ◌≢◌, refl, inl, inr, true, ◌||◌, none, some, List, [], ◌∷◌, arith, if◌then◌else◌, ℤ,
  pos, negsuc, ◌+ℤ◌, ◌==ℤ◌, ltb_ℤ, ◌≤ℤ◌, ==ℤ_iff, ==ℤ-refl, length, Bool-cases, is_some, ap,
}
use lynx_lwm2m.Items.{
  Items, list_new, contains_from, find_from, lcontains, lfind, ladd, greatest_from, unlink_from,
  regreatest, lremove, remove_items,
}

-- Every key is at most `g`.
abbrev pub Bounded {ℓ} : {V : Type ℓ} → ℤ → List (ℤ × V) → Type 0
Bounded g [] = Unit {0}
Bounded g ((k, v) ∷ l) = (k ≤ℤ g) × Bounded g l

-- What the fields cache: the number of elements, and the greatest key or -1 if no key is above that.
pub record IsValid {ℓ} {V : Type ℓ} (l : Items V) : Type 0 where
  pub sized : l.size ≡ length l.first
  pub bounded : Bounded l.greatest_key l.first
  pub lowest : negsuc 0 ≤ℤ l.greatest_key
  pub attained : ((l.greatest_key ==ℤ negsuc 0) || contains_from l.first l.greatest_key) ≡ true

module _ {ℓ} {V : Type ℓ} where
  Bounded-mono : (g h : ℤ) (l : List (ℤ × V)) → g ≤ℤ h → Bounded g l → Bounded h l
  Bounded-mono g h [] le b = tt
  Bounded-mono g h ((k, v) ∷ l) le (b, bs) = (omega arith, Bounded-mono g h l le bs)

  greatest_from_le : (g : ℤ) (l : List (ℤ × V)) → g ≤ℤ greatest_from g l
  unfolding greatest_from
  greatest_from_le g [] = omega arith
  greatest_from_le g ((k, v) ∷ l) = ground (arith, greatest_from_le g l, greatest_from_le k l)

  greatest_from-Bounded : (g : ℤ) (l : List (ℤ × V)) → Bounded (greatest_from g l) l
  unfolding greatest_from
  greatest_from-Bounded g [] = tt
  greatest_from-Bounded g ((k, v) ∷ l) =
      let m = if ltb_ℤ g k then k else g in
      (ground (arith, greatest_from_le m l), greatest_from-Bounded m l)

  greatest_from_attained :
      (g : ℤ) (l : List (ℤ × V))
      → ((greatest_from g l ==ℤ g) || contains_from l (greatest_from g l)) ≡ true
  unfolding greatest_from contains_from
  greatest_from_attained g [] = ground arith
  greatest_from_attained g ((k, v) ∷ l) =
      ground (arith, greatest_from_attained k l, greatest_from_attained g l)

  unlink_from-Bounded :
      (g key : ℤ) (l : List (ℤ × V)) → Bounded g l → Bounded g (unlink_from l key).0
  unfolding unlink_from
  unlink_from-Bounded g key [] b = tt
  unlink_from-Bounded g key ((k, v) ∷ l) (b, bs) = elim (Bool-cases (k ==ℤ key)) [
    | inl hit ↦ rw hit bs
    | inr miss ↦ rw miss (b, unlink_from-Bounded g key l bs)
  ]

  find_from-unlink_ne :
      (key j : ℤ) (l : List (ℤ × V)) → key ≢ j → find_from (unlink_from l key).0 j ≡ find_from l j
  unfolding unlink_from find_from
  find_from-unlink_ne key j [] h = refl
  find_from-unlink_ne key j ((k, v) ∷ l) h =
      ground (arith, ==ℤ_iff k key, ==ℤ_iff k j, find_from-unlink_ne key j l h)

  contains_from-find : (j : ℤ) (l : List (ℤ × V)) → contains_from l j ≡ is_some (find_from l j)
  unfolding find_from contains_from
  contains_from-find j [] = refl
  contains_from-find j ((k, v) ∷ l) = ground (arith, contains_from-find j l)

  length-unlink :
      (key : ℤ) (l : List (ℤ × V))
      → length l ≡ length (unlink_from l key).0 + (if (unlink_from l key).1 then 1 else 0)
  unfolding unlink_from
  length-unlink key [] = refl
  length-unlink key ((k, v) ∷ l) = ground (arith, length-unlink key l)

  find_from-Bounded : (g j : ℤ) (l : List (ℤ × V)) → Bounded g l → contains_from l j ≡ true → j ≤ℤ g
  unfolding contains_from
  find_from-Bounded g j [] b h = absurd (cc)
  find_from-Bounded g j ((k, v) ∷ l) (b, bs) h =
      ground (arith, ==ℤ_iff k j, find_from-Bounded g j l bs)

  -- The cached key is what the recomputing loop would find.
  greatest_from-eq : {l : Items V} → IsValid l → greatest_from (negsuc 0) l.first ≡ l.greatest_key
  greatest_from-eq {l} v =
      let m = greatest_from (negsuc 0) l.first in
      ground (
        arith,
        v.lowest,
        v.attained,
        greatest_from_le (negsuc 0) l.first,
        greatest_from_attained (negsuc 0) l.first,
        find_from-Bounded l.greatest_key m l.first v.bounded,
        find_from-Bounded m l.greatest_key l.first (greatest_from-Bounded (negsuc 0) l.first),
      )

  pub list_new-IsValid : IsValid (list_new {V = V})
  unfolding contains_from
  list_new-IsValid = record { sized = refl; bounded = tt; lowest = omega arith; attained = refl }

  -- The list after `ladd` on a valid list is valid: size and greatest key are right again.
  pub ladd-IsValid : {l : Items V} (key : ℤ) (value : V) → IsValid l → IsValid (ladd l key value)
  unfolding ladd contains_from
  ladd-IsValid {l} key value v = record {
    sized = omega (arith, v.sized);
    bounded = (ground arith, Bounded-mono l.greatest_key _ l.first (ground arith) v.bounded);
    lowest = ground (arith, v.lowest);
    attained = ground (arith, v.attained, v.lowest, ==ℤ-refl key);
  }

  unlink_from-attained :
      (g key : ℤ) (l : List (ℤ × V))
      → key ≢ g
      → contains_from (unlink_from l key).0 g ≡ contains_from l g
  unlink_from-attained g key l h =
      rw (contains_from-find, contains_from-find, find_from-unlink_ne key g l h)

  regreatest-Bounded : (key g : ℤ) (l : List (ℤ × V)) → Bounded g l → Bounded (regreatest key g l) l
  unfolding regreatest
  regreatest-Bounded key g l b = elim (Bool-cases (key ==ℤ g)) [
    | inl hit ↦ rw hit (greatest_from-Bounded (negsuc 0) l)
    | inr miss ↦ rw miss b
  ]

  regreatest_lowest :
      (key g : ℤ) (l : List (ℤ × V)) → negsuc 0 ≤ℤ g → negsuc 0 ≤ℤ regreatest key g l
  unfolding regreatest
  regreatest_lowest key g l h = ground (arith, greatest_from_le (negsuc 0) l)

  regreatest_attained :
      (key g : ℤ) (l : List (ℤ × V))
      → (key ≢ g → ((g ==ℤ negsuc 0) || contains_from l g) ≡ true)
      → ((regreatest key g l ==ℤ negsuc 0) || contains_from l (regreatest key g l)) ≡ true
  unfolding regreatest
  regreatest_attained key g l h = elim (Bool-cases (key ==ℤ g)) [
    | inl hit ↦ rw hit (greatest_from_attained (negsuc 0) l)
    | inr miss ↦ rw miss (h (λ e. ground (arith, ==ℤ_iff key g)))
  ]

  contains_from-unlinked :
      (g k key : ℤ) (w : V) (next : List (ℤ × V))
      → key ≢ g
      → contains_from ((k, w) ∷ (unlink_from next key).0) g ≡ contains_from ((k, w) ∷ next) g
  unfolding contains_from
  contains_from-unlinked g k key w next h = rw (unlink_from-attained g key next h)

  -- The three fields after `lremove` on a list whose head does not match, and on one whose head does.
  remove_items-IsValid :
      (es : List (ℤ × V)) (key : ℤ) (l : Items V)
      → l.first ≡ es
      → IsValid l
      → IsValid (remove_items es key l)
  unfolding remove_items
  remove_items-IsValid [] key l e v = v
  remove_items-IsValid ((k, w) ∷ next) key l e v = elim (Bool-cases (k ==ℤ key)) [
    | inl hit ↦ rw hit (record {
      sized = omega (arith, v.sized, ap length e);
      bounded = regreatest-Bounded key l.greatest_key next bounded.1;
      lowest = regreatest_lowest key l.greatest_key next v.lowest;
      attained =
          regreatest_attained key l.greatest_key next
            (λ ne. ground (arith, attained, ==ℤ_iff k key, ==ℤ_iff k l.greatest_key));
    })
    | inr miss ↦ rw miss (record {
      sized = ground (arith, v.sized, ap length e, length-unlink key next);
      bounded =
          regreatest-Bounded key l.greatest_key ((k, w) ∷ (unlink_from next key).0)
            (bounded.0, unlink_from-Bounded l.greatest_key key next bounded.1);
      lowest = regreatest_lowest key l.greatest_key ((k, w) ∷ (unlink_from next key).0) v.lowest;
      attained =
          regreatest_attained key l.greatest_key ((k, w) ∷ (unlink_from next key).0)
            (λ ne. rw (contains_from-unlinked l.greatest_key k key w next ne) whole);
    })
  ]
    where
      bounded : Bounded l.greatest_key ((k, w) ∷ next)
      bounded = rw e at v.bounded

      whole : ((l.greatest_key ==ℤ negsuc 0) || contains_from ((k, w) ∷ next) l.greatest_key) ≡ true
      whole = rw e at v.attained

      attained :
          ((l.greatest_key ==ℤ negsuc 0)
            || (if k ==ℤ l.greatest_key then true else contains_from next l.greatest_key))
          ≡ true
      attained = unfold contains_from in whole

  -- For a valid list (its size is the number of its elements, its greatest key is the greatest of
  -- their keys, or -1 where no key is above that), the list after `lremove` is valid, whether or
  -- not the key is there.
  pub lremove-IsValid : {l : Items V} (key : ℤ) → IsValid l → IsValid (lremove l key)
  unfolding lremove
  lremove-IsValid {l} key v = remove_items-IsValid l.first key l refl v

  -- After `ladd` the key finds the new value, and every other key what it found before.
  pub lfind-ladd :
      (l : Items V) (key j : ℤ) (value : V)
      → lfind (ladd l key value) j ≡ (if key ==ℤ j then some value else lfind l j)
  unfolding lfind ladd
  lfind-ladd l key j value = refl

  find-remove_items :
      (es : List (ℤ × V)) (key j : ℤ) (l : Items V)
      → l.first ≡ es
      → key ≢ j
      → find_from (remove_items es key l).first j ≡ find_from es j
  unfolding remove_items find_from
  find-remove_items [] key j l e h = rw e
  find-remove_items ((k, v) ∷ next) key j l e h =
      ground (arith, ==ℤ_iff k key, ==ℤ_iff k j, find_from-unlink_ne key j next h)

  -- After `lremove` of a key, every other key finds what it found before.
  lfind-lremove_ne : (l : Items V) (key j : ℤ) → key ≢ j → lfind (lremove l key) j ≡ lfind l j
  unfolding lfind lremove
  lfind-lremove_ne l key j h = find-remove_items l.first key j l refl h

  -- On a valid list, `lremove` undoes the `ladd` of the same key: elements, size and greatest key
  -- are as before.
  pub lremove-ladd :
      (l : Items V) (key : ℤ) (value : V) → IsValid l → lremove (ladd l key value) key ≡ l
  unfolding lremove ladd remove_items regreatest
  lremove-ladd l key value v =
      ground (arith, ==ℤ-refl key, greatest_from-eq v, ==ℤ_iff key l.greatest_key)

  pub lcontains-lfind : (l : Items V) (key : ℤ) → lcontains l key ≡ is_some (lfind l key)
  unfolding lfind lcontains
  lcontains-lfind l key = contains_from-find key l.first

  -- `greatest_key + 1`, the identifier given to a new instance, is not in the list.
  pub greatest_key_fresh : {l : Items V} → IsValid l → lfind l (l.greatest_key +ℤ pos 1) ≡ none
  unfolding lfind
  greatest_key_fresh {l} v =
      let j = l.greatest_key +ℤ pos 1 in
      ground
        (arith, contains_from-find j l.first, find_from-Bounded l.greatest_key j l.first v.bounded)
