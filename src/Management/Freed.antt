-- ===== src/Management/Freed.antt =====
-- lwm2m_device_management.c: `__free_parsed_resource` after a merge.
use lynx_lwm2m.Base.{
  ℕ, ◌≡◌, ◌≢◌, refl, sym, ◌∙◌, Bool, true, false, not, ◌&&◌, none, some, List, [], ◌∷◌, arith,
  if◌then◌else◌, ==ℤ_iff, ◌==ℤ◌, Bool-cases, inl, inr, ℤ, ok, fault, >>=-eq-ok,
}
use mathlib.Core.Option.{map}
use lynx_lwm2m.Items.{Items, ladd, list_new, lfind, find_from, lcontains}
use lynx_lwm2m.Model.{Cell, Resource, Server, Context}
use lynx_lwm2m.Libc.{Libc}
use lynx_lwm2m.Object.Merge.{merge_one, merge_instances, merge_values, add_servers}
use lynx_lwm2m.Tlv.Value.{serialize_value}
use lynx_lwm2m.Tlv.Serialize.{
  serialize_multiple_resource, multiple_elems, serialize_single_resource,
}
use lynx_lwm2m.Management.{mark_freed, free_added, free_parsed_resource}

-- A resource instance whose memory was given back.
abbrev pub given_back : Cell → Cell
given_back cell = record cell { freed = true }

-- What becomes of the memory of an entry.
abbrev marked : Items Cell → ℤ → Cell → Cell
marked before key cell = if cell.parsed && not (lcontains before key) then given_back cell else cell

mark_freed-find :
    (before : Items Cell) (l : List (ℤ × Cell)) (key : ℤ)
    → find_from (mark_freed before l) key ≡ map (marked before key) (find_from l key)
unfolding mark_freed find_from
mark_freed-find before [] key = refl
mark_freed-find before ((k, cell) ∷ l) key = elim (Bool-cases (k ==ℤ key)) [
  | inl here ↦ (let same = (==ℤ_iff k key).0 here in rw (here, same) refl)
  | inr other ↦ rw other (mark_freed-find before l key)
]

lfind_first :
    (key k : ℤ) (cell : Cell) (l : List (ℤ × Cell))
    → (k ==ℤ key) ≡ true
    → find_from ((k, cell) ∷ l) key ≡ some cell
unfolding find_from
lfind_first key k cell l h = rw h refl

serialize_freed : (cell : Cell) → cell.freed ≡ true → serialize_value cell ≡ fault
unfolding serialize_value
serialize_freed cell freed = rw freed refl

-- A list that holds a resource instance in freed memory is not serialized.
multiple_elems_freed :
    (l : List (ℤ × Cell)) (key : ℤ) (cell : Cell) (bytes : List ℕ)
    → find_from l key ≡ some cell
    → cell.freed ≡ true
    → multiple_elems l ≢ ok bytes
unfolding multiple_elems find_from serialize_single_resource serialize_value
multiple_elems_freed [] key cell bytes found freed run = cc
multiple_elems_freed ((k, first) ∷ l) key cell bytes found freed run =
    let (value, run1, run2) = >>=-eq-ok (serialize_single_resource first) _ run in
    let (rest, run3, run4) = >>=-eq-ok (multiple_elems l) _ run2 in
    elim (Bool-cases (k ==ℤ key)) [
      | inl here ↦
          (let same : first ≡ cell = ground (arith, here, found) in
            let runs : serialize_value cell ≡ ok value = rw (← same) run1 in
            fault_ne value (sym (serialize_freed cell freed) ∙ runs))
      | inr other ↦ multiple_elems_freed l key cell rest (ground (arith, other, found)) freed run3
    ]
  where
    fault_ne : (value : List ℕ) → fault ≢ ok value
    fault_ne value h = cc

-- Where the payload of a multiple resource carries one resource instance, which is not in the tree:
-- the merge returns and enters the parsed instance itself; freeing the parsed resource then gives the
-- memory of that entry back, and serializing the resource's instances never returns bytes.
pub free_parsed_resource-dangling :
    (c : Libc) (context : Context) (old new : Resource) (olds : Items Cell) (key : ℤ) (cell : Cell)
    (notify : Bool)
    → old.multiple ≡ true
    → old.instances ≡ some olds
    → new.instances ≡ some (ladd list_new key cell)
    → cell.id ≡ key
    → cell.parsed ≡ true
    → lcontains olds key ≡ false
    → lfind olds key ≡ none
    → (merged : Resource) × (told : Items Server) × (m : Items Cell) × (merge_values c context old
          new notify
        ≡ ok (merged, told))
      × ((free_parsed_resource old merged).instances ≡ some m)
      × (lfind m key ≡ some (given_back cell))
      × ((bytes : List ℕ) → serialize_multiple_resource m ≢ ok bytes)
unfolding merge_values merge_instances merge_one free_parsed_resource free_added lfind ladd
    serialize_multiple_resource
free_parsed_resource-dangling c context old new olds key cell notify several was is same parsed
      new_key absent =
    let entered = ladd olds cell.id cell in
    let m = record entered { first = mark_freed olds entered.first } in
    let here : find_from entered.first key ≡ some cell =
      rw (lfind_first key cell.id cell olds.first ((==ℤ_iff cell.id key).1 same)) refl in
    let entry : lfind m key ≡ some (given_back cell) =
      rw (mark_freed-find olds entered.first key, here, parsed, new_key) refl in
    (
      record old { instances = some entered },
      if notify then add_servers context.servers.first list_new else list_new,
      m,
      rw (several, was, is, absent) refl,
      rw was refl,
      entry,
      λ bytes.
          multiple_elems_freed (mark_freed olds entered.first) key (given_back cell) bytes entry
            refl,
    )
