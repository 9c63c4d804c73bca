-- ===== src/Tlv/Value/Typed.antt =====
-- lwm2m_parser_deserialize.c and lwm2m_object.c: a parsed value suits the kind it was parsed for.
use mathlib.Core.Path.{subst}
use lynx_lwm2m.Base.{
  ℕ, zero, suc, not, ◌≡◌, refl, Option, some, List, [], ◌∷◌, ℤ, pos, negsuc, ◌==ℤ◌, length, ok,
  ◌>>=◌, >>=-eq-ok, ok-inj, drop, fault, Bool, true, false, arith, ◌++◌, ◌==◌, if◌then◌else◌, inl,
  inr, ◌⊎◌,
}
use lynx_lwm2m.Model.{
  Kind, integer, double, string, opaque, boolean, no_kind, link, Value, double_value, int_value,
  bool_value, link_value, string_value, Cell,
}
use lynx_lwm2m.Libc.{Libc}
use lynx_lwm2m.Cell.{
  memcpy, read_string, set_by_kind, set_value, set_value_opaque, set_value_string, stored,
}
use lynx_lwm2m.Tlv.Value.{parse_int, parse_double, parse_value}

-- A string that ends where a zero byte was put is read.
read_string_ends : (s : List ℕ) → (t : List ℕ) × (read_string (s ++ 0 ∷ []) ≡ ok t)
unfolding read_string
read_string_ends [] = ([], refl)
read_string_ends (b ∷ s) =
    let (t, e) = read_string_ends s in (if b == 0 then [] else b ∷ t, rw e (ground arith))

-- The assignment returns.
abbrev Settable : Kind → Cell → ℤ → Value → Type 0
Settable kind cell len value =
    (result : Cell × Option Value) × (set_by_kind kind cell value len ≡ ok result)

-- The copy of an opaque value runs over its block.
abbrev pub overruns : Kind → ℤ → Bool
overruns opaque (pos zero) = false
overruns opaque (pos (suc n)) = true
overruns opaque (negsuc n) = true
overruns _ len = false

-- The assignment is a fault where the copy runs over its block, and else returns.
abbrev Assigned : Kind → Cell → ℤ → Value → Type 0
Assigned kind cell len value =
    ((overruns kind len ≡ false) × Settable kind cell len value)
    ⊎ ((overruns kind len ≡ true) × (set_by_kind kind cell value len ≡ fault))

set_opaque : (cell : Cell) (len : ℤ) (s : List ℕ) → Assigned opaque cell len (string_value s)
unfolding set_by_kind set_value_opaque
set_opaque cell (pos zero) s = inl (refl, (_, refl))
set_opaque cell (pos (suc n)) s = inr (refl, refl)
set_opaque cell (negsuc n) s = inr (refl, refl)

set_string :
    (cell : Cell) (len : ℤ) (s : List ℕ) → Settable string cell len (string_value (s ++ 0 ∷ []))
unfolding set_by_kind set_value_string
set_string cell len s =
    let (t, e) = read_string_ends s in
    (stored cell (string_value (t ++ 0 ∷ [])) (pos (length t)), rw e refl)

parsed-Settable :
    (c : Libc) (kind : Kind) (cell : Cell) (message : List ℕ) (len : ℤ) (value : Value)
    → parse_value c message len kind ≡ ok value
    → Assigned kind cell len value
unfolding parse_value set_by_kind
parsed-Settable c integer cell message len value returned =
    let (n, e, same) = >>=-eq-ok (parse_int message len) (λ n. ok (int_value n)) returned in
    subst (Assigned integer cell len) (ok-inj same) (inl (refl, (_, refl)))
parsed-Settable c double cell message len value returned =
    let (d, e, same) = >>=-eq-ok (parse_double c message len) (λ d. ok (double_value d)) returned in
    subst (Assigned double cell len) (ok-inj same) (inl (refl, (_, refl)))
parsed-Settable c string cell message len value returned =
    let (s, e, same) =
      >>=-eq-ok (memcpy message len) (λ s. ok (string_value (s ++ 0 ∷ []))) returned in
    subst (Assigned string cell len) (ok-inj same) (inl (refl, set_string cell len s))
parsed-Settable c opaque cell message len value returned =
    let (s, e, same) =
      >>=-eq-ok (memcpy message len) (λ s. ok (string_value (s ++ 0 ∷ []))) returned in
    subst (Assigned opaque cell len) (ok-inj same) (set_opaque cell len (s ++ 0 ∷ []))
parsed-Settable c boolean cell message len value returned =
    let (n, e, same) =
      >>=-eq-ok (parse_int message len) (λ n. ok (bool_value (not (n ==ℤ pos 0)))) returned in
    subst (Assigned boolean cell len) (ok-inj same) (inl (refl, (_, refl)))
parsed-Settable c link cell message len value returned =
    let link_of = λ (o i : ℤ). ok (link_value (record { object_id = o; instance_id = i })) in
    let later = λ (o : ℤ). parse_int message (pos 2) >>= link_of o in
    let (o, e, rest) = >>=-eq-ok (parse_int (drop 2 message) (pos 2)) later returned in
    let (i, e', same) = >>=-eq-ok (parse_int message (pos 2)) (link_of o) rest in
    subst (Assigned link cell len) (ok-inj same) (inl (refl, (_, refl)))
parsed-Settable c no_kind cell message len value returned = inl (refl, (_, refl))

-- A TLV value that was parsed for a resource is assigned to that resource. If it is opaque and its
-- length is not 0, the assignment is a fault, the copy running over its block. If not, the assignment
-- returns: it reads the member of the union that the parser has written, and a string to the zero byte
-- that the parser has put behind it.
pub set_value-parse_value :
    (c : Libc) (cell : Cell) (message : List ℕ) (len : ℤ) (value : Value)
    → parse_value c message len cell.kind ≡ ok value
    → ((overruns cell.kind len ≡ false)
        × ((result : Cell × Option Value) × (set_value cell (some value) len ≡ ok result)))
      ⊎ ((overruns cell.kind len ≡ true) × (set_value cell (some value) len ≡ fault))
unfolding set_value
set_value-parse_value c cell message len value returned =
    parsed-Settable c cell.kind cell message len value returned
