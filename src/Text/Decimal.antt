-- ===== src/Text/Decimal.antt =====
-- lwm2m.c: the decimal text of a number, how long it is and that `atoi` reads it back.
use lynx_lwm2m.Base.{
  ℕ, zero, suc, ◌+◌, ◌*◌, ◌/◌, ◌%◌, ◌^◌, ◌≤◌, ◌<◌, ◌≡◌, ◌↔◌, refl, true, false, List, [], ◌∷◌, ◌==◌,
  ltb, ℤ, pos, negsuc, ◌≤ℤ◌, pos_part, neg_part, length, All, ok, arith, Bool-cases, inl, inr, ap,
  ◌∙◌,
}
use lynx_lwm2m.Text.Split.{Word, Free}
use lynx_lwm2m.Text.{
  digits_onto, print_int, is_digit, read_digits, read_signed, skip_spaces, atoi, into_buffer, itoa,
  negated,
}

is_digit-eq : (d : ℕ) → d < 10 → is_digit (48 + d) ≡ true
unfolding is_digit
is_digit-eq d h = ground arith

read_digits-cons :
    (n d : ℕ) (s : List ℕ) → d < 10 → read_digits n ((48 + d) ∷ s) ≡ read_digits (n * 10 + d) s
unfolding read_digits
read_digits-cons n d s h = rw (is_digit-eq d h) (ap (λ k. read_digits (n * 10 + k) s) (omega arith))

-- The number is read back, and the text after it goes on.
read_digits-onto :
    (fuel n : ℕ) (acc : List ℕ)
    → n < fuel
    → read_digits 0 (digits_onto fuel n acc) ≡ read_digits n acc
unfolding digits_onto
read_digits-onto zero n acc h = absurd (omega arith)
read_digits-onto (suc fuel) n acc h = elim (Bool-cases (ltb n 10)) [
  | inl small ↦
      rw small
        (read_digits-cons 0 (n % 10) acc (omega arith) ∙ ap (λ k. read_digits k acc) (ground arith))
  | inr large ↦ rw large (
      read_digits-onto fuel (n / 10) _ (ground arith)
      ∙ read_digits-cons (n / 10) (n % 10) acc (omega arith)
      ∙ ap (λ k. read_digits k acc) (omega arith))
]

-- Every byte of a text is a digit.
abbrev pub Digits : List ℕ → Type 0
Digits = All (λ b. is_digit b ≡ true)

digits_onto-Digits : (fuel n : ℕ) (acc : List ℕ) → Digits acc → Digits (digits_onto fuel n acc)
unfolding digits_onto
digits_onto-Digits zero n acc h = h
digits_onto-Digits (suc fuel) n acc h = elim (Bool-cases (ltb n 10)) [
  | inl small ↦ rw small (is_digit-eq (n % 10) (omega arith), h)
  | inr large ↦
      rw large (digits_onto-Digits fuel (n / 10) _ (is_digit-eq (n % 10) (omega arith), h))
]

read_signed_digit :
    (b : ℕ) (s : List ℕ) → is_digit b ≡ true → read_signed (b ∷ s) ≡ pos (read_digits 0 (b ∷ s))
unfolding read_signed is_digit
read_signed_digit b s h = ground arith

skip_spaces_digit : (b : ℕ) (s : List ℕ) → is_digit b ≡ true → skip_spaces (b ∷ s) ≡ b ∷ s
unfolding skip_spaces is_digit
skip_spaces_digit b s h = ground arith

atoi-Digits : (s : List ℕ) → Digits s → atoi s ≡ pos (read_digits 0 s)
unfolding atoi
atoi-Digits [] h = refl
atoi-Digits (b ∷ s) (h, hs) = rw (skip_spaces_digit b s h) (read_signed_digit b s h)

atoi_minus : (s : List ℕ) → atoi (b'-' ∷ s) ≡ negated (read_digits 0 s)
unfolding atoi
atoi_minus s = refl

read_digits_end : (n : ℕ) → read_digits n [] ≡ n
unfolding read_digits
read_digits_end n = refl

read_decimal : (n : ℕ) → read_digits 0 (digits_onto (suc n) n []) ≡ n
read_decimal n = read_digits-onto (suc n) n [] (omega arith) ∙ read_digits_end n

print_int_pos : (n : ℕ) → print_int (pos n) ≡ digits_onto (suc n) n []
unfolding print_int
print_int_pos n = refl

print_int_negsuc : (n : ℕ) → print_int (negsuc n) ≡ b'-' ∷ digits_onto (suc (suc n)) (suc n) []
unfolding print_int
print_int_negsuc n = refl

-- The number that a text was printed from is read from it.
pub atoi-print_int : (n : ℤ) → atoi (print_int n) ≡ n
atoi-print_int (pos n) =
    rw (print_int_pos n, atoi-Digits _ (digits_onto-Digits (suc n) n [] tt), read_decimal n) refl
atoi-print_int (negsuc n) = rw (print_int_negsuc n, atoi_minus, read_decimal (suc n)) refl

digits_onto_length :
    (fuel n : ℕ) (acc : List ℕ) → n < fuel → suc (length acc) ≤ length (digits_onto fuel n acc)
unfolding digits_onto
digits_onto_length zero n acc h = absurd (omega arith)
digits_onto_length (suc fuel) n acc h =
    ground (arith, digits_onto_length fuel (n / 10) ((48 + n % 10) ∷ acc))

pow_suc : (j : ℕ) → 10 ^ suc j ≡ 10 * 10 ^ j
pow_suc j = omega arith

pow_pos : (j : ℕ) → 1 ≤ 10 ^ j
pow_pos zero = omega arith
pow_pos (suc j) = omega (arith, pow_pos j, pow_suc j)

-- How many digits there are.
digits_onto_fits :
    (j fuel n : ℕ) (acc : List ℕ)
    → n < fuel
    → (length (digits_onto fuel n acc) ≤ suc j + length acc) ↔ (n < 10 ^ suc j)
unfolding digits_onto
digits_onto_fits j zero n acc h = absurd (omega arith)
digits_onto_fits zero (suc fuel) n acc h =
    let more = (48 + n % 10) ∷ acc in
    elim (Bool-cases (ltb n 10)) [
      | inl small ↦ rw small (ground arith)
      | inr large ↦ rw large (ground (arith, digits_onto_length fuel (n / 10) more))
    ]
digits_onto_fits (suc j) (suc fuel) n acc h =
    let more = (48 + n % 10) ∷ acc in
    elim (Bool-cases (ltb n 10)) [
      | inl small ↦ rw small (ground (arith, pow_suc (suc j), pow_suc j, pow_pos j))
      | inr large ↦
          rw large (ground (arith, pow_suc (suc j), digits_onto_fits j fuel (n / 10) more))
    ]

-- How long the text of a number is.
pub print_int_fits :
    (j : ℕ) (n : ℤ)
    → (length (print_int n) ≤ suc (suc j))
      ↔ ((pos_part n < 10 ^ suc (suc j)) × (neg_part n < 10 ^ suc j))
print_int_fits j (pos n) =
    rw (print_int_pos n) (ground (arith, digits_onto_fits (suc j) (suc n) n [], pow_pos (suc j)))
print_int_fits j (negsuc n) =
    rw (print_int_negsuc n)
      (ground (arith, digits_onto_fits j (suc (suc n)) (suc n) [], pow_pos (suc (suc j))))

-- The text that `itoa` makes fits its buffer exactly for the numbers from -99999999 to 999999999.
pub itoa_fits :
    (n : ℤ) → ((negsuc 99999998 ≤ℤ n) × (n ≤ℤ pos 999999999)) ↔ (itoa n ≡ ok (print_int n))
unfolding itoa into_buffer
itoa_fits (pos n) = rw (print_int_pos n) (ground (arith, digits_onto_fits 8 (suc n) n []))
itoa_fits (negsuc n) =
    rw (print_int_negsuc n) (ground (arith, digits_onto_fits 7 (suc (suc n)) (suc n) []))

-- A digit is no separator that is not one.
digit_not :
    (separator b : ℕ) → is_digit separator ≡ false → is_digit b ≡ true → (b == separator) ≡ false
unfolding is_digit
digit_not separator b other digit = ground arith

Digits-Free :
    (separator : ℕ) (s : List ℕ) → is_digit separator ≡ false → Digits s → Free separator s
Digits-Free separator [] other d = tt
Digits-Free separator (b ∷ s) other (d, ds) =
    (digit_not separator b other d, Digits-Free separator s other ds)

-- The text of a number that is not negative has none of these separators.
pub print_int-Free :
    (separator n : ℕ) → is_digit separator ≡ false → Free separator (print_int (pos n))
print_int-Free separator n other =
    rw (print_int_pos n) (Digits-Free separator _ other (digits_onto-Digits (suc n) n [] tt))

pub print_int-nonempty : (n : ℕ) → 1 ≤ length (print_int (pos n))
print_int-nonempty n = rw (print_int_pos n) (digits_onto_length (suc n) n [] (omega arith))

digit_not_slash : (b : ℕ) → is_digit b ≡ true → (b == b'/') ≡ false
unfolding is_digit
digit_not_slash b h = ground arith

minus-Word : (s : List ℕ) → Word b'/' s → Word b'/' (b'-' ∷ s)
minus-Word [] h = absurd h
minus-Word (b ∷ s) h = (refl, h)

Digits-Word : (s : List ℕ) → 1 ≤ length s → Digits s → Word b'/' s
Digits-Word [] h d = absurd (omega arith)
Digits-Word (b ∷ []) h (d, ds) = (digit_not_slash b d, tt)
Digits-Word (b ∷ c ∷ s) h (d, ds) = (digit_not_slash b d, Digits-Word (c ∷ s) (omega arith) ds)

-- The text of a number is a word of a topic.
pub print_int-Word : (n : ℤ) → Word b'/' (print_int n)
print_int-Word (pos n) = rw (print_int_pos n) (
    Digits-Word _ (digits_onto_length (suc n) n [] (omega arith))
      (digits_onto-Digits (suc n) n [] tt))
print_int-Word (negsuc n) = rw (print_int_negsuc n) (
    minus-Word _ (
      Digits-Word _ (digits_onto_length (suc (suc n)) (suc n) [] (omega arith))
        (digits_onto-Digits (suc (suc n)) (suc n) [] tt)))
