-- ===== src/Text.antt =====
-- lwm2m.c, and what the client uses of the C library's texts: `%d`, `atoi`, `strtok` and `sprintf`
-- into a buffer. A text is the list of its bytes without the final zero.
pub mod Decimal
pub mod Split
pub mod Same
use Prim.Native.Char.{code}
use Prim.Native.String.{String}
use lynx_lwm2m.Base.{
  ℕ, zero, suc, ◌+◌, ◌-◌, ◌*◌, ◌/◌, ◌%◌, Bool, true, false, ◌&&◌, ◌||◌, List, [], ◌∷◌, ◌++◌,
  if◌then◌else◌, ◌==◌, ltb, ℤ, pos, negsuc, length, Run, ok, fault, ◌>>=◌,
}

-- The bytes of an ASCII literal.
abbrev pub codes : String → List ℕ
codes String.[] = []
codes (String.◌∷◌ c s) = code c ∷ codes s

-- `!strcmp(s, t)`
unfoldable pub same_text : List ℕ → List ℕ → Bool
same_text [] [] = true
same_text [] (b ∷ t) = false
same_text (a ∷ s) [] = false
same_text (a ∷ s) (b ∷ t) = (a == b) && same_text s t

-- The decimal digits of a number in front of a text; `fuel` is at least the number of digits.
unfoldable pub digits_onto : (fuel : ℕ) → ℕ → List ℕ → List ℕ
digits_onto zero n acc = acc
digits_onto (suc fuel) n acc =
    let d = 48 + n % 10 in if ltb n 10 then d ∷ acc else digits_onto fuel (n / 10) (d ∷ acc)

-- `%d`
unfoldable pub print_int : ℤ → List ℕ
unfolding digits_onto
print_int (pos n) = digits_onto (suc n) n []
print_int (negsuc n) = b'-' ∷ digits_onto (suc (suc n)) (suc n) []

unfoldable pub is_digit : ℕ → Bool
is_digit b = ltb 47 b && ltb b 58

-- The number that the digits at the front of a text add to.
unfoldable pub read_digits : ℕ → List ℕ → ℕ
unfolding is_digit
read_digits n [] = n
read_digits n (b ∷ s) = if is_digit b then read_digits (n * 10 + (b - 48)) s else n

abbrev pub negated : ℕ → ℤ
negated zero = pos 0
negated (suc n) = negsuc n

unfoldable pub is_space : ℕ → Bool
is_space b = b == 32 || ltb 8 b && ltb b 14

unfoldable pub skip_spaces : List ℕ → List ℕ
unfolding is_space
skip_spaces [] = []
skip_spaces (b ∷ s) = if is_space b then skip_spaces s else b ∷ s

unfoldable pub read_signed : List ℕ → ℤ
unfolding read_digits
read_signed [] = pos 0
read_signed (b ∷ s) =
    if b == b'-'
    then negated (read_digits 0 s)
    else if b == b'+'
    then pos (read_digits 0 s)
    else pos (read_digits 0 (b ∷ s))

-- `atoi` of a number that an `int` holds.
unfoldable pub atoi : List ℕ → ℤ
unfolding skip_spaces read_signed
atoi s = read_signed (skip_spaces s)

-- Whether the digits at the front of the memory end before it does.
unfoldable pub digits_end : List ℕ → Bool
unfolding is_digit
digits_end [] = false
digits_end (b ∷ s) = if is_digit b then digits_end s else true

unfoldable pub signed_ends : List ℕ → Bool
unfolding digits_end
signed_ends [] = false
signed_ends (b ∷ s) = if b == b'-' || b == b'+' then digits_end s else digits_end (b ∷ s)

-- `atoi` at an address, given the memory from there on: a number that ends with the memory is read
-- beyond it.
unfoldable pub atoi_at : List ℕ → Run ℤ
unfolding skip_spaces signed_ends atoi
atoi_at s = if signed_ends (skip_spaces s) then ok (atoi s) else fault

-- The text cut at each separator, empty pieces included.
unfoldable pub cut : ℕ → List ℕ → List ℕ × List (List ℕ)
cut separator [] = ([], [])
cut separator (b ∷ s) =
    let (piece, pieces) = cut separator s in
    if b == separator then ([], piece ∷ pieces) else (b ∷ piece, pieces)

abbrev pub when_nonempty : List ℕ → List (List ℕ) → List (List ℕ)
when_nonempty [] pieces = pieces
when_nonempty (b ∷ s) pieces = (b ∷ s) ∷ pieces

unfoldable pub nonempty : List (List ℕ) → List (List ℕ)
nonempty [] = []
nonempty (piece ∷ pieces) = when_nonempty piece (nonempty pieces)

-- What the calls of `strtok` with one separator return, before NULL.
unfoldable pub strtok_all : ℕ → List ℕ → List (List ℕ)
unfolding cut nonempty
strtok_all separator s = let (piece, pieces) = cut separator s in nonempty (piece ∷ pieces)

-- `sprintf` or `strcat` into a buffer: beyond its end, with the final zero, is a fault.
unfoldable pub into_buffer : (size : ℕ) → List ℕ → Run (List ℕ)
into_buffer size s = if ltb (length s) size then ok s else fault

-- The buffer has 10 bytes.
unfoldable pub itoa : ℤ → Run (List ℕ)
unfolding print_int into_buffer
itoa num = into_buffer 10 (print_int num)
