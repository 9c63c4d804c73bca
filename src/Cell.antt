-- ===== src/Cell.antt =====
-- lwm2m_object.c, the functions that set a value without notifying: `__set_value_int` and its like.
-- Each returns the resource's new value and length, and the value that was there before.
use lynx_lwm2m.Base.{
  ℕ, zero, suc, Bool, not, Option, none, some, List, [], ◌∷◌, ◌++◌, if◌then◌else◌, ◌==◌, ℤ, pos,
  negsuc, pattern_of, length, Run, ok, fault, ◌>>=◌,
}
use lynx_lwm2m.Model.{
  Kind, integer, double, string, opaque, boolean, no_kind, link, Link, Value, double_value,
  int_value, bool_value, link_value, opaque_value, string_value, Cell,
}

-- A C string ends before its first zero byte.
unfoldable pub c_string : List ℕ → List ℕ
c_string [] = []
c_string (b ∷ s) = if b == 0 then [] else b ∷ c_string s

-- The C string at an address, given the memory from there on: where it has no zero byte, `strlen` and
-- `strcpy` read beyond it, a fault.
unfoldable pub read_string : List ℕ → Run (List ℕ)
read_string [] = fault
read_string (b ∷ s) = let rest = read_string s in if b == 0 then ok [] else map_cons b rest
  where
    map_cons : ℕ → Run (List ℕ) → Run (List ℕ)
    map_cons b rest = do s ← rest; ok (b ∷ s)

-- `memcpy` of `n` bytes: a negative number, or one beyond the end, is a fault.
unfoldable pub copy_bytes : ℕ → List ℕ → Run (List ℕ)
copy_bytes zero s = ok []
copy_bytes (suc n) [] = fault
copy_bytes (suc n) (b ∷ s) = do rest ← copy_bytes n s; ok (b ∷ rest)

unfoldable pub memcpy : List ℕ → ℤ → Run (List ℕ)
unfolding copy_bytes
memcpy s (pos n) = copy_bytes n s
memcpy s (negsuc n) = fault

-- The members of the union; the two `char *` members share their place, and so do the lowest byte
-- of `int_value` and `bool_value`. Any other member than the one written is not meant to be read.
abbrev pub as_int : Value → Run ℤ
as_int (int_value n) = ok n
as_int _ = fault

abbrev pub as_double : Value → Run (List ℕ)
as_double (double_value d) = ok d
as_double _ = fault

abbrev pub as_bool : Value → Run Bool
as_bool (bool_value b) = ok b
as_bool (int_value n) = ok (not (pattern_of 256 n == 0))
as_bool _ = fault

abbrev pub as_link : Value → Run Link
as_link (link_value l) = ok l
as_link _ = fault

abbrev pub as_bytes : Value → Run (List ℕ)
as_bytes (opaque_value s) = ok s
as_bytes (string_value s) = ok s
as_bytes _ = fault

abbrev pub stored : Cell → Value → ℤ → Cell × Option Value
stored cell value length = (record cell { value = some value; length = length }, cell.value)

unfoldable pub set_value_int : Cell → ℤ → Cell × Option Value
set_value_int cell value = stored cell (int_value value) (pos 0)

unfoldable pub set_value_double : Cell → List ℕ → Cell × Option Value
set_value_double cell value = stored cell (double_value value) (pos 0)

unfoldable pub set_value_bool : Cell → Bool → Cell × Option Value
set_value_bool cell value = stored cell (bool_value value) (pos 0)

unfoldable pub set_value_link : Cell → Link → Cell × Option Value
set_value_link cell value = stored cell (link_value value) (pos 0)

-- The copy has its final zero byte.
unfoldable pub set_value_string : Cell → List ℕ → Run (Cell × Option Value)
unfolding read_string
set_value_string cell value = do
  s ← read_string value
  ok (stored cell (string_value (s ++ 0 ∷ [])) (pos (length s)))

-- The address that is kept is the second one of a block of `length` bytes: the copy of one byte or
-- more runs over the block.
unfoldable pub set_value_opaque : Cell → List ℕ → ℤ → Run (Cell × Option Value)
set_value_opaque cell value (pos zero) = ok (stored cell (opaque_value []) (pos 0))
set_value_opaque cell value (pos (suc n)) = fault
set_value_opaque cell value (negsuc n) = fault

unfoldable pub set_null : Cell → Cell × Option Value
set_null cell = (record cell { value = none; length = pos 0 }, cell.value)

unfoldable pub set_by_kind : Kind → Cell → Value → ℤ → Run (Cell × Option Value)
unfolding set_value_int set_value_double set_value_bool set_value_link set_value_string
    set_value_opaque
set_by_kind integer cell value length = do n ← as_int value; ok (set_value_int cell n)
set_by_kind double cell value length = do d ← as_double value; ok (set_value_double cell d)
set_by_kind boolean cell value length = do b ← as_bool value; ok (set_value_bool cell b)
set_by_kind link cell value length = do l ← as_link value; ok (set_value_link cell l)
set_by_kind string cell value length = do s ← as_bytes value; set_value_string cell s
set_by_kind opaque cell value length = do s ← as_bytes value; set_value_opaque cell s length
set_by_kind no_kind cell value length = ok (cell, none)

unfoldable pub set_value : Cell → Option Value → ℤ → Run (Cell × Option Value)
unfolding set_by_kind set_null
set_value cell none length = ok (set_null cell)
set_value cell (some value) length = set_by_kind cell.kind cell value length

-- A pointer to a cell is followed: freed memory is not meant to be read.
abbrev pub follow : Cell → Run Cell
follow cell = if cell.freed then fault else ok cell
