-- ===== src/Tlv/Header.antt =====
-- The header of a TLV element: `parse_tlv_header` and `serialize_header`.
pub mod RoundTrip
use lynx_lwm2m.Base.{
  ℕ, zero, suc, ◌+◌, ◌-◌, ◌*◌, ◌/◌, ◌%◌, ◌^◌, ◌≤◌, ◌<◌, bit_and, bit_or, ◌≡◌, refl, Bool, true,
  false, not, List, [], ◌∷◌, ◌++◌, if◌then◌else◌, ltb, ◌==◌, ℤ, pos, negsuc, ◌+ℤ◌, ltb_ℤ,
  pattern_of, length, Run, ok, fault, ◌>>=◌,
}

-- The type bits in the first byte.
pub data TlvType : Type 0 where
  object_instance resource_instance multiple_resource resource : TlvType

abbrev pub type_bits : TlvType → ℕ
type_bits object_instance = 0b00000000
type_bits resource_instance = 0b01000000
type_bits multiple_resource = 0b10000000
type_bits resource = 0b11000000

pub record TlvHeader : Type 0 where
  pub type : ℕ
  pub length : ℤ
  pub id : ℤ

-- A `char` read as an `int`: char is signed on the x86-64 target.
abbrev pub char_value : ℕ → ℤ
char_value b = if ltb b 128 then pos b else negsuc (255 - b)

-- `x << 8` on an `int`.
abbrev pub shift8 : ℤ → ℤ
shift8 (pos n) = pos (n * 2 ^ 8)
shift8 (negsuc n) = negsuc ((n + 1) * 2 ^ 8 - 1)

-- A pointer into a message is the list of the bytes from there on. A read behind the last one is
-- a fault.
parse_id : ℕ → List ℕ → Run (ℤ × List ℕ)
parse_id id_len [] = fault
parse_id id_len (b ∷ []) = if id_len == 8 then ok (char_value b, []) else fault
parse_id id_len (b ∷ c ∷ input) =
    if id_len == 8
    then ok (char_value b, c ∷ input)
    else ok (shift8 (char_value c) +ℤ char_value b, input)

parse_length : ℕ → ℤ → List ℕ → Run (ℤ × List ℕ)
parse_length zero short input = ok (short, input)
parse_length (suc zero) short (b ∷ input) = ok (char_value b, input)
parse_length (suc (suc zero)) short (b ∷ c ∷ input) = ok (pos (b * 2 ^ 8 + c), input)
parse_length (suc (suc (suc n))) short (b ∷ c ∷ d ∷ input) =
    ok (pos (b * 2 ^ 16 + c * 2 ^ 8 + d), input)
parse_length n short input = fault

-- The header, and the bytes behind it.
unfoldable pub parse_tlv_header : List ℕ → Run (TlvHeader × List ℕ)
unfolding parse_id parse_length
parse_tlv_header [] = fault
parse_tlv_header (b ∷ input) =
    let id_len = if bit_and b 0b00100000 == 0 then 8 else 16 in
    let length_len = bit_and b 0b00011000 / 8 in
    do
      (id, input) ← parse_id id_len input
      (length, input) ← parse_length length_len (pos (bit_and b 0b00000111)) input
      ok (record { type = bit_and b 0b11000000; length = length; id = id }, input)

-- The last test compares as unsigned, and a value that is not negative and got there passes it.
unfoldable pub get_int_bytes : ℤ → ℕ
get_int_bytes value =
    if ltb_ℤ value (pos 0xff)
    then 1
    else if ltb_ℤ value (pos 0xffff)
    then 2
    else if ltb_ℤ value (pos 0xffffff)
    then 3
    else if ltb (pattern_of (2 ^ 32) value) 0xffffffff
    then 4
    else 8

id_field : ℤ → List ℕ
id_field id =
    if ltb_ℤ id (pos 0xff)
    then pattern_of 256 id ∷ []
    else pattern_of 256 id ∷ pattern_of (2 ^ 16) id / 2 ^ 8 ∷ []

-- The casts to unsigned char come before the shifts.
length_field : ℕ → ℕ → List ℕ
length_field bytes_required value_len =
    if bytes_required == 1
    then value_len % 256 ∷ []
    else if bytes_required == 2
    then value_len % 256 / 2 ^ 8 ∷ value_len % 256 ∷ []
    else if bytes_required == 3
    then value_len % 256 / 2 ^ 16 ∷ value_len % 256 / 2 ^ 8 ∷ value_len % 256 ∷ []
    else []

-- `message[0]`, where `wide` is the test on the identifier.
unfoldable pub first_byte : Bool → TlvType → ℕ → ℕ
unfolding get_int_bytes
first_byte wide type value_len =
    let start =
      bit_or (bit_or (bit_or 0 (type_bits type)) (if wide then 0b00100000 else 0b00000000))
        (if ltb value_len 8 then value_len else 0) in
    if ltb value_len 4
    then bit_or start (bit_and value_len 0b00000111)
    else bit_or start (get_int_bytes (pos value_len) * 2 ^ 3) % 256

-- The bytes of the header; `*message_len` is their number.
unfoldable pub serialize_header : ℤ → TlvType → ℕ → List ℕ
unfolding first_byte id_field length_field get_int_bytes
serialize_header id type value_len =
    first_byte (not (ltb_ℤ id (pos 0xff))) type value_len
    ∷ (id_field id
        ++ (if ltb value_len 4 then [] else length_field (get_int_bytes (pos value_len)) value_len))
