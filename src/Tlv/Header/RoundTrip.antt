-- ===== src/Tlv/Header/RoundTrip.antt =====
-- What `parse_tlv_header` reads from what `serialize_header` wrote.
use mathlib.Core.List.{append_assoc}
use lynx_lwm2m.Base.{
  sym, ◌∙◌, ℕ, ◌*◌, ◌/◌, ◌%◌, ◌^◌, ◌≤◌, ◌<◌, bit_and, bit_or, ◌≡◌, ◌↔◌, ◌⊎◌, inl, inr, refl, Bool,
  true, false, not, ◌&&◌, List, [], ◌∷◌, ◌++◌, if◌then◌else◌, ltb, ◌==◌, ℤ, pos, ltb_ℤ, ok, arith,
  all_below, all_below_sound, Bool-cases, ◌+ℤ◌,
}
use lynx_lwm2m.Tlv.Header.{
  TlvType, object_instance, resource_instance, multiple_resource, resource, type_bits, char_value,
  shift8, parse_id, parse_length, parse_tlv_header, get_int_bytes, id_field, length_field,
  first_byte, serialize_header,
}

-- The four fields of a first byte.
abbrev fields_agree : TlvType → Bool → ℕ → ℕ → ℕ → Bool
fields_agree type wide length_len low b =
    (bit_and b 0b11000000 == type_bits type)
    && ((bit_and b 0b00100000 == (if wide then 0b00100000 else 0))
        && ((bit_and b 0b00011000 / 8 == length_len) && (bit_and b 0b00000111 == low)))

record Fields (type : TlvType) (wide : Bool) (length_len low b : ℕ) : Type 0 where
  type_eq : bit_and b 0b11000000 ≡ type_bits type
  wide_eq : (bit_and b 0b00100000 == 0) ≡ not wide
  length_len_eq : bit_and b 0b00011000 / 8 ≡ length_len
  low_eq : bit_and b 0b00000111 ≡ low

Fields-fields_agree :
    (type : TlvType) (wide : Bool) (length_len low b : ℕ)
    → fields_agree type wide length_len low b ≡ true
    → Fields type wide length_len low b
Fields-fields_agree type wide length_len low b h = ground arith

-- Where the length goes: its number of bytes behind the identifier, and the three low bits.
abbrev length_bytes : ℕ → ℕ
length_bytes n = if ltb n 4 then 0 else get_int_bytes (pos n)

abbrev low_bits : ℕ → ℕ
low_bits n = if ltb n 8 then n else 0

small_table :
    (type : TlvType) (wide : Bool)
    → all_below 8 (λ n. fields_agree type wide (length_bytes n) n (first_byte wide type n)) ≡ true
unfolding all_below first_byte get_int_bytes
small_table object_instance true = refl
small_table object_instance false = refl
small_table resource_instance true = refl
small_table resource_instance false = refl
small_table multiple_resource true = refl
small_table multiple_resource false = refl
small_table resource true = refl
small_table resource false = refl

abbrev large_byte : Bool → TlvType → ℕ → ℕ
large_byte wide type k =
    bit_or (bit_or (bit_or (bit_or 0 (type_bits type)) (if wide then 0b00100000 else 0b00000000)) 0)
      (k * 2 ^ 3)
    % 256

large_table :
    (type : TlvType) (wide : Bool)
    → all_below 4 (λ k. fields_agree type wide k 0 (large_byte wide type k)) ≡ true
unfolding all_below
large_table object_instance true = refl
large_table object_instance false = refl
large_table resource_instance true = refl
large_table resource_instance false = refl
large_table multiple_resource true = refl
large_table multiple_resource false = refl
large_table resource true = refl
large_table resource false = refl

get_int_bytes-le : (n : ℕ) → n < 0xffffff → get_int_bytes (pos n) < 4
unfolding get_int_bytes
get_int_bytes-le n h = ground arith

first_byte-large :
    (type : TlvType) (wide : Bool) (n : ℕ)
    → 8 ≤ n
    → first_byte wide type n ≡ large_byte wide type (get_int_bytes (pos n))
unfolding first_byte
first_byte-large type wide n h =
    let e : ltb n 8 ≡ false = ground arith in let e' : ltb n 4 ≡ false = ground arith in rw (e, e')

first_byte-Fields :
    (type : TlvType) (wide : Bool) (n : ℕ)
    → n < 0xffffff
    → Fields type wide (length_bytes n) (low_bits n) (first_byte wide type n)
first_byte-Fields type wide n h = elim (Bool-cases (ltb n 8)) [
  | inl small ↦ rw small (
      Fields-fields_agree type wide _ n _ (
        all_below_sound 8 (λ n. fields_agree type wide (length_bytes n) n (first_byte wide type n))
          n (ground arith) (small_table type wide)))
  | inr large ↦
      let e : ltb n 4 ≡ false = ground arith in
      rw (first_byte-large type wide n (ground arith), large, e)
        (Fields-fields_agree type wide _ 0 _ (
          all_below_sound 4 (λ k. fields_agree type wide k 0 (large_byte wide type k)) _
            (get_int_bytes-le n h) (large_table type wide)))
]

-- What is read for an identifier that was written: a byte is read as a signed `char`.
abbrev pub decoded_id : ℕ → ℤ
decoded_id id =
    if ltb id 0xff then char_value id else shift8 (char_value (id / 256)) +ℤ char_value (id % 256)

-- What is read for a length that was written: its lowest byte, as a signed `char` below 0xff.
abbrev pub decoded_length : ℕ → ℤ
decoded_length n = if ltb n 4 then pos n else if ltb n 0xff then char_value n else pos (n % 256)

parse_id_fields :
    (id : ℕ) (rest : List ℕ)
    → id < 2 ^ 16
    → parse_id (if not (not (ltb_ℤ (pos id) (pos 0xff))) then 8 else 16) (id_field (pos id) ++ rest)
      ≡ ok (decoded_id id, rest)
unfolding parse_id id_field
parse_id_fields id [] h = ground arith
parse_id_fields id (b ∷ rest) h = ground arith

parse_length_fields :
    (n : ℕ) (rest : List ℕ)
    → n < 0xffffff
    → parse_length
        (length_bytes n)
        (pos (low_bits n))
        ((if ltb n 4 then [] else length_field (get_int_bytes (pos n)) n) ++ rest)
      ≡ ok (decoded_length n, rest)
unfolding parse_length length_field get_int_bytes
parse_length_fields n rest h = ground arith

-- Reading a written header gives the type, and the identifier and the length up to the loss above,
-- and stops behind the header, whatever follows.
pub parse-serialize_header :
    (id n : ℕ) (type : TlvType) (rest : List ℕ)
    → id < 2 ^ 16
    → n < 0xffffff
    → parse_tlv_header (serialize_header (pos id) type n ++ rest)
      ≡ ok (record { type = type_bits type; length = decoded_length n; id = decoded_id id }, rest)
unfolding parse_tlv_header serialize_header
parse-serialize_header id n type rest hid hn =
    let wide = not (ltb_ℤ (pos id) (pos 0xff)) in
    let f : Fields type wide (length_bytes n) (low_bits n) (first_byte wide type n) =
      first_byte-Fields type wide n hn in
    let tail = (if ltb n 4 then [] else length_field (get_int_bytes (pos n)) n) in
    rw (
      f.type_eq,
      f.wide_eq,
      f.length_len_eq,
      f.low_eq,
      append_assoc,
      parse_id_fields id (tail ++ rest) hid,
      parse_length_fields n rest hn,
    )

-- A byte identifier below 128, or two bytes that are each below 128, is read as it was written.
abbrev pub IdFits : ℕ → Type 0
IdFits id = (id < 128) ⊎ ((255 ≤ id) × (id % 256 < 128) × (id / 256 < 128))

abbrev pub LengthFits : ℕ → Type 0
LengthFits n = (n < 128) ⊎ (n ≡ 255)

decoded_id_iff : (id : ℕ) → id < 2 ^ 16 → (decoded_id id ≡ pos id) ↔ IdFits id
decoded_id_iff id h = ground arith

decoded_length_iff : (n : ℕ) → (decoded_length n ≡ pos n) ↔ LengthFits n
decoded_length_iff n = ground arith

-- For an identifier below 2^16 and a length below 0xffffff, whatever follows in the message, a
-- header that was written is read back as it was exactly when the identifier is below 128, or at
-- least 255 with both its bytes below 128, and the length is below 128 or is 255.
pub header_round_trip_iff :
    (id n : ℕ) (type : TlvType) (rest : List ℕ)
    → id < 2 ^ 16
    → n < 0xffffff
    → (parse_tlv_header (serialize_header (pos id) type n ++ rest)
        ≡ ok (record { type = type_bits type; length = pos n; id = pos id }, rest))
      ↔ (IdFits id × LengthFits n)
header_round_trip_iff id n type rest hid hn =
    let e = parse-serialize_header id n type rest hid hn in
    (
      λ same.
          let s = sym e ∙ same in
          ((decoded_id_iff id hid).0 (cc s), (decoded_length_iff n).0 (cc s)),
      λ (fits_id, fits_length).
          rw (e, (decoded_id_iff id hid).1 fits_id, (decoded_length_iff n).1 fits_length),
    )
