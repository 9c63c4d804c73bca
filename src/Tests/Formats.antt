-- ===== src/Tests/Formats.antt =====
-- The theorems on the formats at concrete values and payloads.
use lynx_lwm2m.Base.{
  ℕ, ◌≡◌, ◌↔◌, ◌<◌, ◌^◌, refl, inl, inr, true, false, some, List, [], ◌∷◌, ◌++◌, length, arith, pos,
  signed32, ok, fault, out_of_fuel, ◌>>=◌,
}
use lynx_lwm2m.Items.{Items, list_new, ladd}
use lynx_lwm2m.Model.{integer, boolean, link, int_value, bool_value, link_value, Cell}
use lynx_lwm2m.Cell.{c_string}
use lynx_lwm2m.Tlv.Header.{resource_instance, type_bits, parse_tlv_header, serialize_header}
use lynx_lwm2m.Tlv.Header.RoundTrip.{IdFits, LengthFits, header_round_trip_iff}
use lynx_lwm2m.Tlv.Value.{parse_int, parse_value, serialize_value, serialize_resource_text}
use lynx_lwm2m.Tlv.Value.RoundTrip.{
  big_endian, parse_int-big_endian, IntFits, integer_round_trip_iff, parse-serialize_link,
  serialize_resource_text_long,
}
use lynx_lwm2m.Tlv.Serialize.{serialize_multiple_resource}
use lynx_lwm2m.Tlv.Parse.{parse_multiple_resource, parse_instance}
use lynx_lwm2m.Tlv.Parse.Endless.{looping, parse_instance_endless}
use lynx_lwm2m.Tlv.Parse.RoundTrip.{IsCarried, entered, AllCarried, parse-serialize_multiple}
use lynx_lwm2m.Tests.Data.{libc, int_cell, string_cell, several, names, names_object, meters}

header_round_trip_iff_example :
    (parse_tlv_header (serialize_header (pos 300) resource_instance 7 ++ 1 ∷ [])
      ≡ ok (record { type = type_bits resource_instance; length = pos 7; id = pos 300 }, 1 ∷ []))
    ↔ (IdFits 300 × LengthFits 7)
header_round_trip_iff_example =
    header_round_trip_iff 300 7 resource_instance (1 ∷ []) (omega arith) (omega arith)

parse_int-big_endian_example :
    parse_int (0xff ∷ 0xff ∷ 0xff ∷ 0xfe ∷ []) (pos 4)
    ≡ ok (signed32 (big_endian 4 (0xff ∷ 0xff ∷ 0xff ∷ 0xfe ∷ [])))
parse_int-big_endian_example =
    parse_int-big_endian 4 (0xff ∷ 0xff ∷ 0xff ∷ 0xfe ∷ []) (omega arith) (omega arith)

integer_round_trip_iff_example :
    ((serialize_value (int_cell (pos 1) (pos 300))
        >>= (λ bytes. parse_value libc (bytes ++ []) (pos (length bytes)) integer))
      ≡ ok (int_value (pos 300)))
    ↔ IntFits (pos 300)
integer_round_trip_iff_example =
    integer_round_trip_iff libc (pos 300) (int_cell (pos 1) (pos 300)) [] refl refl refl
      (omega arith)

abbrev link_cell : Cell
link_cell = record {
  id = pos 1;
  kind = link;
  value = some (link_value (record { object_id = pos 1; instance_id = pos 2 }));
  length = pos 0;
  freed = false;
  parsed = false;
}

parse-serialize_link_example :
    (bytes : List ℕ) × (serialize_value link_cell ≡ ok bytes)
    × (parse_value libc (bytes ++ 3 ∷ []) (pos (length bytes)) link
        ≡ ok (link_value (record { object_id = pos 512; instance_id = pos 256 })))
parse-serialize_link_example =
    parse-serialize_link libc 1 2 link_cell (3 ∷ []) refl refl refl (omega arith) (omega arith)

abbrev text : List ℕ
text = b'o' ∷ b'k' ∷ []

abbrev bool_cell : Cell
bool_cell = record {
  id = pos 1;
  kind = boolean;
  value = some (bool_value true);
  length = pos 0;
  freed = false;
  parsed = false;
}

abbrev ten : List ℕ
ten = 1 ∷ 2 ∷ 3 ∷ 4 ∷ 5 ∷ 6 ∷ 7 ∷ 8 ∷ 9 ∷ 10 ∷ []

abbrev long_text : List ℕ
long_text = ten ++ (ten ++ (ten ++ ten))

serialize_resource_text_long_example :
    serialize_resource_text libc (string_cell (pos 1) long_text) ≡ fault
serialize_resource_text_long_example =
    serialize_resource_text_long libc (long_text ++ 0 ∷ []) 40 (string_cell (pos 1) long_text) refl
      refl refl refl (omega arith)

parse_instance_endless_example :
    parse_instance libc 1000 meters (looping 0 []) 0 (pos 3) ≡ out_of_fuel
parse_instance_endless_example =
    parse_instance_endless libc 1000 meters 0 3 [] (omega arith) (omega arith) refl refl

-- Two names, with the identifiers 0 and 300.
abbrev two_names : Items Cell
two_names =
    ladd (ladd list_new (pos 0) (string_cell (pos 0) text)) (pos 300) (string_cell (pos 300) text)

name_IsCarried :
    (n : ℕ) → n < 2 ^ 15 → IdFits n → IsCarried (several names list_new) (string_cell (pos n) text)
unfolding c_string
name_IsCarried n small fits = record {
  ident = n;
  ident_eq = refl;
  ident_small = small;
  ident_fits = fits;
  same_kind = refl;
  live = refl;
  live_definition = refl;
  carried = inl (text, refl, refl, refl, (refl, (refl, tt)), omega arith);
}

two_names-AllCarried : AllCarried (several names list_new) two_names.first
unfolding ladd
two_names-AllCarried = (
  name_IsCarried 300 (omega arith) (inr (omega arith, omega arith, omega arith)),
  (name_IsCarried 0 (omega arith) (inl (omega arith)), tt),
)

parse-serialize_multiple_example :
    (bytes : List ℕ) × (serialize_multiple_resource two_names ≡ ok bytes)
    × (parse_multiple_resource libc 3 names_object (pos 0) bytes 0 (pos (length bytes))
        ≡ ok (entered two_names.first list_new))
unfolding ladd
parse-serialize_multiple_example =
    parse-serialize_multiple libc (several names list_new) names_object 0 refl 3 two_names
      two_names-AllCarried (omega arith)
