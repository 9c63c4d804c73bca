-- ===== src/Tlv/Parse/RoundTrip.antt =====
-- `parse_multiple_resource` reads what `serialize_multiple_resource` wrote.
use mathlib.Core.List.{append_assoc, append-nil}
use lynx_lwm2m.Base.{
  All, ◌==◌, ℕ, zero, suc, ◌<◌, ◌%◌, ◌^◌, ◌≡◌, refl, sym, ap, ◌∙◌, ◌⊎◌, inl, inr, Bool, true, false,
  List, [], ◌∷◌, ◌++◌, ℤ, pos, ◌+ℤ◌, ltb_ℤ, length, length-append, drop, drop-append, some,
  get_elem?, ok, arith, if◌then◌else◌,
}
use lynx_lwm2m.Items.{Items, list_new, ladd}
use lynx_lwm2m.Model.{
  integer, string, boolean, Cell, Resource, Object, Value, int_value, string_value, bool_value,
}
use lynx_lwm2m.Cell.{set_value}
use lynx_lwm2m.Libc.{Libc}
use lynx_lwm2m.Tlv.Header.{
  TlvType, resource_instance, type_bits, parse_tlv_header, serialize_header,
}
use lynx_lwm2m.Tlv.Header.RoundTrip.{IdFits, LengthFits, header_round_trip_iff}
use lynx_lwm2m.Tlv.Value.{parse_value, serialize_value}
use lynx_lwm2m.Tlv.Value.RoundTrip.{read_string-append, parse-serialize_bytes}
use lynx_lwm2m.Tlv.Serialize.{
  multiple_elems, serialize_multiple_resource, serialize_single_resource,
}
use lynx_lwm2m.Tlv.Parse.{
  header_at, create_resource, parse_resource_instance, parse_multiple_loop, parse_multiple_resource,
  address,
}

-- A header in the middle of the memory.
pub header_at_written :
    (id n : ℕ) (type : TlvType) (before rest : List ℕ)
    → id < 2 ^ 15
    → IdFits id
    → n < 256
    → LengthFits n
    → header_at (before ++ (serialize_header (pos id) type n ++ rest)) (length before)
      ≡ ok (
        record { type = type_bits type; length = pos n; id = pos id },
        length (before ++ serialize_header (pos id) type n),
      )
unfolding header_at
header_at_written id n type before rest hid fid hn fn =
    let h = serialize_header (pos id) type n in
    rw
      (
        drop-append before (h ++ rest),
        (header_round_trip_iff id n type rest (omega arith) (omega arith)).1 (fid, fn),
      )
      (ap (λ (p : ℕ). ok (record { type = type_bits type; length = pos n; id = pos id }, p))
        (omega
          (arith, length-append before (h ++ rest), length-append h rest, length-append before h)))

-- The instance as the parser makes it: its memory is that of the parsed resource.
abbrev pub read_back : Cell → Cell
read_back cell = record cell { parsed = true }

abbrev pub CarriedValue : Cell → Type 0
CarriedValue cell =
    ((s : List ℕ) × (cell.kind ≡ string)
      × (cell.value ≡ some (string_value (s ++ 0 ∷ [])))
      × (cell.length ≡ pos (length s))
      × All (λ b. (b == 0) ≡ false) s
      × (length s < 128))
    ⊎ (((b : Bool) × (cell.kind ≡ boolean)
          × (cell.value ≡ some (bool_value b))
          × (cell.length ≡ pos 0))
        ⊎ ((n : ℕ) × (cell.kind ≡ integer)
            × (cell.value ≡ some (int_value (pos n)))
            × (cell.length ≡ pos 0)
            × (n < 0xff)))

-- A resource instance with an identifier and a value that the format carries: a string without a
-- zero byte, a Boolean, or an integer from 0 to 254.
pub record IsCarried (definition : Resource) (cell : Cell) : Type 0 where
  pub ident : ℕ
  pub ident_eq : cell.id ≡ pos ident
  pub ident_small : ident < 2 ^ 15
  pub ident_fits : IdFits ident
  pub same_kind : cell.kind ≡ definition.kind
  pub live : cell.freed ≡ false
  pub live_definition : (definition.cell).freed ≡ false
  pub carried : CarriedValue cell

-- What a carried value is written as, and that it is read and set again.
record IsRead (c : Libc) (definition : Resource) (cell : Cell) : Type 0 where
  bytes : List ℕ
  written : serialize_value cell ≡ ok bytes
  fits : length bytes < 128
  value : Value
  parsed :
      (rest : List ℕ)
      → parse_value c (bytes ++ rest) (pos (length bytes)) definition.kind ≡ ok value
  restored :
      set_value
        (record (definition.cell) { id = cell.id; parsed = true })
        (some value)
        (pos (length bytes))
      ≡ ok (read_back cell, definition.value)

IsCarried-IsRead :
    (c : Libc) (definition : Resource) (cell : Cell)
    → IsCarried definition cell
    → IsRead c definition cell
unfolding set_value serialize_value parse_value
IsCarried-IsRead c definition cell v = by_kind v.carried
  where
    by_kind : CarriedValue cell → IsRead c definition cell
    by_kind (inl (s, k, e, l, z, n)) = record {
      bytes = s;
      written = (parse-serialize_bytes c s cell [] v.live l (inr (k, e))).0;
      fits = n;
      value = string_value (s ++ 0 ∷ []);
      parsed = λ rest.
          rw (← v.same_kind) ((parse-serialize_bytes c s cell rest v.live l (inr (k, e))).1);
      restored = ground (arith, read_string-append s [] z);
    }
    by_kind (inr (inl (b, k, e, l))) = record {
      bytes = (if b then 1 else 0) ∷ [];
      written = ground arith;
      fits = omega arith;
      value = bool_value b;
      parsed = λ rest. ground arith;
      restored = ground arith;
    }
    by_kind (inr (inr (n, k, e, l, h))) = record {
      bytes = n % 256 ∷ [];
      written = ground arith;
      fits = omega arith;
      value = int_value (pos n);
      parsed = λ rest. ground arith;
      restored = ground arith;
    }

serialize_header_pos : (id n : ℕ) (type : TlvType) → 0 < length (serialize_header (pos id) type n)
unfolding serialize_header
serialize_header_pos id n type = omega arith

drop_two : (a b c : List ℕ) → drop (length (a ++ b)) (a ++ (b ++ c)) ≡ c
drop_two a b c = rw (← append_assoc a b c) (drop-append (a ++ b) c)

-- The elements entered one by one, in their order.
abbrev pub entered : List (ℤ × Cell) → Items Cell → Items Cell
entered [] acc = acc
entered ((key, cell) ∷ next) acc = entered next (ladd acc cell.id (read_back cell))

abbrev pub AllCarried : Resource → List (ℤ × Cell) → Type 0
AllCarried definition [] = Unit {0}
AllCarried definition ((key, cell) ∷ next) = IsCarried definition cell × AllCarried definition next

module _ (c : Libc) (definition : Resource) where
  -- The bytes of one carried resource instance, and of all.
  unfoldable element_bytes : (cell : Cell) → IsCarried definition cell → List ℕ
  unfolding IsCarried-IsRead
  element_bytes cell v =
      let r = IsCarried-IsRead c definition cell v in
      serialize_header cell.id resource_instance (length r.bytes) ++ r.bytes

  unfoldable all_bytes : (es : List (ℤ × Cell)) → AllCarried definition es → List ℕ
  all_bytes [] vs = []
  all_bytes ((key, cell) ∷ es) (v, vs) = element_bytes cell v ++ all_bytes es vs

  written_all :
      (es : List (ℤ × Cell)) (vs : AllCarried definition es)
      → multiple_elems es ≡ ok (all_bytes es vs)
  unfolding multiple_elems serialize_single_resource element_bytes all_bytes
  written_all [] vs = refl
  written_all ((key, cell) ∷ es) (v, vs) =
      let r = IsCarried-IsRead c definition cell v in
      let h = serialize_header cell.id resource_instance (length r.bytes) in
      rw (r.written, written_all es vs) (ap ok (sym (append_assoc h r.bytes (all_bytes es vs))))

  element_pos : (cell : Cell) (v : IsCarried definition cell) → 0 < length (element_bytes cell v)
  unfolding element_bytes
  element_pos cell v =
      let r = IsCarried-IsRead c definition cell v in
      let h = serialize_header cell.id resource_instance (length r.bytes) in
      let same =
        ap (λ i. length (serialize_header i resource_instance (length r.bytes))) v.ident_eq in
      omega (
        arith,
        same,
        length-append h r.bytes,
        serialize_header_pos v.ident (length r.bytes) resource_instance,
      )

  module _ (object : Object) (resource_id : ℕ)
      (found : get_elem? object.resource_def resource_id ≡ some definition) where
    -- One round on a carried resource instance.
    round_carried :
        (cell : Cell) (v : IsCarried definition cell) (before rest : List ℕ)
        → parse_resource_instance c object
            (pos resource_id)
            (before ++ (element_bytes cell v ++ rest))
            (length before)
          ≡ ok (read_back cell, length (before ++ element_bytes cell v))
    unfolding parse_resource_instance create_resource address parse_tlv_header element_bytes
    round_carried cell v before rest =
        let r = IsCarried-IsRead c definition cell v in
        let h = serialize_header (pos v.ident) resource_instance (length r.bytes) in
        let hc = serialize_header cell.id resource_instance (length r.bytes) in
        let same : hc ≡ h =
          ap (λ i. serialize_header i resource_instance (length r.bytes)) v.ident_eq in
        let at =
          header_at_written v.ident (length r.bytes) resource_instance before (r.bytes ++ rest)
            v.ident_small v.ident_fits (ground (arith, r.fits)) (inl r.fits) in
        rw
          (
            same,
            append_assoc h r.bytes rest,
            at,
            found,
            drop_two before h (r.bytes ++ rest),
            r.parsed rest,
          )
          (rw (← v.ident_eq, r.restored)
            (ground (
              arith,
              length-append before (h ++ r.bytes),
              length-append h r.bytes,
              length-append before h,
            )))

    loop_step :
        (fuel : ℕ) (memory : List ℕ) (limit : ℤ) (curr : ℕ) (acc : Items Cell) (cell : Cell)
        (next : ℕ)
        → ltb_ℤ (pos curr) limit ≡ true
        → parse_resource_instance c object (pos resource_id) memory curr ≡ ok (cell, next)
        → parse_multiple_loop c (suc fuel) object (pos resource_id) memory limit curr acc
          ≡ parse_multiple_loop c fuel object
              (pos resource_id)
              memory
              limit
              next
              (ladd acc cell.id cell)
    unfolding parse_multiple_loop
    loop_step fuel memory limit curr acc cell next h r = ground (arith, h, r)

    -- The loop from the position behind `before` to the end.
    loop_carried :
        (fuel : ℕ) (es : List (ℤ × Cell)) (vs : AllCarried definition es) (before : List ℕ)
        (acc : Items Cell)
        → length es < fuel
        → parse_multiple_loop c fuel object
            (pos resource_id)
            (before ++ all_bytes es vs)
            (pos (length (before ++ all_bytes es vs)))
            (length before)
            acc
          ≡ ok (entered es acc)
    unfolding parse_multiple_loop all_bytes
    loop_carried zero es vs before acc h = absurd (omega arith)
    loop_carried (suc fuel) [] vs before acc h = ground (arith, append-nil before)
    loop_carried (suc fuel) ((key, cell) ∷ es) (v, vs) before acc h =
        let e = element_bytes cell v in
        let b = all_bytes es vs in
        let later = ltb_later before e b (element_pos cell v) in
        loop_step fuel (before ++ (e ++ b)) (pos (length (before ++ (e ++ b)))) (length before) acc
          (read_back cell) (length (before ++ e)) later (round_carried cell v before b)
        ∙ rw (← append_assoc before e b) (
            loop_carried fuel es vs (before ++ e) (ladd acc cell.id (read_back cell)) (omega arith))
      where
        ltb_later :
            (a b c : List ℕ)
            → 0 < length b
            → ltb_ℤ (pos (length a)) (pos (length (a ++ (b ++ c)))) ≡ true
        ltb_later a b c h = ground (arith, length-append a (b ++ c), length-append b c)

    -- For a resource definition and instances of it that are carried (with identifiers that the
    -- headers carry, and as values strings shorter than 128 bytes without a zero byte, Booleans, or
    -- integers from 0 to 254), the serialization of the list returns bytes, and parsing exactly these
    -- bytes with fuel above the number of instances returns the list of the same instances in memory of
    -- the parser's own, each entered under its identifier in the order of the bytes.
    pub parse-serialize_multiple :
        (fuel : ℕ) (m : Items Cell)
        → AllCarried definition m.first
        → length m.first < fuel
        → (bytes : List ℕ) × (serialize_multiple_resource m ≡ ok bytes)
          × (parse_multiple_resource c fuel object (pos resource_id) bytes 0 (pos (length bytes))
              ≡ ok (entered m.first list_new))
    unfolding serialize_multiple_resource parse_multiple_resource
    parse-serialize_multiple fuel m vs h = (
      all_bytes m.first vs,
      written_all m.first vs,
      rw (add_zero (length (all_bytes m.first vs))) (loop_carried fuel m.first vs [] list_new h),
    )
      where
        add_zero : (n : ℕ) → (pos 0 +ℤ pos n) ≡ pos n
        add_zero n = ground arith
