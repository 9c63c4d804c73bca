-- ===== src/Tlv/Value/RoundTrip.antt =====
-- What `parse_value` reads from what `serialize_value` wrote, kind by kind.
use lynx_lwm2m.Base.{
  All, ◌==◌, ℕ, zero, suc, ◌+◌, ◌-◌, ◌*◌, ◌/◌, ◌%◌, ◌^◌, ◌≤◌, ◌<◌, ◌≡◌, refl, sym, ap, ◌∙◌, ◌↔◌,
  ◌⊎◌, inl, inr, Bool, false, some, List, [], ◌∷◌, ◌++◌, if◌then◌else◌, ltb, ℤ, pos, negsuc,
  signed32, length, length-append, take, ok, fault, ◌>>=◌, arith, Bool-cases,
}
use lynx_lwm2m.Model.{
  integer, string, opaque, boolean, link, int_value, bool_value, link_value, opaque_value,
  string_value, Cell,
}
use lynx_lwm2m.Cell.{read_string, memcpy, copy_bytes}
use lynx_lwm2m.Libc.{Libc}
use lynx_lwm2m.Tlv.Value.{
  parse_int_loop, parse_int, parse_value, serialize_value, serialize_resource_text,
}

-- The number whose bytes, the most significant first, are the first `n` of the message.
pub big_endian : ℕ → List ℕ → ℕ
big_endian n message = from_bytes n 0 message
  where
    from_bytes : ℕ → ℕ → List ℕ → ℕ
    from_bytes zero acc message = acc
    from_bytes (suc n) acc [] = acc
    from_bytes (suc n) acc (b ∷ message) = from_bytes n (acc * 256 + b) message

-- Of a message with at least `n` bytes, `n` at most four, `parse_int` reads the first `n` as a
-- big-endian number, and takes it as a 32-bit two's complement `int`.
pub parse_int-big_endian :
    (n : ℕ) (message : List ℕ)
    → n ≤ 4
    → n ≤ length message
    → parse_int message (pos n) ≡ ok (signed32 (big_endian n message))
unfolding parse_int parse_int_loop big_endian
parse_int-big_endian zero message h l = refl
parse_int-big_endian (suc zero) (a ∷ m) h l = ground arith
parse_int-big_endian (suc (suc zero)) (a ∷ b ∷ m) h l = ground arith
parse_int-big_endian (suc (suc (suc zero))) (a ∷ b ∷ c ∷ m) h l = ground arith
parse_int-big_endian (suc (suc (suc (suc zero)))) (a ∷ b ∷ c ∷ d ∷ m) h l = ground arith
parse_int-big_endian n m h l = absurd (omega arith)

-- What is read for an integer that was written: its lowest bytes in the reverse order.
abbrev pub decoded_int : ℤ → ℤ
decoded_int (negsuc n) = pos (255 - n % 256)
decoded_int (pos n) =
    if ltb n 0xff
    then pos n
    else if ltb n 0xffff
    then pos (n % 256 * 256 + n / 256)
    else signed32 (n % 256 * 65536 + n / 256 % 256 * 256 + n / 65536)

abbrev pub InThreeBytes : ℤ → Type 0
InThreeBytes (pos n) = n < 0xffffff
InThreeBytes (negsuc n) = n < 2 ^ 31

-- An integer of a live cell that is written in at most three bytes is written, and read from these
-- bytes with their order reversed; a negative one is read as the number of its one byte.
pub parse-serialize_integer :
    (c : Libc) (v : ℤ) (cell : Cell) (rest : List ℕ)
    → cell.kind ≡ integer
    → cell.freed ≡ false
    → cell.value ≡ some (int_value v)
    → InThreeBytes v
    → (bytes : List ℕ) × (serialize_value cell ≡ ok bytes)
      × (parse_value c (bytes ++ rest) (pos (length bytes)) integer
          ≡ ok (int_value (decoded_int v)))
unfolding serialize_value parse_value parse_int_loop
parse-serialize_integer c (pos n) cell rest k f e h = elim (Bool-cases (ltb n 0xff)) [
  | inl one ↦ (n % 256 ∷ [], ground arith, ground arith)
  | inr more ↦ elim (Bool-cases (ltb n 0xffff)) [
    | inl two ↦ (n % 256 ∷ n / 256 % 256 ∷ [], ground arith, ground arith)
    | inr three ↦ (n % 256 ∷ n / 256 % 256 ∷ n / 256 / 256 % 256 ∷ [], ground arith, ground arith)
  ]
]
parse-serialize_integer c (negsuc n) cell rest k f e h =
    ((255 - n % 256) ∷ [], ground arith, ground arith)

-- One byte below 0xff; or two equal bytes; or three of which the outer two are equal.
abbrev pub IntFits : ℤ → Type 0
IntFits (negsuc n) = ⊥
IntFits (pos n) =
    (n < 0xff)
    ⊎ (((0xff ≤ n) × (n < 0xffff) × (n % 256 ≡ n / 256)) ⊎ ((0xffff ≤ n) × (n % 256 ≡ n / 65536)))

decoded_int_iff : (v : ℤ) → InThreeBytes v → (decoded_int v ≡ v) ↔ IntFits v
decoded_int_iff (negsuc n) h = ((λ e. ground arith), (λ f. absurd f))
decoded_int_iff (pos n) h = ((λ e. ground arith), (λ f. ground arith))

-- For a live cell of kind integer with a value below 0xffffff, or negative and at least -2^31:
-- what `serialize_value` wrote, whatever follows it, is read by `parse_value` as the same value
-- exactly when the value is not negative and its one to three bytes are the same in both orders.
pub integer_round_trip_iff :
    (c : Libc) (v : ℤ) (cell : Cell) (rest : List ℕ)
    → cell.kind ≡ integer
    → cell.freed ≡ false
    → cell.value ≡ some (int_value v)
    → InThreeBytes v
    → ((serialize_value cell
          >>= (λ bytes. parse_value c (bytes ++ rest) (pos (length bytes)) integer))
        ≡ ok (int_value v))
      ↔ IntFits v
integer_round_trip_iff c v cell rest k f e h =
    let (bytes, written, parsed) = parse-serialize_integer c v cell rest k f e h in
    let run : (serialize_value cell
          >>= (λ bytes. parse_value c (bytes ++ rest) (pos (length bytes)) integer))
        ≡ ok (int_value (decoded_int v)) =
      rw (written, parsed) refl in
    let both = decoded_int_iff v h in
    (
      (λ same. both.0 (cc (sym run ∙ same))),
      (λ fits. run ∙ ap (λ n. ok (int_value n)) (both.1 fits)),
    )

-- A link with identifiers below 2^16, in a live cell, is written in four bytes and read from them
-- with object and instance exchanged, and the two bytes of each exchanged too.
pub parse-serialize_link :
    (c : Libc) (o i : ℕ) (cell : Cell) (rest : List ℕ)
    → cell.kind ≡ link
    → cell.freed ≡ false
    → cell.value ≡ some (link_value (record { object_id = pos o; instance_id = pos i }))
    → o < 2 ^ 16
    → i < 2 ^ 16
    → (bytes : List ℕ) × (serialize_value cell ≡ ok bytes)
      × (parse_value c (bytes ++ rest) (pos (length bytes)) link
          ≡ ok (
              link_value (record {
                object_id = pos (i % 256 * 256 + i / 256);
                instance_id = pos (o % 256 * 256 + o / 256);
              })))
unfolding serialize_value parse_value parse_int_loop
parse-serialize_link c o i cell rest k f e ho hi =
    (o % 256 ∷ o / 256 % 256 ∷ i % 256 ∷ i / 256 % 256 ∷ [], ground arith, ground arith)

copy_bytes_self : (s : List ℕ) → copy_bytes (length s) s ≡ ok s
unfolding copy_bytes
copy_bytes_self [] = refl
copy_bytes_self (b ∷ s) = rw (copy_bytes_self s)

pub copy_bytes-append : (s rest : List ℕ) → copy_bytes (length s) (s ++ rest) ≡ ok s
unfolding copy_bytes
copy_bytes-append [] rest = refl
copy_bytes-append (b ∷ s) rest = rw (copy_bytes-append s rest)

-- A text without a zero byte is read up to the one that follows it.
pub read_string-append :
    (s rest : List ℕ) → All (λ b. (b == 0) ≡ false) s → read_string (s ++ 0 ∷ rest) ≡ ok s
unfolding read_string
read_string-append [] rest h = refl
read_string-append (b ∷ s) rest (h, hs) = rw (h, read_string-append s rest hs) refl

-- The bytes of a string or an opaque value in a live cell of that kind, whose length is their
-- number, are written as they are and read back as they are, whatever follows them.
pub parse-serialize_bytes :
    (c : Libc) (s : List ℕ) (cell : Cell) (rest : List ℕ)
    → cell.freed ≡ false
    → cell.length ≡ pos (length s)
    → (cell.kind ≡ opaque) × (cell.value ≡ some (opaque_value s))
      ⊎ (cell.kind ≡ string) × (cell.value ≡ some (string_value (s ++ 0 ∷ [])))
    → (serialize_value cell ≡ ok s)
      × (parse_value c (s ++ rest) (pos (length s)) cell.kind ≡ ok (string_value (s ++ 0 ∷ [])))
unfolding serialize_value parse_value
parse-serialize_bytes c s cell rest f l (inl (k, e)) =
    let whole : copy_bytes (length s) s ≡ ok s = copy_bytes_self s in
    (ground (arith, whole), ground (arith, copy_bytes-append s rest))
parse-serialize_bytes c s cell rest f l (inr (k, e)) =
    (ground (arith, copy_bytes-append s (0 ∷ [])), ground (arith, copy_bytes-append s rest))

-- A Boolean in a live cell is written and read back as it was.
pub parse-serialize_boolean :
    (c : Libc) (b : Bool) (cell : Cell) (rest : List ℕ)
    → cell.kind ≡ boolean
    → cell.freed ≡ false
    → cell.value ≡ some (bool_value b)
    → (bytes : List ℕ) × (serialize_value cell ≡ ok bytes)
      × (parse_value c (bytes ++ rest) (pos (length bytes)) boolean ≡ ok (bool_value b))
unfolding serialize_value parse_value parse_int_loop
parse-serialize_boolean c b cell rest k f e =
    ((if b then 1 else 0) ∷ [], ground arith, ground arith)

copy_bytes_short : (n : ℕ) (s : List ℕ) → length s < n → copy_bytes n s ≡ fault
unfolding copy_bytes
copy_bytes_short zero s h = absurd (omega arith)
copy_bytes_short (suc n) [] h = refl
copy_bytes_short (suc n) (b ∷ s) h = rw (copy_bytes_short n s (omega arith))

take-le : (n : ℕ) (s : List ℕ) → length (take n s) ≤ n
take-le zero s = omega arith
take-le (suc n) [] = omega arith
take-le (suc n) (b ∷ s) = omega (arith, take-le n s)

-- In the text format, for a string in a live cell with a length above 31, sending the answer reads
-- bytes that were never written: the length is the string's, while the shortened text has 31 bytes
-- with its end.
pub serialize_resource_text_long :
    (c : Libc) (s : List ℕ) (n : ℕ) (cell : Cell)
    → cell.freed ≡ false
    → cell.kind ≡ string
    → cell.value ≡ some (string_value s)
    → cell.length ≡ pos n
    → 31 < n
    → serialize_resource_text c cell ≡ fault
unfolding serialize_resource_text memcpy
serialize_resource_text_long c s n cell f k e l h =
    let tail : List ℕ = b'.' ∷ b'.' ∷ b'.' ∷ 0 ∷ [] in
    ground
      (arith, copy_bytes_short n (take 27 s ++ tail), length-append (take 27 s) tail, take-le 27 s)

-- In the text format, a string of at most 30 bytes in a live cell, with its length, is sent whole.
pub serialize_resource_text_short :
    (c : Libc) (s : List ℕ) (cell : Cell)
    → cell.freed ≡ false
    → cell.kind ≡ string
    → cell.value ≡ some (string_value (s ++ 0 ∷ []))
    → cell.length ≡ pos (length s)
    → length s ≤ 30
    → serialize_resource_text c cell ≡ ok s
unfolding serialize_resource_text memcpy
serialize_resource_text_short c s cell f k e l h = ground (arith, copy_bytes-append s (0 ∷ []))
