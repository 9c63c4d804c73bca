-- ===== src/Tlv/Value.antt =====
-- Values in the TLV and text formats: `parse_int`, `parse_double`, `parse_value_text`,
-- `parse_value` and `serialize_value`.
pub mod RoundTrip
pub mod Typed
use lynx_lwm2m.Base.{
  ℕ, zero, suc, ◌+◌, ◌-◌, ◌*◌, ◌/◌, ◌%◌, ◌^◌, ◌<◌, Bool, true, false, not, Option, none, some, List,
  [], ◌∷◌, ◌++◌, if◌then◌else◌, ltb, ◌==◌, ◌==ℤ◌, ltb_ℤ, ℤ, pos, negsuc, pattern_of, signed32,
  length, get_elem?, take, drop, reverse, Run, ok, fault, ◌>>=◌, deref,
}
use lynx_lwm2m.Model.{
  Kind, integer, double, string, opaque, boolean, no_kind, link, Link, Value, double_value,
  int_value, bool_value, link_value, opaque_value, string_value, Cell,
}
use lynx_lwm2m.Cell.{memcpy, as_int, as_double, as_bool, as_link, as_bytes, follow}
use lynx_lwm2m.Libc.{Libc}
use lynx_lwm2m.Text.{atoi_at, print_int}
use lynx_lwm2m.Tlv.Header.{get_int_bytes}

-- The `for` loop of `parse_int` with `left` rounds to go and `i` done: `message_len - i - 1` is
-- `left - 1`. A shift by 32 or more is undefined.
unfoldable pub parse_int_loop : (left i sum : ℕ) → List ℕ → Run ℕ
parse_int_loop zero i sum message = ok sum
parse_int_loop (suc left) i sum message = do
  b ← deref (get_elem? message left)
  let rest = parse_int_loop left (i + 1) (sum + b * 2 ^ (i * 8)) message
  if ltb i 4 then rest else fault

-- An `int` wraps at 32 bits; with a length that is not positive the loop does not run.
unfoldable pub parse_int : List ℕ → ℤ → Run ℤ
unfolding parse_int_loop
parse_int message (negsuc n) = ok (pos 0)
parse_int message (pos n) = do sum ← parse_int_loop n 0 0 message; ok (signed32 sum)

module _ (c : Libc) where
  open c use {atof, strtok_link, float_to_double, garbage, print_double}

  -- Eight bytes are read whatever the length is.
  unfoldable pub parse_double : List ℕ → ℤ → Run (List ℕ)
  unfolding memcpy
  parse_double message message_len = do
    bytes ← memcpy message (pos 8)
    let double_arr = reverse bytes
    ok (
        if message_len ==ℤ pos 4
        then float_to_double (drop 4 double_arr)
        else if message_len ==ℤ pos 8
        then double_arr
        else 0 ∷ 0 ∷ 0 ∷ 0 ∷ 0 ∷ 0 ∷ 0 ∷ 0 ∷ [])

  -- A text is read from the payload where it is, which has no zero byte behind it.
  unfoldable pub parse_value_text : List ℕ → ℤ → Kind → Run Value
  unfolding atoi_at
  parse_value_text message message_len string = ok (string_value message)
  parse_value_text message message_len opaque = ok (opaque_value message)
  parse_value_text message message_len integer = do n ← atoi_at message; ok (int_value n)
  parse_value_text message message_len boolean = do
    b ← deref (get_elem? message 0)
    ok (int_value (pos (if b == b'1' then 1 else 0)))
  parse_value_text message message_len double = do d ← atof message; ok (double_value d)
  parse_value_text message message_len link = do
    once ← strtok_link message
    object_id ← atoi_at once
    again ← strtok_link once
    instance_id ← atoi_at again
    ok (link_value (record { object_id = object_id; instance_id = instance_id }))
  parse_value_text message message_len no_kind = ok garbage

  unfoldable pub parse_value : List ℕ → ℤ → Kind → Run Value
  unfolding parse_int parse_double memcpy
  parse_value message message_len integer = do n ← parse_int message message_len; ok (int_value n)
  parse_value message message_len double = do
    d ← parse_double message message_len
    ok (double_value d)
  parse_value message message_len opaque = do
    s ← memcpy message message_len
    ok (string_value (s ++ 0 ∷ []))
  parse_value message message_len string = do
    s ← memcpy message message_len
    ok (string_value (s ++ 0 ∷ []))
  parse_value message message_len boolean = do
    n ← parse_int message message_len
    ok (bool_value (not (n ==ℤ pos 0)))
  parse_value message message_len link = do
    object_id ← parse_int (drop 2 message) (pos 2)
    instance_id ← parse_int message (pos 2)
    ok (link_value (record { object_id = object_id; instance_id = instance_id }))
  parse_value message message_len no_kind = ok (int_value (negsuc 0))

-- The first `k` bytes in memory of an `int` with this pattern: the target is little-endian.
unfoldable pub le_bytes : ℕ → ℕ → List ℕ
le_bytes zero w = []
le_bytes (suc k) w = w % 256 ∷ le_bytes k (w / 256)

-- `(char) n` and `(char) (n >> 8)`.
unfoldable pub two_bytes : ℤ → List ℕ
unfolding le_bytes
two_bytes n = le_bytes 2 (pattern_of (2 ^ 16) n)

value_bytes : Kind → Value → ℤ → Run (List ℕ)
unfolding memcpy le_bytes two_bytes get_int_bytes
value_bytes string value length = do s ← as_bytes value; memcpy s length
value_bytes opaque value length = do s ← as_bytes value; memcpy s length
value_bytes integer value length = do
  val ← as_int value
  ok (le_bytes (get_int_bytes val) (pattern_of (2 ^ 32) val))
value_bytes boolean value length = do b ← as_bool value; ok ((if b then 1 else 0) ∷ [])
value_bytes double value length = as_double value
value_bytes link value length = do
  l ← as_link value
  ok (two_bytes l.object_id ++ two_bytes l.instance_id)
-- `*message_len` is left as it was: the model has no such value
value_bytes no_kind value length = fault

serialize_if_set : Option Value → Cell → Run (List ℕ)
unfolding value_bytes
serialize_if_set none cell = ok []
serialize_if_set (some value) cell = value_bytes cell.kind value cell.length

-- `serialize_value`: the bytes written, `*message_len` being their number.
unfoldable pub serialize_value : Cell → Run (List ℕ)
unfolding serialize_if_set
serialize_value cell = do cell ← follow cell; serialize_if_set cell.value cell

module _ (c : Libc) where
  open c use {print_double}

  text_bytes : Kind → Value → ℤ → Run (List ℕ)
  unfolding memcpy
  text_bytes string value len = do
    s ← as_bytes value
    memcpy (if ltb_ℤ (pos 30) len then take 27 s ++ b'.' ∷ b'.' ∷ b'.' ∷ 0 ∷ [] else s) len
  text_bytes opaque value len = do s ← as_bytes value; memcpy s len
  text_bytes integer value len = do n ← as_int value; ok (print_int n)
  text_bytes boolean value len = do b ← as_bool value; ok ((if b then b'1' else b'0') ∷ [])
  text_bytes double value len = do d ← as_double value; ok (print_double d)
  text_bytes link value len = do
    l ← as_link value
    ok (print_int l.object_id ++ b':' ∷ print_int l.instance_id)
  -- `*message_len` is left as it was
  text_bytes no_kind value len = fault

  text_if_set : Option Value → Cell → Run (List ℕ)
  unfolding text_bytes
  text_if_set none cell = ok []
  text_if_set (some value) cell = text_bytes cell.kind value cell.length

  -- The first `*message_len` bytes of `message`. For a string above 30 bytes only 31 bytes of it are
  -- written, and the rest is read as it was: a fault.
  unfoldable pub serialize_resource_text : Cell → Run (List ℕ)
  unfolding text_if_set
  serialize_resource_text cell = do cell ← follow cell; text_if_set cell.value cell
