-- ===== src/Discover/Bounds.antt =====
-- lwm2m_parser_serialize_discover.c: which numbers the buffer of 10 bytes holds.
use lynx_lwm2m.Base.{
  ℕ, ◌≤◌, ◌≡◌, List, [], ◌++◌, length, length-append, ℤ, pos, negsuc, some, ok, fault, arith, ltb,
  if◌then◌else◌, ltb_ℤ, ◌&&◌, ◌∙◌,
}
use lynx_lwm2m.Text.{codes, print_int, into_buffer}
use lynx_lwm2m.Text.Decimal.{print_int_fits}
use lynx_lwm2m.Discover.{append_buffer, append_int}

buffer_bounds :
    (text message : List ℕ)
    → length message ≤ 490
    → append_buffer [] text message ≡ (if ltb (length text) 10 then ok (message ++ text) else fault)
unfolding append_buffer into_buffer
buffer_bounds text message h = ground (arith, length-append message text)

-- With room left in the message, a period is appended to it if it is from -99 to 999; any other one
-- runs over the buffer, a fault.
pub append_int_bounds :
    (n : ℤ) (message : List ℕ)
    → length message ≤ 490
    → append_int ";pmax=" (some n) message ≡ (
        if ltb_ℤ (negsuc 99) n && ltb_ℤ n (pos 1000)
        then ok (message ++ (codes ";pmax=" ++ print_int n))
        else fault)
unfolding append_int
append_int_bounds n message h =
    buffer_bounds (codes ";pmax=" ++ print_int n) message h ∙ ground (arith, print_int_fits 1 n)
