-- ===== src/Attribute/Periods.antt =====
-- lwm2m_attribute.c and `parse_attributes`: a payload that sets the two periods.
use lynx_lwm2m.Base.{
  ◌<◌, ◌^◌, ℕ, ◌≡◌, refl, some, List, [], ◌∷◌, ◌++◌, arith, if◌then◌else◌, ◌==◌, pos, ok, ℤ, ◌==ℤ◌,
  ◌≤◌, length, false,
}
use lynx_lwm2m.Items.{Items, lfind}
use lynx_lwm2m.Model.{Attributes, Server}
use lynx_lwm2m.Libc.{Libc}
use lynx_lwm2m.Text.{codes, print_int, strtok_all, same_text, is_digit}
use lynx_lwm2m.Text.Split.{Free, Word, join, strtok_all-join}
use lynx_lwm2m.Text.Decimal.{print_int-Free, print_int-nonempty, atoi-print_int}
use lynx_lwm2m.Tlv.Value.RoundTrip.{read_string-append}
use lynx_lwm2m.Attribute.{
  empty_attr, merge_attributes, parse_element, parse_elements, parse_attributes, write_attributes,
}
use lynx_lwm2m.Attribute.Levels.{or_empty, lfind-write_attributes}

-- A name and a number.
abbrev pub element : List ℕ → ℕ → List ℕ
element name n = join b'=' (name ∷ print_int (pos n) ∷ [])

-- "pmin=...&pmax=..."
abbrev pub periods : (pmin pmax : ℕ) → List ℕ
periods pmin pmax = join b'&' (element (codes "pmin") pmin ∷ element (codes "pmax") pmax ∷ [])

Free-append :
    (separator : ℕ) (s t : List ℕ) → Free separator s → Free separator t → Free separator (s ++ t)
Free-append separator [] t hs ht = ht
Free-append separator (b ∷ s) t (h, hs) ht = (h, Free-append separator s t hs ht)

Free-Word : (separator : ℕ) (s : List ℕ) → 1 ≤ length s → Free separator s → Word separator s
Free-Word separator [] h free = absurd (omega arith)
Free-Word separator (b ∷ s) h free = free

element_tokens :
    (name : List ℕ) (n : ℕ)
    → Word b'=' name
    → strtok_all b'=' (element name n) ≡ name ∷ print_int (pos n) ∷ []
unfolding is_digit
element_tokens name n h =
    strtok_all-join b'=' (name ∷ print_int (pos n) ∷ [])
      (h, (Free-Word b'=' _ (print_int-nonempty n) (print_int-Free b'=' n refl), tt))

element-Free :
    (separator : ℕ) (name : List ℕ) (n : ℕ)
    → is_digit separator ≡ false
    → Free separator name
    → (b'=' == separator) ≡ false
    → Free separator (element name n)
unfolding join
element-Free separator name n other h equals =
    Free-append separator name _ h (equals, print_int-Free separator n other)

Free-same_text : (h : ℕ) (s t : List ℕ) → Free h s → same_text s (h ∷ t) ≡ false
unfolding same_text
Free-same_text h [] t free = refl
Free-same_text h (b ∷ s) t (free, frees) = rw free refl

-- A number is no name.
no_name :
    (h n : ℕ) (t : List ℕ) → is_digit h ≡ false → same_text (print_int (pos n)) (h ∷ t) ≡ false
no_name h n t other = Free-same_text h (print_int (pos n)) t (print_int-Free h n other)

module _ (c : Libc) (pmin pmax : ℕ) (rest : List ℕ) where
  periods-Free : Free 0 (periods pmin pmax)
  unfolding join is_digit
  periods-Free =
      Free-append 0 (element (codes "pmin") pmin) _
        (element-Free 0 (codes "pmin") pmin refl (refl, (refl, (refl, (refl, tt)))) refl)
        (refl, element-Free 0 (codes "pmax") pmax refl (refl, (refl, (refl, (refl, tt)))) refl)

  periods_tokens :
      strtok_all b'&' (periods pmin pmax)
      ≡ element (codes "pmin") pmin ∷ element (codes "pmax") pmax ∷ []
  unfolding join is_digit
  periods_tokens = strtok_all-join b'&' _ (
    element-Free b'&' (codes "pmin") pmin refl (refl, (refl, (refl, (refl, tt)))) refl,
    (element-Free b'&' (codes "pmax") pmax refl (refl, (refl, (refl, (refl, tt)))) refl, tt),
  )

  parse_periods :
      parse_attributes c empty_attr (periods pmin pmax ++ 0 ∷ rest)
      ≡ ok (record empty_attr { pmin = some (pos pmin); pmax = some (pos pmax) })
  unfolding parse_attributes parse_elements parse_element same_text is_digit
  parse_periods =
      rw
        (
          read_string-append (periods pmin pmax) rest periods-Free,
          periods_tokens,
          element_tokens (codes "pmin") pmin (refl, (refl, (refl, (refl, tt)))),
          element_tokens (codes "pmax") pmax (refl, (refl, (refl, (refl, tt)))),
          no_name b'g' pmin (codes "t") refl,
          no_name b'l' pmin (codes "t") refl,
          no_name b's' pmin (codes "tp") refl,
          no_name b'p' pmax (codes "min") refl,
          no_name b'g' pmax (codes "t") refl,
          no_name b'l' pmax (codes "t") refl,
          no_name b's' pmax (codes "tp") refl,
          atoi-print_int (pos pmin),
          atoi-print_int (pos pmax),
        )
        refl

  -- A payload "pmin=...&pmax=..." with two decimal numbers that an `int` holds and a final zero byte:
  -- the write returns;
  -- the server then finds these numbers as its pmin and pmax and its other attributes as they were, or
  -- unset, and every other server finds what it found before.
  pub write_attributes-periods :
      (server : Server) (attributes : Items Attributes)
      → pmin < 2 ^ 31
      → pmax < 2 ^ 31
      → (after : Items Attributes) × (write_attributes c server attributes
            (periods pmin pmax ++ 0 ∷ rest)
          ≡ ok after)
        × ((j : ℤ)
            → lfind after j ≡ (
                if server.short_server_id ==ℤ j
                then some (record (or_empty (lfind attributes server.short_server_id)) {
                  pmin = some (pos pmin);
                  pmax = some (pos pmax);
                })
                else lfind attributes j))
  unfolding merge_attributes
  write_attributes-periods server attributes _ _ =
      lfind-write_attributes c server attributes (periods pmin pmax ++ 0 ∷ rest) _ parse_periods
