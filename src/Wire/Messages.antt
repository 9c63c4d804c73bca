-- ===== src/Wire/Messages.antt =====
-- lwm2m_transport.c and lwm2m_transport_mqtt.c: what the other side reads in a response and a request.
use lynx_lwm2m.Base.{
  ℕ, ◌+◌, ◌%◌, ◌≤◌, ◌<◌, ◌≡◌, refl, true, false, List, [], ◌∷◌, ◌++◌, ◌==◌, ◌&&◌, bit_and, length,
  All, ok, arith, all_below, all_below_sound, ==_iff, ap,
}
use lynx_lwm2m.Model.{Response}
use lynx_lwm2m.Cell.{c_string}
use lynx_lwm2m.Wire.{Request, serialize_request, parse_request, serialize_response, parse_response}

content_type_kept : (n : ℕ) → n < 8 → bit_and (n % 256) 7 ≡ n
unfolding all_below
content_type_kept n h = (==_iff _ _).0 (all_below_sound 8 (λ k. bit_and (k % 256) 7 == k) n h refl)

code_bits : (n : ℕ) → n < 100 → ((bit_and n 128 == 0) && (bit_and n 127 == n)) ≡ true
unfolding all_below
code_bits n h = all_below_sound 100 (λ k. (bit_and k 128 == 0) && (bit_and k 127 == k)) n h refl

code_low : (n : ℕ) → n < 100 → bit_and n 127 ≡ n
code_low n h = (==_iff _ _).0 (ground (arith, code_bits n h))

code_high : (n : ℕ) → n < 100 → (bit_and n 128 == 0) ≡ true
code_high n h = ground (arith, code_bits n h)

-- For a response with a content type below 8 and at most 4998 bytes of payload, the message that
-- `serialize_response` makes is read by `parse_response` with the content type and the two last
-- decimal digits of the code, but always as a code from 200 on, and with the byte of the code in
-- front of the payload.
pub parse_response-serialize_response :
    (response : Response)
    → response.content_type < 8
    → length response.payload ≤ 4998
    → (message : List ℕ) × (serialize_response response ≡ ok message)
      × (parse_response message
          ≡ ok (record {
            content_type = response.content_type;
            response_code = 200 + response.response_code % 100;
            payload = response.response_code % 100 ∷ response.payload;
          }))
unfolding serialize_response parse_response
parse_response-serialize_response response small short =
    let code = response.response_code % 100 in
    (
      response.content_type % 256 ∷ code ∷ response.payload,
      ground arith,
      rw
          (
            content_type_kept response.content_type small,
            code_high code (omega arith),
            code_low code (omega arith),
          )
          refl,
    )

c_string_free : (s rest : List ℕ) → All (λ b. (b == 0) ≡ false) s → c_string (s ++ 0 ∷ rest) ≡ s
unfolding c_string
c_string_free [] rest h = refl
c_string_free (b ∷ s) rest (h, hs) = rw h (ap (λ t. b ∷ t) (c_string_free s rest hs))

-- For a request with a content type below 8, at most 4999 bytes of payload and no zero byte among
-- them, sent from a buffer that holds a zero byte behind the payload: the message that
-- `serialize_request` makes is read by `parse_request` as the same request.
pub parse_request-serialize_request :
    (stale : List ℕ) (request : Request)
    → request.content_type < 8
    → length request.payload ≤ 4999
    → All (λ b. (b == 0) ≡ false) request.payload
    → (message : List ℕ) × (serialize_request (0 ∷ stale) request ≡ ok message)
      × (parse_request message ≡ ok request)
unfolding serialize_request parse_request
parse_request-serialize_request stale request small short free = (
  request.content_type % 256 ∷ request.payload,
  rw (c_string_free request.payload stale free) (ground arith),
  rw (content_type_kept request.content_type small) refl,
)
