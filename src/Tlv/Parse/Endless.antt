-- ===== src/Tlv/Parse/Endless.antt =====
-- A payload on which `parse_instance` does not end.
use lynx_lwm2m.Base.{
  ℕ, zero, suc, ◌<◌, ◌≡◌, refl, List, ◌∷◌, ℤ, pos, negsuc, ◌+ℤ◌, some, get_elem?, ok, out_of_fuel,
  arith, ltb_ℤ, true,
}
use lynx_lwm2m.Items.{Items, list_new, ladd}
use lynx_lwm2m.Model.{integer, Resource, Object, int_value}
use lynx_lwm2m.Cell.{set_value}
use lynx_lwm2m.Libc.{Libc}
use lynx_lwm2m.Tlv.Header.{parse_tlv_header}
use lynx_lwm2m.Tlv.Value.{parse_value}
use lynx_lwm2m.Tlv.Parse.{header_at, parse_instance_resource, parse_instance_loop, parse_instance}

-- The element: a resource with one byte of length, which as a signed `char` is -3.
abbrev pub looping : ℕ → List ℕ → List ℕ
looping id rest = 0xc8 ∷ id ∷ 0xfd ∷ rest

looping_header :
    (id : ℕ) (rest : List ℕ)
    → id < 128
    → header_at (looping id rest) 0 ≡ ok (record { type = 0xc0; length = negsuc 2; id = pos id }, 3)
unfolding header_at parse_tlv_header
looping_header id rest h = ground arith

-- One round ends where it began.
looping_round :
    (c : Libc) (fuel : ℕ) (object : Object) (id : ℕ) (rest : List ℕ) {r : Resource}
    → id < 128
    → get_elem? object.resource_def id ≡ some r
    → r.kind ≡ integer
    → (parsed : Resource) × (parse_instance_resource c fuel object (looping id rest) 0
        ≡ ok (parsed, 0))
unfolding parse_instance_resource parse_value set_value
looping_round c fuel object id rest {r} h found k = (
  record r { cell = record (r.cell) { value = some (int_value (pos 0)); length = pos 0 } },
  rw (looping_header id rest h, found, k),
)

looping_loop :
    (c : Libc) (fuel : ℕ) (object : Object) (id : ℕ) (limit : ℤ) (rest : List ℕ)
    (resources : Items Resource) {r : Resource}
    → id < 128
    → ltb_ℤ (pos 0) limit ≡ true
    → get_elem? object.resource_def id ≡ some r
    → r.kind ≡ integer
    → parse_instance_loop c fuel object (looping id rest) limit 0 resources ≡ out_of_fuel
unfolding parse_instance_loop
looping_loop c zero object id limit rest resources h more found k = refl
looping_loop c (suc fuel) object id limit rest resources h more found k =
    let (parsed, round) = looping_round c fuel object id rest h found k in
    ground (
      arith,
      more,
      round,
      looping_loop c fuel object id limit rest (ladd resources parsed.id parsed) h more found k,
    )

-- A payload of positive length that starts with the byte 0xc8, an identifier below 128 of a
-- resource that the object defines as an integer, and the byte 0xfd uses up any fuel in
-- `parse_instance`: its loop never ends.
pub parse_instance_endless :
    (c : Libc) (fuel : ℕ) (object : Object) (id n : ℕ) (rest : List ℕ) {r : Resource}
    → id < 128
    → 0 < n
    → get_elem? object.resource_def id ≡ some r
    → r.kind ≡ integer
    → parse_instance c fuel object (looping id rest) 0 (pos n) ≡ out_of_fuel
unfolding parse_instance
parse_instance_endless c fuel object id n rest h pn found k =
    looping_loop c fuel object id (pos 0 +ℤ pos n) rest list_new h (ground arith) found k
