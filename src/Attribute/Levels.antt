-- ===== src/Attribute/Levels.antt =====
-- lwm2m_attribute.c: which attribute holds for a resource, and what a write of attributes changes.
use lynx_lwm2m.Base.{
  ℕ, ◌≡◌, refl, Option, none, some, List, [], ◌∷◌, arith, if◌then◌else◌, ℤ, Run, ok, inl, inr,
  Option-cases, ==ℤ_iff, ==ℤ-refl, ◌==ℤ◌,
}
use lynx_lwm2m.Items.{Items, lfind, ladd, store}
use lynx_lwm2m.Items.Lookup.{lfind-ladd}
use lynx_lwm2m.Items.Store.{lfind-store}
use lynx_lwm2m.Model.{Attributes, Resource, Instance, Object, Server, Context}
use lynx_lwm2m.Libc.{Libc}
use lynx_lwm2m.Attribute.{
  empty_attr, field_of, get_default_pmin, get_default_pmax, get_resource_pmin, get_resource_pmax,
  merge_attributes, parse_attributes, write_attributes,
}

-- The first value that is set, else what the last resort gives.
abbrev pub first_set : List (Option ℤ) → Run (Option ℤ) → Run (Option ℤ)
first_set [] otherwise = otherwise
first_set (none ∷ next) otherwise = first_set next otherwise
first_set (some n ∷ next) otherwise = ok (some n)

module _ (context : Context) (server : Server) (object : Object) (i : Instance)
    (resource : Resource) where
  -- The pmax of a resource for a server is, with the lookup levels 0, 1 and 2 in turn: the
  -- resource's own; the first set of the resource, the instance and the object; the first set of
  -- these, else the default of the server's instance.
  get_resource_pmax-levels :
      let of =
        λ (l : Items Attributes). field_of (λ attr. attr.pmax) (lfind l server.short_server_id) in
      let levels = of resource.attributes ∷ of i.attributes ∷ of object.attributes ∷ [] in
      (get_resource_pmax context server object i resource 0 ≡ ok (of resource.attributes))
      × (get_resource_pmax context server object i resource 1 ≡ first_set levels (ok none))
      × (get_resource_pmax context server object i resource 2
          ≡ first_set levels (get_default_pmax context server))
  unfolding get_resource_pmax
  get_resource_pmax-levels = ground arith

  -- The pmin of a resource for a server is, with the lookup levels 0, 1 and 2 in turn: the
  -- resource's own; the first set of the resource's pmin, the instance's pmin and the object's
  -- pmax, which is read in place of its pmin; the first set of these, else the default pmin of the
  -- server's instance.
  get_resource_pmin-levels :
      let of =
        λ (l : Items Attributes). field_of (λ attr. attr.pmin) (lfind l server.short_server_id) in
      let object_pmax =
        field_of (λ attr. attr.pmax) (lfind object.attributes server.short_server_id) in
      let levels = of resource.attributes ∷ of i.attributes ∷ object_pmax ∷ [] in
      (get_resource_pmin context server object i resource 0 ≡ ok (of resource.attributes))
      × (get_resource_pmin context server object i resource 1 ≡ first_set levels (ok none))
      × (get_resource_pmin context server object i resource 2
          ≡ first_set levels (get_default_pmin context server))
  unfolding get_resource_pmin
  get_resource_pmin-levels = ground arith

-- Merging attributes is associative, and the empty attributes are neutral on both sides.
merge_attributes-monoid :
    (a b d : Attributes)
    → (merge_attributes (merge_attributes a b) d ≡ merge_attributes a (merge_attributes b d))
      × (merge_attributes empty_attr a ≡ a)
      × (merge_attributes a empty_attr ≡ a)
unfolding merge_attributes
merge_attributes-monoid a b d = ground arith

abbrev pub or_empty : Option Attributes → Attributes
or_empty none = empty_attr
or_empty (some attr) = attr

-- If the payload parses to `new_attr`, the write returns; the server then finds its old attributes
-- (or empty ones) merged with `new_attr`, and every other server what it found before.
pub lfind-write_attributes :
    (c : Libc) (server : Server) (attributes : Items Attributes) (payload : List ℕ)
    (new_attr : Attributes)
    → parse_attributes c empty_attr payload ≡ ok new_attr
    → (after : Items Attributes) × (write_attributes c server attributes payload ≡ ok after)
      × ((j : ℤ)
          → lfind after j ≡ (
              if server.short_server_id ==ℤ j
              then some
                  (merge_attributes (or_empty (lfind attributes server.short_server_id)) new_attr)
              else lfind attributes j))
unfolding write_attributes
lfind-write_attributes c server attributes payload new_attr parsed =
    let key = server.short_server_id in
    elim (Option-cases (lfind attributes key)) [
      | inl absent ↦
          (let made = ladd attributes key empty_attr in
            let found : lfind made key ≡ some empty_attr =
              rw (lfind-ladd attributes key key empty_attr, ==ℤ-refl key) refl in
            let merged = merge_attributes empty_attr new_attr in
            (
              store made key merged,
              rw (absent, parsed, found) refl,
              λ j. ground (
                arith,
                absent,
                found,
                lfind-store made key j merged,
                lfind-ladd attributes key j empty_attr,
                ==ℤ_iff key j,
              ),
            ))
      | inr (old, found) ↦
          (let merged = merge_attributes old new_attr in
            (
              store attributes key merged,
              rw (found, parsed, found) refl,
              λ j. ground (arith, found, lfind-store attributes key j merged, ==ℤ_iff key j),
            ))
    ]
