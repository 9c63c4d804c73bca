-- ===== src/Tests/Lists.antt =====
-- The theorems on lists at concrete lists.
use lynx_lwm2m.Base.{ℕ, ◌≡◌, refl, ℤ, pos, ok, blocked}
use lynx_lwm2m.Items.{
  Items, list_new, lremove, Guarded, guarded_lcontains, guarded_ladd, guarded_lfind,
  guarded_lremove,
}
use lynx_lwm2m.Items.Lookup.{ladd-IsValid, IsValid, list_new-IsValid, lremove-IsValid}
use lynx_lwm2m.Items.Guard.{guarded_lremove_empty}
use lynx_lwm2m.Tests.Data.{two_keys}

two_keys-IsValid : IsValid two_keys
two_keys-IsValid = ladd-IsValid (pos 7) 70 (ladd-IsValid (pos 4) 40 list_new-IsValid)

lremove-IsValid_example : IsValid (lremove two_keys (pos 7))
lremove-IsValid_example = lremove-IsValid {V = ℕ} {l = two_keys} (pos 7) two_keys-IsValid

abbrev guarded : Items ℕ → Guarded ℕ
guarded l = record { items = l; guard = 1 }

guarded_lremove_empty_example :
    (m : Guarded ℕ) × (guarded_lremove (guarded list_new) (pos 4) ≡ ok m)
    × ((j : ℤ) (value : ℕ)
        → (guarded_lcontains m j ≡ blocked)
          × (guarded_lfind m j ≡ blocked)
          × (guarded_ladd m j value ≡ blocked)
          × (guarded_lremove m j ≡ blocked))
guarded_lremove_empty_example = guarded_lremove_empty (guarded list_new) (pos 4) refl refl
