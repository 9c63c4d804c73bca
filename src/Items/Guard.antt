-- ===== src/Items/Guard.antt =====
-- list.c: the guard of a list, a semaphore.
use lynx_lwm2m.Base.{ℕ, suc, ◌≡◌, ◌≢◌, refl, [], arith, ℤ, ok, blocked}
use lynx_lwm2m.Items.{
  lcontains, lfind, ladd, lremove, Guarded, guarded_lcontains, guarded_ladd, guarded_lfind,
  guarded_lremove,
}

module _ {ℓ} {V : Type ℓ} where
  -- On a list that is not empty and whose guard is free, each of the four operations returns what
  -- it comes to without the guard, and leaves the guard as it was.
  guarded_ops :
      (l : Guarded V) (key : ℤ) (value : V) (n : ℕ)
      → l.guard ≡ suc n
      → l.items.first ≢ []
      → (guarded_lcontains l key ≡ ok (lcontains l.items key, l))
        × (guarded_lfind l key ≡ ok (lfind l.items key, l))
        × (guarded_ladd l key value ≡ ok (record l { items = ladd l.items key value }))
        × (guarded_lremove l key ≡ ok (record l { items = lremove l.items key }))
  unfolding guarded_lcontains guarded_lfind guarded_ladd guarded_lremove
  guarded_ops l key value n e h = ground arith

  -- On an empty list with the guard at 1, `lremove` returns with the guard taken: every operation
  -- on the list it leaves waits for ever.
  pub guarded_lremove_empty :
      (l : Guarded V) (key : ℤ)
      → l.guard ≡ 1
      → l.items.first ≡ []
      → (m : Guarded V) × (guarded_lremove l key ≡ ok m)
        × ((j : ℤ) (value : V)
            → (guarded_lcontains m j ≡ blocked)
              × (guarded_lfind m j ≡ blocked)
              × (guarded_ladd m j value ≡ blocked)
              × (guarded_lremove m j ≡ blocked))
  unfolding guarded_lcontains guarded_lfind guarded_ladd guarded_lremove
  guarded_lremove_empty l key e h =
      (record l { guard = 0 }, ground arith, λ j value. (refl, refl, refl, refl))
