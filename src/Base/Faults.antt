-- ===== src/Base/Faults.antt =====
-- What a run of C code comes to: it returns, it does what C leaves undefined (a NULL or foreign
-- address is read, a shift is too wide), it waits for ever on a semaphore, or the fuel is used up.
use mathlib.Core.Path.{◌≡◌, refl}
use mathlib.Core.Option.{Option, none, some}

pub data Run {ℓ} (A : Type ℓ) : Type ℓ where
  ok : A → Run A
  fault : Run A
  blocked : Run A
  out_of_fuel : Run A

infixl 5 ◌>>=◌
abbrev pub ◌>>=◌ {ℓ κ} : {A : Type ℓ} {B : Type κ} → Run A → (A → Run B) → Run B
ok a >>= f = f a
fault >>= f = fault
blocked >>= f = blocked
out_of_fuel >>= f = out_of_fuel

-- A pointer that is followed: NULL is `none`.
abbrev pub deref {ℓ} : {A : Type ℓ} → Option A → Run A
deref none = fault
deref (some a) = ok a

-- A run that returns has returned at its first step.
pub >>=-eq-ok {ℓ κ} :
    {A : Type ℓ} {B : Type κ} (first : Run A) (next : A → Run B) {result : B}
    → (first >>= next) ≡ ok result
    → (value : A) × (first ≡ ok value) × (next value ≡ ok result)
>>=-eq-ok (ok value) next returned = (value, refl, returned)
>>=-eq-ok fault next returned = cc
>>=-eq-ok blocked next returned = cc
>>=-eq-ok out_of_fuel next returned = cc

pub ok-inj {ℓ} : {A : Type ℓ} {a b : A} → ok a ≡ ok b → a ≡ b
ok-inj e = cc
