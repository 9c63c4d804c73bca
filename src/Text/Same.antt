-- ===== src/Text/Same.antt =====
-- `strcmp` on the texts of the model.
use lynx_lwm2m.Base.{◌≡◌, refl, true, List, [], ◌∷◌, ℕ, ==-refl, ==_iff, ◌==◌, Bool-cases, inl, inr}
use lynx_lwm2m.Text.{same_text}

pub same_text_refl : (s : List ℕ) → same_text s s ≡ true
unfolding same_text
same_text_refl [] = refl
same_text_refl (b ∷ s) = rw (==-refl b, same_text_refl s) refl

pub same_text-eq : (s t : List ℕ) → same_text s t ≡ true → s ≡ t
unfolding same_text
same_text-eq [] [] h = refl
same_text-eq [] (b ∷ t) h = absurd (cc)
same_text-eq (a ∷ s) [] h = absurd (cc)
same_text-eq (a ∷ s) (b ∷ t) h = elim (Bool-cases (a == b)) [
  | inl hit ↦ cc ((==_iff a b).0 hit, same_text-eq s t (rw hit at h))
  | inr miss ↦ absurd (cc (rw miss at h))
]
