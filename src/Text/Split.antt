-- ===== src/Text/Split.antt =====
-- lwm2m_transport_mqtt.c, `parse_topic`: what `strtok` finds in a text that was joined from words.
use lynx_lwm2m.Base.{ℕ, ◌≡◌, refl, false, List, [], ◌∷◌, ◌++◌, ◌==◌, All, ==-refl, ap, ◌∙◌}
use lynx_lwm2m.Text.{cut, strtok_all}

-- No byte of the text is the separator.
abbrev pub Free : (separator : ℕ) → List ℕ → Type 0
Free separator = All (λ b. (b == separator) ≡ false)

-- A word is not empty and has no separator.
abbrev pub Word : (separator : ℕ) → List ℕ → Type 0
Word separator [] = ⊥
Word separator (b ∷ s) = Free separator (b ∷ s)

-- Words with a separator between them.
unfoldable pub join : (separator : ℕ) → List (List ℕ) → List ℕ
join separator [] = []
join separator (w ∷ []) = w
join separator (w ∷ v ∷ ws) = w ++ separator ∷ join separator (v ∷ ws)

abbrev pieces : ℕ → List ℕ → List (List ℕ)
pieces separator s = (cut separator s).0 ∷ (cut separator s).1

cut-Free : (separator : ℕ) (s : List ℕ) → Free separator s → cut separator s ≡ (s, [])
unfolding cut
cut-Free separator [] h = refl
cut-Free separator (b ∷ s) (h, hs) = rw (cut-Free separator s hs, h) refl

cut-append :
    (separator : ℕ) (w s : List ℕ)
    → Free separator w
    → cut separator (w ++ separator ∷ s) ≡ (w, pieces separator s)
unfolding cut
cut-append separator [] s h = rw (==-refl separator) refl
cut-append separator (b ∷ w) s (h, hs) = rw (cut-append separator w s hs, h) refl

strtok_all-Word : (separator : ℕ) (w : List ℕ) → Word separator w → strtok_all separator w ≡ w ∷ []
unfolding strtok_all
strtok_all-Word separator [] h = absurd h
strtok_all-Word separator (b ∷ w) h = rw (cut-Free separator (b ∷ w) h) refl

strtok_all_cons :
    (separator : ℕ) (w s : List ℕ)
    → Word separator w
    → strtok_all separator (w ++ separator ∷ s) ≡ w ∷ strtok_all separator s
unfolding strtok_all
strtok_all_cons separator [] s h = absurd h
strtok_all_cons separator (b ∷ w) s h = rw (cut-append separator (b ∷ w) s h) refl

-- The words are found again.
pub strtok_all-join :
    (separator : ℕ) (ws : List (List ℕ))
    → All (Word separator) ws
    → strtok_all separator (join separator ws) ≡ ws
unfolding join strtok_all
strtok_all-join separator [] h = refl
strtok_all-join separator (w ∷ []) (h, hs) = strtok_all-Word separator w h
strtok_all-join separator (w ∷ v ∷ ws) (h, hs) =
    strtok_all_cons separator w _ h ∙ ap (λ vs. w ∷ vs) (strtok_all-join separator (v ∷ ws) hs)
