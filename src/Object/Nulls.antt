-- ===== src/Object/Nulls.antt =====
-- lwm2m_object.c: what merging a multiple resource does to the resource instances that exist.
use lynx_lwm2m.Base.{◌≡◌, true, none, is_some, List, [], ◌∷◌, ℤ, pos}
use lynx_lwm2m.Items.{Items, lfind}
use lynx_lwm2m.Model.{Cell}
use lynx_lwm2m.Libc.{Libc}

-- A resource instance without its value.
abbrev pub nulled : Cell → Cell
nulled cell = record cell { value = none; length = pos 0 }

-- Every key of the list is in `olds`.
abbrev pub AllKnown : Items Cell → List (ℤ × Cell) → Type 0
AllKnown olds [] = Unit {0}
AllKnown olds ((key, cell) ∷ news) = (is_some (lfind olds key) ≡ true) × AllKnown olds news
