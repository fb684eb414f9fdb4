-- ===== src/Codec/Fields.antt =====
-- `strings.Split` and `strings.Join` for a separator of one byte.
use popcon_sc.Prelude.{
  ℕ, ◌≡◌, ◌≢◌, refl, ap, ◌∙◌, List, [], ◌∷◌, ◌++◌, ◌==◌, if◌then◌else◌, arith, Text, All,
  Bool-cases, inl, inr,
}

-- Puts a byte in front of the first field.
cons_head : ℕ → List Text → List Text
cons_head c [] = (c ∷ []) ∷ []
cons_head c (field ∷ fields) = (c ∷ field) ∷ fields

unfoldable pub split : ℕ → Text → List Text
unfolding cons_head
split sep [] = [] ∷ []
split sep (c ∷ s) = let rest = split sep s in if c == sep then [] ∷ rest else cons_head c rest

unfoldable pub join : ℕ → List Text → Text
join sep [] = []
join sep (field ∷ []) = field
join sep (field ∷ (next ∷ fields)) = field ++ (sep ∷ join sep (next ∷ fields))

-- A field that does not hold the separator is split off whole.
split-append :
    (sep : ℕ) (field s : Text)
    → All (λ c. c ≢ sep) field
    → split sep (field ++ (sep ∷ s)) ≡ field ∷ split sep s
unfolding split
split-append sep [] s h = ground arith
split-append sep (c ∷ field) s h = ground (arith, split-append sep field s h.1)

split-field : (sep : ℕ) (field : Text) → All (λ c. c ≢ sep) field → split sep field ≡ field ∷ []
unfolding split
split-field sep [] h = refl
split-field sep (c ∷ field) h = ground (arith, split-field sep field h.1)

-- Fields without the separator, one at least, are found again.
pub split-join :
    (sep : ℕ) (field : Text) (fields : List Text)
    → All (All (λ c. c ≢ sep)) (field ∷ fields)
    → split sep (join sep (field ∷ fields)) ≡ field ∷ fields
unfolding join
split-join sep field [] h = split-field sep field h.0
split-join sep field (next ∷ fields) h =
    split-append sep field (join sep (next ∷ fields)) h.0
    ∙ ap (◌∷◌ field) (split-join sep next fields h.1)

-- There is always a field.
pub split-cons :
    (sep : ℕ) (s : Text) → (field : Text) × (fields : List Text) × (split sep s ≡ field ∷ fields)
unfolding split cons_head
split-cons sep [] = ([], [], refl)
split-cons sep (c ∷ s) =
    let (field, fields, e) = split-cons sep s in
    elim (Bool-cases (c == sep)) [
      | inl h ↦ ([], split sep s, rw h refl)
      | inr h ↦ (c ∷ field, fields, rw (h, e) refl)
    ]
