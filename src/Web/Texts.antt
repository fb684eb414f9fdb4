-- ===== src/Web/Texts.antt =====
-- ppweb/handler.go `UTF8StringLengthAndBOMCheck` and `HasBOM`, and what the handlers use of
-- unicode/utf8 and of `strings.TrimSpace`.
use popcon_sc.Prelude.{
  ℕ, zero, suc, ◌-◌, ◌*◌, Bool, true, false, not, ◌&&◌, ◌||◌, [], ◌∷◌, ltb, leb, ◌==◌,
  if◌then◌else◌, Text, length,
}

abbrev between : ℕ → ℕ → ℕ → Bool
between low high c = leb low c && leb c high

-- Whether the bytes begin with one from low to high, and n more continuation bytes.
continues : ℕ → ℕ → ℕ → Text → Bool
continues low high n [] = false
continues low high zero (c ∷ s) = between low high c
continues low high (suc n) (c ∷ s) = let rest = continues 128 191 n s in between low high c && rest

-- The bytes of the rune in front of s: one for a byte that begins no rune.
unfoldable pub rune_width : ℕ → Text → ℕ
unfolding continues
rune_width c s =
    if between 194 223 c && continues 128 191 0 s
    then 2
    else (if (c == 224 && continues 160 191 1 s)
          || ((between 225 236 c || between 238 239 c) && continues 128 191 1 s)
          || (c == 237 && continues 128 159 1 s)
        then 3
        else (if (c == 240 && continues 144 191 2 s)
              || (between 241 243 c && continues 128 191 2 s)
              || (c == 244 && continues 128 143 2 s)
            then 4
            else 1))

-- The runes behind the next `skip` bytes.
unfoldable pub rune_count : ℕ → Text → ℕ
unfolding rune_width
rune_count skip [] = 0
rune_count (suc skip) (c ∷ s) = rune_count skip s
rune_count zero (c ∷ s) = suc (rune_count (rune_width c s - 1) s)

abbrev starts_with : Text → Text → Bool
starts_with [] s = true
starts_with (p ∷ prefix) [] = false
starts_with (p ∷ prefix) (c ∷ s) = let rest = starts_with prefix s in p == c && rest

-- Whether the text begins with the two bytes and then with a byte of the range.
starts_with_range : ℕ → ℕ → ℕ → ℕ → Text → Bool
starts_with_range a b low high (x ∷ (y ∷ (c ∷ s))) = (a == x && b == y) && between low high c
starts_with_range a b low high s = false

-- The bytes of the white space in front, by `unicode.IsSpace`; 0 where there is none.
unfoldable pub space_width : Text → ℕ
unfolding starts_with_range
space_width [] = 0
space_width (c ∷ s) =
    if between 9 13 c || c == 32
    then 1
    else (if starts_with (194 ∷ 133 ∷ []) (c ∷ s) || starts_with (194 ∷ 160 ∷ []) (c ∷ s)
        then 2
        else (if starts_with (225 ∷ 154 ∷ 128 ∷ []) (c ∷ s)
              || starts_with_range 226 128 128 138 (c ∷ s)
              || starts_with_range 226 128 168 169 (c ∷ s)
              || starts_with (226 ∷ 128 ∷ 175 ∷ []) (c ∷ s)
              || starts_with (226 ∷ 129 ∷ 159 ∷ []) (c ∷ s)
              || starts_with (227 ∷ 128 ∷ 128 ∷ []) (c ∷ s)
            then 3
            else 0))

-- Drops the white space in front, and the next `skip` bytes before.
unfoldable pub trim_left : ℕ → Text → Text
unfolding space_width
trim_left skip [] = []
trim_left (suc skip) (c ∷ s) = trim_left skip s
trim_left zero (c ∷ s) =
    let w = space_width (c ∷ s) in let rest = trim_left (w - 1) s in if w == 0 then c ∷ s else rest

unfoldable pub trim_right : Text → Text
unfolding trim_left
trim_right [] = []
trim_right (c ∷ s) =
    let rest = trim_right s in elim (trim_left 0 (c ∷ s)) [ [] ↦ [] | d ∷ t ↦ c ∷ rest ]

-- `strings.TrimSpace`.
unfoldable pub trim_space : Text → Text
unfolding trim_right trim_left
trim_space s = trim_right (trim_left 0 s)

-- `HasBOM`.
unfoldable pub has_bom : Text → Bool
has_bom s = starts_with (239 ∷ 187 ∷ 191 ∷ []) s

unfoldable pub utf8_string_length_and_bom_check : Text → ℕ → Bool
unfolding rune_count has_bom
utf8_string_length_and_bom_check str l =
    if ltb (l * 6) (length str)
    then false
    else (if ltb l (rune_count 0 str) then false else not (has_bom str))
