-- ===== src/Codec/Decimal.antt =====
-- `strconv.FormatInt(z, 10)` and `strconv.ParseInt(s, 10, 64)`.
use popcon_sc.Prelude.{
  ℕ, zero, suc, ◌+◌, ◌-◌, ◌*◌, ◌/◌, ◌%◌, ◌^◌, ◌≤◌, ◌<◌, ◌≡◌, ◌≢◌, refl, sym, subst, ap, ◌∙◌, Bool,
  true, false, ◌||◌, List, [], ◌∷◌, ◌++◌, dec_lt, lt→ltb, not_lt→ltb, ltb, leb, ◌==◌, if◌then◌else◌,
  ℤ, pos, negsuc, IsInt64, arith, Text, All, All-map, All-append,
}
use mathlib.Core.List.{append_assoc, append-nil}
use native.Mathlib.Nat.{pow-suc}

-- The digits of n, the last one last; 20 rounds are enough for an int64.
unfoldable pub format_digits : ℕ → ℕ → Text
format_digits zero n = []
format_digits (suc rounds) n =
    let front = format_digits rounds (n / 10) ++ (48 + n % 10) ∷ [] in
    if ltb n 10 then (48 + n) ∷ [] else front

unfoldable pub format_int : ℤ → Text
format_int (pos n) = format_digits 20 n
format_int (negsuc n) = b'-' ∷ format_digits 20 (suc n)

-- `strconv.ParseUint`: a byte that is no digit, or a value of 2^64 or more, ends the loop at once.
pub data Parsed : Type 0 where
  syntax range : Parsed
  value : ℕ → Parsed

parse_digits : ℕ → Text → Parsed
parse_digits n [] = value n
parse_digits n (c ∷ s) =
    let next = n * 10 + (c - 48) in
    let rest = parse_digits next s in
    if ltb c 48 || ltb 57 c
    then syntax
    else (if leb 1844674407370955162 n || leb (2 ^ 64) next then range else rest)

unfoldable pub parse_uint : Text → Parsed
unfolding parse_digits
parse_uint [] = syntax
parse_uint (c ∷ s) = parse_digits 0 (c ∷ s)

-- The int64 of a sign and an absolute value, and whether `ParseInt` reports no error.
abbrev signed : Bool → Parsed → ℤ × Bool
signed negative syntax = (pos 0, false)
signed false range = (pos (2 ^ 63 - 1), false)
signed true range = (negsuc (2 ^ 63 - 1), false)
signed false (value n) = if ltb n (2 ^ 63) then (pos n, true) else (pos (2 ^ 63 - 1), false)
signed true (value zero) = (pos 0, true)
signed true (value (suc n)) =
    if ltb n (2 ^ 63) then (negsuc n, true) else (negsuc (2 ^ 63 - 1), false)

-- `strconv.ParseInt(s, 10, 64)`: the value that it returns, also beside an error, and whether there
-- is no error.
unfoldable pub parse_int : Text → ℤ × Bool
unfolding parse_uint
parse_int [] = (pos 0, false)
parse_int (c ∷ s) =
    if c == b'+'
    then signed false (parse_uint s)
    else (if c == b'-' then signed true (parse_uint s) else signed false (parse_uint (c ∷ s)))

-- A digit is read after the number in front of it.
parse_digits-digit :
    (n d : ℕ) (s : Text)
    → d < 10
    → n * 10 + d < 2 ^ 64
    → parse_digits n ((48 + d) ∷ s) ≡ parse_digits (n * 10 + d) s
unfolding parse_digits
parse_digits-digit n d s h k =
    let e : (48 + d) - 48 ≡ d = omega arith in
    ground (arith, ap (λ x. parse_digits (n * 10 + x) s) e)

parse_digits-small : (n : ℕ) (s : Text) → n < 10 → parse_digits 0 ((48 + n) ∷ s) ≡ parse_digits n s
parse_digits-small n s h =
    parse_digits-digit 0 n s h (omega arith) ∙ ap (λ x. parse_digits x s) (omega arith)

-- What was written is read back to the number itself.
parse_digits-format :
    (rounds n : ℕ) (s : Text)
    → n < 10 ^ rounds
    → 0 < rounds
    → n < 2 ^ 64
    → parse_digits 0 (format_digits rounds n ++ s) ≡ parse_digits n s
unfolding format_digits
parse_digits-format zero n s h p k = absurd (omega arith)
parse_digits-format (suc zero) n s h p k =
    rw (lt→ltb n 10 (omega arith)) (parse_digits-small n s (omega arith))
parse_digits-format (suc (suc rounds)) n s h p k = elim (dec_lt n 10) [
  | yes q ↦ rw (lt→ltb n 10 q) (parse_digits-small n s q)
  | no q ↦ rw (not_lt→ltb n 10 q) (
      ap (parse_digits 0)
        (append_assoc (format_digits (suc rounds) (n / 10)) ((48 + n % 10) ∷ []) s)
      ∙ parse_digits-format (suc rounds) (n / 10) ((48 + n % 10) ∷ s)
          (omega (arith, pow-suc 10 (suc rounds))) (omega arith) (omega arith)
      ∙ parse_digits-digit (n / 10) (n % 10) s (omega arith) (omega arith)
      ∙ ap (λ x. parse_digits x s) (omega arith))
]

-- A number begins with a digit, and has digits only.
abbrev pub IsDigit : ℕ → Type 0
IsDigit c = (48 ≤ c) × (c ≤ 57)

format_digits-IsDigit : (rounds n : ℕ) → All IsDigit (format_digits rounds n)
unfolding format_digits
format_digits-IsDigit zero n = tt
format_digits-IsDigit (suc rounds) n = elim (dec_lt n 10) [
  | yes q ↦ rw (lt→ltb n 10 q) ((omega arith, omega arith), tt)
  | no q ↦ rw (not_lt→ltb n 10 q) (
      All-append IsDigit (format_digits rounds (n / 10)) ((48 + n % 10) ∷ [])
        (format_digits-IsDigit rounds (n / 10)) ((omega arith, omega arith), tt))
]

append-ne-nil {ℓ} : {A : Type ℓ} (xs : List A) (y : A) → xs ++ y ∷ [] ≢ []
append-ne-nil [] y h = cc
append-ne-nil (x ∷ xs) y h = cc

format_digits-ne-nil : (rounds n : ℕ) → format_digits (suc rounds) n ≢ []
unfolding format_digits
format_digits-ne-nil rounds n h = elim (dec_lt n 10) [
  | yes q ↦ cc (rw (lt→ltb n 10 q) at h)
  | no q ↦ append-ne-nil (format_digits rounds (n / 10)) (48 + n % 10) (rw (not_lt→ltb n 10 q) at h)
]

parse_digits-all : (n : ℕ) → n < 2 ^ 64 → parse_digits 0 (format_digits 20 n) ≡ value n
unfolding parse_digits
parse_digits-all n h =
    ap (parse_digits 0) (sym (append-nil (format_digits 20 n)))
    ∙ parse_digits-format 20 n [] (omega arith) (omega arith) h

parse_uint-format :
    (n : ℕ) (d : Text) → d ≡ format_digits 20 n → n < 2 ^ 64 → parse_uint d ≡ value n
unfolding parse_uint
parse_uint-format n [] e h = absurd (format_digits-ne-nil 19 n (sym e))
parse_uint-format n (c ∷ s) e h = ap (parse_digits 0) e ∙ parse_digits-all n h

parse_int-digits :
    (n : ℕ) (d : Text) → d ≡ format_digits 20 n → n < 2 ^ 63 → parse_int d ≡ (pos n, true)
unfolding parse_int
parse_int-digits n [] e h = absurd (format_digits-ne-nil 19 n (sym e))
parse_int-digits n (c ∷ s) e h =
    let digits = subst (All IsDigit) (sym e) (format_digits-IsDigit 20 n) in
    ground (arith, parse_uint-format n (c ∷ s) e (omega arith), digits.0)

-- Every int64 is read back from its decimal text, without an error.
pub parse_int-format_int : (z : ℤ) → IsInt64 z → parse_int (format_int z) ≡ (z, true)
unfolding parse_int format_int
parse_int-format_int (pos n) h = parse_int-digits n (format_digits 20 n) refl (omega arith)
parse_int-format_int (negsuc n) h =
    ground (arith, parse_uint-format (suc n) (format_digits 20 (suc n)) refl (omega arith))

-- No text of a number has a colon or a comma.
pub format_int-bytes : (z : ℤ) → All (λ c. (c ≢ b':') × (c ≢ b',')) (format_int z)
unfolding format_int
format_int-bytes (pos n) =
    All-map IsDigit (λ c. (c ≢ b':') × (c ≢ b',')) (format_digits 20 n)
      (λ c d. (omega arith, omega arith)) (format_digits-IsDigit 20 n)
format_int-bytes (negsuc n) = (
  (omega arith, omega arith),
  All-map IsDigit (λ c. (c ≢ b':') × (c ≢ b',')) (format_digits 20 (suc n))
      (λ c d. (omega arith, omega arith)) (format_digits-IsDigit 20 (suc n)),
)
