-- ===== src/Web/Trim.antt =====
-- ppweb/utility.go: `TrimNewlineReader`, which replaces newlines in a stream that is read piece by
-- piece.
use popcon_sc.Prelude.{
  ◌≡◌, ◌≢◌, refl, sym, ap, ◌∙◌, Bool, true, false, List, [], ◌∷◌, ◌++◌, ◌==◌, if◌then◌else◌, arith,
  Text, All,
}

-- The loop of `Read` over the bytes of one piece: what it writes, and the new `prevNewline`.
unfoldable pub trim : Bool → Text → Text × Bool
trim prev [] = ([], prev)
trim prev (c ∷ p) =
    let after_return = trim true p in
    let after_drop = trim false p in
    let after_other = trim prev p in
    if c == 13
    then (10 ∷ after_return.0, after_return.1)
    else (if c == 10
        then (if prev then after_drop else (10 ∷ after_other.0, after_other.1))
        else (c ∷ after_other.0, after_other.1))

-- Successive calls of `Read` of one reader, with what the reader below gives to each.
unfoldable pub read_all : Bool → List Text → Text
unfolding trim
read_all prev [] = []
read_all prev (p ∷ rest) = (trim prev p).0 ++ read_all (trim prev p).1 rest

abbrev pub concat : List Text → Text
concat [] = []
concat (p ∷ rest) = p ++ concat rest

trim-append :
    (prev : Bool) (p q : Text)
    → trim prev (p ++ q)
      ≡ ((trim prev p).0 ++ (trim (trim prev p).1 q).0, (trim (trim prev p).1 q).1)
unfolding trim
trim-append prev [] q = refl
trim-append prev (c ∷ p) q =
    ground (arith, trim-append true p q, trim-append false p q, trim-append prev p q)

-- The stream that comes out does not depend on the pieces in which it is read.
pub read_all-concat :
    (prev : Bool) (pieces : List Text) → read_all prev pieces ≡ (trim prev (concat pieces)).0
unfolding read_all trim
read_all-concat prev [] = refl
read_all-concat prev (p ∷ rest) =
    ap (λ x. (trim prev p).0 ++ x) (read_all-concat (trim prev p).1 rest)
    ∙ sym (ap (λ x. x.0) (trim-append prev p (concat rest)))

trim-line :
    (prev : Bool) (line s : Text)
    → All (λ c. (c ≢ 10) × (c ≢ 13)) line
    → trim prev (line ++ s) ≡ (line ++ (trim prev s).0, (trim prev s).1)
unfolding trim
trim-line prev [] s h = refl
trim-line prev (c ∷ line) s h = ground (arith, trim-line prev line s h.1)

-- The bug: a "\r" swallows the next "\n", however far it is: of a line between them nothing but the
-- newline at its end is lost.
pub trim_swallows :
    (prev : Bool) (line s : Text)
    → All (λ c. (c ≢ 10) × (c ≢ 13)) line
    → (trim prev (13 ∷ (line ++ (10 ∷ s)))).0 ≡ 10 ∷ (line ++ (trim false s).0)
unfolding trim
trim_swallows prev line s h = ap (λ x. 10 ∷ x.0) (trim-line true line (10 ∷ s) h)
