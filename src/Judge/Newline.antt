-- ===== src/Judge/Newline.antt =====
-- ppjudge/variables.go: `NewlineReplacer`, which both judges use on inputs and outputs.
use popcon_sc.Prelude.{
  ℕ, ◌≡◌, ◌≢◌, refl, ap, ◌∙◌, Bool, true, false, ◌&&◌, List, [], ◌∷◌, ◌++◌, ◌==◌, if◌then◌else◌,
  arith, Text, All,
}

-- Between two bytes: whether the last one was a "\r", whose "\n" is written already.
after_byte : Bool → Text → Text
after_byte seen [] = []
after_byte seen (c ∷ s) =
    let plain = c ∷ after_byte false s in
    let dropped = after_byte false s in
    let started = 10 ∷ after_byte true s in
    if c == 13 then started else (if seen && c == 10 then dropped else plain)

-- `NewlineReplacer.Replace`: "\r\n" and "\r" become "\n".
unfoldable pub replace_newlines : Text → Text
unfolding after_byte
replace_newlines s = after_byte false s

-- No byte is a carriage return.
abbrev pub HasNoReturn : Text → Type 0
HasNoReturn = All (λ c. c ≢ 13)

after_byte-HasNoReturn : (seen : Bool) (s : Text) → HasNoReturn (after_byte seen s)
unfolding after_byte
after_byte-HasNoReturn seen [] = tt
after_byte-HasNoReturn seen (c ∷ s) =
    ground (arith, after_byte-HasNoReturn false s, after_byte-HasNoReturn true s)

after_byte_id : (s : Text) → HasNoReturn s → after_byte false s ≡ s
unfolding after_byte
after_byte_id [] h = refl
after_byte_id (c ∷ s) h = ground (arith, after_byte_id s h.1)

-- Replacing newlines leaves no carriage return, and changes nothing the second time.
pub replace_newlines_normal :
    (s : Text)
    → HasNoReturn (replace_newlines s)
      × (replace_newlines (replace_newlines s) ≡ replace_newlines s)
unfolding replace_newlines
replace_newlines_normal s = (
  after_byte-HasNoReturn false s,
  after_byte_id (after_byte false s) (after_byte-HasNoReturn false s),
)

-- The three ends of a line.
pub data Newline : Type 0 where
  lf cr crlf : Newline

abbrev pub newline_bytes : Newline → Text
newline_bytes lf = 10 ∷ []
newline_bytes cr = 13 ∷ []
newline_bytes crlf = 13 ∷ 10 ∷ []

-- Lines without newline bytes, each with its end.
abbrev pub join_lines : List (Text × Newline) → Text
join_lines [] = []
join_lines ((line, end) ∷ rest) = line ++ (newline_bytes end ++ join_lines rest)

abbrev pub unix_lines : List (Text × Newline) → Text
unix_lines [] = []
unix_lines ((line, end) ∷ rest) = line ++ (10 ∷ unix_lines rest)

-- A line is not empty and has no newline byte.
abbrev pub AreLines : List (Text × Newline) → Type 0
AreLines [] = Unit {0}
AreLines ((line, end) ∷ rest) = (line ≢ []) × All (λ c. (c ≢ 10) × (c ≢ 13)) line × AreLines rest

after_byte-append :
    (b : Bool) (c : ℕ) (line s : Text)
    → All (λ c. (c ≢ 10) × (c ≢ 13)) (c ∷ line)
    → after_byte b ((c ∷ line) ++ s) ≡ (c ∷ line) ++ after_byte false s
unfolding after_byte
after_byte-append b c [] s h = ground arith
after_byte-append b c (d ∷ line) s h = ground (arith, after_byte-append false d line s h.1)

after_byte-lines :
    (b : Bool) (ls : List (Text × Newline))
    → AreLines ls
    → after_byte b (join_lines ls) ≡ unix_lines ls
unfolding after_byte
after_byte-lines b [] h = refl
after_byte-lines b (([], end) ∷ rest) h = absurd (h.0 refl)
after_byte-lines b ((c ∷ line, lf) ∷ rest) h =
    after_byte-append b c line _ h.1
    ∙ ap (λ s. (c ∷ line) ++ (10 ∷ s)) (after_byte-lines false rest h.2)
after_byte-lines b ((c ∷ line, cr) ∷ rest) h =
    after_byte-append b c line _ h.1
    ∙ ap (λ s. (c ∷ line) ++ (10 ∷ s)) (after_byte-lines true rest h.2)
after_byte-lines b ((c ∷ line, crlf) ∷ rest) h =
    after_byte-append b c line _ h.1
    ∙ ap (λ s. (c ∷ line) ++ (10 ∷ s)) (after_byte-lines false rest h.2)

-- Lines that are not empty, whatever mixture of "\n", "\r" and "\r\n" ends them, come out with the
-- same contents and with "\n" at every end.
pub replace_newlines_lines :
    (ls : List (Text × Newline)) → AreLines ls → replace_newlines (join_lines ls) ≡ unix_lines ls
unfolding replace_newlines
replace_newlines_lines ls h = after_byte-lines false ls h
