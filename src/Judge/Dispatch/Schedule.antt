-- ===== src/Judge/Dispatch/Schedule.antt =====
-- ppjudge/main.go: what the moment of the total result changes, and what it does not.
use popcon_sc.Prelude.{
  ℕ, zero, suc, ◌+◌, ◌≤◌, ◌≡◌, refl, Bool, true, false, not, ◌&&◌, ◌||◌, List, [], ◌∷◌, ◌++◌, arith,
  count_if, bit,
}
use popcon_sc.Judge.Dispatch.{
  Event, taken, unlocked, reported, set_responded, judging, total, finished, report_total,
  interleave, is_set,
}

-- The events that give the request a result: a failure, or a total that is reported.
abbrev pub is_answer : Event → Bool
is_answer (reported message) = true
is_answer (total responded) = not responded
is_answer _ = false

abbrev pub is_report : Event → Bool
is_report (reported message) = true
is_report _ = false

-- A failure that is reported, or a judge that will report.
abbrev pub is_promise : Event → Bool
is_promise (reported message) = true
is_promise (judging j) = true
is_promise _ = false

-- Behind a report, or not: `lastResultResponded` is set only behind a report.
abbrev pub is_honest : (behind : Bool) → List Event → Bool
is_honest behind [] = true
is_honest behind (reported message ∷ rest) = is_honest true rest
is_honest behind (set_responded ∷ rest) = let more = is_honest behind rest in behind && more
is_honest behind (e ∷ rest) = is_honest behind rest

pub is_honest-append :
    (behind : Bool) (xs ys : List Event)
    → is_honest behind xs ≡ true
    → count_if is_set ys ≡ 0
    → is_honest behind (xs ++ ys) ≡ true
is_honest-append behind [] [] h n = refl
is_honest-append behind [] (reported m ∷ ys) h n = is_honest-append true [] ys refl n
is_honest-append behind [] (set_responded ∷ ys) h n = absurd (omega arith)
is_honest-append behind [] (taken f ∷ ys) h n = is_honest-append behind [] ys refl n
is_honest-append behind [] (unlocked f ∷ ys) h n = is_honest-append behind [] ys refl n
is_honest-append behind [] (judging j ∷ ys) h n = is_honest-append behind [] ys refl n
is_honest-append behind [] (total r ∷ ys) h n = is_honest-append behind [] ys refl n
is_honest-append behind [] (finished ∷ ys) h n = is_honest-append behind [] ys refl n
is_honest-append behind (reported m ∷ xs) ys h n = is_honest-append true xs ys h n
is_honest-append true (set_responded ∷ xs) ys h n = is_honest-append true xs ys h n
is_honest-append false (set_responded ∷ xs) ys h n = h
is_honest-append behind (taken f ∷ xs) ys h n = is_honest-append behind xs ys h n
is_honest-append behind (unlocked f ∷ xs) ys h n = is_honest-append behind xs ys h n
is_honest-append behind (judging j ∷ xs) ys h n = is_honest-append behind xs ys h n
is_honest-append behind (total r ∷ xs) ys h n = is_honest-append behind xs ys h n
is_honest-append behind (finished ∷ xs) ys h n = is_honest-append behind xs ys h n

-- A total that is not reported stands behind a report.
report_total-answered :
    (moment : ℕ) (responded behind : Bool) (events : List Event)
    → is_honest behind events ≡ true
    → (not responded || behind) ≡ true
    → 1 ≤ bit behind + count_if is_answer (report_total moment responded events)
unfolding report_total
report_total-answered zero responded behind events h b = ground arith
report_total-answered (suc n) responded behind [] h b = ground arith
report_total-answered (suc n) responded behind (taken f ∷ events) h b =
    ground (arith, report_total-answered n responded behind events h b)
report_total-answered (suc n) responded behind (unlocked f ∷ events) h b =
    ground (arith, report_total-answered n responded behind events h b)
report_total-answered (suc n) responded behind (judging j ∷ events) h b =
    ground (arith, report_total-answered n responded behind events h b)
report_total-answered (suc n) responded behind (finished ∷ events) h b =
    ground (arith, report_total-answered n responded behind events h b)
report_total-answered (suc n) responded behind (total r ∷ events) h b =
    ground (arith, report_total-answered n responded behind events h b)
report_total-answered (suc n) responded behind (reported m ∷ events) h b = omega arith
report_total-answered (suc n) responded true (set_responded ∷ events) h b = omega arith
report_total-answered (suc n) responded false (set_responded ∷ events) h b = absurd (ground arith)

pub interleave-answered :
    (moment : ℕ) (behind : Bool) (events : List Event)
    → is_honest behind events ≡ true
    → 1 ≤ bit behind + count_if is_promise events
    → 1 ≤ bit behind + count_if is_answer (interleave moment events)
unfolding interleave
interleave-answered moment behind [] h p = p
interleave-answered moment behind (judging j ∷ events) h p =
    report_total-answered moment false behind events h refl
interleave-answered moment behind (reported m ∷ events) h p = omega arith
interleave-answered moment behind (taken f ∷ events) h p =
    interleave-answered moment behind events h p
interleave-answered moment behind (unlocked f ∷ events) h p =
    interleave-answered moment behind events h p
interleave-answered moment true (set_responded ∷ events) h p = omega arith
interleave-answered moment false (set_responded ∷ events) h p = absurd (ground arith)
interleave-answered moment behind (total r ∷ events) h p =
    ground (arith, interleave-answered moment behind events h p)
interleave-answered moment behind (finished ∷ events) h p =
    interleave-answered moment behind events h p

-- The total is one more answer at most, and changes nothing else.
report_total-answers :
    (moment : ℕ) (responded : Bool) (events : List Event)
    → count_if is_answer (report_total moment responded events) ≤ suc (count_if is_answer events)
unfolding report_total
report_total-answers zero responded events = ground arith
report_total-answers (suc n) responded [] = ground arith
report_total-answers (suc n) responded (e ∷ events) =
    ground (arith, report_total-answers n (responded || is_set e) events)

pub interleave-answers :
    (moment : ℕ) (events : List Event)
    → count_if is_answer (interleave moment events) ≤ suc (count_if is_answer events)
unfolding interleave
interleave-answers moment [] = omega arith
interleave-answers moment (judging j ∷ events) = report_total-answers moment false events
interleave-answers moment (reported m ∷ events) = omega (arith, interleave-answers moment events)
interleave-answers moment (taken f ∷ events) = interleave-answers moment events
interleave-answers moment (unlocked f ∷ events) = interleave-answers moment events
interleave-answers moment (set_responded ∷ events) = interleave-answers moment events
interleave-answers moment (total r ∷ events) = ground (arith, interleave-answers moment events)
interleave-answers moment (finished ∷ events) = interleave-answers moment events

module _ (p : Event → Bool) (h : (r : Bool) → p (total r) ≡ false) where
  report_total-count :
      (moment : ℕ) (responded : Bool) (events : List Event)
      → count_if p (report_total moment responded events) ≡ count_if p events
  unfolding report_total
  report_total-count zero responded events = rw (h responded) refl
  report_total-count (suc n) responded [] = rw (h responded) refl
  report_total-count (suc n) responded (e ∷ events) =
      ground (arith, report_total-count n (responded || is_set e) events)

  pub interleave-count :
      (moment : ℕ) (events : List Event) → count_if p (interleave moment events) ≡ count_if p events
  unfolding interleave
  interleave-count moment [] = refl
  interleave-count moment (judging j ∷ events) =
      ground (arith, report_total-count moment false events)
  interleave-count moment (reported m ∷ events) = ground (arith, interleave-count moment events)
  interleave-count moment (taken f ∷ events) = ground (arith, interleave-count moment events)
  interleave-count moment (unlocked f ∷ events) = ground (arith, interleave-count moment events)
  interleave-count moment (set_responded ∷ events) = ground (arith, interleave-count moment events)
  interleave-count moment (total r ∷ events) = ground (arith, interleave-count moment events)
  interleave-count moment (finished ∷ events) = ground (arith, interleave-count moment events)
