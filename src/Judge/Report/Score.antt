-- ===== src/Judge/Report/Score.antt =====
-- ppjudge/main.go: which score sets count, and the full score
-- (lib/database/contest_problem.go `UpdateTestCaseNames` adds it up).
use popcon_sc.Prelude.{
  ℕ, zero, suc, ◌≡◌, ◌↔◌, refl, false, Option, none, some, List, [], ◌∷◌, ℤ, pos, negsuc, add64,
  get_elem?, All, arith,
}
use popcon_sc.Types.Submission.{SubmissionStatusType, accepted}
use popcon_sc.Codec.Queries.{get_cases}
use popcon_sc.Judge.Report.{ScoreSet, spoils, any_spoils, score_sum}

-- The first loop of `UpdateTestCaseNames`: the score of a problem, from its score sets.
unfoldable pub problem_score : ℤ → List ScoreSet → ℤ
problem_score sum [] = sum
problem_score sum (s ∷ scores) = problem_score (add64 sum s.score) scores

-- A case number that names no test is no obstacle; one that names a test wants it accepted.
abbrev pub Passes : List SubmissionStatusType → ℤ → Type 0
Passes ret_cases (negsuc n) = Unit {0}
Passes ret_cases (pos n) = elim (get_elem? ret_cases n) [ none ↦ Unit {0} | some s ↦ s ≡ accepted ]

spoils_iff :
    (r : List SubmissionStatusType) (n : ℕ) (o : Option SubmissionStatusType)
    → get_elem? r n ≡ o
    → (spoils r (pos n) ≡ false)
      ↔ (elim o as (λ _. Type 0) [ none ↦ Unit {0} | some s ↦ s ≡ accepted ])
unfolding spoils
spoils_iff r n none e = (λ h. tt, λ h. ground arith)
spoils_iff r n (some s) e = (λ h. ground arith, λ h. ground arith)

-- A score set counts exactly if each of its case numbers that names a test names an accepted one.
any_spoils_iff :
    (ret_cases : List SubmissionStatusType) (vs : List ℤ)
    → (any_spoils ret_cases vs ≡ false) ↔ All (Passes ret_cases) vs
unfolding any_spoils
any_spoils_iff r [] = (λ h. tt, λ h. refl)
any_spoils_iff r (negsuc n ∷ vs) =
    let ih = any_spoils_iff r vs in (λ h. (tt, ih.0 h), λ h. ih.1 h.1)
any_spoils_iff r (pos n ∷ vs) =
    let here = spoils_iff r n (get_elem? r n) refl in
    let ih = any_spoils_iff r vs in
    (λ h. (here.0 (ground arith), ih.0 (ground arith)), λ h. ground (arith, here.1 h.0, ih.1 h.1))

Passes-of_accepted :
    (r : List SubmissionStatusType) (n : ℕ) → All (λ s. s ≡ accepted) r → Passes r (pos n)
Passes-of_accepted [] n h = tt
Passes-of_accepted (s ∷ r) zero h = h.0
Passes-of_accepted (s ∷ r) (suc n) h = Passes-of_accepted r n h.1

All-Passes :
    (r : List SubmissionStatusType) (vs : List ℤ) → All (λ s. s ≡ accepted) r → All (Passes r) vs
All-Passes r [] h = tt
All-Passes r (negsuc n ∷ vs) h = (tt, All-Passes r vs h)
All-Passes r (pos n ∷ vs) h = (Passes-of_accepted r n h, All-Passes r vs h)

score_sum_full :
    (r : List SubmissionStatusType) (sum : ℤ) (scores : List ScoreSet)
    → All (λ s. s ≡ accepted) r
    → score_sum r sum scores ≡ problem_score sum scores
unfolding score_sum problem_score
score_sum_full r sum [] h = refl
score_sum_full r sum (s ∷ scores) h =
    rw ((any_spoils_iff r (get_cases s.cases)).1 (All-Passes r (get_cases s.cases) h))
      (score_sum_full r (add64 sum s.score) scores h)

-- A submission whose tests are all accepted gets the full score of the problem.
pub score_sum-problem_score :
    (ret_cases : List SubmissionStatusType) (scores : List ScoreSet)
    → All (λ s. s ≡ accepted) ret_cases
    → score_sum ret_cases (pos 0) scores ≡ problem_score (pos 0) scores
score_sum-problem_score r scores h = score_sum_full r (pos 0) scores h
