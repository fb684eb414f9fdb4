-- ===== src/Judge/Report/Rounds.antt =====
-- ppjudge/main.go and ppjudge/judge_simple.go together: what the goroutine that reads `statusChan`
-- does with the two messages of a test on a problem of the type "Perfect Match".
use popcon_sc.Prelude.{
  ℕ, zero, suc, ◌≤◌, ◌≡◌, refl, ap, ◌∙◌, Bool, false, Option, some, List, [], ◌∷◌, pos, get_elem?,
  set, arith,
}
use popcon_sc.Types.Submission.{SubmissionStatusType, judging, accepted, max_status, status_int}
use popcon_sc.Types.Contest.{perfect_match}
use popcon_sc.Judge.{TestCase, JudgeStatus, plain_status, create_internal_error, Tally, first_tally}
use popcon_sc.Judge.Simple.{SimpleHost, judge_test, judge_tests}
use popcon_sc.Judge.Simple.Loop.{test_status, judge_test-total}
use popcon_sc.Judge.Report.{
  Problem, ProblemCase, Judged, OutputFile, Progress, running, compare_output, note_case,
  handle_case, handle, handle_all,
}

-- The message of a test, which does not depend on the tests before it.
abbrev pub message : SimpleHost → Bool → TestCase → JudgeStatus
message host b tc = (judge_test host b tc first_tally).0

judge_test-message :
    (host : SimpleHost) (b : Bool) (tc : TestCase) (t : Tally)
    → (judge_test host b tc t).0 ≡ message host b tc
unfolding judge_test
judge_test-message host b tc t = ground arith

message-case : (host : SimpleHost) (b : Bool) (tc : TestCase) → (message host b tc).case ≡ tc.id
unfolding judge_test create_internal_error
message-case host b tc = ground arith

-- An accepted test is compared with its output file; `none` is a crash.
abbrev pub compared : Problem → OutputFile → JudgeStatus → Option SubmissionStatusType
compared p file stat = elim stat.status [
  | accepted ↦ compare_output p file stat.stdout
  | status ↦ some status
]

-- Test number k and those behind it, with their verdicts.
pub data Judges (host : SimpleHost) (b : Bool) (p : Problem) (output : ℕ → OutputFile)
    : ℕ → List TestCase → List SubmissionStatusType → Type 0 where
  done : (k : ℕ) → Judges host b p output k [] []
  test :
      (k : ℕ) (tc : TestCase) (tests : List TestCase) (v : SubmissionStatusType)
      (vs : List SubmissionStatusType) (c : ProblemCase)
      → tc.id ≡ pos k
      → get_elem? p.cases k ≡ some c
      → compared p (output k) (message host b tc) ≡ some v
      → Judges host b p output (suc k) tests vs
      → Judges host b p output k (tc ∷ tests) (v ∷ vs)

abbrev pub worst_of : List SubmissionStatusType → SubmissionStatusType
worst_of [] = accepted
worst_of (v ∷ vs) = max_status v (worst_of vs)

-- Verdicts written from place k on.
abbrev pub write_from :
    ℕ → List SubmissionStatusType → List SubmissionStatusType → List SubmissionStatusType
write_from k [] r = r
write_from k (v ∷ vs) r = write_from (suc k) vs (set r k v)

-- The message `judging` in front of a test.
judging_step :
    (p : Problem) (j : Judged) (output : ℕ → OutputFile) (tc : TestCase) (k : ℕ) (c : ProblemCase)
    (s : Progress)
    → tc.id ≡ pos k
    → get_elem? p.cases k ≡ some c
    → handle p j output false (plain_status tc.id judging) s
      ≡ running (note_case p j (plain_status tc.id judging) c k judging s)
unfolding handle handle_case
judging_step p j output tc k c s e h = ground arith

test_step :
    (p : Problem) (j : Judged) (output : ℕ → OutputFile) (stat : JudgeStatus) (k : ℕ)
    (c : ProblemCase) (s : Progress) (v : SubmissionStatusType)
    → p.judge_type ≡ perfect_match
    → stat.case ≡ pos k
    → get_elem? p.cases k ≡ some c
    → compared p (output k) stat ≡ some v
    → handle p j output false stat s ≡ running (note_case p j stat c k v s)
unfolding handle handle_case
test_step p j output stat k c s v m e h q = ground arith

message-status :
    (host : SimpleHost) (b : Bool) (tc : TestCase)
    → (message host b tc).status ≡ test_status host b tc
unfolding judge_test create_internal_error
message-status host b tc = ground arith

-- Comparing the output never makes a result better.
compared-ge :
    (p : Problem) (file : OutputFile) (stat : JudgeStatus) (v : SubmissionStatusType)
    → compared p file stat ≡ some v
    → status_int stat.status ≤ status_int v
unfolding compare_output
compared-ge p file stat v h = ground arith

pub max_status_left :
    (a b : SubmissionStatusType) → status_int b ≤ status_int a → max_status a b ≡ a
unfolding max_status
max_status_left a b h = ground arith

set-set : {A : Type 0} (r : List A) (k : ℕ) (x y : A) → set (set r k x) k y ≡ set r k y
set-set [] k x y = refl
set-set (z ∷ r) zero x y = refl
set-set (z ∷ r) (suc k) x y = ap (λ l. z ∷ l) (set-set r k x y)

-- The two messages of a test leave the worse of the total and the verdict.
pub note_case-total :
    (p : Problem) (j : Judged) (a b : JudgeStatus) (c : ProblemCase) (k : ℕ)
    (v : SubmissionStatusType) (s : Progress)
    → 2 ≤ status_int s.total
    → (note_case p j b c k v (note_case p j a c k judging s)).total ≡ max_status s.total v
unfolding note_case
note_case-total p j a b c k v s g =
    ap (λ x. max_status x v) (max_status_left s.total judging (omega (arith, g)))

pub note_case-ret_cases :
    (p : Problem) (j : Judged) (a b : JudgeStatus) (c : ProblemCase) (k : ℕ)
    (v : SubmissionStatusType) (s : Progress)
    → (note_case p j b c k v (note_case p j a c k judging s)).ret_cases ≡ set s.ret_cases k v
unfolding note_case
note_case-ret_cases p j a b c k v s = set-set s.ret_cases k judging v

-- What the judge's own total is stays below the total of the goroutine.
pub totals_ordered :
    (host : SimpleHost) (b : Bool) (p : Problem) (file : OutputFile) (tc : TestCase)
    (v : SubmissionStatusType) (t : Tally) (x : SubmissionStatusType)
    → compared p file (message host b tc) ≡ some v
    → status_int t.total ≤ status_int x
    → status_int (judge_test host b tc t).1.total ≤ status_int (max_status x v)
unfolding max_status
totals_ordered host b p file tc v t x q l = ground (
  arith,
  judge_test-total host b tc t,
  message-status host b tc,
  compared-ge p file (message host b tc) v q,
)

-- The goroutine on the two messages of a test.
pub round :
    (host : SimpleHost) (b : Bool) (p : Problem) (j : Judged) (output : ℕ → OutputFile) (k : ℕ)
    (tc : TestCase) (tests : List TestCase) (v : SubmissionStatusType) (c : ProblemCase) (t : Tally)
    (s : Progress)
    → p.judge_type ≡ perfect_match
    → tc.id ≡ pos k
    → get_elem? p.cases k ≡ some c
    → compared p (output k) (message host b tc) ≡ some v
    → handle_all p j output false (judge_tests host b (tc ∷ tests) t) s
      ≡ handle_all p j output false (judge_tests host b tests (judge_test host b tc t).1) (
          note_case p j
            (judge_test host b tc t).0
            c
            k
            v
            (note_case p j (plain_status tc.id judging) c k judging s))
unfolding judge_tests handle_all handle judge_test note_case
round host b p j output k tc tests v c t s m e h q =
    let first = note_case p j (plain_status tc.id judging) c k judging s in
    let same = judge_test-message host b tc t in
    rw
      (
        judging_step p j output tc k c s e h,
        test_step p j output (judge_test host b tc t).0 k c first v m
            (ap (λ r. r.case) same ∙ message-case host b tc ∙ e) h
            (ap (compared p (output k)) same ∙ q),
      )
      refl
