-- ===== src/Judge/Simple/Loop.antt =====
-- ppjudge/judge_simple.go: the totals that the loop over the tests keeps.
use popcon_sc.Prelude.{
  ◌≤◌, ◌≡◌, refl, ap, ◌∙◌, inl, inr, Bool, true, false, Option, none, some, List, [], ◌∷◌,
  if◌then◌else◌, Option-cases, ℤ, pos, negsuc, ◌==ℤ◌, ◌≤ℤ◌, arith,
}
use popcon_sc.Types.Submission.{
  SubmissionStatusType, in_queue, judging, accepted, time_limit_exceeded, memory_limit_exceeded,
  runtime_error, internal_error, max_status, status_int,
}
use popcon_sc.Judge.{
  TestCase, JudgeStatus, plain_status, create_internal_error, total_result_case_id, exec_finished,
  exec_time_limit_exceeded, exec_memory_limit_exceeded, exec_error, ExecResult, Tally, keep_max,
  max_int64,
}
use popcon_sc.Judge.Simple.{SimpleHost, input_text, judge_test, judge_tests}

-- The result of a program that has run on a test.
abbrev pub exec_result_status : ExecResult → SubmissionStatusType
exec_result_status res = elim res.status [
  | exec_finished ↦ if res.exit_code ==ℤ pos 0 then accepted else runtime_error
  | exec_time_limit_exceeded ↦ time_limit_exceeded
  | exec_memory_limit_exceeded ↦ memory_limit_exceeded
  | exec_error ↦ internal_error
]

-- The result of a test, from what the host answers.
abbrev pub test_status : SimpleHost → Bool → TestCase → SubmissionStatusType
test_status host b tc = elim (host.read_file tc) [
  | none ↦ internal_error
  | some input ↦ exec_result_status (host.exec tc (input_text b input))
]

-- The worst result of the tests, `accepted` where there is no test.
abbrev pub worst : SimpleHost → Bool → List TestCase → SubmissionStatusType
worst host b [] = accepted
worst host b (tc ∷ tests) = max_status (test_status host b tc) (worst host b tests)

abbrev pub last_status : List JudgeStatus → Option JudgeStatus
last_status [] = none
last_status (s ∷ []) = some s
last_status (s ∷ (t ∷ rest)) = last_status (t ∷ rest)

abbrev pub is_total : JudgeStatus → Bool
is_total s = s.case ==ℤ total_result_case_id

pub judge_test-case :
    (host : SimpleHost) (b : Bool) (tc : TestCase) (t : Tally)
    → (judge_test host b tc t).0.case ≡ tc.id
unfolding judge_test create_internal_error
judge_test-case host b tc t = ground arith

pub max_status_assoc :
    (a b c : SubmissionStatusType) → max_status (max_status a b) c ≡ max_status a (max_status b c)
unfolding max_status
max_status_assoc a b c = ground arith

pub max_status-accepted : (a : SubmissionStatusType) → 2 ≤ status_int a → max_status a accepted ≡ a
unfolding max_status
max_status-accepted in_queue h = absurd (omega arith)
max_status-accepted judging h = absurd (omega arith)
max_status-accepted _ h = refl

pub status_int-max_status :
    (a b : SubmissionStatusType) → status_int a ≤ status_int (max_status a b)
unfolding max_status
status_int-max_status a b = ground arith

-- What the program took for a test.
abbrev pub test_result : SimpleHost → Bool → TestCase → Option ExecResult
test_result host b tc = elim (host.read_file tc) [
  | none ↦ none
  | some input ↦ some (host.exec tc (input_text b input))
]

abbrev pub is_accepted : SubmissionStatusType → Bool
is_accepted accepted = true
is_accepted _ = false

abbrev pub all_accepted : SimpleHost → Bool → List TestCase → Bool
all_accepted host b [] = true
all_accepted host b (tc ∷ tests) =
    let rest = all_accepted host b tests in
    if is_accepted (test_status host b tc) then rest else false

-- The greatest value of a measure over the tests that ran, 0 at least.
abbrev pub greatest : (ExecResult → ℤ) → SimpleHost → Bool → ℤ → List TestCase → ℤ
greatest f host b m [] = m
greatest f host b m (tc ∷ tests) =
    greatest f host b (elim (test_result host b tc) [ none ↦ m | some res ↦ max_int64 m (f res) ])
      tests

last_status-judge_tests :
    (host : SimpleHost) (b : Bool) (s r : JudgeStatus) (tests : List TestCase) (t : Tally)
    → last_status (s ∷ (r ∷ judge_tests host b tests t)) ≡ last_status (judge_tests host b tests t)
unfolding judge_tests
last_status-judge_tests host b s r [] t = refl
last_status-judge_tests host b s r (tc ∷ tests) t = refl

-- A variable of the loop after one more test.
next_max : (ExecResult → ℤ) → SimpleHost → Bool → TestCase → ℤ → ℤ
next_max f host b tc m = elim (test_result host b tc) [
  | none ↦ negsuc 0
  | some res ↦ if is_accepted (exec_result_status res) then keep_max m (f res) else negsuc 0
]

judge_test_lem :
    (host : SimpleHost) (b : Bool) (tc : TestCase) (t : Tally)
    → (judge_test host b tc t).1 ≡ record {
      total = max_status t.total (test_status host b tc);
      max_time = next_max (λ r. r.time) host b tc t.max_time;
      max_mem = next_max (λ r. r.mem) host b tc t.max_mem;
    }
unfolding judge_test next_max
judge_test_lem host b tc t = ground arith

pub judge_test-total :
    (host : SimpleHost) (b : Bool) (tc : TestCase) (t : Tally)
    → (judge_test host b tc t).1.total ≡ max_status t.total (test_status host b tc)
judge_test-total host b tc t = ap (λ r. r.total) (judge_test_lem host b tc t)

-- The rounds left of a variable of the loop.
pub loop_max : (ExecResult → ℤ) → SimpleHost → Bool → ℤ → List TestCase → ℤ
loop_max f host b m [] = m
loop_max f host b m (tc ∷ tests) = loop_max f host b (next_max f host b tc m) tests

pub judge_tests-last :
    (host : SimpleHost) (b : Bool) (tests : List TestCase) (t : Tally)
    → 2 ≤ status_int t.total
    → last_status (judge_tests host b tests t)
      ≡ some (record {
        case = total_result_case_id;
        status = max_status t.total (worst host b tests);
        mem = loop_max (λ r. r.mem) host b t.max_mem tests;
        time = loop_max (λ r. r.time) host b t.max_time tests;
        stdout = [];
        stderr = [];
      })
unfolding judge_tests loop_max
judge_tests-last host b [] t h = ground (arith, max_status-accepted t.total h)
judge_tests-last host b (tc ∷ tests) t h =
    last_status-judge_tests host b (plain_status tc.id judging) (judge_test host b tc t).0 tests
      (judge_test host b tc t).1
    ∙ ground (
      arith,
      judge_tests-last host b tests (judge_test host b tc t).1,
      judge_test_lem host b tc t,
      max_status_assoc t.total (test_status host b tc) (worst host b tests),
      status_int-max_status t.total (test_status host b tc),
    )

loop_max_spoilt :
    (f : ExecResult → ℤ) (host : SimpleHost) (b : Bool) (tests : List TestCase)
    → loop_max f host b (negsuc 0) tests ≡ negsuc 0
unfolding loop_max next_max keep_max
loop_max_spoilt f host b [] = refl
loop_max_spoilt f host b (tc ∷ tests) = ground (arith, loop_max_spoilt f host b tests)

pub loop_max_lem :
    (f : ExecResult → ℤ) (host : SimpleHost) (b : Bool) (m : ℤ) (tests : List TestCase)
    → pos 0 ≤ℤ m
    → loop_max f host b m tests
      ≡ (if all_accepted host b tests then greatest f host b m tests else negsuc 0)
unfolding loop_max next_max keep_max
loop_max_lem f host b m [] h = refl
loop_max_lem f host b m (tc ∷ tests) h = elim (Option-cases (host.read_file tc)) [
  | inl e ↦ ground (arith, loop_max_spoilt f host b tests)
  | inr (x, e) ↦ ground (
    arith,
    loop_max_spoilt f host b tests,
    loop_max_lem f host b (max_int64 m (f (host.exec tc (input_text b x)))) tests,
  )
]
