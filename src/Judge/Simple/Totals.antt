-- ===== src/Judge/Simple/Totals.antt =====
-- ppjudge/judge_simple.go: what the last message of a run says of its tests.
use popcon_sc.Prelude.{
  ◌≤◌, ◌≡◌, refl, ◌⊎◌, inl, inr, Bool, true, false, Option, none, some, List, [], ◌∷◌,
  if◌then◌else◌, Option-cases, pos, negsuc, ◌==ℤ◌, Text, All, arith, count_if,
}
use popcon_sc.Types.Submission.{
  SubmissionStatusType, accepted, compile_error, internal_error, max_status, status_int,
}
use popcon_sc.Judge.{
  TestCase, JudgeStatus, create_internal_error, total_result_case_id, first_failure, Compiler,
  absent, not_created, ran, compile, Tally, first_tally,
}
use popcon_sc.Judge.Simple.{SimpleHost, judge_test, judge_tests, run, setup_calls}
use popcon_sc.Judge.Simple.Loop.{
  worst, last_status, is_total, judge_test-case, all_accepted, greatest, judge_tests-last,
  loop_max_lem,
}

-- Nothing before the tests fails.
abbrev pub IsReady : SimpleHost → Type 0
IsReady host =
    (first_failure (setup_calls host.setup) ≡ none)
    × (compile host.compiler ≡ none)
    × (host.executor ≡ none)

pub max_status-accepted_left :
    (s : SubmissionStatusType) → 2 ≤ status_int s → max_status accepted s ≡ s
unfolding max_status
max_status-accepted_left s h = ground arith

pub worst-ge :
    (host : SimpleHost) (b : Bool) (tests : List TestCase) → 2 ≤ status_int (worst host b tests)
unfolding max_status
worst-ge host b [] = omega arith
worst-ge host b (tc ∷ tests) = ground (arith, worst-ge host b tests)

-- Where nothing fails before the tests, the last message has the worst result of all tests, and
-- the greatest time and memory of the tests if every one was accepted, and -1 for both if not.
pub run-last :
    (host : SimpleHost) (tests : List TestCase) (b : Bool)
    → IsReady host
    → last_status (run host tests b)
      ≡ some (record {
        case = total_result_case_id;
        status = worst host b tests;
        mem =
            if all_accepted host b tests
            then greatest (λ r. r.mem) host b (pos 0) tests
            else negsuc 0;
        time =
            if all_accepted host b tests
            then greatest (λ r. r.time) host b (pos 0) tests
            else negsuc 0;
        stdout = [];
        stderr = [];
      })
unfolding run
run-last host tests b h = ground (
  arith,
  judge_tests-last host b tests first_tally (omega arith),
  max_status-accepted_left (worst host b tests) (worst-ge host b tests),
  loop_max_lem (λ r. r.mem) host b (pos 0) tests (omega arith),
  loop_max_lem (λ r. r.time) host b (pos 0) tests (omega arith),
)

-- No test has the number of the total result.
abbrev pub AreTests : List TestCase → Type 0
AreTests = All (λ tc. (tc.id ==ℤ negsuc 0) ≡ false)

judge_tests-totals :
    (host : SimpleHost) (b : Bool) (tests : List TestCase) (t : Tally)
    → AreTests tests
    → count_if is_total (judge_tests host b tests t) ≡ 1
unfolding judge_tests
judge_tests-totals host b [] t h = refl
judge_tests-totals host b (tc ∷ tests) t h = ground (
  arith,
  judge_test-case host b tc t,
  judge_tests-totals host b tests (judge_test host b tc t).1 h.1,
)

pub first_failure-total :
    (calls : List (Text × Option Text)) (s : JudgeStatus)
    → first_failure calls ≡ some s
    → (s.case ≡ negsuc 0) × (s.status ≡ internal_error)
unfolding first_failure create_internal_error
first_failure-total [] s h = cc
first_failure-total ((m, none) ∷ calls) s h = first_failure-total calls s h
first_failure-total ((m, some e) ∷ calls) s h = ground arith

pub compile-total :
    (c : Compiler) (s : JudgeStatus)
    → compile c ≡ some s
    → (s.case ≡ negsuc 0) × ((s.status ≡ internal_error) ⊎ (s.status ≡ compile_error))
unfolding compile create_internal_error
compile-total absent s h = cc
compile-total (not_created e) s h = ground arith
compile-total (ran res) s h = ground arith

abbrev pub is_total_last : Option JudgeStatus → Bool
is_total_last none = false
is_total_last (some s) = is_total s

-- On every path, whatever fails, a run sends exactly one total result, and sends it last.
pub run-totals :
    (host : SimpleHost) (tests : List TestCase) (b : Bool)
    → AreTests tests
    → (count_if is_total (run host tests b) ≡ 1)
      × (is_total_last (last_status (run host tests b)) ≡ true)
unfolding run create_internal_error
run-totals host tests b h = elim (Option-cases (first_failure (setup_calls host.setup))) [
  | inr (s, e) ↦ ground (arith, first_failure-total (setup_calls host.setup) s e)
  | inl e ↦ elim (Option-cases (compile host.compiler)) [
    | inr (s, c) ↦ ground (arith, compile-total host.compiler s c)
    | inl c ↦ ground (
      arith,
      judge_tests-totals host b tests first_tally h,
      judge_tests-last host b tests first_tally (omega arith),
    )
  ]
]
