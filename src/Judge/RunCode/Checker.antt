-- ===== src/Judge/RunCode/Checker.antt =====
-- ppjudge/judge_runCode.go: when a test is a wrong answer, and what the last message says.
use popcon_sc.Prelude.{
  ◌≤◌, ◌≡◌, ◌↔◌, refl, sym, ap, ◌∙◌, inl, inr, Bool, true, Option, none, some, List, [], ◌∷◌,
  if◌then◌else◌, Option-cases, pos, ◌==ℤ◌, Text, text, text_eq, arith,
}
use popcon_sc.Types.Submission.{
  SubmissionStatusType, judging, accepted, wrong_answer, time_limit_exceeded, memory_limit_exceeded,
  runtime_error, internal_error, max_status, status_int,
}
use popcon_sc.Judge.{
  TestCase, JudgeStatus, plain_status, create_internal_error, exec_finished,
  exec_time_limit_exceeded, exec_memory_limit_exceeded, exec_error, ExecResult, first_failure,
  compile, Tally, first_tally,
}
use popcon_sc.Judge.Simple.{input_text}
use popcon_sc.Judge.Simple.Loop.{
  last_status, max_status_assoc, max_status-accepted, status_int-max_status,
}
use popcon_sc.Judge.Simple.Totals.{is_total_last, max_status-accepted_left}
use popcon_sc.Judge.RunCode.{
  RunCodeHost, setup_calls, checker_compile, first_line, check_output, checker_report, settle,
  exec_report, judge_test, judge_tests, run,
}

-- The result of a test, from what the host answers.
abbrev pub test_status : RunCodeHost → Bool → TestCase → SubmissionStatusType
test_status host b tc = (judge_test host b tc first_tally).1.total

-- A program that has run on a test, all the way to a checker whose first line is "WA". The checker
-- has got the path of the input where the input is meant.
abbrev pub ChecksWrong : RunCodeHost → TestCase → ExecResult → Type 0
ChecksWrong host tc res =
    (res.status ≡ exec_finished)
    × ((res.exit_code ==ℤ pos 0) ≡ true)
    × (host.write_stdin tc ≡ none)
    × (host.write_stdout tc ≡ none)
    × ((host.check tc tc.input res.stdout).status ≡ exec_finished)
    × (((host.check tc tc.input res.stdout).exit_code ==ℤ pos 0) ≡ true)
    × (text_eq (first_line (host.check tc tc.input res.stdout).stdout) (text "WA") ≡ true)

wrong_to :
    (host : RunCodeHost) (tc : TestCase) (res : ExecResult)
    → (exec_report host tc res first_tally).1.total ≡ wrong_answer
    → ChecksWrong host tc res
unfolding exec_report check_output max_status
wrong_to host tc res h = ground arith

wrong_from :
    (host : RunCodeHost) (tc : TestCase) (res : ExecResult)
    → ChecksWrong host tc res
    → (exec_report host tc res first_tally).1.total ≡ wrong_answer
unfolding exec_report check_output max_status
wrong_from host tc res h = ground arith

judge_test_read :
    (host : RunCodeHost) (b : Bool) (tc : TestCase) (t : Tally) (input : Text)
    → host.read_file tc ≡ some input
    → judge_test host b tc t ≡ exec_report host tc (host.exec tc (input_text b input)) t
unfolding judge_test
judge_test_read host b tc t input h = ground arith

-- A test that can be read is a wrong answer exactly if its program ends well with exit code 0, the
-- checker's files can be written, and the checker ends well with exit code 0 and prints "WA" on its
-- first line. The checker's "stdin.txt" holds the path of the input, and not the input.
pub wrong_answer_iff :
    (host : RunCodeHost) (b : Bool) (tc : TestCase) (input : Text)
    → host.read_file tc ≡ some input
    → (test_status host b tc ≡ wrong_answer)
      ↔ ChecksWrong host tc (host.exec tc (input_text b input))
wrong_answer_iff host b tc input h =
    let res = host.exec tc (input_text b input) in
    let e = ap (λ r. r.1.total) (judge_test_read host b tc first_tally input h) in
    (λ p. wrong_to host tc res (sym e ∙ p), λ c. e ∙ wrong_from host tc res c)

settle-total :
    (r : SubmissionStatusType) (res : ExecResult) (t : Tally)
    → (settle r res t).total ≡ max_status t.total r
settle-total internal_error res t = refl
settle-total _ res t = refl

-- The result of a program that has run on a test.
exec_result : RunCodeHost → TestCase → ExecResult → SubmissionStatusType
exec_result host tc res = elim res.status [
  | exec_error ↦ internal_error
  | exec_memory_limit_exceeded ↦ memory_limit_exceeded
  | exec_time_limit_exceeded ↦ time_limit_exceeded
  | exec_finished ↦ if res.exit_code ==ℤ pos 0 then (check_output host tc res).1 else runtime_error
]

exec_report-total :
    (host : RunCodeHost) (tc : TestCase) (res : ExecResult) (t : Tally)
    → (exec_report host tc res t).1.total ≡ max_status t.total (exec_result host tc res)
unfolding exec_report exec_result
exec_report-total host tc res t = ground (arith, settle-total (check_output host tc res).1 res t)

exec_report-status :
    (host : RunCodeHost) (tc : TestCase) (res : ExecResult) (t : Tally)
    → (exec_report host tc res t).0.status ≡ exec_result host tc res
unfolding exec_report exec_result check_output checker_report create_internal_error
exec_report-status host tc res t = ground arith

judge_test-total :
    (host : RunCodeHost) (b : Bool) (tc : TestCase) (t : Tally)
    → (judge_test host b tc t).1.total
      ≡ max_status t.total (judge_test host b tc first_tally).0.status
unfolding judge_test create_internal_error
judge_test-total host b tc t = elim (Option-cases (host.read_file tc)) [
  | inl e ↦ ground arith
  | inr (x, e) ↦
      let res = host.exec tc (input_text b x) in
      ground (arith, exec_report-total host tc res t, exec_report-status host tc res first_tally)
]

-- The result that the message of a test reports.
abbrev pub reported_status : RunCodeHost → Bool → TestCase → SubmissionStatusType
reported_status host b tc = (judge_test host b tc first_tally).0.status

-- The worst result that the tests report, `accepted` where there is no test.
abbrev pub worst : RunCodeHost → Bool → List TestCase → SubmissionStatusType
worst host b [] = accepted
worst host b (tc ∷ tests) = max_status (reported_status host b tc) (worst host b tests)

abbrev pub last_result : List JudgeStatus → Option SubmissionStatusType
last_result l = elim (last_status l) [ none ↦ none | some s ↦ some s.status ]

last_status-judge_tests :
    (host : RunCodeHost) (b : Bool) (s r : JudgeStatus) (tests : List TestCase) (t : Tally)
    → last_status (s ∷ (r ∷ judge_tests host b tests t)) ≡ last_status (judge_tests host b tests t)
unfolding judge_tests
last_status-judge_tests host b s r [] t = refl
last_status-judge_tests host b s r (tc ∷ tests) t = refl

judge_tests-last :
    (host : RunCodeHost) (b : Bool) (tests : List TestCase) (t : Tally)
    → 2 ≤ status_int t.total
    → (last_result (judge_tests host b tests t) ≡ some (max_status t.total (worst host b tests)))
      × (is_total_last (last_status (judge_tests host b tests t)) ≡ true)
unfolding judge_tests
judge_tests-last host b [] t h = ground (arith, max_status-accepted t.total h)
judge_tests-last host b (tc ∷ tests) t h = ground (
  arith,
  last_status-judge_tests host b (plain_status tc.id judging) (judge_test host b tc t).0 tests
      (judge_test host b tc t).1,
  judge_tests-last host b tests (judge_test host b tc t).1,
  judge_test-total host b tc t,
  max_status_assoc t.total (reported_status host b tc) (worst host b tests),
  status_int-max_status t.total (reported_status host b tc),
)

-- Nothing before the tests fails.
abbrev pub IsReady : RunCodeHost → Type 0
IsReady host =
    (first_failure (setup_calls host) ≡ none)
    × (checker_compile host.checker_compiler ≡ none)
    × (compile host.compiler ≡ none)
    × (host.executor ≡ none)

worst-ge :
    (host : RunCodeHost) (b : Bool) (tests : List TestCase) → 2 ≤ status_int (worst host b tests)
unfolding max_status
worst-ge host b [] = omega arith
worst-ge host b (tc ∷ tests) = ground (arith, worst-ge host b tests)

-- Where nothing fails before the tests, the last message has the worst of the results that the
-- messages of the tests report, and `accepted` where there is no test.
pub run_code-last :
    (host : RunCodeHost) (tests : List TestCase) (b : Bool)
    → IsReady host
    → last_result (run host tests b) ≡ some (worst host b tests)
unfolding run
run_code-last host tests b h = ground (
  arith,
  judge_tests-last host b tests first_tally (omega arith),
  max_status-accepted_left (worst host b tests) (worst-ge host b tests),
)
