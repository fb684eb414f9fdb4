-- ===== src/Judge/Tests.antt =====
-- ppjudge/judge_simple.go, ppjudge/judge_runCode.go and ppjudge/main.go on concrete submissions.
use popcon_sc.Prelude.{
  ℕ, ◌≡◌, ◌↔◌, refl, true, false, none, some, List, [], ◌∷◌, ◌++◌, ◌==ℤ◌, ℤ, pos, negsuc, Text,
  text, count_if, arith, if◌then◌else◌, text_eq, add64, wrap64, ◌+ℤ◌,
}
use popcon_sc.Types.Submission.{
  SubmissionStatusType, accepted, wrong_answer, time_limit_exceeded, max_status,
}
use popcon_sc.Types.Contest.{perfect_match}
use popcon_sc.Codec.Queries.{get_cases}
use popcon_sc.Codec.Fields.{split}
use popcon_sc.Codec.Decimal.{parse_int}
use popcon_sc.Judge.{
  TestCase, ExecResult, exec_finished, exec_time_limit_exceeded, Setup, absent, first_failure,
  compile,
}
use popcon_sc.Judge.Newline.{
  replace_newlines, cr, crlf, join_lines, unix_lines, replace_newlines_lines,
}
use popcon_sc.Judge.Simple.{SimpleHost}
use popcon_sc.Judge.Simple as S
use popcon_sc.Judge.Simple.Loop.{last_status, is_total}
use popcon_sc.Judge.Simple.Totals.{is_total_last, run-last, run-totals}
use popcon_sc.Judge.RunCode.{RunCodeHost, checker_compile, first_line}
use popcon_sc.Judge.RunCode as R
use popcon_sc.Judge.RunCode.Checker.{
  ChecksWrong, last_result, test_status, wrong_answer_iff, run_code-last,
}
use popcon_sc.Judge.Report.{
  ScoreSet, Problem, OutputFile, contents, ended, update_result, score_sum, report_all, Report,
  compare_output,
}
use popcon_sc.Judge.Report.Score.{problem_score, score_sum-problem_score}
use popcon_sc.Judge.Report.Rounds.{Judges, done, test}
use popcon_sc.Judge.Report.EndToEnd.{report_all-result}

abbrev mixed_newlines : Text
mixed_newlines = text "1" ++ 13 ∷ 10 ∷ text "2" ++ 13 ∷ []

replace_newlines_lines_example :
    replace_newlines (join_lines ((text "1", crlf) ∷ (text "2", cr) ∷ []))
    ≡ unix_lines ((text "1", crlf) ∷ (text "2", cr) ∷ [])
replace_newlines_lines_example =
    replace_newlines_lines ((text "1", crlf) ∷ (text "2", cr) ∷ []) (ground arith)

abbrev no_errors : Setup
no_errors = record { mkdir = none; chmod = none; create = none; copy = none; chmod_source = none }

-- A program that answers 4, and is too slow on the second test.
abbrev answer : Text → ExecResult
answer input = record {
  status = exec_finished;
  time = pos 5;
  mem = pos 2000;
  exit_code = pos 0;
  stdout = text "4";
  stderr = [];
}

abbrev too_slow : ExecResult
too_slow = record {
  status = exec_time_limit_exceeded;
  time = pos 0;
  mem = pos 0;
  exit_code = pos 0;
  stdout = [];
  stderr = [];
}

abbrev two_tests : List TestCase
two_tests = record { id = pos 0; input = text "/a" } ∷ record { id = pos 1; input = text "/b" } ∷ []

abbrev simple_host : SimpleHost
simple_host = record {
  setup = no_errors;
  compiler = absent;
  executor = none;
  read_file = λ tc. some tc.input;
  exec = λ tc input. if tc.id ==ℤ pos 1 then too_slow else answer input;
}

run-last_example :
    last_status (S.run simple_host two_tests true)
    ≡ some (record {
      case = negsuc 0;
      status = time_limit_exceeded;
      mem = negsuc 0;
      time = negsuc 0;
      stdout = [];
      stderr = [];
    })
unfolding first_failure compile S.input_text max_status
run-last_example = run-last simple_host two_tests true (refl, refl, refl)

run-totals_example :
    (count_if is_total (S.run simple_host two_tests true) ≡ 1)
    × (is_total_last (last_status (S.run simple_host two_tests true)) ≡ true)
run-totals_example = run-totals simple_host two_tests true (refl, (refl, tt))

abbrev run_code_host : RunCodeHost
run_code_host = record {
  jpath_mkdir = none;
  jpath_chmod = none;
  checker_setup = no_errors;
  setup = no_errors;
  checker_compiler = absent;
  compiler = absent;
  executor = none;
  read_file = λ tc. some tc.input;
  exec = λ tc input. answer input;
  write_stdin = λ tc. none;
  write_stdout = λ tc. none;
  check = λ tc stdin stdout. record (answer stdin) { stdout = text "WA" };
}

wrong_answer_iff_example :
    (test_status run_code_host true (record { id = pos 0; input = text "/a" }) ≡ wrong_answer)
    ↔ ChecksWrong run_code_host (record { id = pos 0; input = text "/a" }) (answer [])
wrong_answer_iff_example =
    wrong_answer_iff run_code_host true (record { id = pos 0; input = text "/a" }) (text "/a") refl

run_code-last_example : last_result (R.run run_code_host two_tests true) ≡ some wrong_answer
unfolding first_failure compile checker_compile R.judge_test R.exec_report R.check_output max_status
    text_eq first_line
run_code-last_example = run_code-last run_code_host two_tests true (refl, refl, refl, refl)

abbrev two_sets : List ScoreSet
two_sets =
    record { cases = text "0"; score = pos 30 } ∷ record { cases = text "0,1"; score = pos 70 } ∷ []

score_sum-problem_score_example :
    score_sum (accepted ∷ accepted ∷ []) (pos 0) two_sets ≡ problem_score (pos 0) two_sets
score_sum-problem_score_example =
    score_sum-problem_score (accepted ∷ accepted ∷ []) two_sets (refl, (refl, tt))

-- The first test is answered and the second is too slow: 30 points of 100.
abbrev two_cases : Problem
two_cases = record {
  cid = pos 1;
  judge_type = perfect_match;
  newline_char_conversion = true;
  cases =
      record { name = text "a"; input = text "/a"; output = text "/c" }
      ∷ record { name = text "b"; input = text "/b"; output = text "/d" }
      ∷ [];
  scores = two_sets;
}

abbrev right_output : ℕ → OutputFile
right_output k = contents (text "4")

abbrev verdicts : List SubmissionStatusType
verdicts = accepted ∷ time_limit_exceeded ∷ []

two_tests-Judges : Judges simple_host true two_cases right_output 0 two_tests verdicts
unfolding S.judge_test compare_output text_eq replace_newlines
two_tests-Judges =
    test 0 _ _ accepted _ _ refl refl refl
      (test 1 _ _ time_limit_exceeded _ _ refl refl refl (done 2))

report_all-result_example :
    (rs : List Report) × (time : ℤ) × (mem : ℤ) × (report_all two_cases
        (record { sid = pos 8; jid = pos 9 })
        right_output
        false
        (S.run simple_host two_tests true)
      ≡ ended (
          rs
          ++ update_result (pos 1) (pos 8) (pos 9) time_limit_exceeded (pos 30) time mem [] ∷ []))
unfolding first_failure compile score_sum max_status get_cases split parse_int add64 wrap64 ◌+ℤ◌
report_all-result_example =
    report_all-result simple_host true two_cases (record { sid = pos 8; jid = pos 9 }) right_output
      two_tests verdicts refl (refl, refl, refl) refl two_tests-Judges
