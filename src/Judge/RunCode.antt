-- ===== src/Judge/RunCode.antt =====
-- ppjudge/judge_runCode.go: the judge that runs a program on each test and a checker on its output.
-- As for the simple judge, a run gives everything that is sent to the channel `ch`.
pub mod Checker
use popcon_sc.Prelude.{
  ℕ, Bool, true, false, Option, none, some, List, [], ◌∷◌, ◌++◌, if◌then◌else◌, ℤ, pos, negsuc,
  ◌==ℤ◌, ◌==◌, Text, text, text_eq,
}
use popcon_sc.Types.Submission.{
  SubmissionStatusType, judging, accepted, wrong_answer, time_limit_exceeded, memory_limit_exceeded,
  runtime_error, internal_error, max_status,
}
use popcon_sc.Judge.{
  TestCase, JudgeStatus, plain_status, create_internal_error, total_result_case_id, ExecStatus,
  exec_finished, exec_time_limit_exceeded, exec_memory_limit_exceeded, exec_error, ExecResult,
  first_failure, Setup, Compiler, absent, not_created, ran, compile, Tally, first_tally, spoil,
  measure, total_status,
}
use popcon_sc.Judge.Simple.{input_text}

pub record RunCodeHost : Type 0 where
  -- the directory for the files of the checker
  pub jpath_mkdir : Option Text
  pub jpath_chmod : Option Text
  pub checker_setup : Setup
  pub setup : Setup
  pub checker_compiler : Compiler
  pub compiler : Compiler
  pub executor : Option Text
  pub read_file : TestCase → Option Text
  pub exec : TestCase → Text → ExecResult
  -- why "stdin.txt" and "stdout.txt" cannot be written
  pub write_stdin : TestCase → Option Text
  pub write_stdout : TestCase → Option Text
  -- the checker on a test, with the contents of "stdin.txt" and "stdout.txt"
  pub check : TestCase → Text → Text → ExecResult

abbrev pub setup_calls : RunCodeHost → List (Text × Option Text)
setup_calls h =
    (text "Failed to create a directory for checker. ", h.jpath_mkdir)
    ∷ (text "Failed to chmod the directory for checker. ", h.jpath_chmod)
    ∷ (text "Failed to create a directory for checker. ", h.checker_setup.mkdir)
    ∷ (text "Failed to chmod the directory for checker. ", h.checker_setup.chmod)
    ∷ (text "Failed to create source code file for checker. ", h.checker_setup.create)
    ∷ (text "Failed to write your code on your file for checker. ", h.checker_setup.copy)
    ∷ (text "Failed to chmod the source file for checker. ", h.checker_setup.chmod_source)
    ∷ (text "Failed to create a directory. ", h.setup.mkdir)
    ∷ (text "Failed to chmod the directory. ", h.setup.chmod)
    ∷ (text "Failed to create source code file.", h.setup.create)
    ∷ (text "Failed to write your code on your file. ", h.setup.copy)
    ∷ (text "Failed to chmod the source file. ", h.setup.chmod_source)
    ∷ []

-- How the end of the checker's compiler is reported: `none` where it goes on.
unfoldable pub checker_compile_report : ExecResult → Option JudgeStatus
checker_compile_report res = elim res.status [
  | exec_error ↦ some (
      create_internal_error total_result_case_id
        (text "Failed to execute a compiler for checker. " ++ res.stderr))
  | exec_memory_limit_exceeded ↦
      some (create_internal_error total_result_case_id (text "Memory Limit Exceeded(checker code)"))
  | exec_time_limit_exceeded ↦
      some (create_internal_error total_result_case_id (text "Time Limit Exceeded(checker code)"))
  | exec_finished ↦
      if res.exit_code ==ℤ pos 0
      then none
      else some (
          create_internal_error total_result_case_id
            (text "Checker Code Compile Error(message is hidden)"))
]

unfoldable pub checker_compile : Compiler → Option JudgeStatus
unfolding checker_compile_report
checker_compile absent = none
checker_compile (not_created err) = some (
    create_internal_error (negsuc 0)
      (text "Failed to create a Docker container to compile checker code." ++ err))
checker_compile (ran res) = checker_compile_report res

-- `strings.SplitN(s, sep, 2)[0]` for a separator of one byte.
unfoldable pub before : ℕ → Text → Text
before sep [] = []
before sep (c ∷ s) = let rest = c ∷ before sep s in if c == sep then [] else rest

-- The first line of the checker's output, ended by "\n" or "\r".
unfoldable pub first_line : Text → Text
unfolding before
first_line s = before 13 (before 10 s)

-- The checker has run: its message and the result of the test.
unfoldable pub checker_report : ℤ → ExecResult → ExecResult → JudgeStatus × SubmissionStatusType
checker_report id res cres = elim cres.status [
  | exec_error ↦ (create_internal_error id (text "Failed to execute checker code."), internal_error)
  | exec_memory_limit_exceeded ↦
      (create_internal_error id (text "Memory limit of the checker exceeded."), internal_error)
  | exec_time_limit_exceeded ↦
      (create_internal_error id (text "Time limit of the checker exceeded."), internal_error)
  | exec_finished ↦
      if cres.exit_code ==ℤ pos 0
      then (let r =
            if text_eq (first_line cres.stdout) (text "WA") then wrong_answer else accepted in
          (
            record (plain_status id r) {
              mem = res.mem;
              time = res.time;
              stdout = res.stdout;
              stderr = res.stderr;
            },
            r,
          ))
      else (create_internal_error id (text "Runtime of the checker error"), internal_error)
]

-- A program that ended well is checked. "stdin.txt" gets `tc.Input`, which is the path of the input.
unfoldable pub check_output :
    RunCodeHost → TestCase → ExecResult → JudgeStatus × SubmissionStatusType
unfolding checker_report
check_output host tc res = elim (host.write_stdin tc) [
  | some err ↦ (
    create_internal_error tc.id (text "Failed to write stdin in stdin.txt.:" ++ err),
    internal_error,
  )
  | none ↦ elim (host.write_stdout tc) [
    | some err ↦ (
      create_internal_error tc.id (text "Failed to write stdout in stdout.txt.:" ++ err),
      internal_error,
    )
    | none ↦ checker_report tc.id res (host.check tc tc.input res.stdout)
  ]
]

-- After a check: an internal error makes time and memory unknown, and what is known is updated.
abbrev pub settle : SubmissionStatusType → ExecResult → Tally → Tally
settle internal_error res t = spoil internal_error t
settle r res t = measure r res t

-- The program has run on a test.
unfoldable pub exec_report : RunCodeHost → TestCase → ExecResult → Tally → JudgeStatus × Tally
exec_report host tc res t = elim res.status [
  | exec_error ↦ (
    create_internal_error tc.id (text "Failed to execute your code. " ++ res.stderr),
    spoil internal_error t,
  )
  | exec_memory_limit_exceeded ↦
      (plain_status tc.id memory_limit_exceeded, spoil memory_limit_exceeded t)
  | exec_time_limit_exceeded ↦ (plain_status tc.id time_limit_exceeded, spoil time_limit_exceeded t)
  | exec_finished ↦
      if res.exit_code ==ℤ pos 0
      then ((check_output host tc res).0, settle (check_output host tc res).1 res t)
      else (plain_status tc.id runtime_error, spoil runtime_error t)
]

-- One round of the loop over the tests.
unfoldable pub judge_test : RunCodeHost → Bool → TestCase → Tally → JudgeStatus × Tally
judge_test host replace_newline_char tc t = elim (host.read_file tc) [
  | none ↦ (
    create_internal_error tc.id (text "Failed to open a file(input testcase)"),
    spoil internal_error t,
  )
  | some b ↦ exec_report host tc (host.exec tc (input_text replace_newline_char b)) t
]

-- The loop over the tests, and the total result behind it.
unfoldable pub judge_tests : RunCodeHost → Bool → List TestCase → Tally → List JudgeStatus
judge_tests host replace_newline_char [] t = total_status t ∷ []
judge_tests host replace_newline_char (tc ∷ tests) t =
    plain_status tc.id judging
    ∷ ((judge_test host replace_newline_char tc t).0
        ∷ judge_tests host replace_newline_char tests (judge_test host replace_newline_char tc t).1)

-- `JudgeRunCode.Run`, where the container of the checker can be made: its error is not looked at.
unfoldable pub run : RunCodeHost → List TestCase → Bool → List JudgeStatus
unfolding judge_tests
run host tests replace_newline_char = elim (first_failure (setup_calls host)) [
  | some failure ↦ failure ∷ []
  | none ↦ elim (checker_compile host.checker_compiler) [
    | some report ↦ report ∷ []
    | none ↦ elim (compile host.compiler) [
      | some report ↦ report ∷ []
      | none ↦ elim host.executor [
        | some err ↦
            create_internal_error (negsuc 0)
              (text "Failed to create a Docker container to judge." ++ err)
            ∷ []
        | none ↦ judge_tests host replace_newline_char tests first_tally
      ]
    ]
  ]
]
