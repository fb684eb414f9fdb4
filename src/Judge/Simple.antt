-- ===== src/Judge/Simple.antt =====
-- ppjudge/judge_simple.go: the judge that runs a program on each test.
-- A run gives everything that is sent to the channel `ch`, in order. What the file system, Docker
-- and the programs answer is the argument `host`.
pub mod Loop
pub mod Totals
use popcon_sc.Prelude.{
  ℕ, Bool, true, false, Option, none, some, List, [], ◌∷◌, ◌++◌, if◌then◌else◌, ℤ, pos, negsuc,
  ◌==ℤ◌, Text, text,
}
use popcon_sc.Types.Submission.{
  SubmissionStatusType, judging, accepted, time_limit_exceeded, memory_limit_exceeded,
  runtime_error, internal_error,
}
use popcon_sc.Judge.Newline.{replace_newlines}
use popcon_sc.Judge.{
  TestCase, JudgeStatus, plain_status, create_internal_error, total_result_case_id, ExecStatus,
  exec_finished, exec_time_limit_exceeded, exec_memory_limit_exceeded, exec_error, ExecResult,
  first_failure, Setup, Compiler, compile, Tally, first_tally, spoil, measure, total_status,
}

pub record SimpleHost : Type 0 where
  pub setup : Setup
  pub compiler : Compiler
  -- why the container for the program cannot be made
  pub executor : Option Text
  pub read_file : TestCase → Option Text
  pub exec : TestCase → Text → ExecResult

-- The calls before the compiler, with their messages.
abbrev setup_calls : Setup → List (Text × Option Text)
setup_calls s =
    (text "Failed to create a directory. ", s.mkdir)
    ∷ (text "Failed to chmod the directory. ", s.chmod)
    ∷ (text "Failed to create source file.", s.create)
    ∷ (text "Failed to write your code on your file. ", s.copy)
    ∷ (text "Failed to chmod the source file. ", s.chmod_source)
    ∷ []

-- The program has run on a test: what is sent, and the new values of the loop's variables.
unfoldable pub exec_report : ℤ → ExecResult → Tally → JudgeStatus × Tally
exec_report id res t = elim res.status [
  | exec_error ↦ (
    create_internal_error id (text "Failed to execute your code. " ++ res.stderr),
    spoil internal_error t,
  )
  | exec_memory_limit_exceeded ↦
      (plain_status id memory_limit_exceeded, spoil memory_limit_exceeded t)
  | exec_time_limit_exceeded ↦ (plain_status id time_limit_exceeded, spoil time_limit_exceeded t)
  | exec_finished ↦
      if res.exit_code ==ℤ pos 0
      then (
        record (plain_status id accepted) {
          mem = res.mem;
          time = res.time;
          stdout = res.stdout;
          stderr = res.stderr;
        },
        measure accepted res t,
      )
      else (plain_status id runtime_error, spoil runtime_error t)
]

-- The text that the program reads.
unfoldable pub input_text : Bool → Text → Text
input_text replace_newline_char b = if replace_newline_char then replace_newlines b else b

-- One round of the loop over the tests.
unfoldable pub judge_test : SimpleHost → Bool → TestCase → Tally → JudgeStatus × Tally
unfolding exec_report
judge_test host replace_newline_char tc t = elim (host.read_file tc) [
  | none ↦ (
    create_internal_error tc.id (text "Failed to open a file(testcase input)"),
    spoil internal_error t,
  )
  | some b ↦ exec_report tc.id (host.exec tc (input_text replace_newline_char b)) t
]

-- The loop over the tests, and the total result behind it.
unfoldable pub judge_tests : SimpleHost → Bool → List TestCase → Tally → List JudgeStatus
judge_tests host replace_newline_char [] t = total_status t ∷ []
judge_tests host replace_newline_char (tc ∷ tests) t =
    plain_status tc.id judging
    ∷ ((judge_test host replace_newline_char tc t).0
        ∷ judge_tests host replace_newline_char tests (judge_test host replace_newline_char tc t).1)

-- `JudgeSimple.Run`.
unfoldable pub run : SimpleHost → List TestCase → Bool → List JudgeStatus
unfolding judge_tests
run host tests replace_newline_char = elim (first_failure (setup_calls host.setup)) [
  | some failure ↦ failure ∷ []
  | none ↦ elim (compile host.compiler) [
    | some report ↦ report ∷ []
    | none ↦ elim host.executor [
      | some err ↦
          create_internal_error (negsuc 0)
            (text "Failed to create a Docker container to judge." ++ err)
          ∷ []
      | none ↦ judge_tests host replace_newline_char tests first_tally
    ]
  ]
]
