-- ===== src/Judge.antt =====
-- ppjudge/judge.go, ppjudge/executor.go and ppjudge/variables.go: what the judges share.
-- Texts are lists of bytes; numbers of tests, times and sizes are int64 values.
pub mod Dispatch
pub mod Newline
pub mod Simple
pub mod RunCode
pub mod Report
pub mod Tests
use popcon_sc.Prelude.{
  ℕ, Bool, Option, none, some, List, [], ◌∷◌, ◌++◌, if◌then◌else◌, ℤ, pos, negsuc, ltb_ℤ, ◌==ℤ◌,
  Text, text,
}
use popcon_sc.Types.Submission.{
  SubmissionStatusType, accepted, compile_error, internal_error, max_status,
}

pub record TestCase : Type 0 where
  pub id : ℤ
  -- the path of the input file
  pub input : Text

pub record JudgeStatus : Type 0 where
  pub case : ℤ
  pub status : SubmissionStatusType
  pub mem : ℤ
  pub time : ℤ
  pub stdout : Text
  pub stderr : Text

abbrev pub total_result_case_id : ℤ
total_result_case_id = negsuc 0

-- A status with a case and a result only.
abbrev pub plain_status : ℤ → SubmissionStatusType → JudgeStatus
plain_status id s = record {
  case = id;
  status = s;
  mem = pos 0;
  time = pos 0;
  stdout = [];
  stderr = [];
}

-- `CreateInternalError`.
unfoldable pub create_internal_error : ℤ → Text → JudgeStatus
create_internal_error id msg = record {
  case = id;
  status = internal_error;
  mem = pos 0;
  time = pos 0;
  stdout = [];
  stderr = msg;
}

pub data ExecStatus : Type 0 where
  exec_finished exec_time_limit_exceeded exec_memory_limit_exceeded exec_error : ExecStatus

pub record ExecResult : Type 0 where
  pub status : ExecStatus
  pub time : ℤ
  pub mem : ℤ
  pub exit_code : ℤ
  pub stdout : Text
  pub stderr : Text

-- The first call that fails ends a chain of calls: each has its message and, where it fails, the
-- text of its error.
unfoldable pub first_failure : List (Text × Option Text) → Option JudgeStatus
first_failure [] = none
first_failure ((message, none) ∷ rest) = first_failure rest
first_failure ((message, some err) ∷ rest) =
    some (create_internal_error total_result_case_id (message ++ err))

-- How `Run` reports the end of the compiler: `none` where it goes on.
unfoldable pub compile_report : ExecResult → Option JudgeStatus
compile_report res = elim res.status [
  | exec_error ↦ some (
      create_internal_error total_result_case_id
        (text "Failed to execute a compiler. " ++ res.stderr))
  | exec_memory_limit_exceeded ↦ some (record (plain_status total_result_case_id compile_error) {
    stderr = text "Memory Limit Exceeded";
  })
  | exec_time_limit_exceeded ↦ some (record (plain_status total_result_case_id compile_error) {
    stderr = text "Time Limit Exceeded";
  })
  | exec_finished ↦
      if res.exit_code ==ℤ pos 0
      then none
      else some (record (plain_status total_result_case_id compile_error) { stderr = res.stderr })
]

-- The local `maxInt64`.
unfoldable pub max_int64 : ℤ → ℤ → ℤ
max_int64 a b = if ltb_ℤ b a then a else b

-- `if max != -1 { max = maxInt64(max, x) }`.
unfoldable pub keep_max : ℤ → ℤ → ℤ
unfolding max_int64
keep_max max x = if max ==ℤ negsuc 0 then max else max_int64 max x

-- The variables `totalResult`, `maxTime` and `maxMem` of the loop over the tests.
pub record Tally : Type 0 where
  pub total : SubmissionStatusType
  pub max_time : ℤ
  pub max_mem : ℤ

abbrev pub first_tally : Tally
first_tally = record { total = accepted; max_time = pos 0; max_mem = pos 0 }

-- A test with the result `r` that makes time and memory unknown.
abbrev pub spoil : SubmissionStatusType → Tally → Tally
spoil r t = record { total = max_status t.total r; max_time = negsuc 0; max_mem = negsuc 0 }

-- A test with the result `r` whose program ended well.
abbrev pub measure : SubmissionStatusType → ExecResult → Tally → Tally
measure r res t = record {
  total = max_status t.total r;
  max_time = keep_max t.max_time res.time;
  max_mem = keep_max t.max_mem res.mem;
}

-- The status that ends a complete run.
abbrev pub total_status : Tally → JudgeStatus
total_status t = record {
  case = total_result_case_id;
  status = t.total;
  mem = t.max_mem;
  time = t.max_time;
  stdout = [];
  stderr = [];
}

-- What the host answers to the calls of a judge before its tests: the text of each error.
pub record Setup : Type 0 where
  pub mkdir : Option Text
  pub chmod : Option Text
  pub create : Option Text
  pub copy : Option Text
  pub chmod_source : Option Text

-- A compiler, where the language has one: why its container cannot be made, or how it ends.
pub data Compiler : Type 0 where
  absent : Compiler
  not_created : Text → Compiler
  ran : ExecResult → Compiler

-- The compiler's part of `Run`.
unfoldable pub compile : Compiler → Option JudgeStatus
unfolding compile_report
compile absent = none
compile (not_created err) = some (
    create_internal_error (negsuc 0)
      (text "Failed to create a Docker container to compile your code." ++ err))
compile (ran res) = compile_report res
