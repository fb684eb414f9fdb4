-- ===== src/Types/Submission.antt =====
-- lib/types/submission.go: the status of a submission, its number and its text.
-- The Go type is an `int` of which the program makes the nine constants only.
use Prim.Native.String.{String}
use text.Mathlib.Text.{◌==◌ as str_eq}
use popcon_sc.Prelude.{
  ℕ, ◌≡◌, refl, Bool, Option, none, some, List, [], ◌∷◌, ltb, if◌then◌else◌, arith,
}

pub data SubmissionStatusType : Type 0 where
  in_queue judging accepted wrong_answer time_limit_exceeded : SubmissionStatusType
  memory_limit_exceeded runtime_error compile_error internal_error : SubmissionStatusType

pub SubmissionStatusType-discrete : Discrete SubmissionStatusType
SubmissionStatusType-discrete = hlevel

-- The value of the constant: `iota`.
abbrev pub status_int : SubmissionStatusType → ℕ
status_int in_queue = 0
status_int judging = 1
status_int accepted = 2
status_int wrong_answer = 3
status_int time_limit_exceeded = 4
status_int memory_limit_exceeded = 5
status_int runtime_error = 6
status_int compile_error = 7
status_int internal_error = 8

-- `SubmissionStatusTypeToString`, and `String` on the constants.
unfoldable pub status_to_string : SubmissionStatusType → String
status_to_string in_queue = "WJ"
status_to_string judging = "JG"
status_to_string accepted = "AC"
status_to_string wrong_answer = "WA"
status_to_string time_limit_exceeded = "TLE"
status_to_string memory_limit_exceeded = "MLE"
status_to_string runtime_error = "RE"
status_to_string compile_error = "CE"
status_to_string internal_error = "IE"

lookup_text : String → List (String × SubmissionStatusType) → Option SubmissionStatusType
lookup_text s [] = none
lookup_text s ((k, v) ∷ rest) = if str_eq s k then some v else lookup_text s rest

abbrev status_table : List (String × SubmissionStatusType)
status_table =
    ("WJ", in_queue)
    ∷ ("JG", judging)
    ∷ ("AC", accepted)
    ∷ ("WA", wrong_answer)
    ∷ ("TLE", time_limit_exceeded)
    ∷ ("MLE", memory_limit_exceeded)
    ∷ ("RE", runtime_error)
    ∷ ("CE", compile_error)
    ∷ ("IE", internal_error)
    ∷ []

-- `SubmissionStatusTypeFromString`.
unfoldable pub status_from_string : String → Option SubmissionStatusType
unfolding lookup_text
status_from_string s = lookup_text s status_table

pub status_from_string-status_to_string :
    (s : SubmissionStatusType) → status_from_string (status_to_string s) ≡ some s
unfolding status_from_string status_to_string
status_from_string-status_to_string in_queue = refl
status_from_string-status_to_string _ = refl

-- ppjudge/judge.go `maxStatus`: the greater of the two numbers.
unfoldable pub max_status : SubmissionStatusType → SubmissionStatusType → SubmissionStatusType
max_status a b = if ltb (status_int b) (status_int a) then a else b

pub status_int-max_status_left :
    (a b : SubmissionStatusType) → ltb (status_int (max_status a b)) (status_int a) ≡ Bool.false
unfolding max_status
status_int-max_status_left a b = ground arith
