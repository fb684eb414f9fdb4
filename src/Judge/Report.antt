-- ===== src/Judge/Report.antt =====
-- ppjudge/main.go: how the results of a judge become reports to the server, and the score.
-- The goroutine that reads `statusChan` is a loop over the statuses that the judge sends.
pub mod Score
pub mod Rounds
pub mod EndToEnd
use popcon_sc.Prelude.{
  ℕ, zero, suc, ◌+◌, ◌/◌, ◌==◌, Bool, true, false, not, ◌&&◌, Option, none, some, List, [], ◌∷◌,
  ◌++◌, if◌then◌else◌, ℤ, pos, negsuc, ◌-ℤ◌, ◌==ℤ◌, leb_ℤ, ltb_ℤ, add64, Text, text, text_eq,
  length, get_elem?, set,
}
use popcon_sc.Types.Submission.{
  SubmissionStatusType, in_queue, accepted, wrong_answer, internal_error, max_status,
}
use popcon_sc.Types.Contest.{JudgeType, perfect_match, running_code, interactive}
use popcon_sc.Codec.Decimal.{format_int}
use popcon_sc.Codec.Queries.{get_cases}
use popcon_sc.Judge.{JudgeStatus, total_result_case_id}
use popcon_sc.Judge.Newline.{replace_newlines}

-- The fields of `ContestProblemTestCase`, `ContestProblemScoreSet` and `ContestProblem`
-- (lib/database/contest_problem.go) that the judge reads.
pub record ProblemCase : Type 0 where
  pub name : Text
  pub input : Text
  pub output : Text

pub record ScoreSet : Type 0 where
  pub cases : Text
  pub score : ℤ

pub record Problem : Type 0 where
  pub cid : ℤ
  pub judge_type : JudgeType
  pub newline_char_conversion : Bool
  pub cases : List ProblemCase
  pub scores : List ScoreSet

-- The numbers of the submission that is judged.
pub record Judged : Type 0 where
  pub sid : ℤ
  pub jid : ℤ

-- `database.SubmissionTestCase` as it is reported.
pub record CaseResult : Type 0 where
  pub status : SubmissionStatusType
  pub case_id : ℤ
  pub name : Text
  pub time : ℤ
  pub mem : ℤ

-- `JudgeSubmissionsUpdateCase` and `JudgeSubmissionsUpdateResult`.
pub data Report : Type 0 where
  update_case : (cid sid jid : ℤ) (progress : Text) → CaseResult → Report
  update_result :
      (cid sid jid : ℤ) (status : SubmissionStatusType) (score time mem : ℤ) (message : Text)
      → Report

-- What becomes of the file of the right output.
pub data OutputFile : Type 0 where
  open_fails read_fails : OutputFile
  contents : Text → OutputFile

-- `x / 1000`, rounded towards 0.
unfoldable pub thousandth : ℤ → ℤ
thousandth (pos n) = pos (n / 1000)
thousandth (negsuc n) = pos 0 -ℤ pos (suc n / 1000)

-- Whether a case of a score set spoils the set.
unfoldable pub spoils : List SubmissionStatusType → ℤ → Bool
spoils ret_cases (negsuc n) = false
spoils ret_cases (pos n) = elim (get_elem? ret_cases n) [
  | none ↦ false
  | some s ↦ elim s [ accepted ↦ false | _ ↦ true ]
]

unfoldable pub any_spoils : List SubmissionStatusType → List ℤ → Bool
unfolding spoils
any_spoils ret_cases [] = false
any_spoils ret_cases (v ∷ rest) =
    let others = any_spoils ret_cases rest in if spoils ret_cases v then true else others

-- The loop over the score sets.
unfoldable pub score_sum : List SubmissionStatusType → ℤ → List ScoreSet → ℤ
unfolding any_spoils
score_sum ret_cases sum [] = sum
score_sum ret_cases sum (s ∷ scores) =
    score_sum ret_cases
      (if any_spoils ret_cases (get_cases s.cases) then sum else add64 sum s.score) scores

-- The variables of the goroutine, and the reports that it has made, oldest first.
pub record Progress : Type 0 where
  pub ret_cases : List SubmissionStatusType
  pub total : SubmissionStatusType
  pub reports : List Report

pub data Outcome : Type 0 where
  -- the loop goes on
  running : Progress → Outcome
  -- the goroutine returns
  ended : List Report → Outcome
  -- the program stops: an index out of range, or a method of a nil file
  crashed : Outcome

-- Both texts, with the newlines replaced if the problem says so.
unfoldable pub same_output : Bool → Text → Text → Bool
same_output conversion a b =
    if conversion then text_eq (replace_newlines a) (replace_newlines b) else text_eq a b

-- The status of an accepted test after its output is compared. `none` is the `Close` of the nil
-- file that `OpenFile` returns beside its error.
unfoldable pub compare_output : Problem → OutputFile → Text → Option SubmissionStatusType
unfolding same_output
compare_output p open_fails stdout = none
compare_output p read_fails stdout = some internal_error
compare_output p (contents b) stdout =
    some (if same_output p.newline_char_conversion stdout b then accepted else wrong_answer)

unfoldable pub case_report :
    Problem → Judged → JudgeStatus → ProblemCase → SubmissionStatusType → Report
case_report p j stat c status =
    update_case p.cid j.sid j.jid
      (format_int (add64 stat.case (pos 1)) ++ (text "/" ++ format_int (pos (length p.cases))))
      (record {
        status = status;
        case_id = stat.case;
        name = c.name;
        time = stat.time;
        mem = thousandth stat.mem;
      })

-- A test has the final status `status`: it is reported, and noted as case i.
unfoldable pub note_case :
    Problem → Judged → JudgeStatus → ProblemCase → ℕ → SubmissionStatusType → Progress → Progress
note_case p j stat c i status s = record {
  ret_cases = set s.ret_cases i status;
  total = max_status s.total status;
  reports = s.reports ++ case_report p j stat c status ∷ [];
}

-- A status for the test c, which is case i.
unfoldable pub handle_case :
    Problem → Judged → (ℕ → OutputFile) → JudgeStatus → ℕ → ProblemCase → Progress → Outcome
handle_case p j output stat i c s = elim stat.status [
  | accepted ↦ elim p.judge_type [
    | perfect_match ↦ elim (compare_output p (output i) stat.stdout) [
      | none ↦ crashed
      | some status ↦ running (note_case p j stat c i status s)
    ]
    | running_code ↦ running (note_case p j stat c i accepted s)
    | interactive ↦
        running
          (record s { ret_cases = set s.ret_cases i accepted; total = max_status s.total accepted })
  ]
  | status ↦ running (note_case p j stat c i stat.status s)
]

-- The total result: it is reported, unless a failed download has been reported as the result.
unfoldable pub handle_total : Problem → Judged → Bool → JudgeStatus → Progress → Outcome
handle_total p j responded stat s = ended (
    if responded
    then s.reports
    else s.reports
      ++ update_result p.cid j.sid j.jid (max_status s.total stat.status)
          (score_sum s.ret_cases (pos 0) p.scores) stat.time (thousandth stat.mem) stat.stderr
        ∷ [])

-- One round of the loop.
unfoldable pub handle :
    Problem → Judged → (ℕ → OutputFile) → Bool → JudgeStatus → Progress → Outcome
handle p j output responded stat s = elim stat.case [
  | negsuc n ↦ if n == 0 then handle_total p j responded stat s else crashed
  | pos i ↦ elim (get_elem? p.cases i) [
    | none ↦ crashed
    | some c ↦ handle_case p j output stat i c s
  ]
]

-- The loop. The channel is closed behind its last status.
unfoldable pub handle_all :
    Problem → Judged → (ℕ → OutputFile) → Bool → List JudgeStatus → Progress → Outcome
handle_all p j output responded [] s = ended s.reports
handle_all p j output responded (stat ∷ rest) s = elim (handle p j output responded stat s) [
  | running s' ↦ handle_all p j output responded rest s'
  | ended reports ↦ ended reports
  | crashed ↦ crashed
]

-- `retCases` before the first status.
abbrev pub no_results : List ProblemCase → List SubmissionStatusType
no_results [] = []
no_results (c ∷ cases) = in_queue ∷ no_results cases

-- The goroutine from its start.
unfoldable pub report_all : Problem → Judged → (ℕ → OutputFile) → Bool → List JudgeStatus → Outcome
unfolding handle_all
report_all p j output responded statuses =
    handle_all p j output responded statuses
      (record { ret_cases = no_results p.cases; total = accepted; reports = [] })
