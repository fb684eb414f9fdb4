-- ===== src/Web/Rows.antt =====
-- lib/database and lib/types: the rows that the web server reads of a contest, its problems and its
-- submissions, with the fields that the handlers use. Times are in Unix seconds.
use popcon_sc.Prelude.{Option, List, Bool, ℤ, Text}
use popcon_sc.Types.Submission.{SubmissionStatusType}
use popcon_sc.Types.Contest.{ContestType, JudgeType}
use popcon_sc.Database.Ranking.{RankingRow}

-- `Contest` of lib/database/contest.go.
pub record ContestRow : Type 0 where
  pub name : Text
  pub start_time : ℤ
  pub finish_time : ℤ
  pub admin : ℤ
  pub penalty : ℤ
  pub contest_type : ContestType

-- `SessionTemplateData`: the user who is logged in.
pub record SessionTemplateData : Type 0 where
  pub iid : ℤ
  pub user_id : Text
  pub user_name : Text
  pub gid : ℤ

-- `User` of lib/database/user.go.
pub record UserRow : Type 0 where
  pub iid : ℤ
  pub user_name : Text
  pub pass_hash : Text
  pub email : Option Text
  pub enabled : Bool

-- `ContestProblem` of lib/database/contest_problem.go.
pub record ProblemRow : Type 0 where
  pub pid : ℤ
  pub pidx : ℤ
  pub name : Text
  pub time : ℤ
  pub mem : ℤ
  pub judge_type : JudgeType
  pub newline_char_conversion : Bool
  -- filled up to `RelatedFilesPerProblem` names
  pub related_files : List Text

pub record Language : Type 0 where
  pub lid : ℤ
  pub name : Text
  pub active : Bool

pub record SubmissionView : Type 0 where
  pub sid : ℤ
  pub iid : ℤ
  pub pidx : ℤ
  pub uid : Text
  pub score : ℤ
  pub status : Text

-- A row of `SubmissionGetCase`.
pub record CaseRow : Type 0 where
  pub case_id : ℤ
  pub name : Text
  pub status : SubmissionStatusType
  pub time : ℤ
  pub mem : ℤ

pub record RankingRowWithUserData : Type 0 where
  pub row : RankingRow
  pub uid : Text
  pub user_name : Text

-- `ContestProblemScoreSet`: its cases as they are stored, and its score.
pub record ScoreSetRow : Type 0 where
  pub cases_raw_string : Text
  pub score : ℤ
