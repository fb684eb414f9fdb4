-- ===== src/Types/Contest.antt =====
-- lib/types/contest.go: contest types, ranking cells, and how a row of the ranking is scored.
-- A Go map from problems to cells is the list of its entries, in the order in which `range` visits
-- them; a `time.Duration` is its int64 of nanoseconds.
use Prim.Native.String.{String}
use text.Mathlib.Text.{◌==◌ as str_eq}
use popcon_sc.Prelude.{
  ◌≡◌, refl, Bool, true, false, not, ◌&&◌, Option, none, some, List, [], ◌∷◌, if◌then◌else◌, ℤ, pos,
  ltb_ℤ, ◌==ℤ◌, add64, sub64, mul64, neg64,
}

pub data ContestType : Type 0 where
  joi pck at_coder icpc : ContestType

pub data JudgeType : Type 0 where
  perfect_match running_code interactive : JudgeType

unfoldable pub contest_type_to_string : ContestType → String
contest_type_to_string joi = "JOI"
contest_type_to_string pck = "PCK"
contest_type_to_string at_coder = "AtCoder"
contest_type_to_string icpc = "ICPC"

unfoldable pub contest_type_from_string : String → Option ContestType
contest_type_from_string s =
    if str_eq s "JOI"
    then some joi
    else (if str_eq s "PCK"
        then some pck
        else (if str_eq s "AtCoder"
            then some at_coder
            else (if str_eq s "ICPC" then some icpc else none)))

unfoldable pub judge_type_to_string : JudgeType → String
judge_type_to_string perfect_match = "Perfect Match"
judge_type_to_string running_code = "Running Code"
judge_type_to_string interactive = "Interactive"

unfoldable pub judge_type_from_string : String → Option JudgeType
judge_type_from_string s =
    if str_eq s "Perfect Match"
    then some perfect_match
    else (if str_eq s "Running Code"
        then some running_code
        else (if str_eq s "Interactive" then some interactive else none))

pub record RankingCell : Type 0 where
  pub valid : Bool
  pub sid : ℤ
  pub jid : ℤ
  pub time : ℤ
  pub score : ℤ
  pub penalty : ℤ

-- `RankingCell{}`, which is also `InvalidRankingCell`.
abbrev pub zero_cell : RankingCell
zero_cell = record {
  valid = false;
  sid = pos 0;
  jid = pos 0;
  time = pos 0;
  score = pos 0;
  penalty = pos 0;
}

-- `Parse` and `Scan` on a fresh cell. A column holds NULL or the JSON text of a cell, which stands
-- here as that cell: reading a text back marks the cell valid, whatever was written.
unfoldable pub scan_cell : Option RankingCell → RankingCell
scan_cell none = zero_cell
scan_cell (some c) = record c { valid = true }

abbrev pub Problems : Type 0
Problems = List (ℤ × RankingCell)

-- The loop of `accumulateAllScore`, from the sum so far.
unfoldable pub accumulate_all_score : ℤ → Problems → ℤ
accumulate_all_score sum [] = sum
accumulate_all_score sum ((i, c) ∷ rest) = accumulate_all_score (add64 sum c.score) rest

-- The loop of `maximizedTime`.
unfoldable pub maximized_time : ℤ → Problems → ℤ
maximized_time max [] = max
maximized_time max ((i, c) ∷ rest) =
    maximized_time (if ltb_ℤ max c.time && not (c.score ==ℤ pos 0) then c.time else max) rest

-- The loop of `accumulateAllTime`.
unfoldable pub accumulate_all_time : ℤ → Problems → ℤ
accumulate_all_time sum [] = sum
accumulate_all_time sum ((i, c) ∷ rest) =
    accumulate_all_time (if not (c.score ==ℤ pos 0) then add64 sum c.time else sum) rest

-- The loop of `accumulateAllPenalty`.
unfoldable pub accumulate_all_penalty : ℤ → Problems → ℤ
accumulate_all_penalty sum [] = sum
accumulate_all_penalty sum ((i, c) ∷ rest) =
    accumulate_all_penalty (if not (c.score ==ℤ pos 0) then add64 sum c.penalty else sum) rest

-- `ContestTypeCalculateGeneralScore`, `…Time` and `…Penalty`.
unfoldable pub general_score : ContestType → Problems → ℤ
general_score ct problems = accumulate_all_score (pos 0) problems

unfoldable pub general_time : ContestType → Problems → ℤ
general_time joi problems = maximized_time (pos 0) problems
general_time pck problems = maximized_time (pos 0) problems
general_time at_coder problems = maximized_time (pos 0) problems
general_time icpc problems = accumulate_all_time (pos 0) problems

unfoldable pub general_penalty : ContestType → Problems → ℤ
general_penalty ct problems = accumulate_all_penalty (pos 0) problems

-- `time.Minute`, in nanoseconds.
abbrev pub minute : ℤ
minute = pos 60_000_000_000

-- `ContestTypeToEvaluationFunction1`: score, penalty, penaltySetting, time.
unfoldable pub evaluation_function1 : ContestType → ℤ → ℤ → ℤ → ℤ → ℤ
evaluation_function1 joi score penalty penalty_setting t = neg64 t
evaluation_function1 pck score penalty penalty_setting t = neg64 penalty
evaluation_function1 at_coder score penalty penalty_setting t =
    sub64 (neg64 t) (mul64 penalty minute)
evaluation_function1 icpc score penalty penalty_setting t = sub64 (neg64 t) (mul64 penalty minute)

-- `ContestTypeToEvaluationFunction2`.
unfoldable pub evaluation_function2 : ContestType → ℤ → ℤ → ℤ → ℤ → ℤ
evaluation_function2 joi score penalty penalty_setting t = pos 0
evaluation_function2 pck score penalty penalty_setting t = neg64 t
evaluation_function2 at_coder score penalty penalty_setting t = pos 0
evaluation_function2 icpc score penalty penalty_setting t = pos 0

-- `ContestTypeCEPenalty`.
unfoldable pub ce_penalty : ContestType → Bool
ce_penalty joi = false
ce_penalty pck = false
ce_penalty at_coder = false
ce_penalty icpc = false

pub contest_type_round_trip :
    (ct : ContestType) → contest_type_from_string (contest_type_to_string ct) ≡ some ct
unfolding contest_type_from_string contest_type_to_string
contest_type_round_trip joi = refl
contest_type_round_trip _ = refl
