-- ===== src/Database/Ranking/Columns.antt =====
-- lib/database/contest_ranking.go: rows whose totals belong to their cells, and what a new column
-- does to their totals.
use popcon_sc.Prelude.{
  ◌≡◌, refl, sym, ap, ◌∙◌, true, false, Option, none, List, [], ◌∷◌, ◌++◌, ℤ, pos, negsuc, All,
  arith, IsInt64, wrap64-IsInt64, wrap64_id, add64, wrap64, ◌+ℤ◌, neg64, sub64, mul64, ◌-ℤ◌, ◌*ℤ◌,
}
use popcon_sc.Types.Contest.{
  ContestType, joi, pck, at_coder, icpc, RankingCell, scan_cell, general_score, general_time,
  general_penalty, evaluation_function1, evaluation_function2, accumulate_all_score,
  accumulate_all_time, accumulate_all_penalty, maximized_time,
}
use popcon_sc.Database.{Result}
use popcon_sc.Database.Submissions.{Submission}
use popcon_sc.Database.Ranking.{
  RankingRow, Ranking, null_columns, has_iid, new_row, scan_columns, set_cell, chosen, rejudged,
  compared, choose_cell, write_column,
}

-- The totals of a row, and what MySQL sorts it by, are those of its cells.
abbrev pub IsTotalled : ContestType → ℤ → RankingRow → Type 0
IsTotalled ct setting r =
    (r.general.score ≡ general_score ct (scan_columns r.columns))
    × (r.general.time ≡ general_time ct (scan_columns r.columns))
    × (r.general.penalty ≡ general_penalty ct (scan_columns r.columns))
    × (r.score ≡ r.general.score)
    × (r.value1 ≡ evaluation_function1 ct r.general.score r.general.penalty setting r.general.time)
    × (r.value2 ≡ evaluation_function2 ct r.general.score r.general.penalty setting r.general.time)

-- No two rows of one user.
abbrev pub AreUsers : List RankingRow → Type 0
AreUsers [] = Unit {0}
AreUsers (r ∷ rows) = (has_iid r.iid rows ≡ false) × AreUsers rows

abbrev pub IsTotalledRanking : ContestType → ℤ → Ranking → Type 0
IsTotalledRanking ct setting t = All (IsTotalled ct setting) t.rows × AreUsers t.rows

-- Cells without points count nothing.
null-totals :
    (ct : ContestType) (pids : List ℤ)
    → (general_score ct (scan_columns (null_columns pids)) ≡ pos 0)
      × (general_time ct (scan_columns (null_columns pids)) ≡ pos 0)
      × (general_penalty ct (scan_columns (null_columns pids)) ≡ pos 0)
unfolding general_score general_time general_penalty accumulate_all_score accumulate_all_time
    accumulate_all_penalty maximized_time scan_columns scan_cell add64 wrap64 ◌+ℤ◌
null-totals joi [] = (refl, refl, refl)
null-totals pck [] = (refl, refl, refl)
null-totals at_coder [] = (refl, refl, refl)
null-totals icpc [] = (refl, refl, refl)
null-totals joi (pid ∷ pids) = null-totals joi pids
null-totals pck (pid ∷ pids) = null-totals pck pids
null-totals at_coder (pid ∷ pids) = null-totals at_coder pids
null-totals icpc (pid ∷ pids) = null-totals icpc pids

pub new_row-IsTotalled :
    (ct : ContestType) (setting : ℤ) (pids : List ℤ) (iid : ℤ)
    → IsTotalled ct setting (new_row pids iid)
unfolding evaluation_function1 evaluation_function2 neg64 sub64 mul64 wrap64 ◌-ℤ◌ ◌*ℤ◌
new_row-IsTotalled joi setting pids iid =
    let z = null-totals joi pids in (sym z.0, sym z.1, sym z.2, refl, refl, refl)
new_row-IsTotalled pck setting pids iid =
    let z = null-totals pck pids in (sym z.0, sym z.1, sym z.2, refl, refl, refl)
new_row-IsTotalled at_coder setting pids iid =
    let z = null-totals at_coder pids in (sym z.0, sym z.1, sym z.2, refl, refl, refl)
new_row-IsTotalled icpc setting pids iid =
    let z = null-totals icpc pids in (sym z.0, sym z.1, sym z.2, refl, refl, refl)

pub scan_columns-write_column :
    (pid : ℤ) (c : RankingCell) (columns : List (ℤ × Option RankingCell))
    → c.valid ≡ true
    → scan_columns (write_column pid c columns) ≡ set_cell pid c (scan_columns columns)
unfolding scan_columns scan_cell
scan_columns-write_column pid c [] v = refl
scan_columns-write_column pid c ((p, d) ∷ columns) v =
    ground (arith, scan_columns-write_column pid c columns v)

-- The new cell is valid if the result is.
pub chosen-valid :
    (maximum : Result Submission) (start : ℤ) (cell rc c : RankingCell)
    → rc.valid ≡ true
    → choose_cell maximum start cell rc ≡ chosen c
    → c.valid ≡ true
unfolding choose_cell rejudged compared
chosen-valid maximum start cell rc c v h = ground arith

+ℤ_zero : (z : ℤ) → z +ℤ pos 0 ≡ z
unfolding ◌+ℤ◌
+ℤ_zero (pos n) = ground arith
+ℤ_zero (negsuc n) = ground arith

accumulate_all_score-append :
    (columns : List (ℤ × Option RankingCell)) (pid sum : ℤ)
    → IsInt64 sum
    → accumulate_all_score sum (scan_columns (columns ++ (pid, none) ∷ []))
      ≡ accumulate_all_score sum (scan_columns columns)
unfolding accumulate_all_score scan_columns scan_cell add64
accumulate_all_score-append [] pid sum h = ap wrap64 (+ℤ_zero sum) ∙ wrap64_id sum h
accumulate_all_score-append ((p, c) ∷ columns) pid sum h =
    accumulate_all_score-append columns pid (wrap64 (sum +ℤ (scan_cell c).score))
      (wrap64-IsInt64 (sum +ℤ (scan_cell c).score))

maximized_time-append :
    (columns : List (ℤ × Option RankingCell)) (pid max : ℤ)
    → maximized_time max (scan_columns (columns ++ (pid, none) ∷ []))
      ≡ maximized_time max (scan_columns columns)
unfolding maximized_time scan_columns scan_cell
maximized_time-append [] pid max = ground arith
maximized_time-append ((p, c) ∷ columns) pid max = maximized_time-append columns pid _

accumulate_all_time-append :
    (columns : List (ℤ × Option RankingCell)) (pid sum : ℤ)
    → accumulate_all_time sum (scan_columns (columns ++ (pid, none) ∷ []))
      ≡ accumulate_all_time sum (scan_columns columns)
unfolding accumulate_all_time scan_columns scan_cell
accumulate_all_time-append [] pid sum = refl
accumulate_all_time-append ((p, c) ∷ columns) pid sum = accumulate_all_time-append columns pid _

accumulate_all_penalty-append :
    (columns : List (ℤ × Option RankingCell)) (pid sum : ℤ)
    → accumulate_all_penalty sum (scan_columns (columns ++ (pid, none) ∷ []))
      ≡ accumulate_all_penalty sum (scan_columns columns)
unfolding accumulate_all_penalty scan_columns scan_cell
accumulate_all_penalty-append [] pid sum = refl
accumulate_all_penalty-append ((p, c) ∷ columns) pid sum =
    accumulate_all_penalty-append columns pid _

-- A new column holds no points.
pub general-append :
    (ct : ContestType) (columns : List (ℤ × Option RankingCell)) (pid : ℤ)
    → (general_score ct (scan_columns (columns ++ (pid, none) ∷ []))
        ≡ general_score ct (scan_columns columns))
      × (general_time ct (scan_columns (columns ++ (pid, none) ∷ []))
          ≡ general_time ct (scan_columns columns))
      × (general_penalty ct (scan_columns (columns ++ (pid, none) ∷ []))
          ≡ general_penalty ct (scan_columns columns))
unfolding general_score general_time general_penalty
general-append ct columns pid = (
  accumulate_all_score-append columns pid (pos 0) (omega arith),
  time ct,
  accumulate_all_penalty-append columns pid (pos 0),
)
  where
    time :
        (ct : ContestType)
        → general_time ct (scan_columns (columns ++ (pid, none) ∷ []))
          ≡ general_time ct (scan_columns columns)
    time joi = maximized_time-append columns pid (pos 0)
    time pck = maximized_time-append columns pid (pos 0)
    time at_coder = maximized_time-append columns pid (pos 0)
    time icpc = accumulate_all_time-append columns pid (pos 0)
