-- ===== src/Database/Ranking.antt =====
-- lib/database/contest_ranking.go: the ranking of one contest.
-- A column "pPID" holds NULL, which is `none`, or the JSON text of a cell, which stands as the cell.
-- MySQL's answers to the statements are the argument `host`.
pub mod Best
pub mod Columns
pub mod Rows
pub mod Update
pub mod Shown
pub mod Totals
pub mod Tests
use popcon_sc.Prelude.{
  ℕ, ◌≡◌, refl, Bool, true, false, not, ◌&&◌, Option, none, some, List, [], ◌∷◌, ◌++◌, map,
  if◌then◌else◌, ℤ, pos, negsuc, ltb_ℤ, leb_ℤ, ◌==ℤ◌, ◌-ℤ◌, sub64,
}
use popcon_sc.Types.Contest.{
  ContestType, RankingCell, zero_cell, scan_cell, Problems, general_score, general_time,
  general_penalty, evaluation_function1, evaluation_function2, ce_penalty,
}
use popcon_sc.Database.{
  DbError, unknown_problem, unknown_ranking_row, record_not_found, duplicate, Result, ok, err,
  Ending, returns, fails, TxHost, begin_dm,
}
use popcon_sc.Database.Submissions.{
  Submission, submission_count_for_penalty, submission_maximum_score,
}

-- The columns of a `Contest` that the ranking reads; times are in nanoseconds.
pub record Contest : Type 0 where
  pub ctype : ContestType
  pub start_time : ℤ
  pub finish_time : ℤ
  pub penalty : ℤ

pub record RankingRow : Type 0 where
  pub iid : ℤ
  pub columns : List (ℤ × Option RankingCell)
  pub general : RankingCell
  pub score : ℤ
  pub value1 : ℤ
  pub value2 : ℤ

-- The columns of the problems, and the rows in the order of their rid.
pub record Ranking : Type 0 where
  pub pids : List ℤ
  pub rows : List RankingRow

-- `RankingAutoMigrate`: a new table.
unfoldable pub ranking_auto_migrate : Ranking
ranking_auto_migrate = record { pids = []; rows = [] }

abbrev pub null_columns : List ℤ → List (ℤ × Option RankingCell)
null_columns [] = []
null_columns (pid ∷ pids) = (pid, none) ∷ null_columns pids

abbrev pub has_pid : ℤ → List ℤ → Bool
has_pid pid [] = false
has_pid pid (p ∷ pids) = let rest = has_pid pid pids in if p ==ℤ pid then true else rest

abbrev pub has_iid : ℤ → List RankingRow → Bool
has_iid iid [] = false
has_iid iid (r ∷ rows) = let rest = has_iid iid rows in if r.iid ==ℤ iid then true else rest

-- A row with the defaults of the table.
abbrev pub new_row : List ℤ → ℤ → RankingRow
new_row pids iid = record {
  iid = iid;
  columns = null_columns pids;
  general = zero_cell;
  score = pos 0;
  value1 = pos 0;
  value2 = pos 0;
}

-- `RankingUserAdd`: iid is UNIQUE, and a second row of a user is no error.
unfoldable pub ranking_user_add : Option DbError → ℤ → Ranking → Option DbError × Ranking
ranking_user_add error iid t = elim error [
  | some e ↦ (some e, t)
  | none ↦
      if has_iid iid t.rows
      then (none, t)
      else (none, record t { rows = t.rows ++ new_row t.pids iid ∷ [] })
]

abbrev pub add_column : ℤ → RankingRow → RankingRow
add_column pid r = record r { columns = r.columns ++ (pid, none) ∷ [] }

-- `RankingProblemAdd`.
unfoldable pub ranking_problem_add : Option DbError → ℤ → Ranking → Option DbError × Ranking
ranking_problem_add error pid t = elim error [
  | some e ↦ (some e, t)
  | none ↦
      if has_pid pid t.pids
      then (some duplicate, t)
      else (none, record { pids = t.pids ++ pid ∷ []; rows = map (add_column pid) t.rows })
]

-- The columns as `rankingGetAll` reads them.
unfoldable pub scan_columns : List (ℤ × Option RankingCell) → Problems
scan_columns [] = []
scan_columns ((pid, c) ∷ rest) = (pid, scan_cell c) ∷ scan_columns rest

abbrev pub find_row : ℤ → List RankingRow → Option RankingRow
find_row iid [] = none
find_row iid (r ∷ rows) = let found = find_row iid rows in if r.iid ==ℤ iid then some r else found

-- `RankingGetRow`, for another iid than -1, which would ask `rankingGetAll` for all rows.
unfoldable pub ranking_get_row : Option DbError → ℤ → Ranking → Result RankingRow
ranking_get_row error iid t = elim error [
  | some e ↦ err e
  | none ↦ elim (find_row iid t.rows) [ none ↦ err unknown_ranking_row | some r ↦ ok r ]
]

abbrev pub cell_of : ℤ → Problems → Option RankingCell
cell_of pid [] = none
cell_of pid ((p, c) ∷ rest) = let found = cell_of pid rest in if p ==ℤ pid then some c else found

-- `row.Problems[pid] = c`, where the key is there.
abbrev pub set_cell : ℤ → RankingCell → Problems → Problems
set_cell pid c [] = []
set_cell pid c ((p, d) ∷ rest) = (p, if p ==ℤ pid then c else d) ∷ set_cell pid c rest

-- `Time.Sub`, which stops at the ends of an int64.
unfoldable pub sub_time : ℤ → ℤ → ℤ
sub_time a b =
    let d = a -ℤ b in
    if ltb_ℤ (pos 9223372036854775807) d
    then pos 9223372036854775807
    else (if ltb_ℤ d (negsuc 9223372036854775807) then negsuc 9223372036854775807 else d)

-- What becomes of a cell by a new result.
pub data Choice : Type 0 where
  -- the result is old: nothing is written
  stale : Choice
  failed : DbError → Choice
  chosen : RankingCell → Choice

-- A result of the submission that the cell shows already.
unfoldable pub rejudged : Result Submission → ℤ → RankingCell → RankingCell → Choice
rejudged maximum start_time cell rc =
    if ltb_ℤ rc.jid cell.jid
    then stale
    else (if cell.jid ==ℤ rc.jid
        then stale
        else (if leb_ℤ cell.score rc.score then chosen rc else (elim maximum [
          | err e ↦ failed e
          | ok sm ↦ chosen (record cell {
            score = rc.score;
            time = sub_time sm.submit_time start_time;
            sid = sm.sid;
            jid = sm.jid;
          })
        ])))

-- A result of another submission.
unfoldable pub compared : RankingCell → RankingCell → RankingCell
compared cell rc =
    if ltb_ℤ cell.score rc.score
    then rc
    else (if (cell.score ==ℤ rc.score) && ltb_ℤ rc.sid cell.sid then rc else cell)

-- `RankingUpdate` up to the new cell, without its penalty.
unfoldable pub choose_cell : Result Submission → ℤ → RankingCell → RankingCell → Choice
unfolding rejudged compared
choose_cell maximum start_time cell rc =
    if cell.valid
    then (if cell.sid ==ℤ rc.sid
        then rejudged maximum start_time cell rc
        else chosen (compared cell rc))
    else chosen rc

-- The total of a row, and what MySQL sorts it by.
unfoldable pub general_of : ContestType → Problems → RankingCell
general_of ct problems = record {
  valid = true;
  sid = pos 0;
  jid = pos 0;
  time = general_time ct problems;
  score = general_score ct problems;
  penalty = general_penalty ct problems;
}

-- `UPDATE … SET pPID=? WHERE iid=?`.
abbrev pub write_column :
    ℤ → RankingCell → List (ℤ × Option RankingCell) → List (ℤ × Option RankingCell)
write_column pid c [] = []
write_column pid c ((p, d) ∷ rest) = (p, if p ==ℤ pid then some c else d) ∷ write_column pid c rest

abbrev pub update_row : ℤ → (RankingRow → RankingRow) → List RankingRow → List RankingRow
update_row iid f [] = []
update_row iid f (r ∷ rows) = (if r.iid ==ℤ iid then f r else r) ∷ update_row iid f rows

-- `RankingCellUpdate`.
unfoldable pub ranking_cell_update : ℤ → ℤ → RankingCell → Ranking → Ranking
ranking_cell_update iid pid c t = record t {
  rows = update_row iid (λ r. record r { columns = write_column pid c r.columns }) t.rows;
}

-- `RankingGeneralUpdate`.
unfoldable pub ranking_general_update : ℤ → ℤ → ℤ → RankingCell → Ranking → Ranking
ranking_general_update iid v1 v2 g t = record t {
  rows =
      update_row iid (λ r. record r { general = g; score = g.score; value1 = v1; value2 = v2 })
        t.rows;
}

-- What MySQL answers to one `RankingUpdate`.
pub record RankingHost : Type 0 where
  pub contest : Result Contest
  pub tx : TxHost
  pub row_error : Option DbError
  pub maximum_error : Option DbError
  pub count_error : Option DbError
  pub cell_error : Option DbError
  pub general_error : Option DbError

-- `SubmissionMaximumScore` in the table of submissions.
unfoldable pub maximum_score : RankingHost → ℤ → ℤ → List Submission → Result Submission
maximum_score host iid pid subs = elim host.maximum_error [
  | some e ↦ err e
  | none ↦ elim (submission_maximum_score iid pid subs) [
    | none ↦ err record_not_found
    | some s ↦ ok s
  ]
]

-- The penalty of a cell: the wrong submissions up to it, itself excepted if it has points.
unfoldable pub penalty_of : Contest → ℤ → ℤ → RankingCell → List Submission → ℤ
penalty_of cont iid pid c subs = pos (
    submission_count_for_penalty iid pid
      (if ltb_ℤ (pos 0) c.score then sub64 c.sid (pos 1) else c.sid) (ce_penalty cont.ctype) subs)

-- The two statements that write.
unfoldable pub save_cell :
    RankingHost → Contest → ℤ → ℤ → RankingCell → Problems → Ranking → Ending × Ranking
unfolding ranking_cell_update ranking_general_update
save_cell host cont iid pid c problems t =
    let g = general_of cont.ctype problems in
    elim host.cell_error [
      | some e ↦ (fails e, t)
      | none ↦ elim host.general_error [
        | some e ↦ (fails e, ranking_cell_update iid pid c t)
        | none ↦ (
          returns,
          ranking_general_update iid
              (evaluation_function1 cont.ctype g.score g.penalty cont.penalty g.time)
              (evaluation_function2 cont.ctype g.score g.penalty cont.penalty g.time) g
              (ranking_cell_update iid pid c t),
        )
      ]
    ]

-- `RankingUpdate` once the cell is chosen.
unfoldable pub update_chosen :
    RankingHost
    → Contest
    → List Submission
    → ℤ
    → ℤ
    → Problems
    → RankingCell
    → Ranking
    → Ending × Ranking
unfolding save_cell
update_chosen host cont subs iid pid problems cell t = elim host.count_error [
  | some e ↦ (fails e, t)
  | none ↦
      let c = record cell { penalty = penalty_of cont iid pid cell subs } in
      save_cell host cont iid pid c (set_cell pid c problems) t
]

-- The function that `RankingUpdate` gives to `BeginDM`.
unfoldable pub ranking_update_body :
    RankingHost → Contest → List Submission → ℤ → ℤ → RankingCell → Ranking → Ending × Ranking
unfolding choose_cell update_chosen
ranking_update_body host cont subs iid pid rc t = elim (ranking_get_row host.row_error iid t) [
  | err e ↦ elim e [ unknown_ranking_row ↦ (returns, t) | other ↦ (fails other, t) ]
  | ok row ↦ elim (cell_of pid (scan_columns row.columns)) [
    | none ↦ (fails unknown_problem, t)
    | some cell ↦ elim (choose_cell (maximum_score host iid pid subs) cont.start_time cell rc) [
      | stale ↦ (returns, t)
      | failed e ↦ (fails e, t)
      | chosen c ↦ update_chosen host cont subs iid pid (scan_columns row.columns) c t
    ]
  ]
]

-- `RankingUpdate`: `subs` is the table of submissions.
unfoldable pub ranking_update :
    RankingHost → List Submission → ℤ → ℤ → RankingCell → Ranking → Option DbError × Ranking
ranking_update host subs iid pid rc t = elim host.contest [
  | err e ↦ (some e, t)
  | ok cont ↦
      let r =
        begin_dm false host.tx
          (λ t o. (
            (ranking_update_body host cont subs iid pid rc t).0,
            (ranking_update_body host cont subs iid pid rc t).1,
            o,
          ))
          t tt in
      (r.0, r.1)
]
