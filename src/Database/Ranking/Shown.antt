-- ===== src/Database/Ranking/Shown.antt =====
-- lib/database/contest_ranking.go: what a `RankingUpdate` that goes through leaves in the table.
use popcon_sc.Prelude.{
  ◌≡◌, refl, sym, ap, ◌∙◌, true, false, none, some, List, [], ◌∷◌, ℤ, ◌==ℤ◌, arith,
}
use popcon_sc.Types.Contest.{RankingCell, Problems, general_score}
use popcon_sc.Database.{ok, returns, begin_dm}
use popcon_sc.Database.Submissions.{Submission}
use popcon_sc.Database.Ranking.{
  Contest, RankingRow, Ranking, scan_columns, find_row, ranking_get_row, cell_of, set_cell, chosen,
  choose_cell, general_of, update_row, RankingHost, maximum_score, penalty_of, save_cell,
  update_chosen, ranking_update_body, ranking_update,
}
use popcon_sc.Database.Ranking.Columns.{scan_columns-write_column, chosen-valid}
use popcon_sc.Database.Ranking.Update.{totalled_row, save_cell-written}

-- MySQL answers everything.
abbrev pub IsAnswering : RankingHost → Type 0
IsAnswering host =
    (host.tx.begins ≡ none)
    × (host.tx.commits ≡ none)
    × (host.row_error ≡ none)
    × (host.count_error ≡ none)
    × (host.cell_error ≡ none)
    × (host.general_error ≡ none)

find_row-update_row :
    (iid : ℤ) (f : RankingRow → RankingRow) (rows : List RankingRow) (r : RankingRow)
    → ((r : RankingRow) → (f r).iid ≡ r.iid)
    → find_row iid rows ≡ some r
    → find_row iid (update_row iid f rows) ≡ some (f r)
find_row-update_row iid f [] r k h = cc
find_row-update_row iid f (x ∷ rows) r k h = ground (arith, k x, find_row-update_row iid f rows r k)

find_row-update_other :
    (other iid : ℤ) (f : RankingRow → RankingRow) (rows : List RankingRow)
    → ((r : RankingRow) → (f r).iid ≡ r.iid)
    → (other ==ℤ iid) ≡ false
    → find_row other (update_row iid f rows) ≡ find_row other rows
find_row-update_other other iid f [] k h = refl
find_row-update_other other iid f (x ∷ rows) k h =
    ground (arith, k x, find_row-update_other other iid f rows k h)

cell_of-set_cell :
    (pid : ℤ) (c d : RankingCell) (problems : Problems)
    → cell_of pid problems ≡ some d
    → cell_of pid (set_cell pid c problems) ≡ some c
cell_of-set_cell pid c d [] h = cc
cell_of-set_cell pid c d ((p, x) ∷ problems) h = ground (arith, cell_of-set_cell pid c d problems)

save_cell-returns :
    (host : RankingHost) (cont : Contest) (iid pid : ℤ) (c : RankingCell) (problems : Problems)
    (t : Ranking)
    → IsAnswering host
    → (save_cell host cont iid pid c problems t).0 ≡ returns
unfolding save_cell
save_cell-returns host cont iid pid c problems t a = ground arith

ranking_update-table :
    (host : RankingHost) (cont : Contest) (subs : List Submission) (iid pid : ℤ) (rc : RankingCell)
    (t : Ranking) (row : RankingRow) (cell c : RankingCell)
    → IsAnswering host
    → host.contest ≡ ok cont
    → find_row iid t.rows ≡ some row
    → cell_of pid (scan_columns row.columns) ≡ some cell
    → choose_cell (maximum_score host iid pid subs) cont.start_time cell rc ≡ chosen c
    → let new = record c { penalty = penalty_of cont iid pid c subs } in
      ((ranking_update host subs iid pid rc t).0 ≡ none)
      × ((ranking_update host subs iid pid rc t).1 ≡ record t {
        rows =
            update_row iid
              (totalled_row cont pid new (set_cell pid new (scan_columns row.columns)))
              t.rows;
      })
unfolding ranking_update begin_dm ranking_update_body ranking_get_row update_chosen
ranking_update-table host cont subs iid pid rc t row cell c a h f k q =
    let new = record c { penalty = penalty_of cont iid pid c subs } in
    let problems = set_cell pid new (scan_columns row.columns) in
    let done = save_cell-returns host cont iid pid new problems t a in
    ground (arith, done, save_cell-written host cont iid pid new problems t done)

-- An update that goes through puts the chosen cell, with the penalty counted in the table of
-- submissions, into the row of its user, gives the row the total score of its cells, and leaves the
-- rows of all other users alone.
pub ranking_update-shown :
    (host : RankingHost) (cont : Contest) (subs : List Submission) (iid pid : ℤ) (rc : RankingCell)
    (t : Ranking) (row : RankingRow) (cell c : RankingCell)
    → IsAnswering host
    → host.contest ≡ ok cont
    → rc.valid ≡ true
    → find_row iid t.rows ≡ some row
    → cell_of pid (scan_columns row.columns) ≡ some cell
    → choose_cell (maximum_score host iid pid subs) cont.start_time cell rc ≡ chosen c
    → ((ranking_update host subs iid pid rc t).0 ≡ none)
      × ((row' : RankingRow) × (find_row iid (ranking_update host subs iid pid rc t).1.rows
            ≡ some row')
          × (cell_of pid (scan_columns row'.columns)
              ≡ some (record c { penalty = penalty_of cont iid pid c subs }))
          × (row'.score ≡ general_score cont.ctype (scan_columns row'.columns)))
      × ((other : ℤ)
          → (other ==ℤ iid) ≡ false
          → find_row other (ranking_update host subs iid pid rc t).1.rows ≡ find_row other t.rows)
unfolding general_of
ranking_update-shown host cont subs iid pid rc t row cell c a h v f k q =
    let new = record c { penalty = penalty_of cont iid pid c subs } in
    let put = totalled_row cont pid new (set_cell pid new (scan_columns row.columns)) in
    let w = ranking_update-table host cont subs iid pid rc t row cell c a h f k q in
    let valid = chosen-valid (maximum_score host iid pid subs) cont.start_time cell rc c v q in
    let columns = scan_columns-write_column pid new row.columns valid in
    (
      w.0,
      (
        put row,
        ap (λ u. find_row iid u.rows) w.1 ∙ find_row-update_row iid put t.rows row (λ r. refl) f,
        ap (cell_of pid) columns ∙ cell_of-set_cell pid new cell (scan_columns row.columns) k,
        ap (general_score cont.ctype) (sym columns),
      ),
      λ other n.
          ap (λ u. find_row other u.rows) w.1
          ∙ find_row-update_other other iid put t.rows (λ r. refl) n,
    )
