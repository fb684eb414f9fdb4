-- ===== src/Database/Ranking/Tests.antt =====
-- lib/database/database.go and lib/database/contest_ranking.go on a small contest.
use popcon_sc.Prelude.{
  ◌↔◌, ℕ, ◌≡◌, ◌≢◌, refl, inl, inr, true, false, none, some, List, [], ◌∷◌, ℤ, pos, text, arith,
  ◌<ℤ◌, ◌==ℤ◌, All,
}
use popcon_sc.Types.Submission.{accepted}
use popcon_sc.Types.Contest.{icpc, RankingCell, zero_cell, general_score, scan_cell}
use popcon_sc.Database.{
  sql_error, Result, ok, err, Ending, returns, panics, panicked, TxHost, begin_dm, begin_dm_atomic,
  record_not_found,
}
use popcon_sc.Database.Submissions.{Submission, submission_maximum_score}
use popcon_sc.Database.Ranking.{
  Contest, RankingRow, Ranking, ranking_auto_migrate, scan_columns, find_row, cell_of, RankingHost,
  ranking_update, penalty_of, choose_cell,
}
use popcon_sc.Database.Ranking.Best.{shown, NotWorse, Among, next_cell, rejudge_mixes, shown_best}
use popcon_sc.Database.Ranking.Columns.{IsTotalledRanking}
use popcon_sc.Database.Ranking.Totals.{
  Operation, user_add, problem_add, update, perform_all, perform_all-IsTotalledRanking,
}
use popcon_sc.Database.Ranking.Shown.{ranking_update-shown}

abbrev fine : TxHost
fine = record { begins = none; commits = none }

-- A body that writes and then panics.
abbrev panicking : ℕ → ℕ → Ending × ℕ × ℕ
panicking t o = (panics panicked, 5, 6)

begin_dm_atomic_example :
    (((begin_dm false fine panicking 1 2).0 ≡ none) ↔ (
      (false ≡ false)
      × (fine.begins ≡ none)
      × (fine.commits ≡ none)
      × ((panicking 1 2).0 ≡ returns)))
    × ((begin_dm false fine panicking 1 2).0 ≡ none → (begin_dm false fine panicking 1 2).1 ≡ 5)
    × ((begin_dm false fine panicking 1 2).0 ≢ none → (begin_dm false fine panicking 1 2).1 ≡ 1)
begin_dm_atomic_example = begin_dm_atomic false fine panicking 1 2

abbrev cell : ℤ → ℤ → RankingCell
cell sid score = record {
  valid = true;
  sid = sid;
  jid = pos 1;
  time = pos 60;
  score = score;
  penalty = pos 0;
}

abbrev results : List (Result Submission × RankingCell)
results =
    (err record_not_found, cell (pos 4) (pos 50))
    ∷ (err record_not_found, cell (pos 6) (pos 100))
    ∷ (err record_not_found, cell (pos 5) (pos 100))
    ∷ []

abbrev other_order : List (Result Submission × RankingCell)
other_order =
    (err record_not_found, cell (pos 5) (pos 100))
    ∷ (err record_not_found, cell (pos 4) (pos 50))
    ∷ (err record_not_found, cell (pos 6) (pos 100))
    ∷ []

shown_best_example :
    (shown (pos 0) results zero_cell ≡ shown (pos 0) other_order zero_cell)
    × Among (shown (pos 0) results zero_cell) results
    × All (λ r. NotWorse (shown (pos 0) results zero_cell) r.1) results
shown_best_example =
    shown_best (pos 0) results other_order
      (refl, (refl, (refl, tt)), (refl, (refl, tt), (refl, tt, tt)))
      (refl, (refl, (refl, tt)), (refl, (refl, tt), (refl, tt, tt))) (λ e. ground arith)
      (λ c h. elim h [
        | inl a ↦ inr (inl a)
        | inr (inl b) ↦ inr (inr (inl b))
        | inr (inr (inl d)) ↦ inl d
        | inr (inr (inr x)) ↦ absurd x
      ])
      (λ c h. elim h [
        | inl a ↦ inr (inr (inl a))
        | inr (inl b) ↦ inl b
        | inr (inr (inl d)) ↦ inr (inl d)
        | inr (inr (inr x)) ↦ absurd x
      ])

abbrev submission : ℤ → ℤ → Submission
submission sid score = record {
  sid = sid;
  pid = pos 1;
  iid = pos 2;
  jid = pos 1;
  used_jid = pos 1;
  lang = pos 1;
  time = pos 0;
  mem = pos 0;
  score = score;
  submit_time = pos 100;
  status = accepted;
  message_file = [];
  code_file = text "c";
}

abbrev submissions : List Submission
submissions = submission (pos 4) (pos 10) ∷ submission (pos 5) (pos 50) ∷ []

-- The submission 4 had 100 points and has 10 now; the submission 5 has 50.
abbrev rejudged_cell : RankingCell
rejudged_cell = record (cell (pos 4) (pos 10)) { jid = pos 2 }

rejudge_mixes_example :
    ((next_cell
        (ok (submission (pos 5) (pos 50)))
        (pos 0)
        (cell (pos 4) (pos 100))
        rejudged_cell).sid
      ≡ pos 5)
    × ((next_cell
          (ok (submission (pos 5) (pos 50)))
          (pos 0)
          (cell (pos 4) (pos 100))
          rejudged_cell).score
        <ℤ pos 50)
unfolding submission_maximum_score
rejudge_mixes_example =
    rejudge_mixes (pos 0) (pos 2) (pos 1) submissions (cell (pos 4) (pos 100)) rejudged_cell
      (submission (pos 5) (pos 50)) (submission (pos 5) (pos 50)) 1 refl refl refl refl refl refl
      refl refl (omega arith)

abbrev cont : Contest
cont = record { ctype = icpc; start_time = pos 0; finish_time = pos 1000; penalty = pos 300 }

abbrev host : RankingHost
host = record {
  contest = ok cont;
  tx = fine;
  row_error = none;
  maximum_error = none;
  count_error = none;
  cell_error = none;
  general_error = none;
}

abbrev operations : List (Operation cont)
operations =
    user_add none (pos 2)
    ∷ problem_add none (pos 1)
    ∷ update host refl submissions (pos 2) (pos 1) (cell (pos 5) (pos 50)) refl
    ∷ problem_add (some sql_error) (pos 3)
    ∷ []

perform_all-IsTotalledRanking_example :
    IsTotalledRanking icpc (pos 300) (perform_all operations ranking_auto_migrate)
perform_all-IsTotalledRanking_example = perform_all-IsTotalledRanking cont operations

abbrev row : RankingRow
row = record {
  iid = pos 2;
  columns = (pos 1, none) ∷ [];
  general = zero_cell;
  score = pos 0;
  value1 = pos 0;
  value2 = pos 0;
}

abbrev ranking : Ranking
ranking = record { pids = pos 1 ∷ []; rows = row ∷ [] }

ranking_update-shown_example :
    ((ranking_update host submissions (pos 2) (pos 1) (cell (pos 5) (pos 50)) ranking).0 ≡ none)
    × ((row' : RankingRow) × (find_row
            (pos 2)
            (ranking_update host submissions (pos 2) (pos 1) (cell (pos 5) (pos 50)) ranking).1.rows
          ≡ some row')
        × (cell_of (pos 1) (scan_columns row'.columns)
            ≡ some (record (cell (pos 5) (pos 50)) {
              penalty = penalty_of cont (pos 2) (pos 1) (cell (pos 5) (pos 50)) submissions;
            }))
        × (row'.score ≡ general_score icpc (scan_columns row'.columns)))
    × ((other : ℤ)
        → (other ==ℤ pos 2) ≡ false
        → find_row other
            (ranking_update host submissions (pos 2) (pos 1) (cell (pos 5) (pos 50)) ranking).1.rows
          ≡ find_row other ranking.rows)
unfolding scan_columns choose_cell scan_cell
ranking_update-shown_example =
    ranking_update-shown host cont submissions (pos 2) (pos 1) (cell (pos 5) (pos 50)) ranking row
      zero_cell (cell (pos 5) (pos 50)) (refl, refl, refl, refl, refl, refl) refl refl refl refl
      refl
