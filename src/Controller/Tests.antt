-- ===== src/Controller/Tests.antt =====
-- ppjc/handlerv1.go on one submission that is judged twice.
use popcon_sc.Prelude.{
  ◌≡◌, ◌≢◌, ◌⊎◌, ◌≤◌, ◌≤ℤ◌, refl, true, none, some, [], ◌∷◌, ℤ, pos, text, arith, add64, wrap64,
  ◌+ℤ◌,
}
use popcon_sc.Types.Submission.{accepted}
use popcon_sc.Types.Contest.{icpc, RankingCell}
use popcon_sc.Database.{TxHost, ok, err, begin_dm, sql_error}
use popcon_sc.Database.Submissions.{
  Submission, Tables, Outside, JudgeResult, find_sid, first_submission, submission_update_result,
  update_result_body,
}
use popcon_sc.Database.Ranking.{Contest, RankingRow, Ranking, scan_columns, find_row, cell_of}
use popcon_sc.Types.Contest.{scan_cell}
use popcon_sc.Controller.{TakeHost, submission_add, take_job, take_job_body}
use popcon_sc.Controller.Protocol.{World, submit, take, Run, here, next, start, times_given}
use popcon_sc.Controller.Unique.{numbers_unique}
use popcon_sc.Controller.Results.{
  ResultHost, status_ok, update_result_handler, stale_result_ranked, update_result_handler-failed,
  rank_result, internal_server_error,
}

abbrev fine : TxHost
fine = record { begins = none; commits = none }

abbrev taking : TakeHost
taking = record {
  tx = fine;
  find_error = none;
  problem_error = none;
  cases_error = none;
  used_error = none;
}

abbrev submitted : World
submitted = record start {
  tables =
      (submission_add none (some (text "c")) (pos 7) (pos 1) (pos 2) (pos 1) (pos 100)
        start.tables).1;
}

abbrev taken : World
taken = record submitted {
  tables = (take_job taking (pos 7) submitted.tables).1;
  jobs = (pos 7, pos 1) ∷ [];
}

taken-Run : Run start 2 taken
unfolding submission_add take_job begin_dm take_job_body first_submission add64 wrap64 ◌+ℤ◌
taken-Run =
    next
      (next here
        (submit start none (some (text "c")) (pos 7) (pos 1) (pos 2) (pos 1) (pos 100) refl))
      (take submitted taking (pos 7))

numbers_unique_example :
    ((sid jid : ℤ) → times_given sid jid taken.jobs ≤ 1)
    × ((sid : ℤ) (s : Submission)
        → find_sid sid taken.tables.submissions ≡ some s
        → (pos 0 ≤ℤ s.jid) × (s.jid ≤ℤ s.used_jid))
numbers_unique_example = numbers_unique 2 taken (omega arith) taken-Run

-- Judge 2 has given the submission 8 no points, and judge 1 comes behind it with 100.
abbrev row_8 : Submission
row_8 = record {
  sid = pos 8;
  pid = pos 1;
  iid = pos 2;
  jid = pos 2;
  used_jid = pos 2;
  lang = pos 1;
  time = pos 0;
  mem = pos 0;
  score = pos 0;
  submit_time = pos 100;
  status = accepted;
  message_file = [];
  code_file = text "c";
}

abbrev tables : Tables
tables = record { submissions = row_8 ∷ []; cases = [] }

abbrev outside : Outside
outside = record { progress = λ i. none; removed = [] }

abbrev cont : Contest
cont = record { ctype = icpc; start_time = pos 0; finish_time = pos 1000; penalty = pos 300 }

abbrev shown_cell : RankingCell
shown_cell = record {
  valid = true;
  sid = pos 7;
  jid = pos 1;
  time = pos 50;
  score = pos 50;
  penalty = pos 0;
}

abbrev row : RankingRow
row = record {
  iid = pos 2;
  columns = (pos 1, some shown_cell) ∷ [];
  general = shown_cell;
  score = pos 50;
  value1 = pos 0;
  value2 = pos 0;
}

abbrev ranking : Ranking
ranking = record { pids = pos 1 ∷ []; rows = row ∷ [] }

abbrev host : ResultHost
host = record {
  parses = true;
  update = record {
    tx = fine;
    find_error = none;
    clear_error = none;
    append_error = none;
    save_error = none;
    redis_works = true;
    remove_works = true;
    new_file = none;
  };
  contest = ok cont;
  find_error = none;
  ranking = record {
    contest = ok cont;
    tx = fine;
    row_error = none;
    maximum_error = none;
    count_error = none;
    cell_error = none;
    general_error = none;
  };
}

abbrev stale_result : JudgeResult
stale_result = record { status = accepted; score = pos 100; time = pos 5; mem = pos 2 }

stale_result_ranked_example :
    ((update_result_handler host (pos 8) (pos 1) stale_result tables outside ranking).0 ≡ status_ok)
    × ((update_result_handler host (pos 8) (pos 1) stale_result tables outside ranking).1 ≡ tables)
    × ((row' : RankingRow) × (c : RankingCell) × (find_row
            (pos 2)
            (update_result_handler host (pos 8) (pos 1) stale_result tables outside ranking).3.rows
          ≡ some row')
        × (cell_of (pos 1) (scan_columns row'.columns) ≡ some c)
        × (c.sid ≡ pos 8)
        × (c.jid ≡ pos 1)
        × (c.score ≡ pos 100))
unfolding scan_columns scan_cell
stale_result_ranked_example =
    stale_result_ranked host cont (pos 8) (pos 1) stale_result tables outside ranking row_8 row
      shown_cell (refl, refl, refl) (refl, refl, refl) (refl, refl, refl, refl, refl, refl) refl
      refl refl refl refl refl (refl, refl, refl)

abbrev failing : ResultHost
failing = record host { contest = err sql_error }

failing_status :
    (update_result_handler failing (pos 8) (pos 1) stale_result tables outside ranking).0
    ≢ status_ok
unfolding update_result_handler rank_result submission_update_result begin_dm update_result_body
    first_submission
failing_status = ground arith

update_result_handler-failed_example :
    ((update_result_handler failing (pos 8) (pos 1) stale_result tables outside ranking).3
      ≡ ranking)
    × (((update_result_handler failing (pos 8) (pos 1) stale_result tables outside ranking).1
          ≡ tables)
        ⊎ ((submission_update_result failing.update (pos 8) (pos 1) stale_result tables outside).0
            ≡ none)
          × ((update_result_handler failing (pos 8) (pos 1) stale_result tables outside ranking).0
              ≡ internal_server_error))
update_result_handler-failed_example =
    update_result_handler-failed failing (pos 8) (pos 1) stale_result tables outside ranking
      failing_status
