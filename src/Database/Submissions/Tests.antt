-- ===== src/Database/Submissions/Tests.antt =====
-- lib/database/submission.go on a submission with two judges.
use popcon_sc.Prelude.{◌≡◌, ◌≢◌, refl, true, none, some, List, [], ◌∷◌, pos, text, arith, All}
use popcon_sc.Types.Submission.{in_queue, accepted}
use popcon_sc.Database.{sql_error, begin_dm}
use popcon_sc.Database.Submissions.{
  Submission, SubmissionTestCase, Tables, Outside, UpdateHost, JudgeResult,
  submission_update_test_case, submission_update_result, update_result_body, first_submission,
  clear_older, save_result,
}
use popcon_sc.Database.Submissions.View.{
  Message, case_message, result_message, deliver, view, IsWorking,
}
use popcon_sc.Database.Submissions.Newest.{deliver_all, deliver_all-newest}
use popcon_sc.Database.Submissions.Errors.{deliver_stale, update_test_case_dangles}

abbrev queued : Submission
queued = record {
  sid = pos 7;
  pid = pos 1;
  iid = pos 2;
  jid = pos 1;
  used_jid = pos 3;
  lang = pos 1;
  time = pos 0;
  mem = pos 0;
  score = pos 0;
  submit_time = pos 100;
  status = in_queue;
  message_file = text "m1";
  code_file = text "c1";
}

abbrev tables : Tables
tables = record { submissions = queued ∷ []; cases = [] }

abbrev nothing_outside : Outside
nothing_outside = record { progress = λ i. none; removed = [] }

abbrev working : UpdateHost
working = record {
  tx = record { begins = none; commits = none };
  find_error = none;
  clear_error = none;
  append_error = none;
  save_error = none;
  redis_works = true;
  remove_works = true;
  new_file = some (text "m2");
}

abbrev first_case : SubmissionTestCase
first_case = record {
  sid = none;
  status = accepted;
  case_id = pos 0;
  name = text "a";
  time = pos 5;
  mem = pos 2;
}

abbrev result : JudgeResult
result = record { status = accepted; score = pos 100; time = pos 5; mem = pos 2 }

-- The judge 3 overtakes the judge 2.
abbrev messages : List (UpdateHost × Message)
messages =
    (working, case_message (pos 7) (pos 2) (text "1/2") first_case)
    ∷ (working, case_message (pos 7) (pos 3) (text "1/2") first_case)
    ∷ (working, result_message (pos 7) (pos 2) result)
    ∷ (working, result_message (pos 7) (pos 3) result)
    ∷ []

messages-IsWorking : All (λ hm. IsWorking hm.0) messages
messages-IsWorking = ground arith

deliver_all-newest_example :
    view (pos 7) (deliver_all messages tables nothing_outside).0
    ≡ some (pos 3, record first_case { sid = some (pos 7) } ∷ [])
deliver_all-newest_example =
    deliver_all-newest messages tables nothing_outside (pos 7) (pos 1) [] messages-IsWorking refl

deliver_stale_example :
    ((deliver working (result_message (pos 7) (pos 0) result) tables nothing_outside).1 ≡ tables)
    × ((deliver working (result_message (pos 7) (pos 0) result) tables nothing_outside).2
        ≡ nothing_outside)
deliver_stale_example =
    deliver_stale working (result_message (pos 7) (pos 0) result) tables nothing_outside queued refl
      refl

abbrev not_saving : UpdateHost
not_saving = record working { save_error = some sql_error }

update_test_case_dangles_example :
    ((submission_update_test_case not_saving
        (pos 7)
        (pos 1)
        (text "1/2")
        first_case
        tables
        nothing_outside).0
      ≡ some sql_error)
    × ((submission_update_test_case not_saving
          (pos 7)
          (pos 1)
          (text "1/2")
          first_case
          tables
          nothing_outside).1
        ≡ tables)
    × ((submission_update_test_case not_saving
          (pos 7)
          (pos 1)
          (text "1/2")
          first_case
          tables
          nothing_outside).2.removed
        ≡ text "m1" ∷ [])
update_test_case_dangles_example =
    update_test_case_dangles not_saving (pos 7) (pos 1) (text "1/2") first_case tables
      nothing_outside queued _ _ sql_error (refl, refl, refl, refl, refl) refl refl refl refl

save_fails :
    (deliver not_saving (result_message (pos 7) (pos 1) result) tables nothing_outside).0 ≢ none
unfolding submission_update_result begin_dm update_result_body first_submission clear_older
    save_result
save_fails = ground arith
