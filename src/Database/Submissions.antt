-- ===== src/Database/Submissions.antt =====
-- lib/database/submission.go: the submissions of one contest, and what a judge reports on them.
-- The rows of "submissions_CID" and "submission_test_cases_CID" are lists; the messages of the judges
-- are delivered by ppjc/handlerv1.go.
pub mod View
pub mod Newest
pub mod Errors
pub mod Tests
use popcon_sc.Prelude.{
  ℕ, ◌≡◌, refl, Bool, true, false, not, ◌&&◌, Option, none, some, List, [], ◌∷◌, ◌++◌, map,
  if◌then◌else◌, ℤ, pos, ltb_ℤ, leb_ℤ, ◌==ℤ◌, Text, count_if, is_some, ◌==◌, ltb, leb, sub64, add64,
}
use popcon_sc.Types.Submission.{
  SubmissionStatusType, in_queue, judging, wrong_answer, runtime_error, compile_error, status_int,
}
use popcon_sc.Database.{
  DbError, record_not_found, Result, ok, err, Ending, returns, fails, TxHost, begin_dm,
}

-- A row of the table of submissions; the test cases have a table of their own.
pub record Submission : Type 0 where
  pub sid : ℤ
  pub pid : ℤ
  pub iid : ℤ
  pub jid : ℤ
  pub used_jid : ℤ
  pub lang : ℤ
  pub time : ℤ
  pub mem : ℤ
  pub score : ℤ
  pub submit_time : ℤ
  pub status : SubmissionStatusType
  pub message_file : Text
  pub code_file : Text

-- A row of the table of test cases: its sid may be NULL.
pub record SubmissionTestCase : Type 0 where
  pub sid : Option ℤ
  pub status : SubmissionStatusType
  pub case_id : ℤ
  pub name : Text
  pub time : ℤ
  pub mem : ℤ

pub record Tables : Type 0 where
  pub submissions : List Submission
  pub cases : List SubmissionTestCase

-- What no rollback undoes: the progress in Redis, and the message files that are to be removed.
pub record Outside : Type 0 where
  pub progress : ℤ → Option Text
  pub removed : List Text

abbrev pub find_sid : ℤ → List Submission → Option Submission
find_sid sid [] = none
find_sid sid (s ∷ rest) = let found = find_sid sid rest in if s.sid ==ℤ sid then some s else found

-- `Where("sid=?", sid).First(&sm)`, unless MySQL has an error.
unfoldable pub first_submission : Option DbError → ℤ → Tables → Result Submission
first_submission error sid t = elim error [
  | some e ↦ err e
  | none ↦ elim (find_sid sid t.submissions) [ none ↦ err record_not_found | some s ↦ ok s ]
]

-- `Where("sid=?", sid).Updates(…)`.
unfoldable pub update_rows : ℤ → (Submission → Submission) → List Submission → List Submission
update_rows sid f [] = []
update_rows sid f (s ∷ rest) = (if s.sid ==ℤ sid then f s else s) ∷ update_rows sid f rest

abbrev pub is_case_of : ℤ → SubmissionTestCase → Bool
is_case_of sid c = elim c.sid [ none ↦ false | some i ↦ i ==ℤ sid ]

-- `SubmissionClearCase`: gorm takes the sid out of the rows.
unfoldable pub clear_cases : ℤ → List SubmissionTestCase → List SubmissionTestCase
clear_cases sid [] = []
clear_cases sid (c ∷ rest) =
    (if is_case_of sid c then record c { sid = none } else c) ∷ clear_cases sid rest

-- `SubmissionAppendCase`.
unfoldable pub append_case :
    ℤ → SubmissionTestCase → List SubmissionTestCase → List SubmissionTestCase
append_case sid c cases = cases ++ record c { sid = some sid } ∷ []

-- `RemoveLater`, and the function that `FileSecureUpdateWithReader` returns: an empty name is no file.
unfoldable pub remove_later : Bool → Text → Outside → Outside
remove_later works [] o = o
remove_later works (c ∷ path) o = if works then record o { removed = (c ∷ path) ∷ o.removed } else o

unfoldable pub set_progress : Bool → ℤ → Option Text → Outside → Outside
set_progress works sid p o =
    if works then record o { progress = λ i. if i ==ℤ sid then p else o.progress i } else o

-- What MySQL, Redis, MongoDB and the file server answer while one message is handled.
pub record UpdateHost : Type 0 where
  pub tx : TxHost
  pub find_error : Option DbError
  pub clear_error : Option DbError
  pub append_error : Option DbError
  pub save_error : Option DbError
  pub redis_works : Bool
  pub remove_works : Bool
  -- the name of the new message file, where it can be written
  pub new_file : Option Text

-- `if sm.Jid < jid { SubmissionClearCase }`: the tables behind it, or an error.
unfoldable pub clear_older : UpdateHost → ℤ → ℤ → Submission → Tables → Result Tables
unfolding clear_cases
clear_older host sid jid sm t =
    if ltb_ℤ sm.jid jid
    then (elim host.clear_error [
      | some e ↦ err e
      | none ↦ ok (record t { cases = clear_cases sid t.cases })
    ])
    else ok t

pub record JudgeResult : Type 0 where
  pub status : SubmissionStatusType
  pub score : ℤ
  pub time : ℤ
  pub mem : ℤ

-- The name that `FileSecureUpdateWithReader` returns.
abbrev pub file_name : Option Text → Text
file_name none = []
file_name (some n) = n

-- The columns that `SubmissionUpdateResult` writes.
abbrev pub result_row : ℤ → JudgeResult → Text → Submission → Submission
result_row jid res name s = record s {
  jid = jid;
  status = res.status;
  score = res.score;
  message_file = name;
  time = res.time;
  mem = res.mem;
}

-- `SubmissionUpdateResult` from the new message file on.
unfoldable pub save_result :
    UpdateHost → ℤ → ℤ → JudgeResult → Submission → Tables → Outside → Ending × Tables × Outside
unfolding set_progress remove_later update_rows
save_result host sid jid res sm t o =
    let o' = set_progress host.redis_works sid none o in
    elim host.save_error [
      | some e ↦ (fails e, t, o')
      | none ↦ (
        returns,
        record t {
          submissions =
              update_rows sid (result_row jid res (file_name host.new_file)) t.submissions;
        },
        elim host.new_file [
          | none ↦ o'
          | some n ↦ remove_later host.remove_works sm.message_file o'
        ],
      )
    ]

-- The function that `SubmissionUpdateResult` gives to `BeginDM`.
unfoldable pub update_result_body :
    UpdateHost → ℤ → ℤ → JudgeResult → Tables → Outside → Ending × Tables × Outside
unfolding clear_older save_result
update_result_body host sid jid res t o = elim (first_submission host.find_error sid t) [
  | err e ↦ (fails e, t, o)
  | ok sm ↦ if ltb_ℤ jid sm.jid then (returns, t, o) else (elim (clear_older host sid jid sm t) [
    | err e ↦ (fails e, t, o)
    | ok t' ↦ save_result host sid jid res sm t' o
  ])
]

-- `SubmissionUpdateResult`.
unfoldable pub submission_update_result :
    UpdateHost → ℤ → ℤ → JudgeResult → Tables → Outside → Option DbError × Tables × Outside
submission_update_result host sid jid res t o =
    begin_dm false host.tx (update_result_body host sid jid res) t o

-- The columns that `SubmissionUpdateTestCase` writes.
abbrev pub judging_row : ℤ → Submission → Submission
judging_row jid s = record s {
  jid = jid;
  status = judging;
  score = pos 0;
  mem = pos 0;
  time = pos 0;
  message_file = [];
}

abbrev pub is_judging : SubmissionStatusType → Bool
is_judging judging = true
is_judging _ = false

-- `SubmissionUpdateTestCase` from `SubmissionAppendCase` on.
unfoldable pub save_case :
    UpdateHost
    → ℤ
    → ℤ
    → Text
    → SubmissionTestCase
    → Submission
    → Tables
    → Outside
    → Ending × Tables × Outside
unfolding set_progress remove_later update_rows append_case
save_case host sid jid status res sm t o =
    let o' =
      remove_later host.remove_works sm.message_file
        (set_progress host.redis_works sid (some status) o) in
    elim (if is_judging res.status then none else host.append_error) [
      | some e ↦ (fails e, t, o)
      | none ↦
          let cases = if is_judging res.status then t.cases else append_case sid res t.cases in
          elim host.save_error [
            | some e ↦ (fails e, record t { cases = cases }, o')
            | none ↦ (
              returns,
              record {
                cases = cases;
                submissions = update_rows sid (judging_row jid) t.submissions;
              },
              o',
            )
          ]
    ]

-- The function that `SubmissionUpdateTestCase` gives to `BeginDM`.
unfoldable pub update_test_case_body :
    UpdateHost → ℤ → ℤ → Text → SubmissionTestCase → Tables → Outside → Ending × Tables × Outside
update_test_case_body host sid jid status res t o = elim (first_submission host.find_error sid t) [
  | err e ↦ (fails e, t, o)
  | ok sm ↦ if ltb_ℤ jid sm.jid then (returns, t, o) else (elim (clear_older host sid jid sm t) [
    | err e ↦ (fails e, t, o)
    | ok t' ↦ save_case host sid jid status res sm t' o
  ])
]

-- `SubmissionUpdateTestCase`, without the deletion of rows of no submission that it does now and then.
unfoldable pub submission_update_test_case :
    UpdateHost
    → ℤ
    → ℤ
    → Text
    → SubmissionTestCase
    → Tables
    → Outside
    → Option DbError × Tables × Outside
submission_update_test_case host sid jid status res t o =
    begin_dm false host.tx (update_test_case_body host sid jid status res) t o

-- `SubmissionCountForPenalty`: the rows of a user and a problem with a wrong result, up to `sid`.
unfoldable pub submission_count_for_penalty : ℤ → ℤ → ℤ → Bool → List Submission → ℕ
submission_count_for_penalty iid pid sid ce_contained rows =
    count_if
      (λ s.
        (s.iid ==ℤ iid)
        && ((s.pid ==ℤ pid)
            && (leb (status_int wrong_answer) (status_int s.status)
                && (leb (status_int s.status)
                      (if ce_contained then status_int compile_error else status_int runtime_error)
                    && leb_ℤ s.sid sid))))
      rows

-- `ORDER BY score DESC, sid ASC`: whether a row stands in front of another.
abbrev pub is_in_front : Submission → Submission → Bool
is_in_front a b =
    if ltb_ℤ b.score a.score then true else ((a.score ==ℤ b.score) && ltb_ℤ a.sid b.sid)

-- `SubmissionMaximumScore`: the first row of a user and a problem in that order.
unfoldable pub submission_maximum_score : ℤ → ℤ → List Submission → Option Submission
submission_maximum_score iid pid [] = none
submission_maximum_score iid pid (s ∷ rows) =
    let best = submission_maximum_score iid pid rows in
    if (s.iid ==ℤ iid) && (s.pid ==ℤ pid)
    then (elim best [ none ↦ some s | some b ↦ if is_in_front b s then some b else some s ])
    else best
