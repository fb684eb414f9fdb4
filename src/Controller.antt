-- ===== src/Controller.antt =====
-- ppjc/handlerv1.go and lib/database/submission.go: a new submission, the job that a polling judge
-- host gets, and the numbers of judges, the jids.
pub mod Protocol
pub mod Numbers
pub mod Unique
pub mod Results
pub mod Tests
use popcon_sc.Prelude.{
  ℕ, ◌≡◌, refl, Bool, true, false, Option, none, some, List, [], ◌∷◌, ◌++◌, if◌then◌else◌, ℤ, pos,
  ◌==ℤ◌, add64, Text,
}
use popcon_sc.Types.Submission.{in_queue}
use popcon_sc.Database.{
  DbError, record_not_found, unknown_submission, Result, ok, err, Ending, returns, fails, TxHost,
  begin_dm,
}
use popcon_sc.Database.Submissions.{Submission, Tables, first_submission, update_rows, file_name}

-- The row of a new submission.
abbrev pub new_submission : Option Text → (sid pid iid lang now : ℤ) → Submission
new_submission file sid pid iid lang now = record {
  sid = sid;
  pid = pid;
  iid = iid;
  jid = pos 0;
  used_jid = pos 0;
  lang = lang;
  time = pos 0;
  mem = pos 0;
  score = pos 0;
  submit_time = now;
  status = in_queue;
  message_file = [];
  code_file = file_name file;
}

-- `SubmissionAdd`, where MySQL gives the number `sid`: `file` is the name of the code's new file,
-- whose error is not looked at.
unfoldable pub submission_add :
    Option DbError → Option Text → (sid pid iid lang now : ℤ) → Tables → Result ℤ × Tables
submission_add error file sid pid iid lang now t = elim error [
  | some e ↦ (err e, t)
  | none ↦ (
    ok sid,
    record t { submissions = t.submissions ++ new_submission file sid pid iid lang now ∷ [] },
  )
]

-- What MySQL answers while a job is made.
pub record TakeHost : Type 0 where
  pub tx : TxHost
  pub find_error : Option DbError
  pub problem_error : Option DbError
  pub cases_error : Option DbError
  pub used_error : Option DbError

-- The row as `SubmissionUsedJidPlusOne` writes it.
abbrev pub use_jid : Submission → Submission
use_jid s = record s { used_jid = add64 s.used_jid (pos 1) }

-- The function that the polling gives to `BeginDM`: the second component is the submission of `info`,
-- whose jid is the number of the new judge.
unfoldable pub take_job_body :
    TakeHost → ℤ → Tables → Option Submission → Ending × Tables × Option Submission
take_job_body host sid t info = elim (first_submission host.find_error sid t) [
  | err e ↦ elim e [
    | record_not_found ↦ (fails unknown_submission, t, info)
    | other ↦ (fails other, t, info)
  ]
  | ok sm ↦
      let job = record sm { jid = add64 sm.used_jid (pos 1) } in
      elim host.problem_error [
        | some e ↦ (fails e, t, some job)
        | none ↦ elim host.cases_error [
          | some e ↦ (fails e, t, some job)
          | none ↦ elim host.used_error [
            | some e ↦ (fails e, t, some job)
            | none ↦ (
              returns,
              record t { submissions = update_rows sid use_jid t.submissions },
              some job,
            )
          ]
        ]
      ]
]

-- The job that is written to the host, where the transaction goes through.
unfoldable pub take_job : TakeHost → ℤ → Tables → Option Submission × Tables
take_job host sid t =
    let r = begin_dm false host.tx (take_job_body host sid) t none in
    (elim r.0 [ some e ↦ none | none ↦ r.2 ], r.1)
