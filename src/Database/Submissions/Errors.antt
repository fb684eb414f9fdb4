-- ===== src/Database/Submissions/Errors.antt =====
-- lib/database/submission.go: messages of judges that are too old, and messages that fail half-way.
use popcon_sc.Prelude.{
  ℕ, ◌≡◌, ◌≢◌, true, false, none, some, ◌∷◌, ℤ, ltb_ℤ, Text, arith, inl, inr, refl, Bool-cases,
}
use popcon_sc.Database.{DbError, ok, fails, begin_dm, begin_dm-cases}
use popcon_sc.Database.Submissions.{
  Submission, SubmissionTestCase, Tables, Outside, find_sid, first_submission, UpdateHost,
  clear_cases, clear_older, update_result_body, submission_update_result, save_case,
  update_test_case_body, submission_update_test_case, remove_later, set_progress,
}
use popcon_sc.Database.Submissions.View.{
  Message, case_message, result_message, message_sid, message_jid, deliver,
}

-- A message of an older judge than the one that the submission shows changes nothing, neither in the
-- tables nor in Redis nor in the files, whatever fails meanwhile.
pub deliver_stale :
    (host : UpdateHost) (m : Message) (t : Tables) (o : Outside) (s : Submission)
    → find_sid (message_sid m) t.submissions ≡ some s
    → ltb_ℤ (message_jid m) s.jid ≡ true
    → ((deliver host m t o).1 ≡ t) × ((deliver host m t o).2 ≡ o)
unfolding submission_update_test_case begin_dm update_test_case_body first_submission
    submission_update_result update_result_body
deliver_stale host (case_message sid jid status c) t o s h e = ground arith
deliver_stale host (result_message sid jid r) t o s h e = ground arith

-- A message whose handling ends in an error leaves the tables as they were.
pub deliver_failed :
    (host : UpdateHost) (m : Message) (t : Tables) (o : Outside)
    → (deliver host m t o).0 ≢ none
    → (deliver host m t o).1 ≡ t
unfolding submission_update_test_case submission_update_result
deliver_failed host (case_message sid jid status c) t o h =
    elim (begin_dm-cases false host.tx (update_test_case_body host sid jid status c) t o) [
      | inl good ↦ absurd (h good.0)
      | inr bad ↦ bad.1
    ]
deliver_failed host (result_message sid jid r) t o h =
    elim (begin_dm-cases false host.tx (update_result_body host sid jid r) t o) [
      | inl good ↦ absurd (h good.0)
      | inr bad ↦ bad.1
    ]

-- The last statement of a message fails, behind the removal of the old message file.
save_case_dangles :
    (host : UpdateHost) (sid jid : ℤ) (status : Text) (c : SubmissionTestCase) (sm : Submission)
    (t : Tables) (o : Outside) (b : ℕ) (path : Text) (e : DbError)
    → (host.append_error ≡ none) × (host.remove_works ≡ true)
    → host.save_error ≡ some e
    → sm.message_file ≡ b ∷ path
    → ((save_case host sid jid status c sm t o).0 ≡ fails e)
      × ((save_case host sid jid status c sm t o).2.removed ≡ (b ∷ path) ∷ o.removed)
unfolding save_case set_progress remove_later
save_case_dangles host sid jid status c sm t o b path e w f m = ground arith

clear_older_works :
    (host : UpdateHost) (sid jid : ℤ) (sm : Submission) (t : Tables)
    → host.clear_error ≡ none
    → (t' : Tables) × (clear_older host sid jid sm t ≡ ok t')
unfolding clear_older
clear_older_works host sid jid sm t w = elim (Bool-cases (ltb_ℤ sm.jid jid)) [
  | inl h ↦ (record t { cases = clear_cases sid t.cases }, rw (h, w) refl)
  | inr h ↦ (t, rw h refl)
]

body_dangles :
    (host : UpdateHost) (sid jid : ℤ) (status : Text) (c : SubmissionTestCase) (t : Tables)
    (o : Outside) (s : Submission) (b : ℕ) (path : Text) (e : DbError)
    → (host.find_error ≡ none)
      × (host.clear_error ≡ none)
      × (host.append_error ≡ none)
      × (host.remove_works ≡ true)
    → host.save_error ≡ some e
    → find_sid sid t.submissions ≡ some s
    → ltb_ℤ jid s.jid ≡ false
    → s.message_file ≡ b ∷ path
    → ((update_test_case_body host sid jid status c t o).0 ≡ fails e)
      × ((update_test_case_body host sid jid status c t o).2.removed ≡ (b ∷ path) ∷ o.removed)
unfolding update_test_case_body first_submission
body_dangles host sid jid status c t o s b path e w f h n m =
    let (t', cleared) = clear_older_works host sid jid s t w.1 in
    ground (arith, cleared, save_case_dangles host sid jid status c s t' o b path e (w.2, w.3) f m)

-- The bug: `SubmissionUpdateTestCase` gives the old message file up before its last statement. Where
-- this statement fails, the rollback keeps the row, which still names the file, and the file is on
-- its way to be removed.
pub update_test_case_dangles :
    (host : UpdateHost) (sid jid : ℤ) (status : Text) (c : SubmissionTestCase) (t : Tables)
    (o : Outside) (s : Submission) (b : ℕ) (path : Text) (e : DbError)
    → (host.tx.begins ≡ none)
      × (host.find_error ≡ none)
      × (host.clear_error ≡ none)
      × (host.append_error ≡ none)
      × (host.remove_works ≡ true)
    → host.save_error ≡ some e
    → find_sid sid t.submissions ≡ some s
    → ltb_ℤ jid s.jid ≡ false
    → s.message_file ≡ b ∷ path
    → ((submission_update_test_case host sid jid status c t o).0 ≡ some e)
      × ((submission_update_test_case host sid jid status c t o).1 ≡ t)
      × ((submission_update_test_case host sid jid status c t o).2.removed ≡ (b ∷ path) ∷ o.removed)
unfolding submission_update_test_case begin_dm
update_test_case_dangles host sid jid status c t o s b path e w f h n m =
    ground (arith, body_dangles host sid jid status c t o s b path e (w.1, w.2, w.3, w.4) f h n m)
