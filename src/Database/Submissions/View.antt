-- ===== src/Database/Submissions/View.antt =====
-- lib/database/submission.go and ppjc/handlerv1.go: what one message of a judge does to what a
-- submission shows.
use popcon_sc.Prelude.{
  keep_if, ◌≡◌, refl, sym, ap, ◌∙◌, false, Option, none, some, List, [], ◌∷◌, ◌++◌, if◌then◌else◌,
  ℤ, ltb_ℤ, ◌==ℤ◌, Text, arith, Bool-cases, Option-cases, eq_of_parts, subst, inl, inr,
}
use mathlib.Core.List.{append-nil}
use popcon_sc.Database.{DbError, begin_dm}
use popcon_sc.Database.Submissions.{
  Submission, SubmissionTestCase, Tables, Outside, find_sid, first_submission, update_rows,
  is_case_of, clear_cases, append_case, UpdateHost, clear_older, JudgeResult, save_result,
  update_result_body, submission_update_result, is_judging, save_case, update_test_case_body,
  submission_update_test_case, judging_row, result_row, file_name,
}

-- A message of the judge number jid of the submission sid.
pub data Message : Type 0 where
  case_message : (sid jid : ℤ) (status : Text) → SubmissionTestCase → Message
  result_message : (sid jid : ℤ) → JudgeResult → Message

abbrev pub message_sid : Message → ℤ
message_sid (case_message sid jid status c) = sid
message_sid (result_message sid jid r) = sid

abbrev pub message_jid : Message → ℤ
message_jid (case_message sid jid status c) = jid
message_jid (result_message sid jid r) = jid

-- The handlers "/judge/submissions/updateCase" and "updateResult" on the tables of submissions.
abbrev pub deliver : UpdateHost → Message → Tables → Outside → Option DbError × Tables × Outside
deliver host (case_message sid jid status c) t o =
    submission_update_test_case host sid jid status c t o
deliver host (result_message sid jid r) t o = submission_update_result host sid jid r t o

abbrev pub cases_of : ℤ → List SubmissionTestCase → List SubmissionTestCase
cases_of sid = keep_if (is_case_of sid)

-- The judge that a submission shows, and its test cases.
abbrev pub view : ℤ → Tables → Option (ℤ × List SubmissionTestCase)
view sid t = elim (find_sid sid t.submissions) [
  | none ↦ none
  | some s ↦ some (s.jid, cases_of sid t.cases)
]

-- The test case that a message adds.
abbrev pub added : Message → List SubmissionTestCase
added (case_message sid jid status c) =
    if is_judging c.status then [] else record c { sid = some sid } ∷ []
added (result_message sid jid r) = []

-- Nothing fails in the database. Redis and the files may fail.
abbrev pub IsWorking : UpdateHost → Type 0
IsWorking host =
    (host.tx.begins ≡ none)
    × (host.tx.commits ≡ none)
    × (host.find_error ≡ none)
    × (host.clear_error ≡ none)
    × (host.append_error ≡ none)
    × (host.save_error ≡ none)

pub find_sid-update_rows :
    (sid : ℤ) (f : Submission → Submission) (rows : List Submission) (s : Submission)
    → ((r : Submission) → (f r).sid ≡ r.sid)
    → find_sid sid rows ≡ some s
    → find_sid sid (update_rows sid f rows) ≡ some (f s)
unfolding update_rows
find_sid-update_rows sid f [] s k h = cc
find_sid-update_rows sid f (r ∷ rows) s k h =
    ground (arith, k r, find_sid-update_rows sid f rows s k)

pub find_sid-update_other :
    (sid other : ℤ) (f : Submission → Submission) (rows : List Submission)
    → ((r : Submission) → (f r).sid ≡ r.sid)
    → (other ==ℤ sid) ≡ false
    → find_sid sid (update_rows other f rows) ≡ find_sid sid rows
unfolding update_rows
find_sid-update_other sid other f [] k h = refl
find_sid-update_other sid other f (r ∷ rows) k h =
    ground (arith, k r, find_sid-update_other sid other f rows k h)

cases_of-clear_cases :
    (sid : ℤ) (cases : List SubmissionTestCase) → cases_of sid (clear_cases sid cases) ≡ []
unfolding clear_cases
cases_of-clear_cases sid [] = refl
cases_of-clear_cases sid (c ∷ cases) = ground (arith, cases_of-clear_cases sid cases)

cases_of-clear_other :
    (sid other : ℤ) (cases : List SubmissionTestCase)
    → (other ==ℤ sid) ≡ false
    → cases_of sid (clear_cases other cases) ≡ cases_of sid cases
unfolding clear_cases
cases_of-clear_other sid other [] h = refl
cases_of-clear_other sid other (c ∷ cases) h =
    ground (arith, cases_of-clear_other sid other cases h)

cases_of-append_case :
    (sid : ℤ) (c : SubmissionTestCase) (cases : List SubmissionTestCase)
    → cases_of sid (append_case sid c cases)
      ≡ cases_of sid cases ++ record c { sid = some sid } ∷ []
unfolding append_case
cases_of-append_case sid c [] = ground arith
cases_of-append_case sid c (d ∷ cases) = ground (arith, cases_of-append_case sid c cases)

cases_of-append_other :
    (sid other : ℤ) (c : SubmissionTestCase) (cases : List SubmissionTestCase)
    → (other ==ℤ sid) ≡ false
    → cases_of sid (append_case other c cases) ≡ cases_of sid cases
unfolding append_case
cases_of-append_other sid other c [] h = ground arith
cases_of-append_other sid other c (d ∷ cases) h =
    ground (arith, cases_of-append_other sid other c cases h)

-- What a message does to the view of a submission.
abbrev pub absorb : ℤ → Message → ℤ × List SubmissionTestCase → ℤ × List SubmissionTestCase
absorb sid m (jid, cases) =
    if message_sid m ==ℤ sid
    then (if ltb_ℤ (message_jid m) jid
        then (jid, cases)
        else (message_jid m, (if ltb_ℤ jid (message_jid m) then [] else cases) ++ added m))
    else (jid, cases)

-- The columns of a message.
abbrev pub row_of : UpdateHost → Message → Submission → Submission
row_of host (case_message sid jid status c) = judging_row jid
row_of host (result_message sid jid r) = result_row jid r (file_name host.new_file)

pub row_of-sid : (host : UpdateHost) (m : Message) (s : Submission) → (row_of host m s).sid ≡ s.sid
row_of-sid host (case_message sid jid status c) s = refl
row_of-sid host (result_message sid jid r) s = refl

pub row_of-jid :
    (host : UpdateHost) (m : Message) (s : Submission) → (row_of host m s).jid ≡ message_jid m
row_of-jid host (case_message sid jid status c) s = refl
row_of-jid host (result_message sid jid r) s = refl

-- The test cases after a message that is not stale.
abbrev kept : Message → Submission → Tables → List SubmissionTestCase
kept m s t = if ltb_ℤ s.jid (message_jid m) then clear_cases (message_sid m) t.cases else t.cases

abbrev cases_after : Message → List SubmissionTestCase → List SubmissionTestCase
cases_after (case_message sid jid status c) cases =
    if is_judging c.status then cases else append_case sid c cases
cases_after (result_message sid jid r) cases = cases

-- Where the database works, a message that finds its submission changes the tables as follows.
deliver-tables :
    (host : UpdateHost) (m : Message) (t : Tables) (o : Outside) (s : Submission)
    → IsWorking host
    → find_sid (message_sid m) t.submissions ≡ some s
    → (deliver host m t o).1 ≡ (
        if ltb_ℤ (message_jid m) s.jid then t else record {
          submissions = update_rows (message_sid m) (row_of host m) t.submissions;
          cases = cases_after m (kept m s t);
        })
unfolding submission_update_test_case begin_dm update_test_case_body first_submission save_case
    submission_update_result update_result_body save_result clear_older
deliver-tables host (case_message sid jid status c) t o s w h = ground arith
deliver-tables host (result_message sid jid r) t o s w h = ground arith

deliver-missing :
    (host : UpdateHost) (m : Message) (t : Tables) (o : Outside)
    → find_sid (message_sid m) t.submissions ≡ none
    → (deliver host m t o).1 ≡ t
unfolding submission_update_test_case begin_dm update_test_case_body first_submission
    submission_update_result update_result_body
deliver-missing host (case_message sid jid status c) t o h = ground arith
deliver-missing host (result_message sid jid r) t o h = ground arith

cases_of-cases_after :
    (m : Message) (cases : List SubmissionTestCase)
    → cases_of (message_sid m) (cases_after m cases) ≡ cases_of (message_sid m) cases ++ added m
cases_of-cases_after (case_message sid jid status c) cases =
    ground (arith, cases_of-append_case sid c cases, append-nil (cases_of sid cases))
cases_of-cases_after (result_message sid jid r) cases = sym (append-nil (cases_of sid cases))

cases_of-after_other :
    (sid : ℤ) (m : Message) (cases : List SubmissionTestCase)
    → (message_sid m ==ℤ sid) ≡ false
    → cases_of sid (cases_after m cases) ≡ cases_of sid cases
cases_of-after_other sid (case_message other jid status c) cases h =
    ground (arith, cases_of-append_other sid other c cases h)
cases_of-after_other sid (result_message other jid r) cases h = refl

view-deliver_own :
    (host : UpdateHost) (m : Message) (t : Tables) (o : Outside) (s : Submission)
    → IsWorking host
    → find_sid (message_sid m) t.submissions ≡ some s
    → view (message_sid m) (deliver host m t o).1
      ≡ some (absorb (message_sid m) m (s.jid, cases_of (message_sid m) t.cases))
view-deliver_own host m t o s w h = ground (
  arith,
  deliver-tables host m t o s w h,
  find_sid-update_rows (message_sid m) (row_of host m) t.submissions s (row_of-sid host m) h,
  row_of-jid host m s,
  cases_of-cases_after m (kept m s t),
  cases_of-clear_cases (message_sid m) t.cases,
)

view-deliver_other :
    (host : UpdateHost) (m : Message) (t : Tables) (o : Outside) (sid : ℤ)
    → IsWorking host
    → (message_sid m ==ℤ sid) ≡ false
    → view sid (deliver host m t o).1 ≡ view sid t
view-deliver_other host m t o sid w h =
    elim (Option-cases (find_sid (message_sid m) t.submissions)) [
      | inl e ↦ ap (view sid) (deliver-missing host m t o e)
      | inr (s, e) ↦ ground (
        arith,
        deliver-tables host m t o s w e,
        find_sid-update_other sid (message_sid m) (row_of host m) t.submissions (row_of-sid host m)
            h,
        cases_of-after_other sid m (kept m s t) h,
        cases_of-clear_other sid (message_sid m) t.cases h,
      )
    ]

pub view-deliver :
    (host : UpdateHost) (m : Message) (t : Tables) (o : Outside) (sid : ℤ)
    (v : ℤ × List SubmissionTestCase)
    → IsWorking host
    → view sid t ≡ some v
    → view sid (deliver host m t o).1 ≡ some (absorb sid m v)
view-deliver host m t o sid v w h = elim (Bool-cases (message_sid m ==ℤ sid)) [
  | inr n ↦ ground (arith, view-deliver_other host m t o sid w n)
  | inl y ↦ elim (Option-cases (find_sid sid t.submissions)) [
    | inl e ↦ ground arith
    | inr (s, e) ↦
        let same : message_sid m ≡ sid = ground (arith, eq_of_parts (message_sid m) sid) in
        let own = view-deliver_own host m t o s w (ap (λ i. find_sid i t.submissions) same ∙ e) in
        let here =
          subst (λ i. view i (deliver host m t o).1 ≡ some (absorb i m (s.jid, cases_of i t.cases)))
            same own in
        ground arith
  ]
]
