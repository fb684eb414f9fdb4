-- ===== src/Database/Submissions/Newest.antt =====
-- lib/database/submission.go: messages of several judges of one submission, in any interleaving. Each
-- judge has a number of its own, the jid, and the newest judge wins.
use popcon_sc.Prelude.{
  ◌≡◌, ap, ◌∙◌, ◌&&◌, some, List, [], ◌∷◌, ◌++◌, if◌then◌else◌, ℤ, ltb_ℤ, ◌==ℤ◌, ◌≤ℤ◌, arith, All,
  eq_of_parts,
}
use mathlib.Core.List.{append_assoc, append-nil}
use popcon_sc.Database.Submissions.{SubmissionTestCase, Tables, Outside, UpdateHost}
use popcon_sc.Database.Submissions.View.{
  IsWorking, Message, absorb, added, deliver, message_jid, message_sid, view, view-deliver,
}

-- The messages in the order in which they arrive, each with what the outside answers.
abbrev pub deliver_all : List (UpdateHost × Message) → Tables → Outside → Tables × Outside
deliver_all [] t o = (t, o)
deliver_all ((host, m) ∷ rest) t o = deliver_all rest (deliver host m t o).1 (deliver host m t o).2

-- The greatest jid among the messages of a submission and `jid`.
abbrev pub newest : ℤ → ℤ → List (UpdateHost × Message) → ℤ
newest sid jid [] = jid
newest sid jid ((host, m) ∷ rest) =
    newest sid (if (message_sid m ==ℤ sid) && ltb_ℤ jid (message_jid m) then message_jid m else jid)
      rest

-- The test cases that the messages of one judge of a submission add.
abbrev pub reported : ℤ → ℤ → List (UpdateHost × Message) → List SubmissionTestCase
reported sid jid [] = []
reported sid jid ((host, m) ∷ rest) =
    (if (message_sid m ==ℤ sid) && (message_jid m ==ℤ jid) then added m else [])
    ++ reported sid jid rest

newest-ge : (sid jid : ℤ) (ms : List (UpdateHost × Message)) → jid ≤ℤ newest sid jid ms
newest-ge sid jid [] = omega arith
newest-ge sid jid ((host, m) ∷ rest) =
    ground (arith, newest-ge sid jid rest, newest-ge sid (message_jid m) rest)

-- The view that the messages lead to.
abbrev summary :
    ℤ → List (UpdateHost × Message) → ℤ × List SubmissionTestCase → ℤ × List SubmissionTestCase
summary sid ms (jid, cases) = (
  newest sid jid ms,
  (if newest sid jid ms ==ℤ jid then cases else []) ++ reported sid (newest sid jid ms) ms,
)

absorb-reported :
    (sid : ℤ) (host : UpdateHost) (m : Message) (rest : List (UpdateHost × Message)) (jid : ℤ)
    (cases : List SubmissionTestCase)
    → summary sid rest (absorb sid m (jid, cases)) ≡ summary sid ((host, m) ∷ rest) (jid, cases)
absorb-reported sid host m rest jid cases = ground (
  arith,
  newest-ge sid jid rest,
  newest-ge sid (message_jid m) rest,
  eq_of_parts jid (message_jid m),
  append_assoc cases (added m) (reported sid (message_jid m) rest),
)

-- For any interleaving of the messages of any judges of any submissions, while the database works: a
-- submission ends with the greatest jid that it has seen, and its test cases are those that the
-- messages of this jid have reported, in order, behind the ones it had if the jid is still the same.
-- What older judges send, before or after, leaves no trace.
pub deliver_all-newest :
    (ms : List (UpdateHost × Message)) (t : Tables) (o : Outside) (sid jid : ℤ)
    (cases : List SubmissionTestCase)
    → All (λ hm. IsWorking hm.0) ms
    → view sid t ≡ some (jid, cases)
    → view sid (deliver_all ms t o).0
      ≡ some (
        newest sid jid ms,
        (if newest sid jid ms ==ℤ jid then cases else []) ++ reported sid (newest sid jid ms) ms,
      )
deliver_all-newest [] t o sid jid cases w h = ground (arith, append-nil cases)
deliver_all-newest ((host, m) ∷ rest) t o sid jid cases w h =
    let v = absorb sid m (jid, cases) in
    deliver_all-newest rest (deliver host m t o).1 (deliver host m t o).2 sid v.0 v.1 w.1
      (view-deliver host m t o sid (jid, cases) w.0 h)
    ∙ ap some (absorb-reported sid host m rest jid cases)
