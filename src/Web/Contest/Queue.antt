-- ===== src/Web/Contest/Queue.antt =====
-- ppweb/contest_each.go: what becomes of a submission if the queue of the controller is down.
use popcon_sc.Prelude.{
  text, ◌≡◌, refl, ap, ◌∙◌, none, some, List, [], ◌∷◌, ℤ, arith, Bool, true, false, Bool-cases, inl,
  inr, All,
}
use popcon_sc.Types.Submission.{internal_error}
use popcon_sc.Database.{DbError, Result, ok, err}
use popcon_sc.Web.Handler.{
  Call, contest_problem_find2, submission_list_with_pid, reset_submissions_of, submission_add,
  judge_submit, submission_update_result, begin_dm, commit, Error, Answer,
}
use popcon_sc.Web.Reply.{
  submission, redirect, Handler, give, reply, call, ◌>>=◌, expect, expect_nil, Response, failed,
  wrap_form_int64, Host, run, Form, Method, get, post, other_method,
}
use popcon_sc.Web.Contest.{ContestEachPreparedData}
use popcon_sc.Web.Contest.Submit.{submit_form, enqueue, submit_code, submit}
use popcon_sc.Web.Management.Rejudge.{
  unknown_problem_page, empty_page, rejudge_submission, rejudge_problem, submit_all, rejudge,
  respond_temp,
}

-- The handler marks the submission as failed next, and ends at its page.
abbrev pub MarksFailed : (cid sid : ℤ) → Handler Unit → Type 0
MarksFailed cid sid (call (submission_update_result c s jid result score time mem) k) =
    (c ≡ cid)
    × (s ≡ sid)
    × (result ≡ internal_error)
    × ((a : Error) → k a ≡ reply (redirect (submission cid sid)))
MarksFailed cid sid _ = ⊥

-- The handler gives the submission to the queue next, and marks it as failed if the queue fails; in
-- either case the request ends at the page of the submission.
abbrev pub Enqueues : (cid sid : ℤ) → Handler Unit → Type 0
Enqueues cid sid (call (judge_submit c s) k) =
    (c ≡ cid)
    × (s ≡ sid)
    × (k none ≡ reply (redirect (submission cid sid)))
    × ((e : DbError) → MarksFailed cid sid (k (some e)))
Enqueues cid sid _ = ⊥

-- On every path, a submission that got into the table is given to the queue.
abbrev pub IsQueueing : Handler Unit → Type 0
IsQueueing (give a) = Unit
IsQueueing (reply r) = Unit
IsQueueing (call (submission_add cid pid iid lid code) k) =
    ((sid : ℤ) → Enqueues cid sid (k (ok sid))) × ((e : DbError) → IsQueueing (k (err e)))
IsQueueing (call c k) = (a : Answer c) → IsQueueing (k a)

-- On every path of "/submit" on which the submission gets into the table, the handler next gives it
-- to the queue of the controller, and where the queue refuses it, asks the database to mark it as
-- failed with an internal error; whatever becomes of that, the user is sent to its page.
pub submit-IsQueueing :
    (pdata : ContestEachPreparedData) (method : Method) (form : Form)
    → IsQueueing (submit pdata method form)
unfolding submit submit_form submit_code enqueue
submit-IsQueueing pdata get form = ground arith
submit-IsQueueing pdata post form = ground arith
submit-IsQueueing pdata other_method form = ground arith

abbrev pub is_queue_call : Call → Bool
is_queue_call (judge_submit cid sid) = true
is_queue_call _ = false

abbrev pub is_mark : Call → Bool
is_mark (submission_update_result cid sid jid result score time mem) = true
is_mark _ = false

-- Two hosts that differ at most in what the queue of the controller answers.
abbrev pub AgreeButQueue : Host → Host → Type 0
AgreeButQueue host host' =
    (past : List Call) (c : Call) → is_queue_call c ≡ false → host past c ≡ host' past c

-- What the queue answers makes no difference to the rest, and no submission is marked.
abbrev IsDeaf : {A : Type 0} → Handler A → Type 0
IsDeaf (give a) = Unit
IsDeaf (reply r) = Unit
IsDeaf (call c k) =
    (is_mark c ≡ false)
    × (is_queue_call c ≡ true → (a b : Answer c) → k a ≡ k b)
    × ((a : Answer c) → IsDeaf (k a))

IsDeaf->>= :
    {A B : Type 0} (m : Handler A) (f : A → Handler B)
    → IsDeaf m
    → ((a : A) → IsDeaf (f a))
    → IsDeaf (m >>= f)
IsDeaf->>= (give a) f h g = g a
IsDeaf->>= (reply r) f h g = tt
IsDeaf->>= (call c k) f h g =
    (h.0, λ q a b. ap (λ m. m >>= f) (h.1 q a b), λ a. IsDeaf->>= (k a) f (h.2 a) g)

IsDeaf-run :
    (host host' : Host) (past : List Call) (m : Handler Unit)
    → AgreeButQueue host host'
    → IsDeaf m
    → (run host past m ≡ run host' past m) × All (λ c. is_mark c ≡ false) (run host past m).0
IsDeaf-run host host' past (give a) same h = (refl, tt)
IsDeaf-run host host' past (reply r) same h = (refl, tt)
IsDeaf-run host host' past (call c k) same h =
    let rest = IsDeaf-run host host' (c ∷ past) (k (host past c)) same (h.2 (host past c)) in
    let next : k (host past c) ≡ k (host' past c) = elim (Bool-cases (is_queue_call c)) [
      | inl q ↦ h.1 q (host past c) (host' past c)
      | inr q ↦ ap k (same past c q)
    ] in
    (ap (λ r. (c ∷ r.0, r.1)) (rest.0 ∙ ap (run host' (c ∷ past)) next), (h.0, rest.1))

IsDeaf-expect_nil :
    {B : Type 0} (r : DbError → Response) (x : Error) (m : Handler B)
    → IsDeaf m
    → IsDeaf (expect_nil r x >>= λ u. m)
IsDeaf-expect_nil r none m h = h
IsDeaf-expect_nil r (some e) m h = tt

IsDeaf-expect :
    {A B : Type 0} (r : DbError → Response) (x : Result A) (f : A → Handler B)
    → ((a : A) → IsDeaf (f a))
    → IsDeaf (expect r x >>= f)
IsDeaf-expect r (ok a) f h = h a
IsDeaf-expect r (err e) f h = tt

-- A call that is neither to the queue nor a mark.
IsDeaf-call :
    {A : Type 0} (c : Call) (k : Answer c → Handler A)
    → is_mark c ≡ false
    → is_queue_call c ≡ false
    → ((a : Answer c) → IsDeaf (k a))
    → IsDeaf (call c k)
IsDeaf-call c k m q h = (m, λ p. absurd (ground arith), h)

rejudge_submission-IsDeaf : (cid id : ℤ) → IsDeaf (rejudge_submission cid id)
unfolding rejudge_submission
rejudge_submission-IsDeaf cid id = ground arith

submit_all-IsDeaf : (cid : ℤ) (sids : List ℤ) → IsDeaf (submit_all cid sids)
unfolding submit_all
submit_all-IsDeaf cid [] = tt
submit_all-IsDeaf cid (sid ∷ sids) = (refl, λ q a b. refl, λ a. submit_all-IsDeaf cid sids)

rejudge_problem-IsDeaf : (cid id : ℤ) → IsDeaf (rejudge_problem cid id)
unfolding rejudge_problem
rejudge_problem-IsDeaf cid id = IsDeaf-call begin_dm _ refl refl (λ begun.
    IsDeaf-expect_nil empty_page begun _ (
      IsDeaf-call (contest_problem_find2 cid id) _ refl refl (λ found.
        IsDeaf-expect unknown_problem_page found _ (λ cp.
          IsDeaf-call (submission_list_with_pid cid cp.pid) _ refl refl (λ list.
            IsDeaf-expect failed list _ (λ sml.
              IsDeaf-call (reset_submissions_of cid cp.pid) _ refl refl (λ updated.
                IsDeaf-call commit _ refl refl (λ committed.
                  IsDeaf-expect_nil empty_page committed _ (
                    IsDeaf->>= (submit_all cid sml) _ (submit_all-IsDeaf cid sml) (λ u. tt))))))))))

rejudge-IsDeaf :
    (pdata : ContestEachPreparedData) (method : Method) (form : Form)
    → IsDeaf (rejudge pdata method form)
unfolding rejudge respond_temp
rejudge-IsDeaf pdata get form = tt
rejudge-IsDeaf pdata post form = ground (
  arith,
  rejudge_submission-IsDeaf pdata.cid (wrap_form_int64 form (text "id")),
  rejudge_problem-IsDeaf pdata.cid (wrap_form_int64 form (text "id")),
)
rejudge-IsDeaf pdata other_method form = tt

-- The bug: an admin who has submissions judged again, one or all of a problem, cannot tell a queue
-- that is down from one that works. Whatever the queue answers, the page makes the same calls and
-- gives the same response, and it marks no submission as failed.
pub rejudge_loses :
    (pdata : ContestEachPreparedData) (method : Method) (form : Form) (host host' : Host)
    → AgreeButQueue host host'
    → (run host [] (rejudge pdata method form) ≡ run host' [] (rejudge pdata method form))
      × All (λ c. is_mark c ≡ false) (run host [] (rejudge pdata method form)).0
rejudge_loses pdata method form host host' same =
    IsDeaf-run host host' [] (rejudge pdata method form) same (rejudge-IsDeaf pdata method form)
