-- ===== src/Controller/Unique.antt =====
-- ppjc/handlerv1.go: every judge of a submission has a number of its own.
use popcon_sc.Prelude.{
  ℕ, ◌^◌, ◌≤◌, ◌<◌, ◌≡◌, refl, subst, Option, none, some, List, ℤ, pos, ◌≤ℤ◌, arith,
}
use popcon_sc.Database.Submissions.{Submission, find_sid}
use popcon_sc.Controller.Protocol.{World, times_given, Run, start, submit, take, report, here, next}
use popcon_sc.Controller.Numbers.{IsNumbered, InvAt, Inv, submit-Inv}
use popcon_sc.Controller.Numbers.Steps.{report-Inv, take-Inv}

Run-Inv : {n : ℕ} {w : World} → n < 2 ^ 62 → Run start n w → Inv n w
Run-Inv small here = λ sid i. refl
Run-Inv small (next {n} r (submit w error file sid pid iid lang now h)) = λ i.
    submit-Inv n w.tables w.jobs error file sid pid iid lang now i h (Run-Inv (omega arith) r i)
Run-Inv small (next {n} r (take w host sid)) =
    λ i. take-Inv n host sid w.tables w.jobs i (omega arith) (Run-Inv (omega arith) r i)
Run-Inv small (next {n} r (report w host m p)) =
    λ i. report-Inv n host m w.tables w.outside w.jobs i p (Run-Inv (omega arith) r)

-- After any run of fewer than 2^62 steps: no judge of a submission has been given the number of
-- another one of it, and the number that a submission shows lies between 0 and the last number that
-- was used for it.
pub numbers_unique :
    (n : ℕ) (w : World)
    → n < 2 ^ 62
    → Run start n w
    → ((sid jid : ℤ) → times_given sid jid w.jobs ≤ 1)
      × ((sid : ℤ) (s : Submission)
          → find_sid sid w.tables.submissions ≡ some s
          → (pos 0 ≤ℤ s.jid) × (s.jid ≤ℤ s.used_jid))
numbers_unique n w small r =
    let v = Run-Inv small r in
    (
      λ sid jid. given_once n sid jid w.jobs (find_sid sid w.tables.submissions) (v sid),
      λ sid s e. ordered n sid w.jobs s (subst (InvAt n sid w.jobs) e (v sid)),
    )
  where
    given_once :
        (n : ℕ) (sid jid : ℤ) (jobs : List (ℤ × ℤ)) (o : Option Submission)
        → InvAt n sid jobs o
        → times_given sid jid jobs ≤ 1
    given_once n sid jid jobs none v = omega (arith, v jid)
    given_once n sid jid jobs (some s) (u, j, a, b, c, d, f, g, k) = f jid

    ordered :
        (n : ℕ) (sid : ℤ) (jobs : List (ℤ × ℤ)) (s : Submission)
        → IsNumbered n sid jobs s
        → (pos 0 ≤ℤ s.jid) × (s.jid ≤ℤ s.used_jid)
    ordered n sid jobs s (u, j, a, b, c, d, f, g, k) = (ground arith, ground arith)
