-- ===== src/Controller/Numbers.antt =====
-- ppjc/handlerv1.go: what one step does to the numbers of the judges of a submission.
pub mod Steps
use popcon_sc.Prelude.{
  add64_one, ℕ, suc, ◌+◌, ◌^◌, ◌≤◌, ◌<◌, ◌≡◌, refl, sym, ap, ◌∙◌, subst, true, false, Option, none,
  some, List, [], ◌∷◌, ◌++◌, if◌then◌else◌, ℤ, pos, negsuc, ◌==ℤ◌, ◌<ℤ◌, add64, Text, arith,
  Option-cases, Bool-cases, ◌⊎◌, inl, inr, eq_of_parts,
}
use popcon_sc.Database.{DbError, begin_dm}
use popcon_sc.Database.Submissions.{
  Submission, Tables, Outside, find_sid, first_submission, update_rows, UpdateHost,
  update_result_body, submission_update_result, save_result, clear_older, save_case,
  update_test_case_body, submission_update_test_case,
}
use popcon_sc.Database.Submissions.View.{
  Message, case_message, result_message, message_sid, message_jid, deliver, row_of, row_of-sid,
  row_of-jid, find_sid-update_rows, find_sid-update_other,
}
use popcon_sc.Controller.{
  new_submission, submission_add, TakeHost, use_jid, take_job_body, take_job,
}
use popcon_sc.Controller.Protocol.{World, times_given, with_job}

-- What holds of one submission after n steps.
abbrev pub IsNumbered : ℕ → ℤ → List (ℤ × ℤ) → Submission → Type 0
IsNumbered n sid jobs s =
    (u : ℕ) × (j : ℕ) × (s.used_jid ≡ pos u)
    × (s.jid ≡ pos j)
    × (j ≤ u)
    × (u ≤ n)
    × ((i : ℤ) → times_given sid i jobs ≤ 1)
    × ((i : ℤ) → pos u <ℤ i → times_given sid i jobs ≡ 0)
    × ((i : ℤ) → i <ℤ pos 0 → times_given sid i jobs ≡ 0)

abbrev pub InvAt : ℕ → ℤ → List (ℤ × ℤ) → Option Submission → Type 0
InvAt n sid jobs none = (i : ℤ) → times_given sid i jobs ≡ 0
InvAt n sid jobs (some s) = IsNumbered n sid jobs s

abbrev pub Inv : ℕ → World → Type 0
Inv n w = (sid : ℤ) → InvAt n sid w.jobs (find_sid sid w.tables.submissions)

-- A message changes nothing in the rows, or writes its jid into the rows of its submission.
pub deliver-rows :
    (host : UpdateHost) (m : Message) (t : Tables) (o : Outside)
    → ((deliver host m t o).1.submissions ≡ t.submissions)
      ⊎ ((deliver host m t o).1.submissions
          ≡ update_rows (message_sid m) (row_of host m) t.submissions)
unfolding submission_update_test_case begin_dm update_test_case_body first_submission save_case
    submission_update_result update_result_body save_result clear_older
deliver-rows host (case_message sid jid status c) t o = ground arith
deliver-rows host (result_message sid jid r) t o = ground arith

pub take_job-rows :
    (host : TakeHost) (sid : ℤ) (t : Tables)
    → ((take_job host sid t).1 ≡ t) × ((take_job host sid t).0 ≡ none)
      ⊎ ((s : Submission) × (find_sid sid t.submissions ≡ some s)
          × ((take_job host sid t).1
              ≡ record t { submissions = update_rows sid use_jid t.submissions })
          × ((take_job host sid t).0 ≡ some (record s { jid = add64 s.used_jid (pos 1) })))
unfolding take_job begin_dm take_job_body first_submission
take_job-rows host sid t = elim (Option-cases (find_sid sid t.submissions)) [
  | inl e ↦ inl (ground arith, ground arith)
  | inr (s, e) ↦ elim (Option-cases (take_job host sid t).0) [
    | inl k ↦ inl (ground arith, ground arith)
    | inr (x, k) ↦ inr (s, e, ground arith, ground arith)
  ]
]

find_sid-append :
    (sid : ℤ) (rows : List Submission) (s : Submission)
    → find_sid sid (rows ++ s ∷ []) ≡ elim (find_sid sid rows) [
      | none ↦ (if s.sid ==ℤ sid then some s else none)
      | some r ↦ some r
    ]
find_sid-append sid [] s = refl
find_sid-append sid (r ∷ rows) s = ground (arith, find_sid-append sid rows s)

pub InvAt-suc :
    (n : ℕ) (sid : ℤ) (jobs : List (ℤ × ℤ)) (o : Option Submission)
    → InvAt n sid jobs o
    → InvAt (suc n) sid jobs o
InvAt-suc n sid jobs none h = h
InvAt-suc n sid jobs (some s) (u, j, a, b, c, d, f, g, k) = (u, j, a, b, c, omega arith, f, g, k)

pub submit-Inv :
    (n : ℕ) (t : Tables) (jobs : List (ℤ × ℤ)) (error : Option DbError) (file : Option Text)
    (sid pid iid lang now : ℤ) (i : ℤ)
    → find_sid sid t.submissions ≡ none
    → InvAt n i jobs (find_sid i t.submissions)
    → InvAt
        (suc n)
        i
        jobs
        (find_sid i (submission_add error file sid pid iid lang now t).1.submissions)
unfolding submission_add
submit-Inv n t jobs (some e) file sid pid iid lang now i h v = InvAt-suc n i jobs _ v
submit-Inv n t jobs none file sid pid iid lang now i h v =
    subst (InvAt (suc n) i jobs) (sym (find_sid-append i t.submissions _))
      (go (find_sid i t.submissions) (Bool-cases (sid ==ℤ i)) v)
  where
    new : Submission
    new = new_submission file sid pid iid lang now

    go :
        (o : Option Submission)
        → ((sid ==ℤ i) ≡ true) ⊎ ((sid ==ℤ i) ≡ false)
        → InvAt n i jobs o
        → InvAt
            (suc n)
            i
            jobs
            (elim o [ none ↦ (if sid ==ℤ i then some new else none) | some r ↦ some r ])
    go (some r) c v = InvAt-suc n i jobs (some r) v
    go none (inr c) v = subst (λ b. InvAt (suc n) i jobs (if b then some new else none)) (sym c) v
    go none (inl c) v =
        subst (λ b. InvAt (suc n) i jobs (if b then some new else none)) (sym c)
          (
            0,
            0,
            refl,
            refl,
            omega arith,
            omega arith,
            λ k. omega (arith, v k),
            λ k q. v k,
            λ k q. v k,
          )

pub find_sid-sid :
    (sid : ℤ) (rows : List Submission) (s : Submission)
    → find_sid sid rows ≡ some s
    → (s.sid ==ℤ sid) ≡ true
find_sid-sid sid [] s h = cc
find_sid-sid sid (r ∷ rows) s h = ground (arith, find_sid-sid sid rows s)

pub row_of-used_jid :
    (host : UpdateHost) (m : Message) (s : Submission) → (row_of host m s).used_jid ≡ s.used_jid
row_of-used_jid host (case_message sid jid status c) s = refl
row_of-used_jid host (result_message sid jid r) s = refl
