-- ===== src/Controller/Numbers/Steps.antt =====
-- ppjc/handlerv1.go: what a judge that takes a job and one that reports do to the numbers.
use popcon_sc.Prelude.{
  add64_one, ℕ, suc, ◌+◌, ◌^◌, ◌≤◌, ◌<◌, ◌≡◌, refl, sym, ap, ◌∙◌, subst, true, false, Option, none,
  some, List, ◌∷◌, ℤ, pos, negsuc, ◌==ℤ◌, ◌<ℤ◌, add64, arith, Option-cases, Bool-cases, ◌⊎◌, inl,
  inr, eq_of_parts,
}
use popcon_sc.Database.Submissions.{Submission, Tables, Outside, find_sid, update_rows, UpdateHost}
use popcon_sc.Database.Submissions.View.{
  Message, message_sid, message_jid, deliver, row_of, row_of-sid, row_of-jid, find_sid-update_rows,
  find_sid-update_other,
}
use popcon_sc.Controller.{TakeHost, use_jid, take_job}
use popcon_sc.Controller.Protocol.{times_given, with_job}
use popcon_sc.Controller.Numbers.{
  IsNumbered, InvAt, deliver-rows, take_job-rows, InvAt-suc, find_sid-sid, row_of-used_jid,
}

-- A number between 0 and u.
pub between : (z : ℤ) (u : ℕ) → ¬ (pos u <ℤ z) → ¬ (z <ℤ pos 0) → (j : ℕ) × (z ≡ pos j) × (j ≤ u)
between (pos j) u a b = (j, refl, omega (arith, a))
between (negsuc j) u a b = absurd (b (omega arith))

report-IsNumbered :
    (n : ℕ) (host : UpdateHost) (m : Message) (jobs : List (ℤ × ℤ)) (s : Submission)
    → 0 < times_given (message_sid m) (message_jid m) jobs
    → IsNumbered n (message_sid m) jobs s
    → IsNumbered (suc n) (message_sid m) jobs (row_of host m s)
report-IsNumbered n host m jobs s p (u, j, a, b, c, d, f, g, k) =
    let r =
      between (message_jid m) u (λ q. absurd (omega (arith, g (message_jid m) q, p)))
        (λ q. absurd (omega (arith, k (message_jid m) q, p))) in
    (u, r.0, row_of-used_jid host m s ∙ a, row_of-jid host m s ∙ r.1, r.2, omega arith, f, g, k)

take-IsNumbered :
    (n : ℕ) (sid : ℤ) (jobs : List (ℤ × ℤ)) (s : Submission)
    → n < 2 ^ 62
    → (s.sid ==ℤ sid) ≡ true
    → IsNumbered n sid jobs s
    → IsNumbered (suc n) sid ((s.sid, add64 s.used_jid (pos 1)) ∷ jobs) (use_jid s)
take-IsNumbered n sid jobs s small e (u, j, a, b, c, d, f, g, k) =
    let next : add64 s.used_jid (pos 1) ≡ pos (u + 1) =
      ap (λ x. add64 x (pos 1)) a ∙ add64_one u (omega (arith, d, small)) in
    (
      u + 1,
      j,
      next,
      b,
      omega (arith, c),
      omega (arith, d),
      λ i. ground (arith, next, f i, g i),
      λ i q. ground (arith, next, g i),
      λ i q. ground (arith, next, k i),
    )

-- A job of another submission.
InvAt-other :
    (n : ℕ) (i s j : ℤ) (jobs : List (ℤ × ℤ)) (o : Option Submission)
    → (s ==ℤ i) ≡ false
    → InvAt n i jobs o
    → InvAt (suc n) i ((s, j) ∷ jobs) o
InvAt-other n i s j jobs none h v = λ k. ground (arith, v k)
InvAt-other n i s j jobs (some r) h (u, l, a, b, c, d, f, g, k) = (
  u,
  l,
  a,
  b,
  c,
  omega (arith, d),
  λ x. ground (arith, f x),
  λ x q. ground (arith, g x q),
  λ x q. ground (arith, k x q),
)

pub report-Inv :
    (n : ℕ) (host : UpdateHost) (m : Message) (t : Tables) (o : Outside) (jobs : List (ℤ × ℤ))
    (i : ℤ)
    → 0 < times_given (message_sid m) (message_jid m) jobs
    → ((k : ℤ) → InvAt n k jobs (find_sid k t.submissions))
    → InvAt (suc n) i jobs (find_sid i (deliver host m t o).1.submissions)
report-Inv n host m t o jobs i p v = elim (deliver-rows host m t o) [
  | inl e ↦
      subst (λ rows. InvAt (suc n) i jobs (find_sid i rows)) (sym e) (InvAt-suc n i jobs _ (v i))
  | inr e ↦
      subst (λ rows. InvAt (suc n) i jobs (find_sid i rows)) (sym e)
        (elim (Bool-cases (message_sid m ==ℤ i)) [
          | inr c ↦
              subst (InvAt (suc n) i jobs)
                (sym (
                  find_sid-update_other i (message_sid m) (row_of host m) t.submissions
                    (row_of-sid host m) c))
                (InvAt-suc n i jobs _ (v i))
          | inl c ↦
              let same : message_sid m ≡ i = ground (arith, eq_of_parts (message_sid m) i) in
              subst
                (λ k.
                  InvAt (suc n) k jobs
                    (find_sid k (update_rows (message_sid m) (row_of host m) t.submissions)))
                same (own (Option-cases (find_sid (message_sid m) t.submissions)))
        ])
]
  where
    own :
        (find_sid (message_sid m) t.submissions ≡ none)
          ⊎ ((s : Submission) × (find_sid (message_sid m) t.submissions ≡ some s))
        → InvAt
            (suc n)
            (message_sid m)
            jobs
            (find_sid (message_sid m) (update_rows (message_sid m) (row_of host m) t.submissions))
    own (inl e) =
        let none_given = subst (InvAt n (message_sid m) jobs) e (v (message_sid m)) in
        absurd (omega (arith, none_given (message_jid m), p))
    own (inr (s, e)) =
        subst (InvAt (suc n) (message_sid m) jobs)
          (sym (
            find_sid-update_rows (message_sid m) (row_of host m) t.submissions s (row_of-sid host m)
              e))
          (report-IsNumbered n host m jobs s p
            (subst (InvAt n (message_sid m) jobs) e (v (message_sid m))))

pub take-Inv :
    (n : ℕ) (host : TakeHost) (sid : ℤ) (t : Tables) (jobs : List (ℤ × ℤ)) (i : ℤ)
    → n < 2 ^ 62
    → InvAt n i jobs (find_sid i t.submissions)
    → InvAt
        (suc n)
        i
        (with_job (take_job host sid t).0 jobs)
        (find_sid i (take_job host sid t).1.submissions)
take-Inv n host sid t jobs i small v = elim (take_job-rows host sid t) [
  | inl (e, k) ↦
      subst
        (λ x. InvAt (suc n) i (with_job x jobs) (find_sid i (take_job host sid t).1.submissions))
        (sym k)
        (subst (λ x. InvAt (suc n) i jobs (find_sid i x.submissions)) (sym e)
          (InvAt-suc n i jobs _ v))
  | inr (s, e, r, k) ↦
      subst
        (λ x. InvAt (suc n) i (with_job x jobs) (find_sid i (take_job host sid t).1.submissions))
        (sym k)
        (subst
          (λ x.
            InvAt (suc n) i ((s.sid, add64 s.used_jid (pos 1)) ∷ jobs) (find_sid i x.submissions))
          (sym r)
          (elim (Bool-cases (sid ==ℤ i)) [
            | inr c ↦
                subst (InvAt (suc n) i ((s.sid, add64 s.used_jid (pos 1)) ∷ jobs))
                  (sym (find_sid-update_other i sid use_jid t.submissions (λ q. refl) c))
                  (InvAt-other n i s.sid (add64 s.used_jid (pos 1)) jobs _
                    (ground (arith, find_sid-sid sid t.submissions s e)) v)
            | inl c ↦
                let same : sid ≡ i = ground (arith, eq_of_parts sid i) in
                let e' : find_sid i t.submissions ≡ some s =
                  ap (λ k. find_sid k t.submissions) (sym same) ∙ e in
                subst (InvAt (suc n) i ((s.sid, add64 s.used_jid (pos 1)) ∷ jobs))
                  (sym (
                    ap (λ k. find_sid i (update_rows k use_jid t.submissions)) same
                    ∙ find_sid-update_rows i use_jid t.submissions s (λ q. refl) e'))
                  (take-IsNumbered n i jobs s small (find_sid-sid i t.submissions s e')
                    (subst (InvAt n i jobs) e' v))
          ]))
]
