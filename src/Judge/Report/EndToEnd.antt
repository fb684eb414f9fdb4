-- ===== src/Judge/Report/EndToEnd.antt =====
-- ppjudge/main.go and ppjudge/judge_simple.go together: the result that a submission gets on a
-- problem of the type "Perfect Match".
use popcon_sc.Prelude.{
  ℕ, suc, ◌≤◌, ◌≡◌, refl, sym, ap, ◌∙◌, subst, Bool, false, List, [], ◌∷◌, ◌++◌, ℤ, pos, length,
  set, arith,
}
use popcon_sc.Types.Submission.{SubmissionStatusType, judging, accepted, max_status, status_int}
use popcon_sc.Types.Contest.{perfect_match}
use popcon_sc.Judge.{TestCase, plain_status, Tally, first_tally}
use popcon_sc.Judge.Simple.{SimpleHost, judge_test, judge_tests, run}
use popcon_sc.Judge.Simple.Loop.{max_status_assoc, status_int-max_status}
use popcon_sc.Judge.Simple.Totals.{max_status-accepted_left, IsReady}
use popcon_sc.Judge.Report.{
  Problem, ProblemCase, Judged, OutputFile, Progress, ended, Report, update_result, note_case,
  handle_total, handle, handle_all, report_all, no_results, score_sum, thousandth,
}
use popcon_sc.Judge.Report.Rounds.{
  Judges, worst_of, write_from, max_status_left, note_case-total, note_case-ret_cases,
  totals_ordered, round, done, test,
}

-- The goroutine over the messages of the tests: what the tests left write is in `ret_cases`, and the
-- worst of the verdicts is in the total.
loop :
    (host : SimpleHost) (b : Bool) (p : Problem) (j : Judged) (output : ℕ → OutputFile)
    → p.judge_type ≡ perfect_match
    → {k : ℕ} {tests : List TestCase} {vs : List SubmissionStatusType}
    → Judges host b p output k tests vs
    → (t : Tally) (s : Progress) → 2 ≤ status_int s.total
    → status_int t.total ≤ status_int s.total
    → (rs : List Report) × (time : ℤ) × (mem : ℤ) × (handle_all p j output false
          (judge_tests host b tests t)
          s
        ≡ ended (
            rs
            ++ update_result p.cid j.sid j.jid
                (max_status s.total (worst_of vs))
                (score_sum (write_from k vs s.ret_cases) (pos 0) p.scores)
                time
                mem
                []
              ∷ []))
unfolding judge_tests handle_all handle handle_total
loop host b p j output m (done k) t s g l = (
  s.reports,
  t.max_time,
  thousandth t.max_mem,
  rw (max_status_left s.total t.total l, max_status_left s.total accepted g) refl,
)
loop host b p j output m (test k tc tests v vs c e h q rest) t s g l =
    let after = judge_test host b tc t in
    let first = note_case p j (plain_status tc.id judging) c k judging s in
    let s' = note_case p j after.0 c k v first in
    let total = note_case-total p j (plain_status tc.id judging) after.0 c k v s g in
    let ih =
      loop host b p j output m rest after.1 s'
        (subst (λ x. 2 ≤ status_int x) (sym total)
          (omega (arith, status_int-max_status s.total v, g)))
        (subst (λ x. status_int after.1.total ≤ status_int x) (sym total)
          (totals_ordered host b p (output k) tc v t s.total q l)) in
    (
      ih.0,
      ih.1,
      ih.2,
      round host b p j output k tc tests v c t s m e h q
          ∙ ih.3
          ∙ ap (λ u. ended (ih.0 ++ u ∷ []))
              (ap
                  (λ u.
                    update_result p.cid j.sid j.jid u
                      (score_sum (write_from (suc k) vs s'.ret_cases) (pos 0) p.scores) ih.1 ih.2
                      [])
                  (ap (λ x. max_status x (worst_of vs)) total
                    ∙ max_status_assoc s.total v (worst_of vs))
                ∙ ap
                    (λ u.
                      update_result p.cid j.sid j.jid
                        (max_status s.total (max_status v (worst_of vs)))
                        (score_sum (write_from (suc k) vs u) (pos 0) p.scores) ih.1 ih.2 [])
                    (note_case-ret_cases p j (plain_status tc.id judging) after.0 c k v s)),
    )

write_from_cons :
    (k : ℕ) (vs : List SubmissionStatusType) (x : SubmissionStatusType)
    (r : List SubmissionStatusType)
    → write_from (suc k) vs (x ∷ r) ≡ x ∷ write_from k vs r
write_from_cons k [] x r = refl
write_from_cons k (v ∷ vs) x r = write_from_cons (suc k) vs x (set r k v)

write_from_all : (vs r : List SubmissionStatusType) → length vs ≡ length r → write_from 0 vs r ≡ vs
write_from_all [] [] e = refl
write_from_all [] (x ∷ r) e = absurd (omega arith)
write_from_all (v ∷ vs) [] e = absurd (omega arith)
write_from_all (v ∷ vs) (x ∷ r) e =
    write_from_cons 0 vs v r ∙ ap (λ l. v ∷ l) (write_from_all vs r (omega arith))

length-no_results : (cases : List ProblemCase) → length (no_results cases) ≡ length cases
length-no_results [] = refl
length-no_results (c ∷ cases) = ap suc (length-no_results cases)

worst_of-ge : (vs : List SubmissionStatusType) → 2 ≤ status_int (worst_of vs)
unfolding max_status
worst_of-ge [] = omega arith
worst_of-ge (v ∷ vs) = ground (arith, worst_of-ge vs)

run-ready :
    (host : SimpleHost) (tests : List TestCase) (b : Bool)
    → IsReady host
    → run host tests b ≡ judge_tests host b tests first_tally
unfolding run
run-ready host tests b h = ground arith

-- Where the program is judged on one test for each case of the problem, the goroutine ends, and its
-- last report has the worst of the verdicts and the score that the verdicts are worth.
pub report_all-result :
    (host : SimpleHost) (b : Bool) (p : Problem) (j : Judged) (output : ℕ → OutputFile)
    (tests : List TestCase) (vs : List SubmissionStatusType)
    → p.judge_type ≡ perfect_match
    → IsReady host
    → length vs ≡ length p.cases
    → Judges host b p output 0 tests vs
    → (rs : List Report) × (time : ℤ) × (mem : ℤ) × (report_all p j output false (run host tests b)
        ≡ ended (
            rs
            ++ update_result p.cid j.sid j.jid
                (worst_of vs)
                (score_sum vs (pos 0) p.scores)
                time
                mem
                []
              ∷ []))
unfolding report_all
report_all-result host b p j output tests vs m ready n h =
    let s : Progress = record { ret_cases = no_results p.cases; total = accepted; reports = [] } in
    let l = loop host b p j output m h first_tally s (omega arith) (omega arith) in
    (
      l.0,
      l.1,
      l.2,
      ap (report_all p j output false) (run-ready host tests b ready)
          ∙ l.3
          ∙ ap
              (λ u. ended (
                l.0
                ++ update_result p.cid j.sid j.jid u
                    (score_sum (write_from 0 vs (no_results p.cases)) (pos 0) p.scores) l.1 l.2 []
                  ∷ []))
              (max_status-accepted_left (worst_of vs) (worst_of-ge vs))
          ∙ ap
              (λ u. ended (
                l.0
                ++ update_result p.cid j.sid j.jid (worst_of vs) (score_sum u (pos 0) p.scores) l.1
                    l.2 []
                  ∷ []))
              (write_from_all vs (no_results p.cases) (n ∙ sym (length-no_results p.cases))),
    )
