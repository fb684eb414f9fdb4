-- ===== src/Types/Order.antt =====
-- lib/types/contest.go: Go visits the entries of a map in an order that changes from run to run.
-- The totals of a ranking row do not depend on it.
use mathlib.Core.List.{Perm, Permᴰ}
use mathlib.Core.Logic.{∥∥₁_elim}
use popcon_sc.Prelude.{
  ◌≡◌, refl, sym, ◌∙◌, ap, not, ◌&&◌, List, ◌∷◌, if◌then◌else◌, arith, ℤ, pos, ltb_ℤ, ◌==ℤ◌, add64,
  add64_right_comm,
}
use popcon_sc.Types.Contest.{
  ContestType, joi, pck, at_coder, icpc, RankingCell, Problems, accumulate_all_score,
  maximized_time, accumulate_all_time, accumulate_all_penalty, general_score, general_time,
  general_penalty,
}

ℤ-set : IsSet ℤ
ℤ-set = hlevel

-- A loop whose body commutes with itself gives one result for all orders.
module _ {A : Type 0} (body : ℤ → A → ℤ) (loop : ℤ → List A → ℤ)
    (loop-cons : (s : ℤ) (a : A) (l : List A) → loop s (a ∷ l) ≡ loop (body s a) l)
    (body_comm : (s : ℤ) (a b : A) → body (body s a) b ≡ body (body s b) a) where
  loop-permᴰ : (s : ℤ) {l r : List A} → Permᴰ l r → loop s l ≡ loop s r
  loop-permᴰ s Permᴰ.nil = refl
  loop-permᴰ s (Permᴰ.cons {a} {b} {l₁ = l} {l₂ = r} e p) =
      loop-cons s a l
      ∙ loop-permᴰ (body s a) p
      ∙ ap (λ x. loop (body s x) r) e
      ∙ sym (loop-cons s b r)
  loop-permᴰ s (Permᴰ.swap {a} {b} {a'} {b'} {l} e f) =
      loop-cons s a (b ∷ l)
      ∙ loop-cons (body s a) b l
      ∙ ap (λ x. loop x l) (body_comm s a b)
      ∙ ap (λ x. loop (body (body s x) a) l) f
      ∙ ap (λ x. loop (body (body s a') x) l) e
      ∙ sym (loop-cons (body s a') b' l)
      ∙ sym (loop-cons s a' (b' ∷ l))
  loop-permᴰ s (Permᴰ.trans p q) = loop-permᴰ s p ∙ loop-permᴰ s q

  loop-perm : (s : ℤ) {l r : List A} → Perm l r → loop s l ≡ loop s r
  loop-perm s {l} {r} p = ∥∥₁_elim p (ℤ-set (loop s l) (loop s r)) (loop-permᴰ s)

score_body : ℤ → ℤ × RankingCell → ℤ
score_body sum (i, c) = add64 sum c.score

max_body : ℤ → ℤ × RankingCell → ℤ
max_body max (i, c) = if ltb_ℤ max c.time && not (c.score ==ℤ pos 0) then c.time else max

time_body : ℤ → ℤ × RankingCell → ℤ
time_body sum (i, c) = if not (c.score ==ℤ pos 0) then add64 sum c.time else sum

penalty_body : ℤ → ℤ × RankingCell → ℤ
penalty_body sum (i, c) = if not (c.score ==ℤ pos 0) then add64 sum c.penalty else sum

max_body_comm :
    (s : ℤ) (a b : ℤ × RankingCell) → max_body (max_body s a) b ≡ max_body (max_body s b) a
unfolding max_body
max_body_comm s (i, c) (j, d) = ground arith

time_body_comm :
    (s : ℤ) (a b : ℤ × RankingCell) → time_body (time_body s a) b ≡ time_body (time_body s b) a
unfolding time_body
time_body_comm s (i, c) (j, d) = ground (arith, add64_right_comm s c.time d.time)

penalty_body_comm :
    (s : ℤ) (a b : ℤ × RankingCell)
    → penalty_body (penalty_body s a) b ≡ penalty_body (penalty_body s b) a
unfolding penalty_body
penalty_body_comm s (i, c) (j, d) = ground (arith, add64_right_comm s c.penalty d.penalty)

pub accumulate_all_score-perm :
    (s : ℤ) {l r : Problems} → Perm l r → accumulate_all_score s l ≡ accumulate_all_score s r
unfolding accumulate_all_score score_body
accumulate_all_score-perm s =
    loop-perm score_body accumulate_all_score (λ s a l. refl)
      (λ s a b. add64_right_comm s a.1.score b.1.score) s

pub maximized_time-perm :
    (s : ℤ) {l r : Problems} → Perm l r → maximized_time s l ≡ maximized_time s r
unfolding maximized_time max_body
maximized_time-perm s = loop-perm max_body maximized_time (λ s a l. refl) max_body_comm s

pub accumulate_all_time-perm :
    (s : ℤ) {l r : Problems} → Perm l r → accumulate_all_time s l ≡ accumulate_all_time s r
unfolding accumulate_all_time time_body
accumulate_all_time-perm s =
    loop-perm time_body accumulate_all_time (λ s a l. refl) time_body_comm s

pub accumulate_all_penalty-perm :
    (s : ℤ) {l r : Problems} → Perm l r → accumulate_all_penalty s l ≡ accumulate_all_penalty s r
unfolding accumulate_all_penalty penalty_body
accumulate_all_penalty-perm s =
    loop-perm penalty_body accumulate_all_penalty (λ s a l. refl) penalty_body_comm s

general_time-perm :
    (ct : ContestType) {l r : Problems} → Perm l r → general_time ct l ≡ general_time ct r
unfolding general_time
general_time-perm joi p = maximized_time-perm (pos 0) p
general_time-perm pck p = maximized_time-perm (pos 0) p
general_time-perm at_coder p = maximized_time-perm (pos 0) p
general_time-perm icpc p = accumulate_all_time-perm (pos 0) p

-- For every contest type, two visits of the same cells in different orders give the same total
-- score, the same total time and the same total penalty, also where the int64 sums wrap around.
pub general-perm :
    (ct : ContestType) {l r : Problems}
    → Perm l r
    → (general_score ct l ≡ general_score ct r)
      × (general_time ct l ≡ general_time ct r)
      × (general_penalty ct l ≡ general_penalty ct r)
unfolding general_score general_penalty
general-perm ct p = (
  accumulate_all_score-perm (pos 0) p,
  general_time-perm ct p,
  accumulate_all_penalty-perm (pos 0) p,
)
