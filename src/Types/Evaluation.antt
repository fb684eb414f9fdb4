-- ===== src/Types/Evaluation.antt =====
-- lib/types/contest.go: the order in which the ranking's SQL sorts its rows, against the order that
-- the comments of the contest types and the page of the settings describe.
use popcon_sc.Prelude.{
  Bool, true, false, ◌||◌, ◌==◌, ℕ, ◌↔◌, ◌+◌, ◌*◌, ◌^◌, ◌<◌, ◌≡◌, ◌⊎◌, arith, ℤ, pos, pos_part,
  neg_part, ◌<ℤ◌, ◌*ℤ◌, ◌-ℤ◌, wrap64, neg64, sub64, mul64,
}
use popcon_sc.Types.Contest.{
  ContestType, joi, pck, at_coder, icpc, minute, evaluation_function1, evaluation_function2,
}

-- What a row is sorted by, `general` in the ranking: totals in their ranges.
pub record Totals : Type 0 where
  pub score : ℤ
  pub penalty : ℕ
  pub time : ℕ

-- `ORDER BY score DESC, value1 DESC, value2 DESC`: the first row stands before the second.
abbrev pub Before : (ℤ × ℤ × ℤ) → (ℤ × ℤ × ℤ) → Type 0
Before (s, u, v) (s', u', v') = (s' <ℤ s) ⊎ (s ≡ s') × (u' <ℤ u) ⊎ (s ≡ s') × (u ≡ u') × (v' <ℤ v)

abbrev pub sort_key : ContestType → ℤ → Totals → ℤ × ℤ × ℤ
sort_key ct setting t = (
  t.score,
  evaluation_function1 ct t.score (pos t.penalty) setting (pos t.time),
  evaluation_function2 ct t.score (pos t.penalty) setting (pos t.time),
)

-- Whether a contest of the type ignores the penalty of its settings.
abbrev pub ignores_penalty : ContestType → Bool
ignores_penalty joi = true
ignores_penalty pck = true
ignores_penalty at_coder = false
ignores_penalty icpc = false

-- The comments: JOI by score, then less time; PCK by score, then fewer wrong answers, then less
-- time; AtCoder by score, then less time with the penalty for each wrong answer. The page of the
-- settings (ppweb/html/contests/each/management/setting_tmpl.html) has the penalty in minutes, for
-- the types that do not ignore it. ICPC has no comment, and is taken to be sorted as AtCoder is.
abbrev pub Outranks : ContestType → ℕ → Totals → Totals → Type 0
Outranks joi setting t t' = (t'.score <ℤ t.score) ⊎ (t.score ≡ t'.score) × (t.time < t'.time)
Outranks pck setting t t' =
    (t'.score <ℤ t.score)
    ⊎ (t.score ≡ t'.score) × (t.penalty < t'.penalty)
    ⊎ (t.score ≡ t'.score) × (t.penalty ≡ t'.penalty) × (t.time < t'.time)
Outranks _ setting t t' =
    (t'.score <ℤ t.score)
    ⊎ (t.score ≡ t'.score)
      × (t.time + t.penalty * (setting * 60_000_000_000)
          < t'.time + t'.penalty * (setting * 60_000_000_000))

-- Time and penalty together fit into an int64.
abbrev pub Fits : Totals → Type 0
Fits t = t.time + t.penalty * 60_000_000_000 < 2 ^ 63

neg64_pos : (n : ℕ) → n < 2 ^ 63 → (pos_part (neg64 (pos n)) ≡ 0) × (neg_part (neg64 (pos n)) ≡ n)
unfolding neg64 wrap64 ◌-ℤ◌
neg64_pos n h = ground arith

penalised :
    (t : Totals)
    → Fits t
    → (pos_part (sub64 (neg64 (pos t.time)) (mul64 (pos t.penalty) minute)) ≡ 0)
      × (neg_part (sub64 (neg64 (pos t.time)) (mul64 (pos t.penalty) minute))
          ≡ t.time + t.penalty * 60_000_000_000)
unfolding neg64 sub64 mul64 wrap64 ◌-ℤ◌ ◌*ℤ◌
penalised t h = ground arith

-- The SQL sorts by the described order where the contest type ignores the penalty of the settings, or
-- that is one minute, as long as a time with its penalties stays below 2^63 nanoseconds.
pub Before-Outranks :
    (ct : ContestType) (setting : ℕ) (t t' : Totals)
    → (ignores_penalty ct || setting == 1) ≡ true
    → Fits t
    → Fits t'
    → Before (sort_key ct (pos setting) t) (sort_key ct (pos setting) t') ↔ Outranks ct setting t t'
unfolding evaluation_function1 evaluation_function2
Before-Outranks joi setting t t' m f f' =
    ground (arith, neg64_pos t.time (omega arith), neg64_pos t'.time (omega arith))
Before-Outranks pck setting t t' m f f' = ground (
  arith,
  neg64_pos t.time (omega arith),
  neg64_pos t'.time (omega arith),
  neg64_pos t.penalty (omega arith),
  neg64_pos t'.penalty (omega arith),
)
Before-Outranks at_coder setting t t' m f f' =
    let one : setting ≡ 1 = ground arith in rw one (ground (arith, penalised t f, penalised t' f'))
Before-Outranks icpc setting t t' m f f' =
    let one : setting ≡ 1 = ground arith in rw one (ground (arith, penalised t f, penalised t' f'))
