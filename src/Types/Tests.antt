-- ===== src/Types/Tests.antt =====
-- lib/types/contest.go on concrete rows of a ranking.
use mathlib.Core.List.{Permᴰ}
use popcon_sc.Prelude.{
  neg64, sub64, mul64, wrap64, ◌-ℤ◌, ◌*ℤ◌, arith, refl, ◌≡◌, ◌↔◌, refl, true, [], ◌∷◌, pos, arith,
}
use popcon_sc.Types.Contest.{
  evaluation_function1, evaluation_function2, icpc, at_coder, RankingCell, zero_cell, Problems,
  general_score, general_time, general_penalty,
}
use popcon_sc.Types.Order.{general-perm}
use popcon_sc.Types.Evaluation.{Totals, Before, sort_key, Outranks, Before-Outranks}

abbrev first_cell : RankingCell
first_cell = record zero_cell { valid = true; time = pos 70; score = pos 100; penalty = pos 2 }

abbrev second_cell : RankingCell
second_cell = record zero_cell { valid = true; time = pos 30; score = pos 50; penalty = pos 1 }

abbrev cells : Problems
cells = (pos 0, first_cell) ∷ (pos 1, second_cell) ∷ []

abbrev swapped : Problems
swapped = (pos 1, second_cell) ∷ (pos 0, first_cell) ∷ []

general-perm_example :
    (general_score icpc cells ≡ general_score icpc swapped)
    × (general_time icpc cells ≡ general_time icpc swapped)
    × (general_penalty icpc cells ≡ general_penalty icpc swapped)
general-perm_example = general-perm icpc ∣ Permᴰ.swap refl refl ∣₁

abbrev faster : Totals
faster = record { score = pos 100; penalty = 1; time = 500 }

abbrev slower : Totals
slower = record { score = pos 100; penalty = 2; time = 400 }

Before-Outranks_example :
    Before (sort_key at_coder (pos 1) faster) (sort_key at_coder (pos 1) slower)
    ↔ Outranks at_coder 1 faster slower
Before-Outranks_example = Before-Outranks at_coder 1 faster slower refl (omega arith) (omega arith)

-- With a penalty of 20 minutes, three minutes without a wrong answer beat one minute with one, but
-- the SQL adds one minute only.
abbrev three_minutes : Totals
three_minutes = record { score = pos 100; penalty = 0; time = 180_000_000_000 }

abbrev one_wrong : Totals
one_wrong = record { score = pos 100; penalty = 1; time = 60_000_000_000 }

penalty_setting_ignored :
    Before (sort_key at_coder (pos 20) one_wrong) (sort_key at_coder (pos 20) three_minutes)
    × Outranks at_coder 20 three_minutes one_wrong
unfolding evaluation_function1 evaluation_function2 neg64 sub64 mul64 wrap64 ◌-ℤ◌ ◌*ℤ◌
penalty_setting_ignored = ground arith
