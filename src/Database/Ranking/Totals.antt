-- ===== src/Database/Ranking/Totals.antt =====
-- lib/database/contest_ranking.go: in every ranking, the totals of every row belong to its cells.
use popcon_sc.Prelude.{◌≡◌, true, Option, List, [], ◌∷◌, ℤ}
use popcon_sc.Types.Contest.{RankingCell}
use popcon_sc.Database.{DbError, ok}
use popcon_sc.Database.Submissions.{Submission}
use popcon_sc.Database.Ranking.{
  Contest, Ranking, ranking_auto_migrate, ranking_user_add, ranking_problem_add, RankingHost,
  ranking_update,
}
use popcon_sc.Database.Ranking.Columns.{IsTotalledRanking}
use popcon_sc.Database.Ranking.Rows.{user_add-IsTotalledRanking, problem_add-IsTotalledRanking}
use popcon_sc.Database.Ranking.Update.{update-IsTotalledRanking}

-- One operation on the ranking of a contest, with what MySQL answers.
pub data Operation (cont : Contest) : Type 0 where
  user_add : Option DbError → ℤ → Operation cont
  problem_add : Option DbError → ℤ → Operation cont
  update :
      (host : RankingHost)
      → host.contest ≡ ok cont
      → List Submission
      → (iid pid : ℤ) (rc : RankingCell) → rc.valid ≡ true
      → Operation cont

abbrev pub perform : {cont : Contest} → Operation cont → Ranking → Ranking
perform (user_add error iid) t = (ranking_user_add error iid t).1
perform (problem_add error pid) t = (ranking_problem_add error pid t).1
perform (update host h subs iid pid rc v) t = (ranking_update host subs iid pid rc t).1

abbrev pub perform_all : {cont : Contest} → List (Operation cont) → Ranking → Ranking
perform_all [] t = t
perform_all (o ∷ rest) t = perform_all rest (perform o t)

perform-IsTotalledRanking :
    (cont : Contest) (o : Operation cont) (t : Ranking)
    → IsTotalledRanking cont.ctype cont.penalty t
    → IsTotalledRanking cont.ctype cont.penalty (perform o t)
perform-IsTotalledRanking cont (user_add error iid) t i =
    user_add-IsTotalledRanking cont.ctype cont.penalty error iid t i
perform-IsTotalledRanking cont (problem_add error pid) t i =
    problem_add-IsTotalledRanking cont.ctype cont.penalty error pid t i
perform-IsTotalledRanking cont (update host h subs iid pid rc v) t i =
    update-IsTotalledRanking host cont subs iid pid rc t v h i

perform_all-from :
    (cont : Contest) (l : List (Operation cont)) (t : Ranking)
    → IsTotalledRanking cont.ctype cont.penalty t
    → IsTotalledRanking cont.ctype cont.penalty (perform_all l t)
perform_all-from cont [] t i = i
perform_all-from cont (o ∷ rest) t i =
    perform_all-from cont rest (perform o t) (perform-IsTotalledRanking cont o t i)

-- In every ranking that starts empty, after any sequence of new users, new problems and updates by
-- valid cells, whatever statements fail: there is one row for each user at most, and the score, time
-- and penalty of a row, and what it is sorted by, are those of its cells.
pub perform_all-IsTotalledRanking :
    (cont : Contest) (l : List (Operation cont))
    → IsTotalledRanking cont.ctype cont.penalty (perform_all l ranking_auto_migrate)
unfolding ranking_auto_migrate
perform_all-IsTotalledRanking cont l = perform_all-from cont l ranking_auto_migrate (tt, tt)
