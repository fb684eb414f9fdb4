-- ===== src/Database/Ranking/Rows.antt =====
-- lib/database/contest_ranking.go: what new users and new problems do to a ranking whose totals
-- belong to its cells.
use popcon_sc.Prelude.{
  All-append, ◌≡◌, refl, sym, ◌∙◌, subst, true, false, Option, none, some, List, [], ◌∷◌, ◌++◌, map,
  if◌then◌else◌, ℤ, ◌==ℤ◌, All, arith, inl, inr, Bool-cases,
}
use popcon_sc.Types.Contest.{ContestType}
use popcon_sc.Database.{DbError}
use popcon_sc.Database.Ranking.{
  RankingRow, Ranking, has_iid, has_pid, new_row, ranking_user_add, add_column, ranking_problem_add,
}
use popcon_sc.Database.Ranking.Columns.{
  IsTotalled, AreUsers, IsTotalledRanking, new_row-IsTotalled, general-append,
}

has_iid-append :
    (iid : ℤ) (rows : List RankingRow) (r : RankingRow)
    → has_iid iid (rows ++ r ∷ []) ≡ (if has_iid iid rows then true else (r.iid ==ℤ iid))
has_iid-append iid [] r = ground arith
has_iid-append iid (q ∷ rows) r = ground (arith, has_iid-append iid rows r)

AreUsers-append :
    (rows : List RankingRow) (r : RankingRow)
    → AreUsers rows
    → has_iid r.iid rows ≡ false
    → AreUsers (rows ++ r ∷ [])
AreUsers-append [] r u h = (refl, tt)
AreUsers-append (q ∷ rows) r u h =
    (ground (arith, has_iid-append q.iid rows r), AreUsers-append rows r u.1 (ground arith))

pub user_add-IsTotalledRanking :
    (ct : ContestType) (setting : ℤ) (error : Option DbError) (iid : ℤ) (t : Ranking)
    → IsTotalledRanking ct setting t
    → IsTotalledRanking ct setting (ranking_user_add error iid t).1
unfolding ranking_user_add
user_add-IsTotalledRanking ct setting (some e) iid t i = i
user_add-IsTotalledRanking ct setting none iid t i = elim (Bool-cases (has_iid iid t.rows)) [
  | inl y ↦
      let e : (ranking_user_add none iid t).1 ≡ t = ground arith in
      subst (IsTotalledRanking ct setting) (sym e) i
  | inr n ↦
      let e : (ranking_user_add none iid t).1
          ≡ record t { rows = t.rows ++ new_row t.pids iid ∷ [] } =
        ground arith in
      subst (IsTotalledRanking ct setting) (sym e) (
        All-append (IsTotalled ct setting) t.rows (new_row t.pids iid ∷ []) i.0
            (new_row-IsTotalled ct setting t.pids iid, tt),
        AreUsers-append t.rows (new_row t.pids iid) i.1 n,
      )
]

add_column-IsTotalled :
    (ct : ContestType) (setting pid : ℤ) (r : RankingRow)
    → IsTotalled ct setting r
    → IsTotalled ct setting (add_column pid r)
add_column-IsTotalled ct setting pid r i =
    let g = general-append ct r.columns pid in
    (i.0 ∙ sym g.0, i.1 ∙ sym g.1, i.2 ∙ sym g.2, i.3, i.4, i.5)

map-rows :
    (ct : ContestType) (setting pid : ℤ) (rows : List RankingRow)
    → All (IsTotalled ct setting) rows
    → All (IsTotalled ct setting) (map (add_column pid) rows)
map-rows ct setting pid [] a = tt
map-rows ct setting pid (r ∷ rows) a =
    (add_column-IsTotalled ct setting pid r a.0, map-rows ct setting pid rows a.1)

has_iid-map :
    (iid pid : ℤ) (rows : List RankingRow)
    → has_iid iid (map (add_column pid) rows) ≡ has_iid iid rows
has_iid-map iid pid [] = refl
has_iid-map iid pid (r ∷ rows) = ground (arith, has_iid-map iid pid rows)

AreUsers-map :
    (pid : ℤ) (rows : List RankingRow) → AreUsers rows → AreUsers (map (add_column pid) rows)
AreUsers-map pid [] u = tt
AreUsers-map pid (r ∷ rows) u = (has_iid-map r.iid pid rows ∙ u.0, AreUsers-map pid rows u.1)

pub problem_add-IsTotalledRanking :
    (ct : ContestType) (setting : ℤ) (error : Option DbError) (pid : ℤ) (t : Ranking)
    → IsTotalledRanking ct setting t
    → IsTotalledRanking ct setting (ranking_problem_add error pid t).1
unfolding ranking_problem_add
problem_add-IsTotalledRanking ct setting (some e) pid t i = i
problem_add-IsTotalledRanking ct setting none pid t i = elim (Bool-cases (has_pid pid t.pids)) [
  | inl y ↦
      let e : (ranking_problem_add none pid t).1 ≡ t = ground arith in
      subst (IsTotalledRanking ct setting) (sym e) i
  | inr n ↦
      let e : (ranking_problem_add none pid t).1
          ≡ record { pids = t.pids ++ pid ∷ []; rows = map (add_column pid) t.rows } =
        ground arith in
      subst (IsTotalledRanking ct setting) (sym e)
        (map-rows ct setting pid t.rows i.0, AreUsers-map pid t.rows i.1)
]
