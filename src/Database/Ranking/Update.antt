-- ===== src/Database/Ranking/Update.antt =====
-- lib/database/contest_ranking.go: `RankingUpdate` writes nothing, or a complete row.
use popcon_sc.Prelude.{
  ◌≡◌, refl, sym, ap, ◌∙◌, subst, true, false, some, List, [], ◌∷◌, ℤ, ◌==ℤ◌, All, arith, ◌⊎◌, inl,
  inr, Option-cases, Bool-cases, eq_of_parts,
}
use popcon_sc.Types.Contest.{
  RankingCell, Problems, general_score, general_time, general_penalty, evaluation_function1,
  evaluation_function2,
}
use popcon_sc.Database.{DbError, ok, returns, begin_dm}
use popcon_sc.Database.Submissions.{Submission}
use popcon_sc.Database.Ranking.{
  Contest, RankingRow, Ranking, has_iid, scan_columns, find_row, ranking_get_row, cell_of, set_cell,
  Choice, stale, failed, chosen, choose_cell, general_of, write_column, update_row,
  ranking_cell_update, ranking_general_update, RankingHost, maximum_score, penalty_of, save_cell,
  update_chosen, ranking_update_body, ranking_update,
}
use popcon_sc.Database.Ranking.Columns.{
  IsTotalled, AreUsers, IsTotalledRanking, scan_columns-write_column, chosen-valid,
}

-- What a complete update makes of the row of its user.
abbrev pub totalled_row : Contest → ℤ → RankingCell → Problems → RankingRow → RankingRow
totalled_row cont pid c problems r =
    let g = general_of cont.ctype problems in
    record r {
      columns = write_column pid c r.columns;
      general = g;
      score = g.score;
      value1 = evaluation_function1 cont.ctype g.score g.penalty cont.penalty g.time;
      value2 = evaluation_function2 cont.ctype g.score g.penalty cont.penalty g.time;
    }

update_row-both :
    (iid : ℤ) (f g : RankingRow → RankingRow) (rows : List RankingRow)
    → ((r : RankingRow) → (f r).iid ≡ r.iid)
    → update_row iid g (update_row iid f rows) ≡ update_row iid (λ r. g (f r)) rows
update_row-both iid f g [] k = refl
update_row-both iid f g (r ∷ rows) k = ground (arith, k r, update_row-both iid f g rows k)

totalled_row-IsTotalled :
    (cont : Contest) (pid : ℤ) (c : RankingCell) (r : RankingRow)
    → c.valid ≡ true
    → IsTotalled cont.ctype cont.penalty
        (totalled_row cont pid c (set_cell pid c (scan_columns r.columns)) r)
unfolding general_of
totalled_row-IsTotalled cont pid c r v =
    let e = scan_columns-write_column pid c r.columns v in
    (
      ap (general_score cont.ctype) (sym e),
      ap (general_time cont.ctype) (sym e),
      ap (general_penalty cont.ctype) (sym e),
      refl,
      refl,
      refl,
    )

-- Rows of other users stay as they are.
update_row-other :
    (iid : ℤ) (f : RankingRow → RankingRow) (rows : List RankingRow)
    → has_iid iid rows ≡ false
    → update_row iid f rows ≡ rows
update_row-other iid f [] h = refl
update_row-other iid f (r ∷ rows) h = ground (arith, update_row-other iid f rows)

update_row-All :
    (P : RankingRow → Type 0) (iid : ℤ) (f : RankingRow → RankingRow) (rows : List RankingRow)
    (r : RankingRow)
    → All P rows
    → AreUsers rows
    → find_row iid rows ≡ some r
    → P (f r)
    → All P (update_row iid f rows)
update_row-All P iid f [] r a u h q = tt
update_row-All P iid f (x ∷ rows) r a u h q = elim (Bool-cases (x.iid ==ℤ iid)) [
  | inl y ↦
      let same : x.iid ≡ iid = ground (arith, eq_of_parts x.iid iid) in
      let e : update_row iid f (x ∷ rows) ≡ f x ∷ rows =
        ground (arith, update_row-other iid f rows (ap (λ i. has_iid i rows) (sym same) ∙ u.0)) in
      let found : x ≡ r = ground arith in
      subst (All P) (sym e) (subst (λ z. P (f z)) (sym found) q, a.1)
  | inr n ↦
      let e : update_row iid f (x ∷ rows) ≡ x ∷ update_row iid f rows = ground arith in
      subst (All P) (sym e) (a.0, update_row-All P iid f rows r a.1 u.1 (ground arith) q)
]

has_iid-update_row :
    (i iid : ℤ) (f : RankingRow → RankingRow) (rows : List RankingRow)
    → ((r : RankingRow) → (f r).iid ≡ r.iid)
    → has_iid i (update_row iid f rows) ≡ has_iid i rows
has_iid-update_row i iid f [] k = refl
has_iid-update_row i iid f (r ∷ rows) k = ground (arith, k r, has_iid-update_row i iid f rows k)

AreUsers-update_row :
    (iid : ℤ) (f : RankingRow → RankingRow) (rows : List RankingRow)
    → ((r : RankingRow) → (f r).iid ≡ r.iid)
    → AreUsers rows
    → AreUsers (update_row iid f rows)
AreUsers-update_row iid f [] k u = tt
AreUsers-update_row iid f (r ∷ rows) k u = (
  ground (arith, k r, has_iid-update_row r.iid iid f rows k),
  AreUsers-update_row iid f rows k u.1,
)

-- A body that returns has written nothing, or a complete row.
Written : RankingHost → Contest → List Submission → ℤ → ℤ → RankingCell → Ranking → Type 0
Written host cont subs iid pid rc t =
    (row : RankingRow) × (c : RankingCell) × (find_row iid t.rows ≡ some row)
    × (c.valid ≡ true)
    × ((ranking_update_body host cont subs iid pid rc t).1 ≡ record t {
      rows =
          update_row iid (totalled_row cont pid c (set_cell pid c (scan_columns row.columns)))
            t.rows;
    })

Choice-cases :
    (x : Choice)
    → (x ≡ stale) ⊎ ((e : DbError) × (x ≡ failed e)) ⊎ ((c : RankingCell) × (x ≡ chosen c))
Choice-cases stale = inl refl
Choice-cases (failed e) = inr (inl (e, refl))
Choice-cases (chosen c) = inr (inr (c, refl))

pub save_cell-written :
    (host : RankingHost) (cont : Contest) (iid pid : ℤ) (c : RankingCell) (problems : Problems)
    (t : Ranking)
    → (save_cell host cont iid pid c problems t).0 ≡ returns
    → (save_cell host cont iid pid c problems t).1
      ≡ record t { rows = update_row iid (totalled_row cont pid c problems) t.rows }
unfolding save_cell ranking_cell_update ranking_general_update general_of
save_cell-written host cont iid pid c problems t h =
    let g = general_of cont.ctype problems in
    let both =
      update_row-both iid (λ r. record r { columns = write_column pid c r.columns })
        (λ r. record r {
          general = g;
          score = g.score;
          value1 = evaluation_function1 cont.ctype g.score g.penalty cont.penalty g.time;
          value2 = evaluation_function2 cont.ctype g.score g.penalty cont.penalty g.time;
        })
        t.rows (λ r. refl) in
    ground (arith, both)

update_chosen-written :
    (host : RankingHost) (cont : Contest) (subs : List Submission) (iid pid : ℤ)
    (cell : RankingCell) (row : RankingRow) (t : Ranking)
    → cell.valid ≡ true
    → (update_chosen host cont subs iid pid (scan_columns row.columns) cell t).0 ≡ returns
    → (c : RankingCell) × (c.valid ≡ true)
      × ((update_chosen host cont subs iid pid (scan_columns row.columns) cell t).1 ≡ record t {
        rows =
            update_row iid
              (totalled_row cont pid c (set_cell pid c (scan_columns row.columns)))
              t.rows;
      })
unfolding update_chosen
update_chosen-written host cont subs iid pid cell row t v h =
    let c = record cell { penalty = penalty_of cont iid pid cell subs } in
    (
      c,
      v,
      ground (
        arith,
        save_cell-written host cont iid pid c (set_cell pid c (scan_columns row.columns)) t,
      ),
    )

ranking_update_body-Written :
    (host : RankingHost) (cont : Contest) (subs : List Submission) (iid pid : ℤ) (rc : RankingCell)
    (t : Ranking)
    → rc.valid ≡ true
    → (ranking_update_body host cont subs iid pid rc t).0 ≡ returns
    → ((ranking_update_body host cont subs iid pid rc t).1 ≡ t)
      ⊎ Written host cont subs iid pid rc t
unfolding ranking_update_body ranking_get_row Written
ranking_update_body-Written host cont subs iid pid rc t v h = elim (Option-cases host.row_error) [
  | inr (d, n) ↦ inl (ground arith)
  | inl n ↦ elim (Option-cases (find_row iid t.rows)) [
    | inl e ↦ inl (ground arith)
    | inr (row, e) ↦ elim (Option-cases (cell_of pid (scan_columns row.columns))) [
      | inl k ↦ inl (ground arith)
      | inr (cell, k) ↦
          elim (Choice-cases
            (choose_cell (maximum_score host iid pid subs) cont.start_time cell rc)) [
              | inl q ↦ inl (ground arith)
              | inr (inl (d, q)) ↦ inl (ground arith)
              | inr (inr (c, q)) ↦
                  let valid =
                    chosen-valid (maximum_score host iid pid subs) cont.start_time cell rc c v q in
                  let same : ranking_update_body host cont subs iid pid rc t
                      ≡ update_chosen host cont subs iid pid (scan_columns row.columns) c t =
                    ground arith in
                  let w =
                    update_chosen-written host cont subs iid pid c row t valid
                      (sym (ap (λ x. x.0) same) ∙ h) in
                  inr (row, w.0, e, w.1, ap (λ x. x.1) same ∙ w.2)
            ]
    ]
  ]
]

ranking_update-written :
    (host : RankingHost) (subs : List Submission) (iid pid : ℤ) (rc : RankingCell) (t : Ranking)
    (cont : Contest)
    → rc.valid ≡ true
    → host.contest ≡ ok cont
    → ((ranking_update host subs iid pid rc t).1 ≡ t)
      ⊎ ((ranking_update host subs iid pid rc t).1
          ≡ (ranking_update_body host cont subs iid pid rc t).1)
        × ((ranking_update_body host cont subs iid pid rc t).0 ≡ returns)
unfolding ranking_update begin_dm
ranking_update-written host subs iid pid rc t cont v h = ground arith

pub update-IsTotalledRanking :
    (host : RankingHost) (cont : Contest) (subs : List Submission) (iid pid : ℤ) (rc : RankingCell)
    (t : Ranking)
    → rc.valid ≡ true
    → host.contest ≡ ok cont
    → IsTotalledRanking cont.ctype cont.penalty t
    → IsTotalledRanking cont.ctype cont.penalty (ranking_update host subs iid pid rc t).1
unfolding Written
update-IsTotalledRanking host cont subs iid pid rc t v h i =
    elim (ranking_update-written host subs iid pid rc t cont v h) [
      | inl e ↦ subst (IsTotalledRanking cont.ctype cont.penalty) (sym e) i
      | inr (e, r) ↦ elim (ranking_update_body-Written host cont subs iid pid rc t v r) [
        | inl k ↦ subst (IsTotalledRanking cont.ctype cont.penalty) (sym (e ∙ k)) i
        | inr (row, c, found, valid, k) ↦
            let f = totalled_row cont pid c (set_cell pid c (scan_columns row.columns)) in
            subst (IsTotalledRanking cont.ctype cont.penalty) (sym (e ∙ k)) (
              update_row-All (IsTotalled cont.ctype cont.penalty) iid f t.rows row i.0 i.1 found
                  (totalled_row-IsTotalled cont pid c row valid),
              AreUsers-update_row iid f t.rows (λ r. refl) i.1,
            )
      ]
    ]
