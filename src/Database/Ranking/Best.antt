-- ===== src/Database/Ranking/Best.antt =====
-- lib/database/contest_ranking.go: which submission a cell shows when results arrive in any order.
use popcon_sc.Prelude.{
  ℕ, ◌≡◌, ◌≢◌, refl, sym, ap, ◌∙◌, subst, true, false, none, some, List, [], ◌∷◌, ℤ, ltb_ℤ, ◌==ℤ◌,
  ◌<ℤ◌, ◌≤ℤ◌, All, arith, get_elem?, Option-cases, zero, suc, ◌⊎◌, inl, inr,
}
use popcon_sc.Types.Contest.{RankingCell, zero_cell}
use popcon_sc.Database.{Result, ok}
use popcon_sc.Database.Submissions.{Submission, submission_maximum_score}
use popcon_sc.Database.Ranking.{stale, failed, chosen, choose_cell, compared, rejudged}

-- The cell after a result, where the writing succeeds. The penalty, which `RankingUpdate` then counts
-- anew, stays as the result has it; no comparison reads it.
abbrev pub next_cell : Result Submission → ℤ → RankingCell → RankingCell → RankingCell
next_cell maximum start cell rc = elim (choose_cell maximum start cell rc) [
  | stale ↦ cell
  | failed e ↦ cell
  | chosen c ↦ c
]

-- The cell after the results of a list, in its order, each with what `SubmissionMaximumScore` gives.
abbrev pub shown : ℤ → List (Result Submission × RankingCell) → RankingCell → RankingCell
shown start [] cell = cell
shown start ((maximum, rc) ∷ rest) cell = shown start rest (next_cell maximum start cell rc)

-- a is better than b or as good: more points, or as many with a submission that is not later.
abbrev pub NotWorse : RankingCell → RankingCell → Type 0
NotWorse a b = (b.score ≤ℤ a.score) × ((b.score <ℤ a.score) ⊎ (a.sid ≤ℤ b.sid))

-- First results: valid, and of different submissions.
abbrev pub AreFirst : List (Result Submission × RankingCell) → Type 0
AreFirst [] = Unit {0}
AreFirst ((maximum, rc) ∷ rest) =
    (rc.valid ≡ true) × All (λ r. (r.1.sid ==ℤ rc.sid) ≡ false) rest × AreFirst rest

NotWorse-trans : (a b c : RankingCell) → NotWorse a b → NotWorse b c → NotWorse a c
NotWorse-trans a b c h k = ground arith

-- A result of another submission than the one of the cell.
next_cell-NotWorse :
    (maximum : Result Submission) (start : ℤ) (cell rc : RankingCell)
    → cell.valid ≡ true
    → (rc.sid ==ℤ cell.sid) ≡ false
    → NotWorse (next_cell maximum start cell rc) cell
      × NotWorse (next_cell maximum start cell rc) rc
      × ((next_cell maximum start cell rc ≡ cell) ⊎ (next_cell maximum start cell rc ≡ rc))
unfolding choose_cell compared
next_cell-NotWorse maximum start cell rc v d = ground arith

-- One of the results of a list.
abbrev pub Among : RankingCell → List (Result Submission × RankingCell) → Type 0
Among c [] = ⊥
Among c ((maximum, rc) ∷ rest) = (c ≡ rc) ⊎ Among c rest

shown-NotWorse :
    (start : ℤ) (l : List (Result Submission × RankingCell)) (cell : RankingCell)
    → cell.valid ≡ true
    → All (λ r. (r.1.sid ==ℤ cell.sid) ≡ false) l
    → AreFirst l
    → NotWorse (shown start l cell) cell
      × All (λ r. NotWorse (shown start l cell) r.1) l
      × ((shown start l cell ≡ cell) ⊎ Among (shown start l cell) l)
shown-NotWorse start [] cell v d f = (ground arith, tt, inl refl)
shown-NotWorse start ((maximum, rc) ∷ rest) cell v d f =
    let n = next_cell maximum start cell rc in
    let s = shown start rest n in
    let here = next_cell-NotWorse maximum start cell rc v d.0 in
    let ready : (n.valid ≡ true) × All (λ r. (r.1.sid ==ℤ n.sid) ≡ false) rest = elim here.2 [
      | inl e ↦ (
        ap (λ c. c.valid) e ∙ v,
        subst (λ c. All (λ r. (r.1.sid ==ℤ c.sid) ≡ false) rest) (sym e) d.1,
      )
      | inr e ↦ (
        ap (λ c. c.valid) e ∙ f.0,
        subst (λ c. All (λ r. (r.1.sid ==ℤ c.sid) ≡ false) rest) (sym e) f.1,
      )
    ] in
    let ih = shown-NotWorse start rest n ready.0 ready.1 f.2 in
    let from : (s ≡ cell) ⊎ ((s ≡ rc) ⊎ Among s rest) = elim ih.2 [
      | inr a ↦ inr (inr a)
      | inl e ↦ elim here.2 [ inl k ↦ inl (e ∙ k) | inr k ↦ inr (inl (e ∙ k)) ]
    ] in
    (NotWorse-trans s n cell ih.0 here.0, (NotWorse-trans s n rc ih.0 here.1, ih.1), from)

Among-All :
    (l : List (Result Submission × RankingCell)) (c rc : RankingCell)
    → All (λ r. (r.1.sid ==ℤ rc.sid) ≡ false) l
    → Among c l
    → (c.sid ==ℤ rc.sid) ≢ true
Among-All [] c rc a h e = h
Among-All ((maximum, d) ∷ rest) c rc a (inl h) e = ground arith
Among-All ((maximum, d) ∷ rest) c rc a (inr h) e = Among-All rest c rc a.1 h e

Among-NotWorse :
    (l : List (Result Submission × RankingCell)) (c b : RankingCell)
    → All (λ r. NotWorse b r.1) l
    → Among c l
    → NotWorse b c
Among-NotWorse [] c b a h = absurd h
Among-NotWorse ((maximum, d) ∷ rest) c b a (inl h) = subst (λ x. NotWorse b x) (sym h) a.0
Among-NotWorse ((maximum, d) ∷ rest) c b a (inr h) = Among-NotWorse rest c b a.1 h

-- Two results of one submission in a list are one.
Among-unique :
    (l : List (Result Submission × RankingCell)) (a b : RankingCell)
    → AreFirst l
    → Among a l
    → Among b l
    → (a.sid ==ℤ b.sid) ≡ true
    → a ≡ b
Among-unique [] a b f h k e = absurd h
Among-unique ((maximum, rc) ∷ rest) a b f (inl h) (inl k) e = h ∙ sym k
Among-unique ((maximum, rc) ∷ rest) a b f (inr h) (inr k) e = Among-unique rest a b f.2 h k e
Among-unique ((maximum, rc) ∷ rest) a b f (inl h) (inr k) e =
    absurd (Among-All rest b rc f.1 k (ground arith))
Among-unique ((maximum, rc) ∷ rest) a b f (inr h) (inl k) e =
    absurd (Among-All rest a rc f.1 h (ground arith))

shown-first :
    (start : ℤ) (l : List (Result Submission × RankingCell))
    → AreFirst l
    → l ≢ []
    → All (λ r. NotWorse (shown start l zero_cell) r.1) l × Among (shown start l zero_cell) l
unfolding choose_cell
shown-first start [] f n = absurd (n refl)
shown-first start ((maximum, rc) ∷ rest) f n =
    let r = shown-NotWorse start rest rc f.0 f.1 f.2 in ((r.0, r.1), r.2)

submission_maximum_score-some :
    (iid pid : ℤ) (subs : List Submission) (i : ℕ) (x : Submission)
    → get_elem? subs i ≡ some x
    → (x.iid ==ℤ iid) ≡ true
    → (x.pid ==ℤ pid) ≡ true
    → submission_maximum_score iid pid subs ≢ none
unfolding submission_maximum_score
submission_maximum_score-some iid pid [] i x g u p m = cc
submission_maximum_score-some iid pid (s ∷ subs) zero x g u p m = ground arith
submission_maximum_score-some iid pid (s ∷ subs) (suc i) x g u p m =
    ground (arith, submission_maximum_score-some iid pid subs i x g u p)

-- No submission of the user and the problem has more points than the one found.
submission_maximum_score-ge :
    (iid pid : ℤ) (subs : List Submission) (i : ℕ) (x sm : Submission)
    → get_elem? subs i ≡ some x
    → (x.iid ==ℤ iid) ≡ true
    → (x.pid ==ℤ pid) ≡ true
    → submission_maximum_score iid pid subs ≡ some sm
    → x.score ≤ℤ sm.score
unfolding submission_maximum_score
submission_maximum_score-ge iid pid [] i x sm g u p m = cc
submission_maximum_score-ge iid pid (s ∷ subs) zero x sm g u p m =
    elim (Option-cases (submission_maximum_score iid pid subs)) [
      | inl e ↦ ground arith
      | inr (y, e) ↦ ground arith
    ]
submission_maximum_score-ge iid pid (s ∷ subs) (suc i) x sm g u p m =
    elim (Option-cases (submission_maximum_score iid pid subs)) [
      | inl e ↦ absurd (submission_maximum_score-some iid pid subs i x g u p e)
      | inr (y, e) ↦ ground (arith, submission_maximum_score-ge iid pid subs i x y g u p e)
    ]

-- The bug: a rejudge gives the shown submission fewer points, and another one of the user has more.
-- The cell then names the best submission, with fewer points than this submission has.
pub rejudge_mixes :
    (start iid pid : ℤ) (subs : List Submission) (cell rc : RankingCell) (sm x : Submission) (i : ℕ)
    → cell.valid ≡ true
    → (cell.sid ==ℤ rc.sid) ≡ true
    → ltb_ℤ cell.jid rc.jid ≡ true
    → ltb_ℤ rc.score cell.score ≡ true
    → submission_maximum_score iid pid subs ≡ some sm
    → get_elem? subs i ≡ some x
    → (x.iid ==ℤ iid) ≡ true
    → (x.pid ==ℤ pid) ≡ true
    → rc.score <ℤ x.score
    → ((next_cell (ok sm) start cell rc).sid ≡ sm.sid)
      × ((next_cell (ok sm) start cell rc).score <ℤ sm.score)
unfolding choose_cell rejudged
rejudge_mixes start iid pid subs cell rc sm x i v s j p m g u q l =
    ground (arith, submission_maximum_score-ge iid pid subs i x sm g u q m)

-- The first results of different submissions: in whatever order they arrive, the cell shows in the
-- end one of them, with the most points, and of those with the most points the first submission. The penalty of the cell is left out.
pub shown_best :
    (start : ℤ) (l l' : List (Result Submission × RankingCell))
    → AreFirst l
    → AreFirst l'
    → l ≢ []
    → ((c : RankingCell) → Among c l → Among c l')
    → ((c : RankingCell) → Among c l' → Among c l)
    → (shown start l zero_cell ≡ shown start l' zero_cell)
      × Among (shown start l zero_cell) l
      × All (λ r. NotWorse (shown start l zero_cell) r.1) l
shown_best start l l' f f' n h k =
    let r = shown-first start l f n in
    let a = shown start l zero_cell in
    let among' = h a r.1 in
    let r' = shown-first start l' f' (λ e. subst (Among a) e among') in
    let b = shown start l' zero_cell in
    let ab = Among-NotWorse l b a r.0 (k b r'.1) in
    let ba = Among-NotWorse l' a b r'.0 among' in
    (Among-unique l a b f r.1 (k b r'.1) (ground arith), r.1, r.0)
