-- ===== src/Controller/Results.antt =====
-- ppjc/handlerv1.go: the handler "/judge/submissions/updateResult", which writes a result into the
-- table of submissions and then into the ranking.
use popcon_sc.Prelude.{
  ◌≡◌, ◌≢◌, refl, ap, ◌∙◌, Bool, true, false, Option, none, some, List, if◌then◌else◌, ℤ, pos,
  ltb_ℤ, ◌==ℤ◌, arith, Option-cases, Bool-cases, ◌⊎◌, inl, inr,
}
use popcon_sc.Types.Contest.{RankingCell}
use popcon_sc.Database.{DbError, Result, ok, err, begin_dm}
use popcon_sc.Database.Submissions.{
  Submission, Tables, Outside, find_sid, first_submission, UpdateHost, JudgeResult,
  submission_update_result, update_result_body,
}
use popcon_sc.Database.Submissions.View.{result_message}
use popcon_sc.Database.Submissions.Errors.{deliver_failed}
use popcon_sc.Database.Ranking.{
  Contest, RankingRow, Ranking, scan_columns, find_row, cell_of, chosen, choose_cell, compared,
  sub_time, RankingHost, maximum_score, penalty_of, ranking_update,
}
use popcon_sc.Database.Ranking.Shown.{IsAnswering, ranking_update-shown}

pub data HttpStatus : Type 0 where
  status_ok bad_request internal_server_error : HttpStatus

-- What the request holds, and what the database answers in turn.
pub record ResultHost : Type 0 where
  -- the form, its JSON and its file can be read
  pub parses : Bool
  pub update : UpdateHost
  pub contest : Result Contest
  pub find_error : Option DbError
  pub ranking : RankingHost

-- The cell of a result.
abbrev pub result_cell : Contest → ℤ → ℤ → JudgeResult → Submission → RankingCell
result_cell cont sid jid res sm = record {
  valid = true;
  sid = sid;
  jid = jid;
  time = sub_time sm.submit_time cont.start_time;
  score = res.score;
  penalty = pos 0;
}

-- The second half of the handler: the ranking, while the contest runs.
unfoldable pub rank_result :
    ResultHost → ℤ → ℤ → JudgeResult → Tables → Ranking → HttpStatus × Ranking
rank_result host sid jid res t ranking = elim host.contest [
  | err e ↦ (internal_server_error, ranking)
  | ok cont ↦ elim (first_submission host.find_error sid t) [
    | err e ↦ (internal_server_error, ranking)
    | ok sm ↦
        if ltb_ℤ sm.submit_time cont.finish_time
        then (
          elim (ranking_update host.ranking t.submissions sm.iid sm.pid
              (result_cell cont sid jid res sm) ranking).0 [
                | some e ↦ internal_server_error
                | none ↦ status_ok
              ],
          (ranking_update host.ranking t.submissions sm.iid sm.pid (result_cell cont sid jid res sm)
              ranking).1,
        )
        else (status_ok, ranking)
  ]
]

-- The handler.
unfoldable pub update_result_handler :
    ResultHost
    → ℤ
    → ℤ
    → JudgeResult
    → Tables
    → Outside
    → Ranking
    → HttpStatus × Tables × Outside × Ranking
unfolding rank_result
update_result_handler host sid jid res t o ranking =
    let written = submission_update_result host.update sid jid res t o in
    if host.parses
    then (elim written.0 [
      | some e ↦ (internal_server_error, written.1, written.2, ranking)
      | none ↦
          let ranked = rank_result host sid jid res written.1 ranking in
          (ranked.0, written.1, written.2, ranked.1)
    ])
    else (bad_request, t, o, ranking)

stale_returns :
    (host : UpdateHost) (sid jid : ℤ) (res : JudgeResult) (t : Tables) (o : Outside)
    (s : Submission)
    → (host.tx.begins ≡ none) × (host.tx.commits ≡ none) × (host.find_error ≡ none)
    → find_sid sid t.submissions ≡ some s
    → ltb_ℤ jid s.jid ≡ true
    → submission_update_result host sid jid res t o ≡ (none, t, o)
unfolding submission_update_result begin_dm update_result_body first_submission
stale_returns host sid jid res t o s w h e = ground arith

chosen_other :
    (maximum : Result Submission) (start : ℤ) (cell rc : RankingCell)
    → cell.valid ≡ true
    → (cell.sid ==ℤ rc.sid) ≡ false
    → ltb_ℤ cell.score rc.score ≡ true
    → choose_cell maximum start cell rc ≡ chosen rc
unfolding choose_cell compared
chosen_other maximum start cell rc v n l = ground arith

-- The bug: a result of an older judge, which the table of submissions rightly ignores, goes into the
-- ranking all the same where the cell shows another submission with fewer points: the handler
-- answers 200, the tables are as before, and the cell has the old jid and the old score.
pub stale_result_ranked :
    (host : ResultHost) (cont : Contest) (sid jid : ℤ) (res : JudgeResult) (t : Tables)
    (o : Outside) (ranking : Ranking) (s : Submission) (row : RankingRow) (cell : RankingCell)
    → (host.parses ≡ true) × (host.contest ≡ ok cont) × (host.find_error ≡ none)
    → (host.update.tx.begins ≡ none)
      × (host.update.tx.commits ≡ none)
      × (host.update.find_error ≡ none)
    → IsAnswering host.ranking
    → host.ranking.contest ≡ ok cont
    → find_sid sid t.submissions ≡ some s
    → ltb_ℤ jid s.jid ≡ true
    → ltb_ℤ s.submit_time cont.finish_time ≡ true
    → find_row s.iid ranking.rows ≡ some row
    → cell_of s.pid (scan_columns row.columns) ≡ some cell
    → (cell.valid ≡ true) × ((cell.sid ==ℤ sid) ≡ false) × (ltb_ℤ cell.score res.score ≡ true)
    → let after = update_result_handler host sid jid res t o ranking in
      (after.0 ≡ status_ok)
      × (after.1 ≡ t)
      × ((row' : RankingRow) × (c : RankingCell) × (find_row s.iid after.3.rows ≡ some row')
          × (cell_of s.pid (scan_columns row'.columns) ≡ some c)
          × (c.sid ≡ sid)
          × (c.jid ≡ jid)
          × (c.score ≡ res.score))
unfolding update_result_handler rank_result first_submission
stale_result_ranked host cont sid jid res t o ranking s row cell a b w q h e l f k c =
    let rc = result_cell cont sid jid res s in
    let stale = stale_returns host.update sid jid res t o s b h e in
    let other =
      chosen_other (maximum_score host.ranking s.iid s.pid t.submissions) cont.start_time cell rc
        c.0 c.1 c.2 in
    let done =
      ranking_update-shown host.ranking cont t.submissions s.iid s.pid rc ranking row cell rc w q
        refl f k other in
    let r = done.1 in
    let ranked : (update_result_handler host sid jid res t o ranking).3
        ≡ (ranking_update host.ranking t.submissions s.iid s.pid rc ranking).1 =
      ground (arith, stale, done.0) in
    (
      ground (arith, stale, done.0),
      ground (arith, stale),
      (
        r.0,
        record rc { penalty = penalty_of cont s.iid s.pid rc t.submissions },
        ap (λ x. find_row s.iid x.rows) ranked ∙ r.1,
        r.2,
        refl,
        refl,
        refl,
      ),
    )

ranking_update-failed :
    (host : RankingHost) (subs : List Submission) (iid pid : ℤ) (rc : RankingCell) (t : Ranking)
    → (ranking_update host subs iid pid rc t).0 ≢ none
    → (ranking_update host subs iid pid rc t).1 ≡ t
unfolding ranking_update begin_dm
ranking_update-failed host subs iid pid rc t h = ground (arith, h)

rank_result-failed :
    (host : ResultHost) (sid jid : ℤ) (res : JudgeResult) (t : Tables) (ranking : Ranking)
    → (rank_result host sid jid res t ranking).0 ≢ status_ok
    → (rank_result host sid jid res t ranking).1 ≡ ranking
unfolding rank_result first_submission
rank_result-failed host sid jid res t ranking h = elim (Option-cases host.find_error) [
  | inr (d, n) ↦ ground (arith, h)
  | inl n ↦ elim (Option-cases (find_sid sid t.submissions)) [
    | inl e ↦ ground (arith, h)
    | inr (s, e) ↦ go host.contest s refl e n
  ]
]
  where
    go :
        (c : Result Contest) (s : Submission)
        → host.contest ≡ c
        → find_sid sid t.submissions ≡ some s
        → host.find_error ≡ none
        → (rank_result host sid jid res t ranking).1 ≡ ranking
    go (err d) s c e n = ground arith
    go (ok cont) s c e n = ground (
      arith,
      h,
      ranking_update-failed host.ranking t.submissions s.iid s.pid (result_cell cont sid jid res s)
          ranking,
    )

rank_result-status :
    (host : ResultHost) (sid jid : ℤ) (res : JudgeResult) (t : Tables) (ranking : Ranking)
    → ((rank_result host sid jid res t ranking).0 ≡ status_ok)
      ⊎ ((rank_result host sid jid res t ranking).0 ≡ internal_server_error)
unfolding rank_result first_submission
rank_result-status host sid jid res t ranking = ground arith

-- A request that is not answered by 200 leaves the ranking as it was, and either the tables of
-- submissions as well, or the result was written there and the answer is 500.
pub update_result_handler-failed :
    (host : ResultHost) (sid jid : ℤ) (res : JudgeResult) (t : Tables) (o : Outside)
    (ranking : Ranking)
    → (update_result_handler host sid jid res t o ranking).0 ≢ status_ok
    → ((update_result_handler host sid jid res t o ranking).3 ≡ ranking)
      × (((update_result_handler host sid jid res t o ranking).1 ≡ t)
          ⊎ ((submission_update_result host.update sid jid res t o).0 ≡ none)
            × ((update_result_handler host sid jid res t o ranking).0 ≡ internal_server_error))
unfolding update_result_handler
update_result_handler-failed host sid jid res t o ranking h = (
  ground (
    arith,
    h,
    rank_result-failed host sid jid res (submission_update_result host.update sid jid res t o).1
        ranking,
  ),
  elim (Bool-cases host.parses) [
    | inr n ↦ inl (ground arith)
    | inl y ↦ elim (Option-cases (submission_update_result host.update sid jid res t o).0) [
      | inr (e, k) ↦
          inl (ground (arith, deliver_failed host.update (result_message sid jid res) t o))
      | inl k ↦ inr (
        k,
        ground (
          arith,
          h,
          rank_result-status host sid jid res
              (submission_update_result host.update sid jid res t o).1 ranking,
        ),
      )
    ]
  ],
)
