-- ===== src/Web/Contest/Views.antt =====
-- ppweb/contest_each.go: the pages that show a contest, its problems and its ranking.
use popcon_sc.Prelude.{
  ℕ, not, ◌||◌, Option, none, some, List, [], ◌∷◌, get_elem?, ℤ, pos, negsuc, leb_ℤ, ltb_ℤ, add64,
  sub64, mul64, Text, text, if◌then◌else◌,
}
use popcon_sc.Codec.Decimal.{parse_int}
use popcon_sc.Web.Rows.{RankingRowWithUserData}
use popcon_sc.Web.Pages.{new_page_helper}
use popcon_sc.Web.Handler.{
  description_load, contest_problem_list, contest_problem_find2, load_statement, open_only,
  contests_ranking_count, contests_ranking_with_user_data, status_not_found,
}
use popcon_sc.Web.Reply.{
  contest_top, ranking_first, top_page, problem_list, problem_view, ranking_page, status, redirect,
  page, file, aborted, Handler, reply, ◌>>=◌, ◌>>◌, ask, guard, expect, or_else, failed, not_found,
  unless_file_not_found, Form, wrap_form_int64,
}
use popcon_sc.Web.Contest.{ContestEachPreparedData}

abbrev pub contents_per_page : ℕ
contents_per_page = 50

abbrev pub related_files_per_problem : ℤ
related_files_per_problem = pos 5

-- "/".
unfoldable pub top : ContestEachPreparedData → Handler Unit
top pdata = do
  desc ← ask (description_load pdata.cid)
  reply (
      page (
        top_page (or_else [] desc) (not (pdata.is_finished || (pdata.joined || pdata.is_admin)))
          pdata.accessible pdata.is_admin))

-- `if !pdata.Accessible { RespondRedirection(...); return }`.
abbrev pub guard_accessible : ContestEachPreparedData → Handler Unit
guard_accessible pdata = guard pdata.accessible (redirect (contest_top pdata.cid))

-- "/problems/".
unfoldable pub problems : ContestEachPreparedData → Handler Unit
problems pdata = do
  guard_accessible pdata
  prob_list ← ask (contest_problem_list pdata.cid)
  reply (page (problem_list (or_else [] prob_list)))

-- "/problems/{pidx}".
unfoldable pub problem : ContestEachPreparedData → Text → Handler Unit
problem pdata pidx = do
  guard_accessible pdata
  prob ← expect not_found (← ask (contest_problem_find2 pdata.cid (parse_int pidx).0))
  stat ← expect failed (← ask (load_statement pdata.cid prob.pid))
  reply (page (problem_view prob stat))

-- `cp.RelatedFiles[id]`, where `none` is the panic out of range.
index : List Text → ℤ → Option Text
index names (pos n) = get_elem? names n
index names (negsuc n) = none

send_related_file : ℤ → Option Text → Handler Unit
send_related_file cid none = reply aborted
send_related_file cid (some name) = do
  contents ← expect (unless_file_not_found status_not_found) (← ask (open_only cid name))
  reply (file contents)

-- "/related_files/{pidx}/{id}".
unfoldable pub related_file : ContestEachPreparedData → Text → Text → Handler Unit
unfolding send_related_file index
related_file pdata pidx id_text = do
  guard_accessible pdata
  let id = (parse_int id_text).0
  guard (not (ltb_ℤ id (pos 0) || leb_ℤ related_files_per_problem id)) (status status_not_found)
  cp ← expect failed (← ask (contest_problem_find2 pdata.cid (parse_int pidx).0))
  send_related_file pdata.cid (index cp.related_files id)

-- The loop that numbers the rows: the first row of page p has rank 50 * (p - 1) + 1.
unfoldable pub ranks : ℤ → ℤ → List RankingRowWithUserData → List (RankingRowWithUserData × ℤ)
ranks page_number i [] = []
ranks page_number i (row ∷ rows) =
    (row, add64 (add64 (mul64 (pos contents_per_page) (sub64 page_number (pos 1))) i) (pos 1))
    ∷ ranks page_number (add64 i (pos 1)) rows

-- "/ranking".
unfoldable pub ranking : ContestEachPreparedData → Form → Handler Unit
unfolding ranks
ranking pdata form = do
  guard_accessible pdata
  let p = wrap_form_int64 form (text "p")
  let page_number = if leb_ℤ p (pos 0) then pos 1 else p
  count ← expect failed (← ask (contests_ranking_count pdata.cid))
  rows ←
      expect failed
        (← ask (
          contests_ranking_with_user_data pdata.cid (pos contents_per_page)
            (mul64 (sub64 page_number (pos 1)) (pos contents_per_page))))
  probs ← expect failed (← ask (contest_problem_list pdata.cid))
  elim (new_page_helper page_number count contents_per_page 3) [
    | none ↦ reply (redirect (ranking_first pdata.cid))
    | some helper ↦ reply (page (ranking_page (ranks page_number (pos 0) rows) probs helper))
  ]
