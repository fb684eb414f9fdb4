-- ===== src/Web/Contest/Submit.antt =====
-- ppweb/contest_each.go: joining a contest, and sending a program in.
use popcon_sc.Prelude.{
  not, ◌&&◌, ◌||◌, none, some, List, [], ◌∷◌, ℤ, pos, negsuc, ltb_ℤ, Text, text, text_eq,
}
use popcon_sc.Types.Submission.{internal_error}
use popcon_sc.Codec.Decimal.{parse_int}
use popcon_sc.Web.Handler.{
  contest_problem_list_light, contest_problem_find2, language_active_list, language_find,
  contest_participation_add, contests_join, submission_add, judge_submit, submission_update_result,
  status_bad_request,
}
use popcon_sc.Web.Reply.{
  contest_top, submission, submit_page, status, redirect, page, Handler, give, reply, ◌>>=◌, ◌>>◌,
  ask, guard, expect, expect_nil, or_else, failed, unless_unknown_problem, unless_unknown_language,
  Form, wrap_form_str, wrap_form_int64, Method, get, post, other_method,
}
use popcon_sc.Web.Contest.{ContestEachPreparedData}
use popcon_sc.Web.Contest.Views.{guard_accessible}

-- "/join".
unfoldable pub join : ContestEachPreparedData → Method → Handler Unit
join pdata get = do
  guard (not pdata.is_admin && not pdata.accessible) (status status_bad_request)
  expect_nil failed (← ask (contest_participation_add pdata.std.iid pdata.cid))
  expect_nil failed (← ask (contests_join pdata.cid pdata.std.iid))
  reply (redirect (contest_top pdata.cid))
join pdata other = reply (status status_bad_request)

-- The problem that is selected in the form at first. A text that is no number selects what
-- `ParseInt` returns beside its error.
unfoldable pub selected_problem : List Text → ℤ
selected_problem [] = negsuc 0
selected_problem (p ∷ rest) = (parse_int p).0

-- "/submit" by GET.
unfoldable pub submit_form : ContestEachPreparedData → Form → Handler Unit
unfolding selected_problem
submit_form pdata form = do
  list ← ask (contest_problem_list_light pdata.cid)
  lang ← ask language_active_list
  reply (
      page
        (submit_page (or_else [] list) (or_else [] lang) (selected_problem (form (text "prob")))))

-- What becomes of a submission that does not get into the queue.
unfoldable pub enqueue : (cid sid : ℤ) → Handler Unit
enqueue cid sid = do
  queued ← ask (judge_submit cid sid)
  elim queued [
    | none ↦ give tt
    | some e ↦ (do
      updated ←
          ask (submission_update_result cid sid (pos 0) internal_error (pos 0) (pos 0) (pos 0))
      give tt)
  ]

-- "/submit" by POST.
unfoldable pub submit_code : ContestEachPreparedData → Form → Handler Unit
unfolding enqueue
submit_code pdata form = do
  let lid = wrap_form_int64 form (text "lang")
  let pid = wrap_form_int64 form (text "prob")
  let code = wrap_form_str form (text "code")
  guard (not (ltb_ℤ lid (pos 0) || (ltb_ℤ pid (pos 0) || text_eq code [])))
      (status status_bad_request)
  prob ←
      expect (unless_unknown_problem status_bad_request)
        (← ask (contest_problem_find2 pdata.cid pid))
  language ← expect (unless_unknown_language status_bad_request) (← ask (language_find lid))
  sid ← expect failed (← ask (submission_add pdata.cid prob.pid pdata.std.iid lid code))
  enqueue pdata.cid sid
  reply (redirect (submission pdata.cid sid))

-- "/submit".
unfoldable pub submit : ContestEachPreparedData → Method → Form → Handler Unit
unfolding submit_form submit_code
submit pdata method form = do
  guard_accessible pdata
  elim method [
    | get ↦ submit_form pdata form
    | post ↦ submit_code pdata form
    | other_method ↦ reply (status status_bad_request)
  ]
