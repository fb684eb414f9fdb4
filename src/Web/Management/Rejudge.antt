-- ===== src/Web/Management/Rejudge.antt =====
-- ppweb/contest_each.go: judging again, and removing a problem or a contest.
use popcon_sc.Prelude.{
  not, ◌&&◌, ◌||◌, List, [], ◌∷◌, ℤ, pos, ◌==ℤ◌, ltb_ℤ, Text, text, if◌then◌else◌,
}
use popcon_sc.Codec.Decimal.{parse_int}
use popcon_sc.Database.{DbError, unknown_submission, unknown_problem}
use popcon_sc.Web.Handler.{
  contest_problem_find2, judge_submit, begin_dm, commit, submission_find, submission_list_with_pid,
  reset_submission, reset_submissions_of, contest_problem_delete, contests_problems_delete,
  submission_remove_for_problem, contest_delete, contests_delete,
  contest_problem_remove_all_with_table, submission_remove_all_with_table,
  contest_participation_remove, status_ok, status_bad_request, status_internal_server_error,
}
use popcon_sc.Web.Reply.{
  contests, management_top, management_problems, Message, no_message, illegal_id,
  no_such_submission, no_such_problem, management_rejudge, Response, status, redirect, page,
  Handler, give, reply, ◌>>=◌, ◌>>◌, ask, guard, expect, expect_nil, failed, not_found, Form,
  wrap_form_int64, Method, get, post, other_method,
}
use popcon_sc.Web.Contest.{ContestEachPreparedData}

unfoldable pub respond_temp : Message → Handler Unit
respond_temp msg = reply (page (management_rejudge msg))

-- The answer that the function of the transaction writes before it returns its error.
unfoldable pub unknown_submission_page : DbError → Response
unknown_submission_page unknown_submission = page (management_rejudge no_such_submission)
unknown_submission_page other = status status_internal_server_error

unfoldable pub unknown_problem_page : DbError → Response
unknown_problem_page unknown_problem = page (management_rejudge no_such_problem)
unknown_problem_page other = status status_internal_server_error

-- A transaction that does not begin or commit leaves the response empty.
abbrev pub empty_page : DbError → Response
empty_page e = status status_ok

-- Target 1: one submission.
unfoldable pub rejudge_submission : ℤ → ℤ → Handler Unit
unfolding unknown_submission_page
rejudge_submission cid id = do
  expect_nil empty_page (← ask begin_dm)
  sid ← expect unknown_submission_page (← ask (submission_find cid id))
  updated ← ask (reset_submission cid sid)
  expect_nil empty_page (← ask commit)
  queued ← ask (judge_submit cid sid)
  reply (redirect (management_top cid))

-- The submissions go into the queue; an error is logged only.
unfoldable pub submit_all : ℤ → List ℤ → Handler Unit
submit_all cid [] = give tt
submit_all cid (sid ∷ sids) = do queued ← ask (judge_submit cid sid); submit_all cid sids

-- Target 2: all submissions of a problem.
unfoldable pub rejudge_problem : ℤ → ℤ → Handler Unit
unfolding unknown_problem_page
rejudge_problem cid id = do
  expect_nil empty_page (← ask begin_dm)
  cp ← expect unknown_problem_page (← ask (contest_problem_find2 cid id))
  sml ← expect failed (← ask (submission_list_with_pid cid cp.pid))
  updated ← ask (reset_submissions_of cid cp.pid)
  expect_nil empty_page (← ask commit)
  submit_all cid sml
  reply (redirect (management_top cid))

-- "/management/rejudge".
unfoldable pub rejudge : ContestEachPreparedData → Method → Form → Handler Unit
unfolding respond_temp
rejudge pdata get form = respond_temp no_message
rejudge pdata post form = do
  let target = wrap_form_int64 form (text "target")
  let id = wrap_form_int64 form (text "id")
  guard ((target ==ℤ pos 1 || target ==ℤ pos 2) && not (ltb_ℤ id (pos 0)))
      (page (management_rejudge illegal_id))
  if target ==ℤ pos 1 then rejudge_submission pdata.cid id else rejudge_problem pdata.cid id
rejudge pdata other_method form = reply (status status_bad_request)

-- "/management/remove/{pidx}".
unfoldable pub remove_problem : ContestEachPreparedData → Text → Handler Unit
remove_problem pdata pidx = do
  cp ← expect not_found (← ask (contest_problem_find2 pdata.cid (parse_int pidx).0))
  expect_nil failed (← ask (contest_problem_delete pdata.cid cp.pid))
  expect_nil failed (← ask (contests_problems_delete pdata.cid cp.pid))
  expect_nil failed (← ask (submission_remove_for_problem pdata.cid cp.pid))
  reply (redirect (management_problems pdata.cid))

-- "/management/remove": every step is tried, whatever became of the others.
unfoldable pub remove_contest : ContestEachPreparedData → Handler Unit
remove_contest pdata = do
  contest_gone ← ask (contest_delete pdata.cid)
  ranking_gone ← ask (contests_delete pdata.cid)
  problems_gone ← ask (contest_problem_remove_all_with_table pdata.cid)
  submissions_gone ← ask (submission_remove_all_with_table pdata.cid)
  participation_gone ← ask (contest_participation_remove pdata.cid)
  reply (redirect contests)
