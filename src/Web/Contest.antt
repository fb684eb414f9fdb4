-- ===== src/Web/Contest.antt =====
-- ppweb/contest_each.go: a contest as its visitor sees it. `PrepareVariables` decides what the visitor
-- may do; the children are the handlers under "/contests/{cid}/" but for those under "management".
use popcon_sc.Prelude.{
  ℕ, suc, ◌+◌, ◌*◌, ◌/◌, ◌%◌, ◌≡◌, Bool, true, false, not, ◌&&◌, ◌||◌, Option, none, some, List, [],
  ◌∷◌, ◌++◌, map, length, get_elem?, ℤ, pos, negsuc, ◌==ℤ◌, leb_ℤ, ltb_ℤ, add64, sub64, mul64, Text,
  text, text_eq, ltb, if◌then◌else◌,
}
use popcon_sc.Types.Submission.{internal_error}
use popcon_sc.Types.Contest.{ContestType, JudgeType, perfect_match, running_code}
use popcon_sc.Codec.Decimal.{parse_int}
use popcon_sc.Database.{
  DbError, Result, ok, err, record_not_found, file_not_found, unknown_contest, duplicate,
}
use popcon_sc.Web.Rows.{
  ContestRow, SessionTemplateData, ProblemRow, Language, SubmissionView, CaseRow,
  RankingRowWithUserData, ScoreSetRow,
}
use popcon_sc.Web.Pages.{PageHelper, new_page_helper}
use popcon_sc.Web.Pagination.{PaginationHelper, new_pagination_helper}
use popcon_sc.Web.Handler.{
  Call, time_now, contest_find, contest_participation_first, description_load, contest_problem_list,
  contest_problem_list_light, contest_problem_find2, load_statement, load_checker, open_only,
  contests_ranking_count, contests_ranking_with_user_data, user_find_from_user_id,
  submission_view_count, submission_view_list, submission_view_find, submission_get_code,
  submission_get_case, submission_get_msg, language_active_list, language_list, language_find,
  contest_participation_add, contests_join, submission_add, judge_submit, submission_update_result,
  begin_dm, commit, submission_find, submission_list_with_pid, reset_submission,
  reset_submissions_of, contest_problem_delete, contests_problems_delete,
  submission_remove_for_problem, contest_delete, contests_delete,
  contest_problem_remove_all_with_table, submission_remove_all_with_table,
  contest_participation_remove, contest_update, description_update, contest_problem_count,
  problem_add, contests_problems_add, contest_problem_update, update_statement, update_checker,
  contest_problem_update_related_file, load_test_case_names, update_test_case_names,
  load_test_case_info, load_test_case, update_test_case, parse_multipart_form, form_file, seek_end,
  Error, Answer, StatusCode, status_ok, status_bad_request, status_forbidden, status_not_found,
  status_request_entity_too_large, status_internal_server_error,
}
use popcon_sc.Web.Reply.{
  Location, contests, contest_top, submissions_of_user, ranking_first, management_top,
  management_problems, submissions_of, submission, management_related_files, management_testcases,
  managements_testcases, management_testcase, Message, no_message, illegal_id, no_such_submission,
  no_such_problem, illegal_contest_name, illegal_start, illegal_finish, start_is_fixed,
  finish_is_fixed, illegal_dates, contest_name_in_use, too_many_problems, illegal_problem_name,
  problem_number_in_use, illegal_parameter, SettingForm, ProblemForm, Page, top_page, problem_list,
  problem_view, ranking_page, submission_list, submission_view, submit_page, management_top_page,
  management_rejudge, management_setting, management_setting_of, management_problem_list,
  management_problem_setting, management_testcase_list, management_testcase_upload_all,
  management_testcase_setting, management_related_files_page, Response, status, redirect, page,
  file, aborted, Handler, give, reply, call, ◌>>=◌, ◌>>◌, ask, guard, expect, expect_nil, or_else,
  failed, not_found, bad_request, unless_unknown_problem, unless_unknown_language,
  unless_unknown_submission, unless_unknown_testcase, unless_file_not_found, Host, run, Form,
  wrap_form_str, wrap_form_int64, Method, get, post, other_method,
}
pub mod Views
pub mod Submissions
pub mod Submit
pub mod Queue

pub record ContestEachPreparedData : Type 0 where
  pub cid : ℤ
  pub std : SessionTemplateData
  pub contest : ContestRow
  pub joined : Bool
  pub is_admin : Bool
  pub is_special_admin : Bool
  pub is_started : Bool
  pub is_finished : Bool
  pub accessible : Bool

-- `ContestParticipationCheck` of lib/database/contest_participation.go: has joined, is an admin.
unfoldable pub contest_participation_check : Result Bool → Result (Bool × Bool)
contest_participation_check (ok admin) = ok (true, admin)
contest_participation_check (err record_not_found) = ok (false, false)
contest_participation_check (err e) = err e

-- The fields of the prepared data that follow from the rows and the clock.
unfoldable pub prepare :
    ℤ → SessionTemplateData → ContestRow → Bool × Bool → ℤ → ContestEachPreparedData
prepare cid std contest (joined, admin) now =
    let is_special_admin = contest.admin ==ℤ std.iid in
    let is_admin = if is_special_admin then true else admin in
    let is_started = leb_ℤ contest.start_time now in
    let is_finished = leb_ℤ contest.finish_time now in
    record {
      cid = cid;
      std = std;
      contest = contest;
      joined = joined;
      is_admin = is_admin;
      is_special_admin = is_special_admin;
      is_started = is_started;
      is_finished = is_finished;
      accessible = (joined && is_started) || (is_finished || is_admin);
    }

abbrev unless_unknown_contest : DbError → Response
unless_unknown_contest unknown_contest = status status_not_found
unless_unknown_contest other = status status_internal_server_error

-- `PrepareVariables`, with the answers to its errors in ppweb/contest_page.go.
unfoldable pub prepare_variables : ℤ → SessionTemplateData → Handler ContestEachPreparedData
unfolding contest_participation_check prepare
prepare_variables cid std = do
  contest ← expect unless_unknown_contest (← ask (contest_find cid))
  row ← ask (contest_participation_first std.iid cid)
  joined_admin ← expect unless_unknown_contest (contest_participation_check row)
  now ← ask time_now
  give (prepare cid std contest joined_admin now)
