-- ===== src/Web/Management/Setting.antt =====
-- ppweb/contest_each.go: the setting of a contest.
pub mod Dates
use popcon_sc.Prelude.{
  ℕ, suc, ◌+◌, ◌*◌, ◌/◌, ◌%◌, ◌==◌, leb, ◌≡◌, Bool, true, false, not, ◌&&◌, ◌||◌, Option, none,
  some, List, [], ◌∷◌, ◌++◌, map, length, get_elem?, ℤ, pos, negsuc, ◌==ℤ◌, leb_ℤ, ltb_ℤ, add64,
  sub64, mul64, ◌+ℤ◌, Text, text, text_eq, ltb, if◌then◌else◌,
}
use popcon_sc.Types.Submission.{internal_error}
use popcon_sc.Types.Contest.{
  ContestType, joi, pck, at_coder, icpc, contest_type_to_string, JudgeType, perfect_match,
  running_code,
}
use popcon_sc.Codec.Decimal.{parse_int}
use popcon_sc.Database.{
  DbError, Result, ok, err, record_not_found, file_not_found, unknown_contest, duplicate,
}
use popcon_sc.Web.Rows.{
  ContestRow, SessionTemplateData, ProblemRow, Language, SubmissionView, CaseRow,
  RankingRowWithUserData, ScoreSetRow,
}
use popcon_sc.Web.Pages.{PageHelper, new_page_helper}
use popcon_sc.Web.Pagination.{PaginationHelper, new_pagination_helper}
use popcon_sc.Web.Handler.{
  Call, time_now, contest_find, contest_participation_first, description_load, contest_problem_list,
  contest_problem_list_light, contest_problem_find2, load_statement, load_checker, open_only,
  contests_ranking_count, contests_ranking_with_user_data, user_find_from_user_id,
  submission_view_count, submission_view_list, submission_view_find, submission_get_code,
  submission_get_case, submission_get_msg, language_active_list, language_list, language_find,
  contest_participation_add, contests_join, submission_add, judge_submit, submission_update_result,
  begin_dm, commit, submission_find, submission_list_with_pid, reset_submission,
  reset_submissions_of, contest_problem_delete, contests_problems_delete,
  submission_remove_for_problem, contest_delete, contests_delete,
  contest_problem_remove_all_with_table, submission_remove_all_with_table,
  contest_participation_remove, contest_update, description_update, contest_problem_count,
  problem_add, contests_problems_add, contest_problem_update, update_statement, update_checker,
  contest_problem_update_related_file, load_test_case_names, update_test_case_names,
  load_test_case_info, load_test_case, update_test_case, parse_multipart_form, form_file, seek_end,
  open_upload, Error, Answer, StatusCode, status_ok, status_bad_request, status_forbidden,
  status_not_found, status_request_entity_too_large, status_internal_server_error,
}
use popcon_sc.Web.Reply.{
  Location, contests, contest_top, submissions_of_user, ranking_first, management_top,
  management_problems, submissions_of, submission, management_related_files, management_testcases,
  managements_testcases, management_testcase, Message, no_message, illegal_id, no_such_submission,
  no_such_problem, illegal_contest_name, illegal_start, illegal_finish, start_is_fixed,
  finish_is_fixed, illegal_dates, contest_name_in_use, too_many_problems, illegal_problem_name,
  problem_number_in_use, illegal_parameter, SettingForm, ProblemForm, Page, top_page, problem_list,
  problem_view, ranking_page, submission_list, submission_view, submit_page, management_top_page,
  management_rejudge, management_setting, management_setting_of, management_problem_list,
  management_problem_setting, management_testcase_list, management_testcase_upload_all,
  management_testcase_setting, management_related_files_page, Response, status, redirect, page,
  file, aborted, Handler, give, reply, call, ◌>>=◌, ◌>>◌, ask, guard, expect, expect_nil, or_else,
  some_or, failed, not_found, bad_request, unless_unknown_problem, unless_unknown_language,
  unless_unknown_submission, unless_unknown_testcase, unless_file_not_found, Host, run, Form,
  wrap_form_str, wrap_form_int64, Method, get, post, other_method,
}
use popcon_sc.Web.Contest.{ContestEachPreparedData}
use popcon_sc.Web.Management.Problems.{is_legal_name}

-- The time zone of the server: dates such as "2006/01/02 15:04" as Unix seconds, and back.
pub record Zone : Type 0 where
  pub parse_in_location : Text → Option ℤ
  pub format_date : ℤ → Text
  pub format_time : ℤ → Text

-- The contest type that a text names.
unfoldable pub contest_type_named : Text → Option ContestType
unfolding contest_type_to_string
contest_type_named s =
    if text_eq (text (contest_type_to_string joi)) s
    then some joi
    else (if text_eq (text (contest_type_to_string pck)) s
        then some pck
        else (if text_eq (text (contest_type_to_string at_coder)) s
            then some at_coder
            else (if text_eq (text (contest_type_to_string icpc)) s then some icpc else none)))

abbrev pub read_setting_form : Form → SettingForm
read_setting_form form = record {
  start_date = wrap_form_str form (text "start_date");
  start_time = wrap_form_str form (text "start_time");
  finish_date = wrap_form_str form (text "finish_date");
  finish_time = wrap_form_str form (text "finish_time");
  description = wrap_form_str form (text "description");
  contest_name = wrap_form_str form (text "contest_name");
  contest_type = wrap_form_str form (text "contest_type");
  penalty = wrap_form_int64 form (text "penalty");
}

-- `time.Now().Add(2*time.Minute).Unix()`.
abbrev pub in_two_minutes : ℤ → ℤ
in_two_minutes now = now +ℤ pos 120

-- The form as it is shown again where the start is fixed: the field of the time has the date too.
unfoldable pub with_start : Zone → ℤ → SettingForm → SettingForm
with_start zone start f = record f {
  start_date = zone.format_date start;
  start_time = zone.format_date start ++ (text " " ++ zone.format_time start);
}

unfoldable pub with_finish : Zone → ℤ → SettingForm → SettingForm
with_finish zone finish f = record f {
  finish_date = zone.format_date finish;
  finish_time = zone.format_date finish ++ (text " " ++ zone.format_time finish);
}

-- The dates of the form, where they pass all checks. Two times are compared with clocks that are
-- read in between.
unfoldable pub read_dates : Zone → ContestRow → SettingForm → Handler (ℤ × ℤ)
unfolding with_start with_finish
read_dates zone contest f = do
  start ←
      some_or (page (management_setting illegal_start f))
        (zone.parse_in_location (f.start_date ++ (text " " ++ f.start_time)))
  now1 ← ask time_now
  guard (not (leb_ℤ contest.start_time (in_two_minutes now1) && not (contest.start_time ==ℤ start)))
      (page (management_setting start_is_fixed (with_start zone contest.start_time f)))
  finish ←
      some_or (page (management_setting illegal_finish f))
        (zone.parse_in_location (f.finish_date ++ (text " " ++ f.finish_time)))
  now2 ← ask time_now
  guard
      (not
        (leb_ℤ contest.finish_time (in_two_minutes now2) && not (contest.finish_time ==ℤ finish)))
      (page (management_setting finish_is_fixed (with_finish zone contest.finish_time f)))
  now3 ← ask time_now
  now4 ← ask time_now
  guard
      (not (
        leb_ℤ finish start
        || ((not (contest.start_time ==ℤ start) && ltb_ℤ start now3)
            || (not (contest.finish_time ==ℤ finish) && ltb_ℤ finish now4))))
      (page (management_setting illegal_dates f))
  give (start, finish)

unfoldable pub name_in_use : SettingForm → DbError → Response
name_in_use f duplicate = page (management_setting contest_name_in_use f)
name_in_use f other = status status_internal_server_error

-- By POST.
unfoldable pub save_setting : Zone → ContestEachPreparedData → SettingForm → Handler Unit
unfolding contest_type_named name_in_use
save_setting zone pdata f = do
  contest_type ← some_or (status status_bad_request) (contest_type_named f.contest_type)
  guard (is_legal_name f.contest_name) (page (management_setting illegal_contest_name f))
  dates ← read_dates zone pdata.contest f
  expect_nil (name_in_use f)
      (← ask (
        contest_update pdata.cid f.contest_name dates.0 dates.1 pdata.contest.admin contest_type
          f.penalty))
  updated ← ask (description_update pdata.cid f.description)
  reply (redirect (management_top pdata.cid))

-- "/management/setting".
unfoldable pub setting : Zone → ContestEachPreparedData → Method → Form → Handler Unit
setting zone pdata post form = save_setting zone pdata (read_setting_form form)
setting zone pdata get form = do
  desc ← ask (description_load pdata.cid)
  reply (page (management_setting_of pdata.contest (or_else [] desc)))
setting zone pdata other_method form = reply (status status_bad_request)
