-- ===== src/Web/Account.antt =====
-- ppweb/handler.go: login, logout, and a new password.
use popcon_sc.Prelude.{
  ℕ, suc, ◌+◌, ◌*◌, ◌/◌, ◌%◌, ◌==◌, ◌≡◌, Bool, true, false, not, ◌&&◌, ◌||◌, Option, none, some,
  List, [], ◌∷◌, ◌++◌, map, length, get_elem?, ℤ, pos, negsuc, ◌==ℤ◌, leb_ℤ, ltb_ℤ, add64, sub64,
  mul64, Text, text, text_eq, ltb, if◌then◌else◌,
}
use popcon_sc.Types.Submission.{internal_error}
use popcon_sc.Types.Contest.{
  ContestType, joi, pck, at_coder, icpc, contest_type_to_string, JudgeType, perfect_match,
  running_code,
}
use popcon_sc.Codec.Decimal.{parse_int}
use popcon_sc.Database.{
  DbError, Result, ok, err, record_not_found, file_not_found, unknown_contest, duplicate,
}
use popcon_sc.Web.Rows.{
  ContestRow, SessionTemplateData, UserRow, ProblemRow, Language, SubmissionView, CaseRow,
  RankingRowWithUserData, ScoreSetRow,
}
use popcon_sc.Web.Pages.{PageHelper, new_page_helper}
use popcon_sc.Web.Pagination.{PaginationHelper, new_pagination_helper}
use popcon_sc.Web.Handler.{
  Call, time_now, contest_find, contest_participation_first, description_load, contest_problem_list,
  contest_problem_list_light, contest_problem_find2, load_statement, load_checker, open_only,
  contests_ranking_count, contests_ranking_with_user_data, user_find_from_user_id,
  submission_view_count, submission_view_list, submission_view_find, submission_get_code,
  submission_get_case, submission_get_msg, language_active_list, language_list, language_find,
  contest_participation_add, contests_join, submission_add, judge_submit, submission_update_result,
  begin_dm, commit, submission_find, submission_list_with_pid, reset_submission,
  reset_submissions_of, contest_problem_delete, contests_problems_delete,
  submission_remove_for_problem, contest_delete, contests_delete,
  contest_problem_remove_all_with_table, submission_remove_all_with_table,
  contest_participation_remove, contest_update, description_update, contest_problem_count,
  problem_add, contests_problems_add, contest_problem_update, update_statement, update_checker,
  contest_problem_update_related_file, load_test_case_names, update_test_case_names,
  load_test_case_info, load_test_case, update_test_case, parse_multipart_form, form_file, seek_end,
  open_upload, can_create_contest, can_create_user, session_add, session_remove, set_session,
  mail_send_confirm_user, get_session_user_data, csrf_conf_token_expiration,
  token_generate_and_register, token_get_and_remove, user_update_password, contest_add, Error,
  Answer, StatusCode, status_ok, status_bad_request, status_forbidden, status_not_found,
  status_request_entity_too_large, status_internal_server_error,
}
use popcon_sc.Web.Reply.{
  failed_late, Location, contests, home, userinfo, login_for_password, comeback_to, contest_top,
  submissions_of_user, ranking_first, management_top, management_problems, submissions_of,
  submission, management_related_files, management_testcases, managements_testcases,
  management_testcase, Message, no_message, illegal_id, no_such_submission, no_such_problem,
  illegal_contest_name, illegal_start, illegal_finish, start_is_fixed, finish_is_fixed,
  illegal_dates, contest_name_in_use, wrong_password, not_enabled, mail_sent, mail_was_sent,
  token_is_illegal, token_is_over, password_too_long, password_too_short, passwords_differ,
  too_many_problems, illegal_problem_name, problem_number_in_use, illegal_parameter, SettingForm,
  ProblemForm, Page, top_page, problem_list, problem_view, ranking_page, submission_list,
  submission_view, submit_page, management_top_page, management_rejudge, management_setting,
  management_setting_of, management_problem_list, management_problem_setting,
  management_testcase_list, management_testcase_upload_all, management_testcase_setting,
  new_contest, login_page, update_password_page, management_related_files_page, Response, status,
  redirect, page, file, aborted, Handler, give, reply, call, ◌>>=◌, ◌>>◌, ask, guard, expect,
  expect_nil, or_else, some_or, failed, not_found, bad_request, unless_unknown_problem,
  unless_unknown_language, unless_unknown_submission, unless_unknown_testcase,
  unless_file_not_found, Host, run, Form, wrap_form_str, wrap_form_int64, Method, get, post,
  other_method,
}
pub mod Sessions
pub mod Tests

-- Whether "//" stands in a text.
unfoldable pub has_double_slash : Text → Bool
has_double_slash [] = false
has_double_slash (c ∷ []) = false
has_double_slash (c ∷ (d ∷ s)) =
    let rest = has_double_slash (d ∷ s) in if c == b'/' && d == b'/' then true else rest

-- `if len(comeback) == 0 { comeback = "/" }`.
abbrev back_url : Text → Text
back_url [] = text "/"
back_url (c ∷ s) = c ∷ s

-- The page of the login again, with a message.
unfoldable pub login_again : (DbError → Response) → Message → Text → Handler Unit
login_again r msg comeback = do
  can_create ← expect r (← ask can_create_user)
  reply (page (login_page msg comeback can_create))

-- A user whose account is not enabled yet.
unfoldable pub refuse_disabled : UserRow → Text → Handler Unit
unfolding login_again
refuse_disabled user comeback = elim user.email [
  | none ↦ login_again failed_late not_enabled comeback
  | some address ↦ (do
    sent ← expect failed_late (← ask (mail_send_confirm_user user.iid))
    login_again failed_late (if sent then mail_sent else mail_was_sent) comeback)
]

unfoldable pub open_session : ℤ → Text → Handler Unit
open_session iid comeback = do
  session ← expect failed (← ask (session_add iid))
  cookie ← ask (set_session session)
  reply (redirect (comeback_to comeback))

-- What follows on the row of the user, where there is one.
unfoldable pub log_in : (pass_hash : Text) (comeback : Text) → Result UserRow → Handler Unit
unfolding login_again refuse_disabled open_session
log_in pass_hash comeback (err e) = login_again failed wrong_password comeback
log_in pass_hash comeback (ok user) =
    if text_eq user.pass_hash pass_hash
    then (if user.enabled then open_session user.iid comeback else refuse_disabled user comeback)
    else login_again failed wrong_password comeback

-- The handler of "/login"; `sum512` is SHA-512.
unfoldable pub login : (sum512 : Text → Text) → Method → Form → Handler Unit
unfolding login_again log_in has_double_slash
login sum512 get form =
    login_again failed_late no_message (back_url (wrap_form_str form (text "comeback")))
login sum512 post form = do
  let comeback = back_url (wrap_form_str form (text "comeback"))
  guard (not (has_double_slash comeback || ltb 128 (length comeback))) (status status_bad_request)
  user ← ask (user_find_from_user_id (wrap_form_str form (text "loginID")))
  log_in (sum512 (wrap_form_str form (text "password"))) comeback user
login sum512 other_method form = reply (status status_bad_request)

-- The handler of "/logout". Without a session, the cookie's value is read through a nil pointer.
unfoldable pub logout : Option Text → Handler Unit
logout none = reply aborted
logout (some session) = do
  removed ← ask (session_remove session)
  cookie ← ask (set_session session)
  reply (redirect home)

-- `ParseRequestForUserData`; without a session, the user is sent to the login.
unfoldable pub session_user : Option Text → Handler UserRow
session_user none = reply (redirect login_for_password)
session_user (some session) = do
  found ← expect failed (← ask (get_session_user_data session))
  some_or (redirect login_for_password) found

-- What is wrong with a new password, typed twice.
unfoldable pub password_error : Text → Text → Option Message
password_error pass pass2 =
    if ltb 100 (length pass) || ltb 100 (length pass2)
    then some password_too_long
    else (if ltb (length pass) 5 || ltb (length pass2) 5
        then some password_too_short
        else (if text_eq pass pass2 then none else some passwords_differ))

save_password : ℤ → Text → Text → Option Message → Handler Unit
save_password iid next_token pass (some msg) = reply (page (update_password_page msg next_token))
save_password iid next_token pass none = do
  expect_nil failed (← ask (user_update_password iid pass))
  reply (redirect userinfo)

-- By POST: the token of the form is used up, and must have been made for this user.
unfoldable pub change_password : UserRow → (next_token : Text) → Form → Handler Unit
unfolding save_password password_error
change_password user next_token form = do
  let token = wrap_form_str form (text "token")
  let pass = wrap_form_str form (text "password")
  guard (not (text_eq token [])) (page (update_password_page token_is_illegal next_token))
  found ← expect failed (← ask (token_get_and_remove token))
  iid ← some_or (page (update_password_page token_is_over next_token)) found
  guard (iid ==ℤ user.iid) (status status_bad_request)
  save_password iid next_token pass
      (password_error pass (wrap_form_str form (text "password_conf")))

show_or_change_password : UserRow → Text → Method → Form → Handler Unit
unfolding change_password
show_or_change_password user token get form = reply (page (update_password_page no_message token))
show_or_change_password user token other form = change_password user token form

-- The handler of "/userinfo/update_password".
unfoldable pub update_password : Option Text → Method → Form → Handler Unit
unfolding session_user show_or_change_password
update_password session method form = do
  user ← session_user session
  exp ← expect failed (← ask csrf_conf_token_expiration)
  token ← expect failed (← ask (token_generate_and_register user.iid))
  show_or_change_password user token method form
