-- ===== src/Web/SignUp.antt =====
-- ppweb/handler.go: a new user signs up, and confirms the address.
use popcon_sc.Prelude.{
  ℕ, suc, ◌+◌, ◌*◌, ◌/◌, ◌%◌, ◌==◌, leb, ◌≡◌, Bool, true, false, not, ◌&&◌, ◌||◌, Option, none,
  some, List, [], ◌∷◌, ◌++◌, map, length, get_elem?, ℤ, pos, negsuc, ◌==ℤ◌, leb_ℤ, ltb_ℤ, add64,
  sub64, mul64, Text, text, text_eq, ltb, if◌then◌else◌,
}
use popcon_sc.Types.Submission.{internal_error}
use popcon_sc.Types.Contest.{ContestType, JudgeType, perfect_match, running_code}
use popcon_sc.Codec.Decimal.{parse_int}
use popcon_sc.Database.{
  DbError, Result, ok, err, record_not_found, file_not_found, unknown_contest, duplicate,
}
use popcon_sc.Web.Rows.{
  ContestRow, SessionTemplateData, UserRow, ProblemRow, Language, SubmissionView, CaseRow,
  RankingRowWithUserData, ScoreSetRow,
}
use popcon_sc.Web.Pages.{PageHelper, new_page_helper}
use popcon_sc.Web.Pagination.{PaginationHelper, new_pagination_helper}
use popcon_sc.Web.Handler.{
  Call, time_now, contest_find, contest_participation_first, description_load, contest_problem_list,
  contest_problem_list_light, contest_problem_find2, load_statement, load_checker, open_only,
  contests_ranking_count, contests_ranking_with_user_data, user_find_from_user_id,
  submission_view_count, submission_view_list, submission_view_find, submission_get_code,
  submission_get_case, submission_get_msg, language_active_list, language_list, language_find,
  contest_participation_add, contests_join, submission_add, judge_submit, submission_update_result,
  begin_dm, commit, submission_find, submission_list_with_pid, reset_submission,
  reset_submissions_of, contest_problem_delete, contests_problems_delete,
  submission_remove_for_problem, contest_delete, contests_delete,
  contest_problem_remove_all_with_table, submission_remove_all_with_table,
  contest_participation_remove, contest_update, description_update, contest_problem_count,
  problem_add, contests_problems_add, contest_problem_update, update_statement, update_checker,
  contest_problem_update_related_file, load_test_case_names, update_test_case_names,
  load_test_case_info, load_test_case, update_test_case, parse_multipart_form, form_file, seek_end,
  open_upload, can_create_contest, can_create_user, certification_with_email, signup_token_register,
  standard_signup_group, signup_token_check, confirm_token_get_and_remove, user_add,
  user_update_enabled, session_add, session_remove, set_session, mail_send_confirm_user,
  get_session_user_data, csrf_conf_token_expiration, token_generate_and_register,
  token_get_and_remove, user_update_password, contest_add, Error, Answer, StatusCode, status_ok,
  status_bad_request, status_forbidden, status_not_found, status_method_not_allowed,
  status_not_implemented, status_request_entity_too_large, status_internal_server_error,
}
use popcon_sc.Web.Reply.{
  Location, contests, home, userinfo, login_for_password, comeback_to, contest_top,
  submissions_of_user, ranking_first, management_top, management_problems, submissions_of,
  submission, management_related_files, management_testcases, managements_testcases,
  management_testcase, Message, no_message, illegal_id, no_such_submission, no_such_problem,
  illegal_contest_name, illegal_start, illegal_finish, start_is_fixed, finish_is_fixed,
  illegal_dates, contest_name_in_use, wrong_password, not_enabled, mail_sent, mail_was_sent,
  token_is_illegal, token_is_over, password_too_long, password_too_short, passwords_differ,
  too_many_problems, illegal_problem_name, problem_number_in_use, illegal_parameter, SignupError,
  no_token, token_too_old, user_id_too_long, illegal_user_id, user_name_too_long,
  user_name_too_short, pass_too_long, pass_too_short, pass_differs, email_too_long, illegal_email,
  already_in_use, SettingForm, ProblemForm, Page, top_page, problem_list, problem_view,
  ranking_page, submission_list, submission_view, submit_page, management_top_page,
  management_rejudge, management_setting, management_setting_of, management_problem_list,
  management_problem_setting, management_testcase_list, management_testcase_upload_all,
  management_testcase_setting, new_contest, signup_page, signup_mail_sent, account_confirmed,
  login_page, update_password_page, management_related_files_page, Response, status, late_status,
  redirect, page, file, aborted, Handler, give, reply, call, ◌>>=◌, ◌>>◌, ask, guard, expect,
  expect_nil, or_else, some_or, failed, failed_late, not_found, bad_request, unless_unknown_problem,
  unless_unknown_language, unless_unknown_submission, unless_unknown_testcase,
  unless_file_not_found, Host, run, Form, wrap_form_str, wrap_form_int64, Method, get, post,
  other_method,
}
use popcon_sc.Web.Account.{open_session}
pub mod Users
pub mod Tests

pub record SignupForm : Type 0 where
  pub token : Text
  pub user_id : Text
  pub user_name : Text
  pub email : Text
  pub password : Text
  pub password_conf : Text

abbrev pub read_signup_form : Form → SignupForm
read_signup_form form = record {
  token = wrap_form_str form (text "token");
  user_id = wrap_form_str form (text "userID");
  user_name = wrap_form_str form (text "userName");
  email = wrap_form_str form (text "email");
  password = wrap_form_str form (text "password");
  password_conf = wrap_form_str form (text "password_conf");
}

-- Letters, digits and "_" only.
unfoldable pub is_user_id : Text → Bool
is_user_id [] = true
is_user_id (c ∷ s) =
    let rest = is_user_id s in
    (((leb b'a' c && leb c b'z') || (leb b'A' c && leb c b'Z'))
      || ((leb b'0' c && leb c b'9') || c == b'_'))
    && rest

unfoldable pub user_id_errors : Text → List SignupError
unfolding is_user_id
user_id_errors uid =
    if ltb 128 (length uid)
    then user_id_too_long ∷ []
    else (if not (is_user_id uid) || length uid == 0 then illegal_user_id ∷ [] else [])

unfoldable pub user_name_errors : Text → List SignupError
user_name_errors name =
    if ltb 40 (length name)
    then user_name_too_long ∷ []
    else (if length name == 0 then user_name_too_short ∷ [] else [])

unfoldable pub pass_errors : Text → Text → List SignupError
pass_errors pass pass2 =
    if ltb 100 (length pass) || ltb 100 (length pass2)
    then pass_too_long ∷ []
    else (if ltb (length pass) 5 || ltb (length pass2) 5
        then pass_too_short ∷ []
        else (if text_eq pass pass2 then [] else pass_differs ∷ []))

-- The steps of the loop over the address: "@" first, and then ".".
unfoldable pub email_step : ℕ → Text → ℕ
email_step step [] = step
email_step step (c ∷ s) =
    let same = email_step step s in
    let next = email_step (suc step) s in
    if (step == 0 && c == b'@') || (step == 1 && c == b'.') then next else same

unfoldable pub email_errors : Text → List SignupError
unfolding email_step
email_errors email =
    if ltb 128 (length email)
    then email_too_long ∷ []
    else (if email_step 0 email == 2 then [] else illegal_email ∷ [])

-- An error of Redis is logged only: the form counts as one with a token then.
unfoldable pub token_errors : Text → Handler (List SignupError)
token_errors [] = give (no_token ∷ [])
token_errors (c ∷ token) = do
  checked ← ask (signup_token_check (c ∷ token))
  give (if or_else true checked then [] else token_too_old ∷ [])

-- What the page shows again of the form: the values without an error.
unfoldable pub signup_again : List SignupError → Text → SignupForm → Response
signup_again errors token f = page (
    signup_page errors token (elim (user_id_errors f.user_id) [ [] ↦ f.user_id | e ∷ es ↦ [] ])
      (elim (user_name_errors f.user_name) [ [] ↦ f.user_name | e ∷ es ↦ [] ])
      (elim (email_errors f.email) [ [] ↦ f.email | e ∷ es ↦ [] ]))

unfoldable pub signup_in_use : Text → SignupForm → DbError → Response
unfolding signup_again
signup_in_use token f duplicate = signup_again (already_in_use ∷ []) token f
signup_in_use token f other = status status_internal_server_error

-- A user with a mail to confirm, or one who is logged in at once.
unfoldable pub welcome : Bool → ℤ → Handler Unit
unfolding open_session
welcome true iid = do
  sent ← expect failed (← ask (mail_send_confirm_user iid))
  guard sent (status status_internal_server_error)
  reply (page signup_mail_sent)
welcome false iid = open_session iid (text "/")

unfoldable pub create_user : Text → SignupForm → Handler Unit
create_user token f = do
  gid ← expect failed (← ask standard_signup_group)
  certification ← expect failed (← ask certification_with_email)
  iid ←
      expect (signup_in_use token f)
        (← ask (user_add f.user_id f.user_name f.password f.email gid (not certification)))
  welcome certification iid

-- Nothing is wrong with the form, or the page again.
unfoldable pub create_or_refuse : List SignupError → Text → SignupForm → Handler Unit
unfolding signup_again
create_or_refuse [] token f = create_user token f
create_or_refuse (e ∷ errors) token f = reply (signup_again (e ∷ errors) token f)

abbrev pub form_errors : SignupForm → List SignupError
form_errors f =
    user_id_errors f.user_id
    ++ (user_name_errors f.user_name
        ++ (pass_errors f.password f.password_conf ++ email_errors f.email))

unfoldable pub sign_up_form : Text → SignupForm → Handler Unit
sign_up_form token f = do
  wrong ← token_errors f.token
  create_or_refuse (wrong ++ form_errors f) token f

-- `none` is a body that `ParseForm` cannot read.
unfoldable pub sign_up_by : Text → Method → Option Form → Handler Unit
sign_up_by token get form = reply (page (signup_page [] token [] [] []))
sign_up_by token post none = reply (status status_bad_request)
sign_up_by token post (some form) = sign_up_form token (read_signup_form form)
sign_up_by token other_method form = reply (status status_not_implemented)

-- Whether the session is one of a user; an error counts as none.
has_user : Result (Option UserRow) → Bool
has_user (ok (some user)) = true
has_user _ = false

unfoldable pub is_signed_in : Option Text → Handler Bool
unfolding has_user
is_signed_in none = give false
is_signed_in (some session) = do found ← ask (get_session_user_data session); give (has_user found)

-- The handler of "/signup/", with the session of the cookie.
unfoldable pub sign_up : Option Text → Method → Option Form → Handler Unit
sign_up session method form = do
  signed_in ← is_signed_in session
  guard (not signed_in) (redirect home)
  can_create ← expect failed (← ask can_create_user)
  guard can_create (redirect home)
  certification ← expect failed (← ask certification_with_email)
  exp ← expect failed (← ask csrf_conf_token_expiration)
  token ← expect failed (← ask signup_token_register)
  sign_up_by token method form

confirm_token : Text → Handler Unit
confirm_token token = do
  guard (not (text_eq token [])) (status status_forbidden)
  found ← expect failed (← ask (confirm_token_get_and_remove token))
  iid ← some_or (status status_forbidden) found
  expect_nil failed (← ask (user_update_enabled iid))
  reply (page account_confirmed)

-- The handler of "/signup/account_confirm".
unfoldable pub account_confirm : Method → Form → Handler Unit
unfolding confirm_token
account_confirm get form = confirm_token (wrap_form_str form (text "token"))
account_confirm other form = reply (status status_method_not_allowed)
