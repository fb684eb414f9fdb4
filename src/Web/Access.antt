-- ===== src/Web/Access.antt =====
-- ppweb/contest_each.go: what a visitor of a contest may do and see.
pub mod Contest
pub mod Management
pub mod Rights
use popcon_sc.Prelude.{
  Option, none, some, ◌≡◌, refl, Bool, true, false, not, ◌&&◌, ◌||◌, List, [], ◌∷◌, ℤ, pos, ◌==ℤ◌,
  All, arith, Text, if◌then◌else◌,
}
use popcon_sc.Database.{DbError, Result, ok, err}
use popcon_sc.Web.Rows.{
  ContestRow, SessionTemplateData, ProblemRow, Language, SubmissionView, CaseRow,
  RankingRowWithUserData, ScoreSetRow,
}
use popcon_sc.Web.Handler.{
  Call, time_now, contest_find, contest_participation_first, description_load, contest_problem_list,
  contest_problem_list_light, contest_problem_find2, load_statement, load_checker, open_only,
  contests_ranking_count, contests_ranking_with_user_data, user_find_from_user_id,
  submission_view_count, submission_view_list, submission_view_find, submission_get_code,
  submission_get_case, submission_get_msg, language_active_list, language_list, language_find,
  contest_participation_add, contests_join, submission_add, judge_submit, submission_update_result,
  begin_dm, commit, submission_find, submission_list_with_pid, reset_submission,
  reset_submissions_of, contest_problem_delete, contests_problems_delete,
  submission_remove_for_problem, contest_delete, contests_delete,
  contest_problem_remove_all_with_table, submission_remove_all_with_table,
  contest_participation_remove, contest_update, description_update, contest_problem_count,
  problem_add, contests_problems_add, contest_problem_update, update_statement, update_checker,
  contest_problem_update_related_file, load_test_case_names, update_test_case_names,
  load_test_case_info, load_test_case, update_test_case, parse_multipart_form, form_file, seek_end,
  can_create_contest, contest_add, open_upload, certification_with_email, signup_token_register,
  signup_token_check, standard_signup_group, user_add, user_update_enabled,
  confirm_token_get_and_remove, can_create_user, session_add, session_remove, set_session,
  mail_send_confirm_user, get_session_user_data, csrf_conf_token_expiration,
  token_generate_and_register, token_get_and_remove, user_update_password, Error, Answer,
  StatusCode, status_ok, status_bad_request, status_forbidden, status_not_found,
  status_request_entity_too_large, status_internal_server_error,
}
use popcon_sc.Web.Reply.{
  Location, contests, contest_top, submissions_of_user, ranking_first, management_top,
  management_problems, submissions_of, submission, management_related_files, management_testcases,
  managements_testcases, management_testcase, Message, no_message, illegal_id, no_such_submission,
  no_such_problem, illegal_contest_name, illegal_start, illegal_finish, start_is_fixed,
  finish_is_fixed, illegal_dates, contest_name_in_use, too_many_problems, illegal_problem_name,
  problem_number_in_use, illegal_parameter, SettingForm, ProblemForm, Page, top_page, problem_list,
  problem_view, ranking_page, submission_list, submission_view, submit_page, management_top_page,
  management_rejudge, management_setting, management_setting_of, management_problem_list,
  management_problem_setting, management_testcase_list, management_testcase_upload_all,
  management_testcase_setting, management_related_files_page, Response, status, late_status,
  redirect, page, file, aborted, Handler, give, reply, call, ◌>>=◌, ◌>>◌, ask, guard, expect,
  expect_nil, or_else, failed, not_found, bad_request, unless_unknown_problem,
  unless_unknown_language, unless_unknown_submission, unless_unknown_testcase,
  unless_file_not_found, Host, run, Form, wrap_form_str, wrap_form_int64, Method, get, post,
  other_method,
}
use popcon_sc.Web.Contest.{ContestEachPreparedData}
use popcon_sc.Web.Right.{
  Right, anyone, insider, admin, reader_of, joining, submitting, right_of, concerns,
}

abbrev pub sees_all : ContestEachPreparedData → Bool
sees_all pdata = pdata.is_finished || pdata.is_admin

abbrev pub sees_problems : ContestEachPreparedData → Bool
sees_problems pdata = pdata.accessible || pdata.is_admin

abbrev pub has_right : ContestEachPreparedData → Right → Bool
has_right pdata anyone = true
has_right pdata insider = sees_problems pdata
has_right pdata admin = pdata.is_admin
has_right pdata (reader_of iid) = pdata.accessible && (sees_all pdata || iid ==ℤ pdata.std.iid)
has_right pdata (joining iid) = not (sees_problems pdata) && iid ==ℤ pdata.std.iid
has_right pdata (submitting iid) = pdata.accessible && iid ==ℤ pdata.std.iid

-- What a response may show.
abbrev pub may_show : ContestEachPreparedData → Page → Bool
may_show pdata (top_page description join_button enabled management_button) =
    (not enabled || pdata.accessible) && (not management_button || pdata.is_admin)
may_show pdata (problem_list problems) = sees_problems pdata
may_show pdata (problem_view problem statement) = sees_problems pdata
may_show pdata (ranking_page rows problems helper) = sees_problems pdata
may_show pdata (submission_list all_enabled rows problems languages current max pages) =
    sees_problems pdata
may_show pdata (submission_view view cases code msg) = sees_all pdata || view.iid ==ℤ pdata.std.iid
may_show pdata (submit_page problems languages prob) = sees_problems pdata
may_show pdata _ = pdata.is_admin

abbrev pub may_send : ContestEachPreparedData → Response → Bool
may_send pdata (status code) = true
may_send pdata (late_status code) = true
may_send pdata (redirect location) = true
may_send pdata (page p) = may_show pdata p
may_send pdata (file contents) = sees_problems pdata
may_send pdata aborted = true

abbrev pub is_allowed : ContestEachPreparedData → Call → Bool
is_allowed pdata c = concerns pdata.cid c && has_right pdata (right_of c)

-- Every call on every path of a handler, and every response, is one that the visitor has the right
-- to, whatever is answered.
abbrev pub IsAllowed : ContestEachPreparedData → {A : Type 0} → Handler A → Type 0
IsAllowed pdata (give a) = Unit
IsAllowed pdata (reply r) = may_send pdata r ≡ true
IsAllowed pdata (call c k) = (is_allowed pdata c ≡ true) × ((a : Answer c) → IsAllowed pdata (k a))

module _ (pdata : ContestEachPreparedData) where
  -- A handler in two parts.
  pub IsAllowed->>= :
      {A B : Type 0} (m : Handler A) (f : A → Handler B)
      → IsAllowed pdata m
      → ((a : A) → IsAllowed pdata (f a))
      → IsAllowed pdata (m >>= f)
  IsAllowed->>= (give a) f p q = q a
  IsAllowed->>= (reply r) f p q = p
  IsAllowed->>= (call c k) f p q = (p.0, λ a. IsAllowed->>= (k a) f (p.1 a) q)

  -- What stands behind a guard may use its condition.
  pub IsAllowed-guard :
      (b : Bool) (r : Response) (h : Handler Unit)
      → may_send pdata r ≡ true
      → (b ≡ true → IsAllowed pdata h)
      → IsAllowed pdata (guard b r >> h)
  IsAllowed-guard true r h p q = q refl
  IsAllowed-guard false r h p q = p

  -- An error ends the handler by a response, and a value goes on.
  pub IsAllowed-expect :
      {A B : Type 0} (r : DbError → Response) (x : Result A) (f : A → Handler B)
      → ((e : DbError) → may_send pdata (r e) ≡ true)
      → ((a : A) → IsAllowed pdata (f a))
      → IsAllowed pdata (expect r x >>= f)
  IsAllowed-expect r (ok a) f p q = q a
  IsAllowed-expect r (err e) f p q = p e

  pub IsAllowed-expect_nil :
      {B : Type 0} (r : DbError → Response) (x : Error) (h : Handler B)
      → ((e : DbError) → may_send pdata (r e) ≡ true)
      → IsAllowed pdata h
      → IsAllowed pdata (expect_nil r x >>= λ u. h)
  IsAllowed-expect_nil r none h p q = q
  IsAllowed-expect_nil r (some e) h p q = p e

  -- What is allowed on every path is so in every run.
  pub IsAllowed-run :
      (host : Host) (past : List Call) (h : Handler Unit)
      → IsAllowed pdata h
      → All (λ c. is_allowed pdata c ≡ true) (run host past h).0
        × (may_send pdata (run host past h).1 ≡ true)
  IsAllowed-run host past (give a) p = (tt, refl)
  IsAllowed-run host past (reply r) p = (tt, p)
  IsAllowed-run host past (call c k) p =
      let rest = IsAllowed-run host (c ∷ past) (k (host past c)) (p.1 (host past c)) in
      ((p.0, rest.0), rest.1)
