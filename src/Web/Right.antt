-- ===== src/Web/Right.antt =====
-- ppweb/contest_each.go: the right that each call of a handler asks for.
use popcon_sc.Prelude.{Bool, true, false, ℤ, ◌==ℤ◌}
use popcon_sc.Web.Handler.{
  Call, time_now, contest_find, contest_participation_first, description_load, contest_problem_list,
  contest_problem_list_light, contest_problem_find2, load_statement, load_checker, open_only,
  contests_ranking_count, contests_ranking_with_user_data, user_find_from_user_id,
  submission_view_count, submission_view_list, submission_view_find, submission_get_code,
  submission_get_case, submission_get_msg, language_active_list, language_list, language_find,
  contest_participation_add, contests_join, submission_add, judge_submit, submission_update_result,
  begin_dm, commit, submission_find, submission_list_with_pid, reset_submission,
  reset_submissions_of, contest_problem_delete, contests_problems_delete,
  submission_remove_for_problem, contest_delete, contests_delete,
  contest_problem_remove_all_with_table, submission_remove_all_with_table,
  contest_participation_remove, contest_update, description_update, contest_problem_count,
  problem_add, contests_problems_add, contest_problem_update, update_statement, update_checker,
  contest_problem_update_related_file, load_test_case_names, update_test_case_names,
  load_test_case_info, load_test_case, update_test_case, parse_multipart_form, form_file, seek_end,
  can_create_contest, contest_add, open_upload, certification_with_email, signup_token_register,
  signup_token_check, standard_signup_group, user_add, user_update_enabled,
  confirm_token_get_and_remove, can_create_user, session_add, session_remove, set_session,
  mail_send_confirm_user, get_session_user_data, csrf_conf_token_expiration,
  token_generate_and_register, token_get_and_remove, user_update_password,
}

-- The rights that the calls ask for: anyone may make it, a visitor who may see the contest, one who
-- may see the submissions of a user, a visitor who joins for himself, one who submits for himself,
-- and an admin.
pub data Right : Type 0 where
  anyone insider admin : Right
  reader_of joining submitting : (iid : ℤ) → Right

abbrev pub right_of : Call → Right
right_of time_now = anyone
right_of (description_load cid) = anyone
right_of (submission_view_find sid cid) = anyone
right_of (submission_get_code cid sid) = anyone
right_of (submission_get_case cid sid) = anyone
right_of (submission_get_msg cid sid) = anyone
right_of (contest_problem_list cid) = insider
right_of (contest_problem_list_light cid) = insider
right_of (contest_problem_find2 cid pidx) = insider
right_of (load_statement cid pid) = insider
right_of (open_only cid name) = insider
right_of (contests_ranking_count cid) = insider
right_of (contests_ranking_with_user_data cid limit offset) = insider
right_of (user_find_from_user_id user_id) = insider
right_of language_active_list = insider
right_of (language_find lid) = insider
right_of (judge_submit cid sid) = insider
right_of (submission_update_result cid sid jid result score time mem) = insider
right_of (submission_view_count cid iid lang prob stat) = reader_of iid
right_of (submission_view_list cid iid lang prob stat offset limit) = reader_of iid
right_of (contest_participation_add iid cid) = joining iid
right_of (contests_join cid iid) = joining iid
right_of (submission_add cid pid iid lid code) = submitting iid
right_of _ = admin

-- Whether a call is about this contest or about none.
abbrev pub concerns : ℤ → Call → Bool
concerns c time_now = true
concerns c (contest_find cid) = cid ==ℤ c
concerns c (contest_participation_first _ cid) = cid ==ℤ c
concerns c (description_load cid) = cid ==ℤ c
concerns c (contest_problem_list cid) = cid ==ℤ c
concerns c (contest_problem_list_light cid) = cid ==ℤ c
concerns c (contest_problem_find2 cid _) = cid ==ℤ c
concerns c (load_statement cid _) = cid ==ℤ c
concerns c (load_checker cid _) = cid ==ℤ c
concerns c (open_only cid _) = cid ==ℤ c
concerns c (contests_ranking_count cid) = cid ==ℤ c
concerns c (contests_ranking_with_user_data cid _ _) = cid ==ℤ c
concerns c (user_find_from_user_id _) = true
concerns c (submission_view_count cid _ _ _ _) = cid ==ℤ c
concerns c (submission_view_list cid _ _ _ _ _ _) = cid ==ℤ c
concerns c (submission_view_find _ cid) = cid ==ℤ c
concerns c (submission_get_code cid _) = cid ==ℤ c
concerns c (submission_get_case cid _) = cid ==ℤ c
concerns c (submission_get_msg cid _) = cid ==ℤ c
concerns c language_active_list = true
concerns c language_list = true
concerns c (language_find _) = true
concerns c (contest_participation_add _ cid) = cid ==ℤ c
concerns c (contests_join cid _) = cid ==ℤ c
concerns c (submission_add cid _ _ _ _) = cid ==ℤ c
concerns c (judge_submit cid _) = cid ==ℤ c
concerns c (submission_update_result cid _ _ _ _ _ _) = cid ==ℤ c
concerns c begin_dm = true
concerns c commit = true
concerns c (submission_find cid _) = cid ==ℤ c
concerns c (submission_list_with_pid cid _) = cid ==ℤ c
concerns c (reset_submission cid _) = cid ==ℤ c
concerns c (reset_submissions_of cid _) = cid ==ℤ c
concerns c (contest_problem_delete cid _) = cid ==ℤ c
concerns c (contests_problems_delete cid _) = cid ==ℤ c
concerns c (submission_remove_for_problem cid _) = cid ==ℤ c
concerns c (contest_delete cid) = cid ==ℤ c
concerns c (contests_delete cid) = cid ==ℤ c
concerns c (contest_problem_remove_all_with_table cid) = cid ==ℤ c
concerns c (submission_remove_all_with_table cid) = cid ==ℤ c
concerns c (contest_participation_remove cid) = cid ==ℤ c
concerns c (contest_update cid _ _ _ _ _ _) = cid ==ℤ c
concerns c (description_update cid _) = cid ==ℤ c
concerns c (contest_problem_count cid) = cid ==ℤ c
concerns c (problem_add cid _ _ _ _ _ _) = cid ==ℤ c
concerns c (contests_problems_add cid _) = cid ==ℤ c
concerns c (contest_problem_update cid _) = cid ==ℤ c
concerns c (update_statement cid _ _) = cid ==ℤ c
concerns c (update_checker cid _ _ _) = cid ==ℤ c
concerns c (contest_problem_update_related_file cid _ _) = cid ==ℤ c
concerns c (load_test_case_names cid _) = cid ==ℤ c
concerns c (update_test_case_names cid _ _ _) = cid ==ℤ c
concerns c (load_test_case_info cid _ _) = cid ==ℤ c
concerns c (load_test_case cid _ _ _) = cid ==ℤ c
concerns c (update_test_case cid _ _ _) = cid ==ℤ c
concerns c parse_multipart_form = true
concerns c form_file = true
concerns c seek_end = true
concerns c (open_upload _) = true
concerns c can_create_contest = true
concerns c can_create_user = true
concerns c certification_with_email = true
concerns c signup_token_register = false
concerns c (signup_token_check _) = false
concerns c standard_signup_group = true
concerns c (user_add _ _ _ _ _ _) = false
concerns c (user_update_enabled _) = false
concerns c (confirm_token_get_and_remove _) = false
concerns c (session_add _) = false
concerns c (session_remove _) = false
concerns c (set_session _) = false
concerns c (mail_send_confirm_user _) = false
concerns c (get_session_user_data _) = true
concerns c csrf_conf_token_expiration = true
concerns c (token_generate_and_register _) = false
concerns c (token_get_and_remove _) = false
concerns c (user_update_password _ _) = false
concerns c (contest_add _ _ _ _ _ _) = false
