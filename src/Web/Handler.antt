-- ===== src/Web/Handler.antt =====
-- ppweb: what a handler of the web server is made of. A handler is the tree of the calls that it
-- makes of the database, of the controller and of the clock, with what it does for each answer; a
-- branch ends with the response.
use popcon_sc.Prelude.{ℕ, Bool, Option, List, ℤ, Text}
use popcon_sc.Types.Submission.{SubmissionStatusType}
use popcon_sc.Types.Contest.{ContestType, JudgeType}
use popcon_sc.Database.{DbError, Result}
use popcon_sc.Web.Rows.{
  ContestRow, ProblemRow, Language, SubmissionView, UserRow, CaseRow, RankingRowWithUserData,
  ScoreSetRow,
}

-- The calls, by the names of the methods of `mainDB`, `ppjcClient`, `mainFS` and of the rows.
pub data Call : Type 0 where
  -- the clock, in Unix seconds
  time_now : Call
  contest_find : (cid : ℤ) → Call
  contest_participation_first : (iid cid : ℤ) → Call
  description_load : (cid : ℤ) → Call
  contest_problem_list contest_problem_list_light : (cid : ℤ) → Call
  contest_problem_find2 : (cid pidx : ℤ) → Call
  load_statement load_checker : (cid pid : ℤ) → Call
  -- of a related file, by its name
  open_only : (cid : ℤ) (name : Text) → Call
  contests_ranking_count : (cid : ℤ) → Call
  contests_ranking_with_user_data : (cid limit offset : ℤ) → Call
  user_find_from_user_id : Text → Call
  submission_view_count : (cid iid lang prob stat : ℤ) → Call
  submission_view_list : (cid iid lang prob stat offset limit : ℤ) → Call
  submission_view_find : (sid cid : ℤ) → Call
  submission_get_code submission_get_case submission_get_msg : (cid sid : ℤ) → Call
  language_active_list language_list : Call
  language_find : (lid : ℤ) → Call
  contest_participation_add : (iid cid : ℤ) → Call
  contests_join : (cid iid : ℤ) → Call
  submission_add : (cid pid iid lid : ℤ) (code : Text) → Call
  judge_submit : (cid sid : ℤ) → Call
  submission_update_result :
      (cid sid jid : ℤ) (status : SubmissionStatusType) (score time mem : ℤ) → Call
  -- `BeginDM` around a function: its start and, where the function returns nil, its end
  begin_dm commit : Call
  submission_find : (cid sid : ℤ) → Call
  submission_list_with_pid : (cid pid : ℤ) → Call
  -- score, status, time and mem of one submission, or of all of a problem
  reset_submission : (cid sid : ℤ) → Call
  reset_submissions_of : (cid pid : ℤ) → Call
  contest_problem_delete contests_problems_delete submission_remove_for_problem :
      (cid pid : ℤ) → Call
  contest_delete contests_delete contest_problem_remove_all_with_table : (cid : ℤ) → Call
  submission_remove_all_with_table contest_participation_remove : (cid : ℤ) → Call
  contest_update :
      (cid : ℤ) (name : Text) (start finish admin : ℤ) (contest_type : ContestType) (penalty : ℤ)
      → Call
  description_update : (cid : ℤ) (description : Text) → Call
  contest_problem_count : (cid : ℤ) → Call
  problem_add :
      (cid pidx : ℤ) (name : Text) (time mem : ℤ) (judge_type : JudgeType)
      (newline_char_conversion : Bool)
      → Call
  contests_problems_add : (cid pid : ℤ) → Call
  contest_problem_update : (cid : ℤ) → ProblemRow → Call
  update_statement : (cid pid : ℤ) (statement : Text) → Call
  update_checker : (cid pid lid : ℤ) (code : Text) → Call
  contest_problem_update_related_file : (cid pidx id : ℤ) → Call
  load_test_case_names : (cid pid : ℤ) → Call
  update_test_case_names : (cid pid : ℤ) → List Text → List ScoreSetRow → Call
  load_test_case_info : (cid pid case_id : ℤ) → Call
  load_test_case : (cid pid : ℤ) (is_input : Bool) (case_id : ℤ) → Call
  update_test_case : (cid pid : ℤ) (is_input : Bool) (case_id : ℤ) → Call
  -- the body of the request: `ParseMultipartForm`, `FormFile`, and `Seek` to its end
  parse_multipart_form form_file seek_end : Call
  -- one of several uploaded files, by its name
  open_upload : (name : Text) → Call
  can_create_contest can_create_user : Call
  certification_with_email signup_token_register standard_signup_group : Call
  signup_token_check confirm_token_get_and_remove : (token : Text) → Call
  user_add : (uid user_name password email : Text) (gid : ℤ) (enabled : Bool) → Call
  user_update_enabled : (iid : ℤ) → Call
  session_add : (iid : ℤ) → Call
  session_remove : (session : Text) → Call
  -- the cookie, which the response takes along
  set_session : (session : Text) → Call
  mail_send_confirm_user : (iid : ℤ) → Call
  get_session_user_data : (session : Text) → Call
  csrf_conf_token_expiration : Call
  token_generate_and_register : (iid : ℤ) → Call
  token_get_and_remove : (token : Text) → Call
  user_update_password : (iid : ℤ) (password : Text) → Call
  -- with the table of its ranking, which the controller makes
  contest_add :
      (name : Text) (start finish iid : ℤ) (contest_type : ContestType) (penalty : ℤ) → Call

-- A value of the type `error` alone: nil or an error.
abbrev pub Error : Type 0
Error = Option DbError

abbrev pub Answer : Call → Type 0
Answer time_now = ℤ
Answer (contest_find cid) = Result ContestRow
-- the column `admin` of the row, where there is one
Answer (contest_participation_first iid cid) = Result Bool
Answer (description_load cid) = Result Text
Answer (contest_problem_list cid) = Result (List ProblemRow)
Answer (contest_problem_list_light cid) = Result (List ProblemRow)
Answer (contest_problem_find2 cid pidx) = Result ProblemRow
Answer (load_statement cid pid) = Result Text
Answer (load_checker cid pid) = Result (ℤ × Text)
Answer (open_only cid name) = Result Text
Answer (contests_ranking_count cid) = Result ℕ
Answer (contests_ranking_with_user_data cid limit offset) = Result (List RankingRowWithUserData)
Answer (user_find_from_user_id user_id) = Result UserRow
Answer (submission_view_count cid iid lang prob stat) = Result ℤ
Answer (submission_view_list cid iid lang prob stat offset limit) = Result (List SubmissionView)
Answer (submission_view_find sid cid) = Result SubmissionView
Answer (submission_get_code cid sid) = Result Text
Answer (submission_get_case cid sid) = Result (List CaseRow)
Answer (submission_get_msg cid sid) = Result Text
Answer language_active_list = Result (List Language)
Answer language_list = Result (List Language)
Answer (language_find lid) = Result Language
Answer (submission_add cid pid iid lid code) = Result ℤ
Answer (submission_find cid sid) = Result ℤ
Answer (submission_list_with_pid cid pid) = Result (List ℤ)
Answer (contest_problem_count cid) = Result ℤ
Answer (problem_add cid pidx name time mem judge_type conversion) = Result ProblemRow
Answer (load_test_case_names cid pid) = Result (List Text × List ScoreSetRow)
Answer (load_test_case_info cid pid case_id) = Result (ℤ × ℤ)
Answer (load_test_case cid pid is_input case_id) = Result Text
Answer seek_end = Result ℤ
Answer can_create_contest = Result Bool
Answer can_create_user = Result Bool
Answer certification_with_email = Result Bool
Answer signup_token_register = Result Text
Answer (signup_token_check token) = Result Bool
Answer standard_signup_group = Result ℤ
Answer (user_add uid user_name password email gid enabled) = Result ℤ
Answer (confirm_token_get_and_remove token) = Result (Option ℤ)
Answer (session_add iid) = Result Text
-- whether the mail is sent now; if not, it was sent before (`ErrMailWasSent`)
Answer (mail_send_confirm_user iid) = Result Bool
-- `none` where there is no such session, or no such user
Answer (get_session_user_data session) = Result (Option UserRow)
Answer csrf_conf_token_expiration = Result ℤ
Answer (token_generate_and_register iid) = Result Text
-- the user that the token was made for, where the token is still there
Answer (token_get_and_remove token) = Result (Option ℤ)
Answer (contest_add name start finish iid contest_type penalty) = Result ℤ
Answer _ = Error

-- The status codes of net/http that the handlers send.
pub data StatusCode : Type 0 where
  status_ok status_bad_request status_forbidden status_not_found : StatusCode
  status_method_not_allowed status_not_implemented : StatusCode
  status_request_entity_too_large status_internal_server_error : StatusCode
