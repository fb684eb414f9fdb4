-- ===== src/Web/ContestTests.antt =====
-- ppweb/contest_each.go: visits of a small contest.
use popcon_sc.Prelude.{
  ◌≡◌, refl, false, ◌||◌, true, none, some, [], ◌∷◌, pos, All, arith, text, text_eq, if◌then◌else◌,
}
use popcon_sc.Types.Contest.{joi, perfect_match}
use popcon_sc.Database.{ok, err, record_not_found, sql_error}
use popcon_sc.Web.Rows.{UserRow, ContestRow, SessionTemplateData, ProblemRow}
use popcon_sc.Web.Handler.{
  certification_with_email, signup_token_register, signup_token_check, standard_signup_group,
  user_add, confirm_token_get_and_remove, can_create_user, session_add, mail_send_confirm_user,
  get_session_user_data, csrf_conf_token_expiration, token_generate_and_register,
  token_get_and_remove, can_create_contest, contest_add, time_now, contest_find,
  contest_participation_first, description_load, contest_problem_list, contest_problem_list_light,
  contest_problem_find2, load_statement, load_checker, open_only, contests_ranking_count,
  contests_ranking_with_user_data, user_find_from_user_id, submission_view_count,
  submission_view_list, submission_view_find, submission_get_code, submission_get_case,
  submission_get_msg, language_active_list, language_list, language_find, submission_add,
  judge_submit, submission_find, submission_list_with_pid, contest_problem_count, problem_add,
  load_test_case_names, load_test_case_info, load_test_case, seek_end,
}
use popcon_sc.Web.Reply.{contest_top, redirect, page, problem_list, Host, run, Form, get}
use popcon_sc.Web.Contest.{
  prepare, prepare_variables, ContestEachPreparedData, contest_participation_check,
}
use popcon_sc.Web.Contest.Views.{problems}
use popcon_sc.Web.Management.Setting.{Zone}
use popcon_sc.Web.Routes.{to_problems, Request, serve, visit}
use popcon_sc.Web.Access.{may_send, is_allowed}
use popcon_sc.Web.Access.Rights.{
  prepared, is_preparation, IsJudgedBy, visit_rights, outsider_call, outsider_page, outsider_visit,
}

abbrev pub spring : ContestRow
spring = record {
  name = text "Spring";
  start_time = pos 1_000;
  finish_time = pos 2_000;
  admin = pos 1;
  penalty = pos 0;
  contest_type = joi;
}

abbrev sum_problem : ProblemRow
sum_problem = record {
  pid = pos 7;
  pidx = pos 1;
  name = text "Sum";
  time = pos 1;
  mem = pos 64;
  judge_type = perfect_match;
  newline_char_conversion = true;
  related_files = [] ∷ [] ∷ [] ∷ [] ∷ [] ∷ [];
}

abbrev pub alice : SessionTemplateData
alice = record { iid = pos 5; user_id = text "alice"; user_name = text "Alice"; gid = pos 1 }

abbrev pub alice_row : UserRow
alice_row = record {
  iid = pos 5;
  user_name = text "Alice";
  pass_hash = text "hash";
  email = none;
  enabled = true;
}

-- A host on which everything works but the queue of the controller; the clock stands at 1500.
abbrev pub queue_down : Host
queue_down past time_now = pos 1_500
queue_down past (contest_find cid) = ok spring
queue_down past (contest_participation_first iid cid) = err record_not_found
queue_down past (description_load cid) = ok (text "Hello")
queue_down past (contest_problem_list cid) = ok (sum_problem ∷ [])
queue_down past (contest_problem_list_light cid) = ok (sum_problem ∷ [])
queue_down past (contest_problem_find2 cid pidx) = ok sum_problem
queue_down past (load_statement cid pid) = ok (text "Add.")
queue_down past (load_checker cid pid) = ok (pos 0, [])
queue_down past (open_only cid name) = ok []
queue_down past (contests_ranking_count cid) = ok 0
queue_down past (contests_ranking_with_user_data cid limit offset) = ok []
queue_down past (user_find_from_user_id user_id) = ok alice_row
queue_down past can_create_user = ok true
queue_down past certification_with_email = ok false
queue_down past signup_token_register = ok (text "t")
queue_down past (signup_token_check token) = err sql_error
queue_down past standard_signup_group = ok (pos 1)
queue_down past (user_add uid user_name password email gid enabled) = ok (pos 6)
queue_down past (confirm_token_get_and_remove token) = ok none
queue_down past (session_add iid) = ok (text "s")
queue_down past (mail_send_confirm_user iid) = ok true
queue_down past (get_session_user_data session) = ok (some alice_row)
queue_down past csrf_conf_token_expiration = ok (pos 10)
queue_down past (token_generate_and_register iid) = ok (text "t")
queue_down past (token_get_and_remove token) = ok (some (pos 5))
queue_down past (submission_view_count cid iid lang prob stat) = ok (pos 1)
queue_down past (submission_view_list cid iid lang prob stat offset limit) = ok []
queue_down past (submission_view_find sid cid) = err sql_error
queue_down past (submission_get_code cid sid) = ok []
queue_down past (submission_get_case cid sid) = ok []
queue_down past (submission_get_msg cid sid) = ok []
queue_down past language_active_list = ok []
queue_down past language_list = ok []
queue_down past (language_find lid) = ok (record { lid = lid; name = text "C"; active = true })
queue_down past (submission_add cid pid iid lid code) = ok (pos 9)
queue_down past (judge_submit cid sid) = some sql_error
queue_down past (submission_find cid sid) = ok (pos 9)
queue_down past (submission_list_with_pid cid pid) = ok (pos 9 ∷ [])
queue_down past (contest_problem_count cid) = ok (pos 1)
queue_down past (problem_add cid pidx name time mem judge_type conversion) = ok sum_problem
queue_down past (load_test_case_names cid pid) = ok ([], [])
queue_down past can_create_contest = ok true
queue_down past (contest_add name start finish iid contest_type penalty) = ok (pos 4)
queue_down past (load_test_case_info cid pid case_id) = ok (pos 0, pos 0)
queue_down past (load_test_case cid pid is_input case_id) = ok []
queue_down past seek_end = ok (pos 10)
queue_down past _ = none

-- Three tests, and one set of 30 points for the first two.
abbrev pub tests_form : Form
tests_form key =
    if text_eq key (text "case_name[]")
    then text "a" ∷ text "b" ∷ text "c" ∷ []
    else (if text_eq key (text "set_score[]")
        then text "30" ∷ []
        else (if text_eq key (text "set_case[]") then text "0, 1" ∷ [] else []))

abbrev pub utc : Zone
utc = record {
  parse_in_location = λ s.
      if text_eq s (text "1/1 10:00")
      then some (pos 1_000)
      else (if text_eq s (text "1/1 18:00")
          then some (pos 2_000)
          else (if text_eq s (text "1/2 10:00")
              then some (pos 3_000)
              else (if text_eq s (text "1/3 10:00") then some (pos 4_000) else none)));
  format_date = λ t. text "2017/01/01";
  format_time = λ t. text "00:00";
}

abbrev pub visitor : ContestEachPreparedData
visitor = record {
  cid = pos 3;
  std = alice;
  contest = spring;
  joined = true;
  is_admin = false;
  is_special_admin = false;
  is_started = true;
  is_finished = false;
  accessible = true;
}

abbrev get_request : Request
get_request = record { method = get; form = λ key. []; uploads = none }

-- Alice has joined, and looks at the problems.
abbrev joined_host : Host
joined_host past (contest_participation_first iid cid) = ok false
joined_host past c = queue_down past c

visit_rights_example :
    IsJudgedBy
      (prepared joined_host (pos 3) alice spring true false)
      spring
      true
      false
      (pos 5)
      (pos 1_500)
    × All
        (λ c.
          (is_preparation (pos 3) (pos 5) c
            || is_allowed (prepared joined_host (pos 3) alice spring true false) c)
          ≡ true)
        (run joined_host [] (visit utc (pos 3) alice get_request to_problems)).0
    × (may_send
          (prepared joined_host (pos 3) alice spring true false)
          (run joined_host [] (visit utc (pos 3) alice get_request to_problems)).1
        ≡ true)
unfolding contest_participation_check
visit_rights_example =
    visit_rights utc (pos 3) alice get_request to_problems joined_host spring true false refl refl

alice_sees_the_problems :
    (run joined_host [] (visit utc (pos 3) alice get_request to_problems)).1
    ≡ page (problem_list (sum_problem ∷ []))
unfolding visit prepare_variables contest_participation_check prepare serve problems
alice_sees_the_problems = refl

-- Alice has not joined, and looks at the problems.
outsider_visit_example :
    All
      (λ c. outsider_call (pos 3) (pos 5) c ≡ true)
      (run queue_down [] (visit utc (pos 3) alice get_request to_problems)).0
    × (outsider_page (pos 5) (run queue_down [] (visit utc (pos 3) alice get_request to_problems)).1
        ≡ true)
unfolding contest_participation_check
outsider_visit_example =
    outsider_visit utc (pos 3) alice get_request to_problems queue_down spring false refl refl refl
      (omega arith) refl

outsider_is_sent_away :
    (run queue_down [] (visit utc (pos 3) alice get_request to_problems)).1
    ≡ redirect (contest_top (pos 3))
unfolding visit serve problems
outsider_is_sent_away = refl
