-- ===== src/Web/Management/TestCases.antt =====
-- ppweb/contest_each.go: the names of the tests and the score sets of a problem, one test, and its
-- input and output.
pub mod Sound
use popcon_sc.Prelude.{
  ℕ, suc, ◌+◌, ◌*◌, ◌/◌, ◌%◌, ◌==◌, leb, ◌≡◌, Bool, true, false, not, ◌&&◌, ◌||◌, Option, none,
  some, List, [], ◌∷◌, ◌++◌, map, length, get_elem?, ℤ, pos, negsuc, ◌==ℤ◌, leb_ℤ, ltb_ℤ, add64,
  sub64, mul64, Text, text, text_eq, ltb, if◌then◌else◌,
}
use popcon_sc.Types.Submission.{internal_error}
use popcon_sc.Types.Contest.{ContestType, JudgeType, perfect_match, running_code}
use popcon_sc.Codec.Decimal.{parse_int}
use popcon_sc.Database.{
  DbError, Result, ok, err, record_not_found, file_not_found, unknown_contest, duplicate,
}
use popcon_sc.Web.Rows.{
  ContestRow, SessionTemplateData, ProblemRow, Language, SubmissionView, CaseRow,
  RankingRowWithUserData, ScoreSetRow,
}
use popcon_sc.Web.Pages.{PageHelper, new_page_helper}
use popcon_sc.Web.Pagination.{PaginationHelper, new_pagination_helper}
use popcon_sc.Web.Handler.{
  Call, time_now, contest_find, contest_participation_first, description_load, contest_problem_list,
  contest_problem_list_light, contest_problem_find2, load_statement, load_checker, open_only,
  contests_ranking_count, contests_ranking_with_user_data, user_find_from_user_id,
  submission_view_count, submission_view_list, submission_view_find, submission_get_code,
  submission_get_case, submission_get_msg, language_active_list, language_list, language_find,
  contest_participation_add, contests_join, submission_add, judge_submit, submission_update_result,
  begin_dm, commit, submission_find, submission_list_with_pid, reset_submission,
  reset_submissions_of, contest_problem_delete, contests_problems_delete,
  submission_remove_for_problem, contest_delete, contests_delete,
  contest_problem_remove_all_with_table, submission_remove_all_with_table,
  contest_participation_remove, contest_update, description_update, contest_problem_count,
  problem_add, contests_problems_add, contest_problem_update, update_statement, update_checker,
  contest_problem_update_related_file, load_test_case_names, update_test_case_names,
  load_test_case_info, load_test_case, update_test_case, parse_multipart_form, form_file, seek_end,
  open_upload, Error, Answer, StatusCode, status_ok, status_bad_request, status_forbidden,
  status_not_found, status_request_entity_too_large, status_internal_server_error,
}
use popcon_sc.Web.Reply.{
  Location, contests, contest_top, submissions_of_user, ranking_first, management_top,
  management_problems, submissions_of, submission, management_related_files, management_testcases,
  managements_testcases, management_testcase, Message, no_message, illegal_id, no_such_submission,
  no_such_problem, illegal_contest_name, illegal_start, illegal_finish, start_is_fixed,
  finish_is_fixed, illegal_dates, contest_name_in_use, too_many_problems, illegal_problem_name,
  problem_number_in_use, illegal_parameter, SettingForm, ProblemForm, Page, top_page, problem_list,
  problem_view, ranking_page, submission_list, submission_view, submit_page, management_top_page,
  management_rejudge, management_setting, management_setting_of, management_problem_list,
  management_problem_setting, management_testcase_list, management_testcase_upload_all,
  management_testcase_setting, management_related_files_page, Response, status, redirect, page,
  file, aborted, Handler, give, reply, call, ◌>>=◌, ◌>>◌, ask, guard, expect, expect_nil, or_else,
  failed, not_found, bad_request, unless_unknown_problem, unless_unknown_language,
  unless_unknown_submission, unless_unknown_testcase, unless_file_not_found, Host, run, Form,
  wrap_form_str, wrap_form_int64, Method, get, post, other_method,
}
use popcon_sc.Codec.Fields.{split}
use popcon_sc.Codec.Queries.{set_cases}
use popcon_sc.Web.Texts.{trim_space}
use popcon_sc.Web.Contest.{ContestEachPreparedData}

-- The numbers of the cases of one set, and whether one of them is illegal.
unfoldable pub read_case_ids : ℕ → List Text → List ℤ × Bool
unfolding trim_space
read_case_ids case_count [] = ([], false)
read_case_ids case_count (str ∷ rest) =
    let (id, fine) = parse_int (trim_space str) in
    let (ids, illegal) = read_case_ids case_count rest in
    (id ∷ ids, (not fine || (ltb_ℤ id (pos 0) || leb_ℤ (pos case_count) id)) || illegal)

-- `strconv.ParseInt(s, 10, 32)`.
unfoldable pub parse_int32 : Text → ℤ × Bool
parse_int32 s =
    let (v, fine) = parse_int s in
    if ltb_ℤ (pos 2_147_483_647) v
    then (pos 2_147_483_647, false)
    else (if ltb_ℤ v (negsuc 2_147_483_647) then (negsuc 2_147_483_647, false) else (v, fine))

-- The loop over the score sets: their rows, and whether something in them is illegal.
unfoldable pub read_score_sets : ℕ → List Text → List Text → List ScoreSetRow × Bool
unfolding read_case_ids parse_int32
read_score_sets case_count (score_text ∷ scores) (cases_text ∷ cases) =
    let (ids, illegal_ids) = read_case_ids case_count (split b',' cases_text) in
    let (score, fine) = parse_int32 score_text in
    let (rows, illegal_rows) = read_score_sets case_count scores cases in
    (
      record { cases_raw_string = set_cases ids; score = score } ∷ rows,
      illegal_ids
          || ((not fine || (ltb_ℤ score (pos 0) || ltb_ℤ (pos 10_000) score)) || illegal_rows),
    )
read_score_sets case_count _ _ = ([], false)

unfoldable pub save_testcases : ContestEachPreparedData → Text → ProblemRow → Form → Handler Unit
unfolding read_score_sets
save_testcases pdata pidx cp form = do
  let case_names = form (text "case_name[]")
  let set_scores = form (text "set_score[]")
  let set_case = form (text "set_case[]")
  guard (not (ltb 50 (length case_names))) (status status_bad_request)
  guard (not (not (length set_scores == length set_case) || ltb 50 (length set_scores)))
      (status status_bad_request)
  let read = read_score_sets (length case_names) set_scores set_case
  guard (not read.1) (page (management_testcase_list case_names read.0 illegal_parameter))
  expect_nil failed (← ask (update_test_case_names pdata.cid cp.pid case_names read.0))
  reply (redirect (management_testcases pdata.cid (parse_int pidx).0))

-- "/management/testcases/{pidx}".
unfoldable pub testcases : ContestEachPreparedData → Text → Method → Form → Handler Unit
testcases pdata pidx method form = do
  cp ←
      expect (unless_unknown_problem status_not_found)
        (← ask (contest_problem_find2 pdata.cid (parse_int pidx).0))
  elim method [
    | get ↦ (do
      loaded ← expect failed (← ask (load_test_case_names pdata.cid cp.pid))
      reply (page (management_testcase_list loaded.0 loaded.1 no_message)))
    | post ↦ save_testcases pdata pidx cp form
    | other_method ↦ reply (status status_bad_request)
  ]

-- "/management/testcases/{pidx}/{tcid}".
unfoldable pub testcase : ContestEachPreparedData → Text → Text → Handler Unit
testcase pdata pidx tcid = do
  cp ←
      expect (unless_unknown_problem status_not_found)
        (← ask (contest_problem_find2 pdata.cid (parse_int pidx).0))
  info ←
      expect (unless_unknown_testcase status_not_found)
        (← ask (load_test_case_info pdata.cid cp.pid (parse_int tcid).0))
  reply (page (management_testcase_setting cp info.0 info.1))

-- A file of the request, of at most `limit` bytes. Without the file the handler panics: it defers
-- `file.Close()` before it looks at the error.
unfoldable pub receive_file : ℤ → Handler Unit
receive_file limit = do
  expect_nil (λ e. aborted) (← ask form_file)
  l ← expect bad_request (← ask seek_end)
  guard (leb_ℤ l limit) (status status_request_entity_too_large)

-- "/management/testcases/{pidx}/{tcid}/{mode}", where the mode is "input" or "output".
unfoldable pub testcase_file :
    ContestEachPreparedData → Text → Text → (is_input : Bool) → Method → Handler Unit
unfolding receive_file
testcase_file pdata pidx tcid_text is_input method = do
  let tcid = (parse_int tcid_text).0
  cp ←
      expect (unless_unknown_problem status_not_found)
        (← ask (contest_problem_find2 pdata.cid (parse_int pidx).0))
  elim method [
    | post ↦ (do
      expect_nil bad_request (← ask parse_multipart_form)
      receive_file (pos 104_857_600)
      expect_nil (unless_unknown_testcase status_not_found)
          (← ask (update_test_case pdata.cid cp.pid is_input tcid))
      reply (redirect (management_testcase pdata.cid (parse_int pidx).0 tcid)))
    | get ↦ (do
      contents ←
          expect (unless_unknown_testcase status_not_found)
            (← ask (load_test_case pdata.cid cp.pid is_input tcid))
      reply (file contents))
    | other_method ↦ reply (status status_bad_request)
  ]
