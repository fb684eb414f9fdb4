-- ===== src/Web/Management/Problems.antt =====
-- ppweb/contest_each.go: the list of the problems, a new problem, and changes of a problem.
use popcon_sc.Prelude.{
  Bool, true, false, not, ◌&&◌, ◌||◌, none, some, List, [], ℤ, pos, negsuc, ◌==ℤ◌, leb_ℤ, ltb_ℤ,
  Text, text, text_eq, if◌then◌else◌,
}
use popcon_sc.Types.Contest.{JudgeType, perfect_match, running_code, interactive}
use popcon_sc.Codec.Decimal.{parse_int}
use popcon_sc.Database.{DbError, duplicate}
use popcon_sc.Web.Rows.{ProblemRow, Language}
use popcon_sc.Web.Handler.{
  contest_problem_list, contest_problem_find2, load_statement, load_checker, language_list,
  language_find, contest_problem_delete, contest_problem_count, problem_add, contests_problems_add,
  contest_problem_update, update_statement, update_checker, status_bad_request, status_not_found,
  status_internal_server_error,
}
use popcon_sc.Web.Reply.{
  management_problems, no_message, too_many_problems, illegal_problem_name, problem_number_in_use,
  ProblemForm, management_problem_list, management_problem_setting, Response, status, redirect,
  page, Handler, give, reply, ◌>>=◌, ◌>>◌, ask, guard, expect, expect_nil, failed,
  unless_unknown_problem, unless_unknown_language, Form, wrap_form_str, wrap_form_int64, Method,
  get, post, other_method,
}
use popcon_sc.Web.Texts.{utf8_string_length_and_bom_check, trim_space}
use popcon_sc.Web.Contest.{ContestEachPreparedData}

-- "/management/problems/".
unfoldable pub management_problems_page : ContestEachPreparedData → Handler Unit
management_problems_page pdata = do
  list ← expect failed (← ask (contest_problem_list pdata.cid))
  reply (page (management_problem_list list))

abbrev read_problem_form : Form → ProblemForm
read_problem_form form = record {
  pidx = wrap_form_int64 form (text "pidx");
  name = wrap_form_str form (text "problem_name");
  time = wrap_form_int64 form (text "time");
  mem = wrap_form_int64 form (text "mem");
  jtype = wrap_form_int64 form (text "type");
  newline_char_conversion = text_eq (wrap_form_str form (text "newline_char_conv")) (text "1");
  prob = wrap_form_str form (text "prob");
  lang = wrap_form_int64 form (text "lang");
  code = wrap_form_str form (text "code");
}

-- The first check of a problem.
unfoldable pub is_illegal_problem : ProblemForm → Bool
is_illegal_problem f =
    (f.pidx ==ℤ negsuc 0)
    || ((ltb_ℤ f.time (pos 1) || ltb_ℤ (pos 10) f.time)
        || ((ltb_ℤ f.mem (pos 32) || ltb_ℤ (pos 1024) f.mem)
            || ((ltb_ℤ f.jtype (pos 0) || ltb_ℤ (pos 1) f.jtype)
                || (f.jtype ==ℤ pos 1 && f.lang ==ℤ negsuc 0))))

-- The check of the names of problems and of contests.
unfoldable pub is_legal_name : Text → Bool
unfolding utf8_string_length_and_bom_check trim_space
is_legal_name name =
    not (text_eq name [])
    && (utf8_string_length_and_bom_check name 40 && not (text_eq (trim_space name) []))

abbrev judge_type_of : ℤ → JudgeType
judge_type_of t = if t ==ℤ pos 1 then running_code else perfect_match

unfoldable pub check_language : ProblemForm → Handler Unit
check_language f =
    if f.jtype ==ℤ pos 1
    then (do
      language ← expect (unless_unknown_language status_bad_request) (← ask (language_find f.lang))
      give tt)
    else give tt

-- The page again for a number that is in use, and 500 for all other errors.
unfoldable pub in_use : Bool → ProblemForm → List Language → DbError → Response
in_use is_new f languages duplicate =
    page (management_problem_setting is_new problem_number_in_use f languages)
in_use is_new f languages other = status status_internal_server_error

-- The checks that a new problem and a changed one share.
unfoldable pub check_problem : Bool → ProblemForm → List Language → ℤ → Handler Unit
unfolding is_illegal_problem is_legal_name check_language
check_problem is_new f languages cnt = do
  guard (not (is_illegal_problem f)) (status status_bad_request)
  guard (is_legal_name f.name)
      (page (management_problem_setting is_new illegal_problem_name f languages))
  guard (ltb_ℤ cnt (pos 50))
      (page (management_problem_setting is_new too_many_problems f languages))
  check_language f

-- Statement and checker, and back to the list.
unfoldable pub save_problem_files : ℤ → ℤ → ProblemForm → Handler Unit
save_problem_files cid pid f = do
  expect_nil failed (← ask (update_statement cid pid f.prob))
  expect_nil failed (← ask (update_checker cid pid f.lang f.code))
  reply (redirect (management_problems cid))

-- The ranking does not take the problem in: it is deleted again.
unfoldable pub register_problem : ℤ → ℤ → Handler Unit
register_problem cid pid = do
  added ← ask (contests_problems_add cid pid)
  elim added [
    | none ↦ give tt
    | some e ↦ (do
      deleted ← ask (contest_problem_delete cid pid)
      reply (status status_internal_server_error))
  ]

unfoldable pub new_problem :
    ContestEachPreparedData → ProblemForm → List Language → ℤ → Handler Unit
unfolding in_use register_problem save_problem_files
new_problem pdata f languages cnt = do
  check_problem true f languages cnt
  cp ←
      expect (in_use true f languages)
        (← ask (
          problem_add pdata.cid f.pidx f.name f.time f.mem (judge_type_of f.jtype)
            f.newline_char_conversion))
  register_problem pdata.cid cp.pid
  save_problem_files pdata.cid cp.pid f

abbrev empty_problem_form : ProblemForm
empty_problem_form = record {
  pidx = pos 0;
  name = [];
  time = pos 1;
  mem = pos 32;
  jtype = pos 0;
  newline_char_conversion = true;
  prob = [];
  lang = pos 0;
  code = [];
}

-- "/management/problems/new".
unfoldable pub problems_new : ContestEachPreparedData → Method → Form → Handler Unit
problems_new pdata method form = do
  cnt ← expect failed (← ask (contest_problem_count pdata.cid))
  languages ← expect failed (← ask language_list)
  elim method [
    | get ↦ reply (
        page (
          management_problem_setting true
            (if leb_ℤ (pos 50) cnt then too_many_problems else no_message) empty_problem_form
            languages))
    | post ↦ new_problem pdata (read_problem_form form) languages cnt
    | other_method ↦ reply (status status_bad_request)
  ]

-- The number of a judge type: `int64(cp.Type)`.
jtype_of : JudgeType → ℤ
jtype_of perfect_match = pos 0
jtype_of running_code = pos 1
jtype_of interactive = pos 2

unfoldable pub show_problem :
    ContestEachPreparedData → ℤ → List Language → ProblemRow → Handler Unit
unfolding jtype_of
show_problem pdata upidx languages cp = do
  checker ← expect failed (← ask (load_checker pdata.cid cp.pid))
  stat ← expect failed (← ask (load_statement pdata.cid cp.pid))
  let f : ProblemForm = record {
    pidx = upidx;
    name = cp.name;
    time = cp.time;
    mem = cp.mem;
    jtype = jtype_of cp.judge_type;
    newline_char_conversion = cp.newline_char_conversion;
    prob = stat;
    lang = checker.0;
    code = checker.1;
  }
  reply (page (management_problem_setting false no_message f languages))

unfoldable pub change_problem :
    ContestEachPreparedData → ProblemForm → List Language → ℤ → ProblemRow → Handler Unit
unfolding in_use save_problem_files
change_problem pdata f languages cnt cp = do
  check_problem false f languages cnt
  let changed : ProblemRow = record cp {
    pidx = f.pidx;
    name = f.name;
    time = f.time;
    mem = f.mem;
    judge_type = judge_type_of f.jtype;
    newline_char_conversion = f.newline_char_conversion;
  }
  expect_nil (in_use false f languages) (← ask (contest_problem_update pdata.cid changed))
  save_problem_files pdata.cid cp.pid f

-- "/management/problems/{upidx}".
unfoldable pub problems_change : ContestEachPreparedData → Text → Method → Form → Handler Unit
problems_change pdata upidx_text method form = do
  let upidx = (parse_int upidx_text).0
  cnt ← expect failed (← ask (contest_problem_count pdata.cid))
  languages ← expect failed (← ask language_list)
  cp ←
      expect (unless_unknown_problem status_not_found)
        (← ask (contest_problem_find2 pdata.cid upidx))
  elim method [
    | get ↦ show_problem pdata upidx languages cp
    | post ↦ change_problem pdata (read_problem_form form) languages cnt cp
    | other_method ↦ reply (status status_bad_request)
  ]
