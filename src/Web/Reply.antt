-- ===== src/Web/Reply.antt =====
-- ppweb: the responses, and handlers as trees of calls. A page is the values that its template is
-- given; the name of the contest and of the user, which all pages show, is left out. A description
-- and a statement stand as the text before Markdown.
use popcon_sc.Prelude.{
  Bool, true, false, Option, none, some, List, [], ◌∷◌, ℤ, negsuc, Text, if◌then◌else◌,
}
use popcon_sc.Codec.Decimal.{parse_int}
use popcon_sc.Database.{
  DbError, unknown_problem, unknown_submission, unknown_language, unknown_testcase, file_not_found,
  Result, ok, err,
}
use popcon_sc.Web.Rows.{
  ContestRow, ProblemRow, Language, SubmissionView, CaseRow, RankingRowWithUserData, ScoreSetRow,
}
use popcon_sc.Web.Pages.{PageHelper}
use popcon_sc.Web.Pagination.{PaginationHelper}
use popcon_sc.Web.Handler.{
  Call, Answer, Error, StatusCode, status_ok, status_bad_request, status_not_found,
  status_internal_server_error,
}

-- Where `RespondRedirection` sends the browser.
pub data Location : Type 0 where
  contests home userinfo login_for_password : Location
  -- the page that the form names
  comeback_to : (url : Text) → Location
  contest_top submissions_of_user ranking_first management_top management_problems : ℤ → Location
  submissions_of : (cid : ℤ) (user_id : Text) → Location
  submission : (cid sid : ℤ) → Location
  management_related_files management_testcases managements_testcases : (cid pidx : ℤ) → Location
  management_testcase : (cid pidx tcid : ℤ) → Location

-- The messages above a form, by what they say.
pub data Message : Type 0 where
  no_message illegal_id no_such_submission no_such_problem : Message
  illegal_contest_name illegal_start illegal_finish start_is_fixed finish_is_fixed : Message
  illegal_dates contest_name_in_use : Message
  wrong_password not_enabled mail_sent mail_was_sent : Message
  token_is_illegal token_is_over password_too_long password_too_short passwords_differ : Message
  too_many_problems illegal_problem_name problem_number_in_use illegal_parameter : Message

-- What is wrong with a form of a new user.
pub data SignupError : Type 0 where
  no_token token_too_old : SignupError
  user_id_too_long illegal_user_id : SignupError
  user_name_too_long user_name_too_short : SignupError
  pass_too_long pass_too_short pass_differs : SignupError
  email_too_long illegal_email : SignupError
  already_in_use : SignupError

-- The values of a form for the setting of a contest.
pub record SettingForm : Type 0 where
  pub start_date : Text
  pub start_time : Text
  pub finish_date : Text
  pub finish_time : Text
  pub description : Text
  pub contest_name : Text
  pub contest_type : Text
  pub penalty : ℤ

-- The values of a form for a problem.
pub record ProblemForm : Type 0 where
  pub pidx : ℤ
  pub name : Text
  pub time : ℤ
  pub mem : ℤ
  pub jtype : ℤ
  pub newline_char_conversion : Bool
  pub prob : Text
  pub lang : ℤ
  pub code : Text

pub data Page : Type 0 where
  top_page :
      (description : Text) (join_button_active enabled management_button_active : Bool) → Page
  problem_list : List ProblemRow → Page
  problem_view : ProblemRow → (statement : Text) → Page
  -- each row with its rank
  ranking_page : List (RankingRowWithUserData × ℤ) → List ProblemRow → PageHelper → Page
  submission_list :
      (all_enabled : Bool)
      → List SubmissionView
      → List ProblemRow
      → List Language
      → (current max_page : ℤ) → List PaginationHelper
      → Page
  submission_view : SubmissionView → List CaseRow → (code msg : Text) → Page
  submit_page : List ProblemRow → List Language → (prob : ℤ) → Page
  management_top_page : Page
  management_rejudge : Message → Page
  management_setting : Message → SettingForm → Page
  management_setting_of : ContestRow → (description : Text) → Page
  management_problem_list : List ProblemRow → Page
  management_problem_setting : (is_new : Bool) → Message → ProblemForm → List Language → Page
  management_testcase_list : List Text → List ScoreSetRow → Message → Page
  management_testcase_upload_all : ProblemRow → Page
  management_testcase_setting : ProblemRow → (in_capacity out_capacity : ℤ) → Page
  new_contest : Message → SettingForm → Page
  signup_page : List SignupError → (token user_id user_name email : Text) → Page
  signup_mail_sent account_confirmed : Page
  login_page : Message → (back_url : Text) (signup_enabled : Bool) → Page
  update_password_page : Message → (token : Text) → Page
  management_related_files_page : ProblemRow → Page

-- `late_status` is the text of a status code behind a header that already says 200. `aborted` is a panic, which net/http answers by closing the connection.
pub data Response : Type 0 where
  status late_status : StatusCode → Response
  redirect : Location → Response
  page : Page → Response
  file : Text → Response
  aborted : Response

-- A handler may give a value to the code behind it, or end the request by its response.
pub data Handler (A : Type 0) : Type 0 where
  give : A → Handler A
  reply : Response → Handler A
  call : (c : Call) → (Answer c → Handler A) → Handler A

infixl 5 ◌>>=◌ ◌>>◌
abbrev pub ◌>>=◌ : {A B : Type 0} → Handler A → (A → Handler B) → Handler B
give a >>= f = f a
reply r >>= f = reply r
call c k >>= f = call c (λ a. k a >>= f)

abbrev pub ◌>>◌ : {B : Type 0} → Handler Unit → Handler B → Handler B
m >> k = m >>= λ _. k

-- A call, with its answer.
abbrev pub ask : (c : Call) → Handler (Answer c)
ask c = call c give

-- `if !ok { respond; return }`.
abbrev pub guard : Bool → Response → Handler Unit
guard true r = give tt
guard false r = reply r

-- `if err != nil { respond; return }`, with a response that the error decides.
abbrev pub expect : {A : Type 0} → (DbError → Response) → Result A → Handler A
expect r (ok a) = give a
expect r (err e) = reply (r e)

abbrev pub expect_nil : (DbError → Response) → Error → Handler Unit
expect_nil r none = give tt
expect_nil r (some e) = reply (r e)

-- An error that is logged only: the value is the one that the code puts in its place.
abbrev pub or_else : {A : Type 0} → A → Result A → A
or_else d (ok a) = a
or_else d (err e) = d

-- A value that is there, or the response.
abbrev pub some_or : {A : Type 0} → Response → Option A → Handler A
some_or r none = reply r
some_or r (some a) = give a

abbrev pub failed : DbError → Response
failed e = status status_internal_server_error

abbrev pub failed_late : DbError → Response
failed_late e = late_status status_internal_server_error

abbrev pub not_found : DbError → Response
not_found e = status status_not_found

abbrev pub bad_request : DbError → Response
bad_request e = status status_bad_request

-- 404 or 400 for the error that says that there is no such row, and 500 for all others.
abbrev pub unless_unknown_problem : StatusCode → DbError → Response
unless_unknown_problem c unknown_problem = status c
unless_unknown_problem c other = status status_internal_server_error

abbrev pub unless_unknown_language : StatusCode → DbError → Response
unless_unknown_language c unknown_language = status c
unless_unknown_language c other = status status_internal_server_error

abbrev pub unless_unknown_submission : StatusCode → DbError → Response
unless_unknown_submission c unknown_submission = status c
unless_unknown_submission c other = status status_internal_server_error

abbrev pub unless_unknown_testcase : StatusCode → DbError → Response
unless_unknown_testcase c unknown_testcase = status c
unless_unknown_testcase c other = status status_internal_server_error

abbrev pub unless_file_not_found : StatusCode → DbError → Response
unless_file_not_found c file_not_found = status c
unless_file_not_found c other = status status_internal_server_error

-- What the world outside answers: to a call, after the calls before it, the last one first.
abbrev pub Host : Type 0
Host = List Call → (c : Call) → Answer c

-- The calls of a handler in their order, and its response. A handler that returns without one sends
-- an empty page with status 200.
abbrev pub run : Host → List Call → Handler Unit → List Call × Response
run host past (give a) = ([], status status_ok)
run host past (reply r) = ([], r)
run host past (call c k) = let rest = run host (c ∷ past) (k (host past c)) in (c ∷ rest.0, rest.1)

-- The form of a request: the values of each key.
abbrev pub Form : Type 0
Form = Text → List Text

-- `createWrapFormStr`.
unfoldable pub wrap_form_str : Form → Text → Text
wrap_form_str form key = elim (form key) [ [] ↦ [] | v ∷ rest ↦ v ]

-- `createWrapFormInt64`: -1 where the value is no number.
unfoldable pub wrap_form_int64 : Form → Text → ℤ
unfolding wrap_form_str
wrap_form_int64 form key =
    let (val, fine) = parse_int (wrap_form_str form key) in if fine then val else negsuc 0

pub data Method : Type 0 where
  get post other_method : Method
