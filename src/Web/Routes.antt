-- ===== src/Web/Routes.antt =====
-- ppweb/contest_each.go: which handler answers which request of a contest.
use popcon_sc.Prelude.{Bool, Option, List, ℤ, Text}
use popcon_sc.Web.Rows.{SessionTemplateData}
use popcon_sc.Web.Handler.{status_not_found, status_forbidden}
use popcon_sc.Web.Reply.{
  Handler, reply, ◌>>=◌, ◌>>◌, guard, status, page, management_top_page, Form, Method,
}
use popcon_sc.Web.Contest.{ContestEachPreparedData, prepare_variables}
use popcon_sc.Web.Contest.Views.{top, problems, problem, related_file, ranking}
use popcon_sc.Web.Contest.Submissions.{submissions, submission_detail}
use popcon_sc.Web.Contest.Submit.{join, submit}
use popcon_sc.Web.Management.Problems.{management_problems_page, problems_new, problems_change}
use popcon_sc.Web.Management.TestCases.{testcases, testcase, testcase_file}
use popcon_sc.Web.Management.Uploads.{related_files_page, upload_all}
use popcon_sc.Web.Management.Setting.{Zone, setting}
use popcon_sc.Web.Management.Rejudge.{rejudge, remove_problem, remove_contest}

-- The part of the path behind "/management", with the digits that stand in it.
pub data ManagementRoute : Type 0 where
  at_top at_remove at_rejudge at_setting at_problems at_problems_new at_nothing : ManagementRoute
  at_remove_problem at_problem at_related_files at_testcases at_upload_all :
      (pidx : Text) → ManagementRoute
  at_testcase : (pidx tcid : Text) → ManagementRoute
  at_testcase_file : (pidx tcid : Text) (is_input : Bool) → ManagementRoute

-- The part of the path behind "/contests/{cid}".
pub data Route : Type 0 where
  to_top to_problems to_ranking to_submissions to_join to_submit to_nothing : Route
  to_problem : (pidx : Text) → Route
  to_related_file : (pidx id : Text) → Route
  to_submission : (sid : Text) → Route
  to_management : ManagementRoute → Route

pub record Request : Type 0 where
  pub method : Method
  pub form : Form
  pub uploads : Option (List Text)

-- The router below "/management".
unfoldable pub serve_management :
    Zone → ContestEachPreparedData → Request → ManagementRoute → Handler Unit
serve_management zone pdata r at_top = reply (page management_top_page)
serve_management zone pdata r at_remove = remove_contest pdata
serve_management zone pdata r at_rejudge = rejudge pdata r.method r.form
serve_management zone pdata r at_setting = setting zone pdata r.method r.form
serve_management zone pdata r at_problems = management_problems_page pdata
serve_management zone pdata r at_problems_new = problems_new pdata r.method r.form
serve_management zone pdata r at_nothing = reply (status status_not_found)
serve_management zone pdata r (at_remove_problem pidx) = remove_problem pdata pidx
serve_management zone pdata r (at_problem pidx) = problems_change pdata pidx r.method r.form
serve_management zone pdata r (at_related_files pidx) =
    related_files_page pdata pidx r.method r.form
serve_management zone pdata r (at_testcases pidx) = testcases pdata pidx r.method r.form
serve_management zone pdata r (at_upload_all pidx) = upload_all pdata pidx r.method r.uploads
serve_management zone pdata r (at_testcase pidx tcid) = testcase pdata pidx tcid
serve_management zone pdata r (at_testcase_file pidx tcid is_input) =
    testcase_file pdata pidx tcid is_input r.method

-- The router of a contest.
unfoldable pub serve : Zone → ContestEachPreparedData → Request → Route → Handler Unit
unfolding serve_management
serve zone pdata r to_top = top pdata
serve zone pdata r to_problems = problems pdata
serve zone pdata r to_ranking = ranking pdata r.form
serve zone pdata r to_submissions = submissions pdata r.form
serve zone pdata r to_join = join pdata r.method
serve zone pdata r to_submit = submit pdata r.method r.form
serve zone pdata r to_nothing = reply (status status_not_found)
serve zone pdata r (to_problem pidx) = problem pdata pidx
serve zone pdata r (to_related_file pidx id) = related_file pdata pidx id
serve zone pdata r (to_submission sid) = submission_detail pdata sid
serve zone pdata r (to_management m) = do
  guard pdata.is_admin (status status_forbidden)
  serve_management zone pdata r m

-- A request for a contest, with `PrepareVariables` before it.
unfoldable pub visit : Zone → ℤ → SessionTemplateData → Request → Route → Handler Unit
unfolding prepare_variables serve
visit zone cid std r route = do pdata ← prepare_variables cid std; serve zone pdata r route
