-- ===== src/Web/Access/Management.antt =====
-- ppweb/contest_each.go: the handlers below "/management", for an admin.
use popcon_sc.Prelude.{
  ◌≡◌, refl, Bool, true, false, not, Option, none, some, List, [], ◌∷◌, ℤ, pos, ltb_ℤ, arith, Text,
  Bool-cases, inl, inr, Option-cases,
}
use popcon_sc.Web.Rows.{ContestRow, ProblemRow, Language}
use popcon_sc.Web.Handler.{status_bad_request, status_not_found}
use popcon_sc.Web.Reply.{
  too_many_problems, illegal_problem_name, SettingForm, ProblemForm, management_problem_setting,
  status, page, ◌>>◌, guard, failed, bad_request, unless_unknown_problem, Form, Method, get, post,
  other_method,
}
use popcon_sc.Web.Contest.{ContestEachPreparedData}
use popcon_sc.Web.Management.Problems.{
  management_problems_page, is_illegal_problem, is_legal_name, check_language, check_problem,
  new_problem, problems_new, show_problem, change_problem, problems_change,
}
use popcon_sc.Web.Management.TestCases.{
  save_testcases, testcases, testcase, receive_file, testcase_file,
}
use popcon_sc.Web.Management.Uploads.{
  related_files_page, upload_target, upload_one, upload_loop, upload_all,
}
use popcon_sc.Web.Management.Setting.{Zone, contest_type_named, read_dates, save_setting, setting}
use popcon_sc.Web.Management.Rejudge.{
  unknown_submission_page, unknown_problem_page, rejudge_submission, submit_all, rejudge_problem,
  empty_page, rejudge, remove_problem, remove_contest,
}
use popcon_sc.Web.Access.{IsAllowed, IsAllowed->>=, IsAllowed-expect, IsAllowed-expect_nil}

module _ (pdata : ContestEachPreparedData) (h : pdata.is_admin ≡ true) where
  pub management_problems_page-IsAllowed : IsAllowed pdata (management_problems_page pdata)
  unfolding management_problems_page
  management_problems_page-IsAllowed = ground arith

  check_language-IsAllowed : (f : ProblemForm) → IsAllowed pdata (check_language f)
  unfolding check_language
  check_language-IsAllowed f = ground arith

  checks-IsAllowed :
      (is_new fine named few : Bool) (f : ProblemForm) (languages : List Language)
      → IsAllowed pdata (
          guard fine (status status_bad_request)
          >> (guard named
                (page (management_problem_setting is_new illegal_problem_name f languages))
              >> (guard few (page (management_problem_setting is_new too_many_problems f languages))
                  >> check_language f)))
  checks-IsAllowed is_new fine named few f languages = ground (arith, check_language-IsAllowed f)

  check_problem-IsAllowed :
      (is_new : Bool) (f : ProblemForm) (languages : List Language) (cnt : ℤ)
      → IsAllowed pdata (check_problem is_new f languages cnt)
  unfolding check_problem
  check_problem-IsAllowed is_new f languages cnt =
      checks-IsAllowed is_new (not (is_illegal_problem f)) (is_legal_name f.name)
        (ltb_ℤ cnt (pos 50)) f languages

  pub remove_problem-IsAllowed : (pidx : Text) → IsAllowed pdata (remove_problem pdata pidx)
  unfolding remove_problem
  remove_problem-IsAllowed pidx = ground arith

  pub remove_contest-IsAllowed : IsAllowed pdata (remove_contest pdata)
  unfolding remove_contest
  remove_contest-IsAllowed = ground arith

  submit_all-IsAllowed : (sids : List ℤ) → IsAllowed pdata (submit_all pdata.cid sids)
  unfolding submit_all
  submit_all-IsAllowed [] = tt
  submit_all-IsAllowed (sid ∷ sids) = (ground arith, λ a. submit_all-IsAllowed sids)

  rejudge_submission-IsAllowed : (id : ℤ) → IsAllowed pdata (rejudge_submission pdata.cid id)
  unfolding rejudge_submission unknown_submission_page
  rejudge_submission-IsAllowed id = ground arith

  pub testcases-IsAllowed :
      (pidx : Text) (method : Method) (form : Form)
      → IsAllowed pdata (testcases pdata pidx method form)
  unfolding testcases save_testcases
  testcases-IsAllowed pidx get form = ground arith
  testcases-IsAllowed pidx _ form = ground arith

  pub testcase-IsAllowed : (pidx tcid : Text) → IsAllowed pdata (testcase pdata pidx tcid)
  unfolding testcase
  testcase-IsAllowed pidx tcid = ground arith

  pub testcase_file-IsAllowed :
      (pidx tcid : Text) (is_input : Bool) (method : Method)
      → IsAllowed pdata (testcase_file pdata pidx tcid is_input method)
  unfolding testcase_file receive_file
  testcase_file-IsAllowed pidx tcid is_input get = ground arith
  testcase_file-IsAllowed pidx tcid is_input _ = ground arith

  pub related_files_page-IsAllowed :
      (pidx : Text) (method : Method) (form : Form)
      → IsAllowed pdata (related_files_page pdata pidx method form)
  unfolding related_files_page receive_file
  related_files_page-IsAllowed pidx get form = ground arith
  related_files_page-IsAllowed pidx _ form = ground arith

  read_dates-IsAllowed :
      (zone : Zone) (contest : ContestRow) (f : SettingForm)
      → IsAllowed pdata (read_dates zone contest f)
  unfolding read_dates
  read_dates-IsAllowed zone contest f = ground arith

  save_setting-IsAllowed :
      (zone : Zone) (f : SettingForm) → IsAllowed pdata (save_setting zone pdata f)
  unfolding save_setting
  save_setting-IsAllowed zone f = elim (Option-cases (contest_type_named f.contest_type)) [
    | inl e ↦ rw e refl
    | inr (t, e) ↦ rw e (elim (Bool-cases (is_legal_name f.contest_name)) [
      | inl legal ↦ rw legal (
          IsAllowed->>= pdata (read_dates zone pdata.contest f) _
            (read_dates-IsAllowed zone pdata.contest f) (λ dates. ground arith))
      | inr illegal ↦ rw illegal h
    ])
  ]

  pub setting-IsAllowed :
      (zone : Zone) (method : Method) (form : Form)
      → IsAllowed pdata (setting zone pdata method form)
  unfolding setting
  setting-IsAllowed zone get form = ground arith
  setting-IsAllowed zone post form = save_setting-IsAllowed zone _
  setting-IsAllowed zone other_method form = refl

  new_problem-IsAllowed :
      (f : ProblemForm) (languages : List Language) (cnt : ℤ)
      → IsAllowed pdata (new_problem pdata f languages cnt)
  unfolding new_problem
  new_problem-IsAllowed f languages cnt =
      IsAllowed->>= pdata (check_problem true f languages cnt) _
        (check_problem-IsAllowed true f languages cnt) (λ u. ground arith)

  pub problems_new-IsAllowed :
      (method : Method) (form : Form) → IsAllowed pdata (problems_new pdata method form)
  unfolding problems_new
  problems_new-IsAllowed get form = ground arith
  problems_new-IsAllowed post form = grind (arith, new_problem-IsAllowed)
  problems_new-IsAllowed other_method form = ground arith

  change_problem-IsAllowed :
      (f : ProblemForm) (languages : List Language) (cnt : ℤ) (cp : ProblemRow)
      → IsAllowed pdata (change_problem pdata f languages cnt cp)
  unfolding change_problem
  change_problem-IsAllowed f languages cnt cp =
      IsAllowed->>= pdata (check_problem false f languages cnt) _
        (check_problem-IsAllowed false f languages cnt) (λ u. ground arith)

  show_problem-IsAllowed :
      (upidx : ℤ) (languages : List Language) (cp : ProblemRow)
      → IsAllowed pdata (show_problem pdata upidx languages cp)
  unfolding show_problem
  show_problem-IsAllowed upidx languages cp = ground arith

  pub problems_change-IsAllowed :
      (upidx : Text) (method : Method) (form : Form)
      → IsAllowed pdata (problems_change pdata upidx method form)
  unfolding problems_change
  problems_change-IsAllowed upidx get form = grind (arith, show_problem-IsAllowed)
  problems_change-IsAllowed upidx post form = grind (arith, change_problem-IsAllowed)
  problems_change-IsAllowed upidx other_method form = ground arith

  rejudge_problem-IsAllowed : (id : ℤ) → IsAllowed pdata (rejudge_problem pdata.cid id)
  unfolding rejudge_problem unknown_problem_page
  rejudge_problem-IsAllowed id = (
    ground arith,
    λ begun.
        IsAllowed-expect_nil pdata empty_page begun _ (λ e. refl)
          (
            ground arith,
            λ found.
                IsAllowed-expect pdata unknown_problem_page found _ (λ e. ground arith)
                  (λ cp. (
                    ground arith,
                    λ listed.
                        IsAllowed-expect pdata failed listed _ (λ e. refl)
                          (λ sml. (
                            ground arith,
                            λ updated. (
                              ground arith,
                              λ committed.
                                  IsAllowed-expect_nil pdata empty_page committed _ (λ e. refl)
                                    (IsAllowed->>= pdata (submit_all pdata.cid sml) _
                                      (submit_all-IsAllowed sml) (λ u. refl)),
                            ),
                          )),
                  )),
          ),
  )

  pub rejudge-IsAllowed :
      (method : Method) (form : Form) → IsAllowed pdata (rejudge pdata method form)
  unfolding rejudge
  rejudge-IsAllowed get form = ground arith
  rejudge-IsAllowed post form =
      grind (arith, rejudge_problem-IsAllowed, rejudge_submission-IsAllowed)
  rejudge-IsAllowed other_method form = ground arith

  upload_one-IsAllowed :
      (pid : ℤ) (filename : Text) (target : Option (ℤ × Bool))
      → IsAllowed pdata (upload_one pdata.cid pid filename target)
  unfolding upload_one
  upload_one-IsAllowed pid filename none = refl
  upload_one-IsAllowed pid filename (some (id, is_input)) = ground arith

  upload_loop-IsAllowed :
      (pid : ℤ) (names : List Text) → IsAllowed pdata (upload_loop pdata.cid pid names)
  unfolding upload_loop
  upload_loop-IsAllowed pid [] = tt
  upload_loop-IsAllowed pid (filename ∷ rest) =
      IsAllowed->>= pdata (upload_one pdata.cid pid filename (upload_target filename)) _
        (upload_one-IsAllowed pid filename (upload_target filename))
        (λ u. upload_loop-IsAllowed pid rest)

  pub upload_all-IsAllowed :
      (pidx : Text) (method : Method) (uploads : Option (List Text))
      → IsAllowed pdata (upload_all pdata pidx method uploads)
  unfolding upload_all
  upload_all-IsAllowed pidx get uploads = ground arith
  upload_all-IsAllowed pidx other_method uploads = ground arith
  upload_all-IsAllowed pidx post none = ground arith
  upload_all-IsAllowed pidx post (some names) = (
    ground arith,
    λ found.
        IsAllowed-expect pdata (unless_unknown_problem status_not_found) found _ (λ e. ground arith)
          (λ cp. (
            ground arith,
            λ parsed.
                IsAllowed-expect_nil pdata bad_request parsed _ (λ e. refl)
                  (IsAllowed->>= pdata (upload_loop pdata.cid cp.pid names) _
                    (upload_loop-IsAllowed cp.pid names) (λ u. refl)),
          )),
  )
