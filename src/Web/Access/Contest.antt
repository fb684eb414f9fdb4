-- ===== src/Web/Access/Contest.antt =====
-- ppweb/contest_each.go: the handlers that a visitor of a contest reaches make only the calls, and show
-- only the pages, that he has a right to.
use popcon_sc.Prelude.{
  ◌≡◌, refl, true, [], ◌∷◌, ℤ, pos, ◌==ℤ◌, arith, Text, if◌then◌else◌, text, negsuc,
}
use Prim.Native.String.{String}
use popcon_sc.Web.Reply.{
  contest_top, redirect, ◌>>=◌, Form, wrap_form_str, wrap_form_int64, Method, get,
}
use popcon_sc.Web.Contest.{ContestEachPreparedData}
use popcon_sc.Web.Contest.Views.{top, problems, problem, related_file, ranking}
use popcon_sc.Web.Contest.Submissions.{
  list_iid, current_page, list_for, show_list, submissions, submission_detail,
}
use popcon_sc.Web.Contest.Submit.{join, submit_form, enqueue, submit_code, submit}
use popcon_sc.Web.Access.{IsAllowed, IsAllowed->>=, IsAllowed-guard}

module _ (pdata : ContestEachPreparedData) where
  pub top-IsAllowed : IsAllowed pdata (top pdata)
  unfolding top
  top-IsAllowed = ground arith

  pub problems-IsAllowed : IsAllowed pdata (problems pdata)
  unfolding problems
  problems-IsAllowed = ground arith

  pub problem-IsAllowed : (pidx : Text) → IsAllowed pdata (problem pdata pidx)
  unfolding problem
  problem-IsAllowed pidx = ground arith

  pub related_file-IsAllowed : (pidx id : Text) → IsAllowed pdata (related_file pdata pidx id)
  unfolding related_file
  related_file-IsAllowed pidx id = ground arith

  pub ranking-IsAllowed : (form : Form) → IsAllowed pdata (ranking pdata form)
  unfolding ranking
  ranking-IsAllowed form = ground arith

  pub join-IsAllowed : (method : Method) → IsAllowed pdata (join pdata method)
  unfolding join
  join-IsAllowed get = ground arith
  join-IsAllowed _ = ground arith

  pub submit-IsAllowed :
      (method : Method) (form : Form) → IsAllowed pdata (submit pdata method form)
  unfolding submit submit_form submit_code enqueue
  submit-IsAllowed get form = ground arith
  submit-IsAllowed _ form = ground arith

  pub submission_detail-IsAllowed : (sid : Text) → IsAllowed pdata (submission_detail pdata sid)
  unfolding submission_detail
  submission_detail-IsAllowed sid = ground arith

  list_iid-IsAllowed :
      (user_id : Text) → pdata.accessible ≡ true → IsAllowed pdata (list_iid user_id)
  unfolding list_iid
  list_iid-IsAllowed [] h = tt
  list_iid-IsAllowed (c ∷ user_id) h = ground arith

  list_for-IsAllowed :
      (iid lang prob stat p : ℤ)
      → pdata.accessible ≡ true
      → IsAllowed pdata (list_for pdata iid lang prob stat p)
  unfolding list_for current_page show_list
  list_for-IsAllowed iid lang prob stat p h = ground arith

  pub submissions-IsAllowed : (form : Form) → IsAllowed pdata (submissions pdata form)
  unfolding submissions
  submissions-IsAllowed form =
      let asked = wrap_form_int64 form (text "p") in
      let number = λ (key : String). wrap_form_int64 form (text key) in
      let rest = λ (iid : ℤ).
        list_for pdata iid (number "lang") (number "prob") (number "status")
          (if asked ==ℤ negsuc 0 then pos 1 else asked) in
      IsAllowed-guard pdata pdata.accessible (redirect (contest_top pdata.cid))
        (list_iid (wrap_form_str form (text "user")) >>= rest) refl
        (λ h.
          IsAllowed->>= pdata (list_iid (wrap_form_str form (text "user"))) rest
            (list_iid-IsAllowed (wrap_form_str form (text "user")) h)
            (λ iid.
              list_for-IsAllowed iid (number "lang") (number "prob") (number "status")
                (if asked ==ℤ negsuc 0 then pos 1 else asked) h))
