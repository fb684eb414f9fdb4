-- ===== src/Web/Contest/Submissions.antt =====
-- ppweb/contest_each.go: the list of the submissions of a contest, and one submission.
use popcon_sc.Prelude.{
  ◌+◌, ◌/◌, ◌%◌, ◌==◌, not, ◌||◌, Option, none, some, List, [], ◌∷◌, length, ℤ, pos, negsuc, ◌==ℤ◌,
  ltb_ℤ, sub64, mul64, Text, text, ltb, if◌then◌else◌,
}
use popcon_sc.Codec.Decimal.{parse_int}
use popcon_sc.Database.{Result, ok, err}
use popcon_sc.Web.Rows.{UserRow, ProblemRow, Language, SubmissionView}
use popcon_sc.Web.Pagination.{PaginationHelper, new_pagination_helper}
use popcon_sc.Web.Handler.{
  contest_problem_list_light, user_find_from_user_id, submission_view_count, submission_view_list,
  submission_view_find, submission_get_code, submission_get_case, submission_get_msg,
  language_active_list, status_bad_request, status_forbidden, status_not_found,
}
use popcon_sc.Web.Reply.{
  submissions_of, submission_list, submission_view, Response, status, redirect, page, aborted,
  Handler, give, reply, ◌>>=◌, ◌>>◌, ask, guard, expect, or_else, failed, unless_unknown_submission,
  Form, wrap_form_str, wrap_form_int64,
}
use popcon_sc.Web.Texts.{utf8_string_length_and_bom_check}
use popcon_sc.Web.Contest.{ContestEachPreparedData}
use popcon_sc.Web.Contest.Views.{contents_per_page, guard_accessible}

iid_of : Result UserRow → ℤ
iid_of (ok user) = user.iid
iid_of (err e) = negsuc 127

-- The user whose submissions are asked for: -1 for all, and `IllegalParam` for nobody.
unfoldable pub list_iid : Text → Handler ℤ
unfolding iid_of utf8_string_length_and_bom_check
list_iid [] = give (negsuc 0)
list_iid (c ∷ user_id) =
    if ltb 40 (length (c ∷ user_id)) || not (utf8_string_length_and_bom_check (c ∷ user_id) 40)
    then reply (status status_bad_request)
    else (do user ← ask (user_find_from_user_id (c ∷ user_id)); give (iid_of user))

-- `MaxPage`, for a count that is not negative.
unfoldable pub max_page : ℤ → ℤ
max_page (negsuc n) = pos 1
max_page (pos count) =
    if (count % contents_per_page) == 0
    then (if (count / contents_per_page) == 0 then pos 1 else pos (count / contents_per_page))
    else pos (count / contents_per_page + 1)

-- The page that is shown, and its rows.
unfoldable pub current_page :
    ContestEachPreparedData → (iid lang prob stat p count : ℤ) → Handler (ℤ × List SubmissionView)
current_page pdata iid lang prob stat p count =
    let start = mul64 (sub64 p (pos 1)) (pos contents_per_page) in
    let n = if ltb_ℤ count start then pos 1 else p in
    if ltb_ℤ (pos 0) count
    then (do
      rows ← ask (
          submission_view_list pdata.cid iid lang prob stat
            (mul64 (sub64 n (pos 1)) (pos contents_per_page)) (pos contents_per_page))
      give (n, or_else [] rows))
    else give (pos 1, [])

-- The page; a panic of `make` ends the request.
unfoldable pub show_list :
    ContestEachPreparedData
    → ℤ × List SubmissionView
    → List ProblemRow
    → List Language
    → ℤ
    → Option (List PaginationHelper)
    → Response
show_list pdata (n, rows) probs langs max none = aborted
show_list pdata (n, rows) probs langs max (some pages) =
    page (submission_list (pdata.is_finished || pdata.is_admin) rows probs langs n max pages)

-- The list for one user, or for all.
unfoldable pub list_for : ContestEachPreparedData → (iid lang prob stat p : ℤ) → Handler Unit
unfolding current_page max_page show_list
list_for pdata iid lang prob stat p = do
  guard ((pdata.is_finished || pdata.is_admin) || iid ==ℤ pdata.std.iid)
      (redirect (submissions_of pdata.cid pdata.std.user_id))
  count ← expect failed (← ask (submission_view_count pdata.cid iid lang prob stat))
  langs ← ask language_active_list
  probs ← ask (contest_problem_list_light pdata.cid)
  shown ← current_page pdata iid lang prob stat p count
  reply (
      show_list pdata shown (or_else [] probs) (or_else [] langs) (max_page count)
        (new_pagination_helper shown.0 (max_page count) (pos 3)))

-- "/submissions/".
unfoldable pub submissions : ContestEachPreparedData → Form → Handler Unit
unfolding list_iid list_for
submissions pdata form = do
  guard_accessible pdata
  let stat = wrap_form_int64 form (text "status")
  let lang = wrap_form_int64 form (text "lang")
  let prob = wrap_form_int64 form (text "prob")
  let asked = wrap_form_int64 form (text "p")
  let p = if asked ==ℤ negsuc 0 then pos 1 else asked
  iid ← list_iid (wrap_form_str form (text "user"))
  list_for pdata iid lang prob stat p

-- "/submissions/{sid}".
unfoldable pub submission_detail : ContestEachPreparedData → Text → Handler Unit
submission_detail pdata sid_text = do
  let sid = (parse_int sid_text).0
  view ←
      expect (unless_unknown_submission status_not_found)
        (← ask (submission_view_find sid pdata.cid))
  guard (pdata.is_admin || (view.iid ==ℤ pdata.std.iid || pdata.is_finished))
      (status status_forbidden)
  code ← ask (submission_get_code pdata.cid sid)
  cases ← ask (submission_get_case pdata.cid sid)
  msg ← ask (submission_get_msg pdata.cid sid)
  reply (page (submission_view view (or_else [] cases) (or_else [] code) (or_else [] msg)))
