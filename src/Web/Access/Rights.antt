-- ===== src/Web/Access/Rights.antt =====
-- ppweb/contest_each.go: the rights of a visitor over all routes, and of one who has not joined.
use popcon_sc.Prelude.{
  ◌≡◌, refl, Bool, true, false, not, ◌&&◌, ◌||◌, List, [], ◌∷◌, ℤ, leb_ℤ, ◌<ℤ◌, ◌==ℤ◌, All, All-map,
  arith, subst, sym,
}
use popcon_sc.Database.{ok}
use popcon_sc.Web.Rows.{ContestRow, SessionTemplateData}
use popcon_sc.Web.Handler.{
  Call, time_now, contest_find, contest_participation_first, description_load, submission_view_find,
  submission_get_code, submission_get_case, submission_get_msg, contest_participation_add,
  contests_join, status_forbidden,
}
use popcon_sc.Web.Reply.{top_page, submission_view, Response, status, page, file, Host, run}
use popcon_sc.Web.Contest.{
  ContestEachPreparedData, contest_participation_check, prepare, prepare_variables,
}
use popcon_sc.Web.Management.Setting.{Zone}
use popcon_sc.Web.Routes.{
  ManagementRoute, at_top, at_remove, at_rejudge, at_setting, at_problems, at_problems_new,
  at_nothing, at_remove_problem, at_problem, at_related_files, at_testcases, at_upload_all,
  at_testcase, at_testcase_file, Route, to_top, to_problems, to_ranking, to_submissions, to_join,
  to_submit, to_nothing, to_problem, to_related_file, to_submission, to_management, Request,
  serve_management, serve, visit,
}
use popcon_sc.Web.Access.{may_send, is_allowed, IsAllowed, IsAllowed-guard, IsAllowed-run}
use popcon_sc.Web.Access.Contest.{
  top-IsAllowed, problems-IsAllowed, problem-IsAllowed, related_file-IsAllowed, ranking-IsAllowed,
  join-IsAllowed, submit-IsAllowed, submission_detail-IsAllowed, submissions-IsAllowed,
}
use popcon_sc.Web.Access.Management.{
  management_problems_page-IsAllowed, remove_problem-IsAllowed, remove_contest-IsAllowed,
  testcases-IsAllowed, testcase-IsAllowed, testcase_file-IsAllowed, related_files_page-IsAllowed,
  setting-IsAllowed, problems_new-IsAllowed, problems_change-IsAllowed, rejudge-IsAllowed,
  upload_all-IsAllowed,
}

serve_management-IsAllowed :
    (zone : Zone) (pdata : ContestEachPreparedData) (r : Request) (route : ManagementRoute)
    → pdata.is_admin ≡ true
    → IsAllowed pdata (serve_management zone pdata r route)
unfolding serve_management
serve_management-IsAllowed zone pdata r at_top h = h
serve_management-IsAllowed zone pdata r at_remove h = remove_contest-IsAllowed pdata h
serve_management-IsAllowed zone pdata r at_rejudge h = rejudge-IsAllowed pdata h r.method r.form
serve_management-IsAllowed zone pdata r at_setting h =
    setting-IsAllowed pdata h zone r.method r.form
serve_management-IsAllowed zone pdata r at_problems h = management_problems_page-IsAllowed pdata h
serve_management-IsAllowed zone pdata r at_problems_new h =
    problems_new-IsAllowed pdata h r.method r.form
serve_management-IsAllowed zone pdata r at_nothing h = refl
serve_management-IsAllowed zone pdata r (at_remove_problem pidx) h =
    remove_problem-IsAllowed pdata h pidx
serve_management-IsAllowed zone pdata r (at_problem pidx) h =
    problems_change-IsAllowed pdata h pidx r.method r.form
serve_management-IsAllowed zone pdata r (at_related_files pidx) h =
    related_files_page-IsAllowed pdata h pidx r.method r.form
serve_management-IsAllowed zone pdata r (at_testcases pidx) h =
    testcases-IsAllowed pdata h pidx r.method r.form
serve_management-IsAllowed zone pdata r (at_upload_all pidx) h =
    upload_all-IsAllowed pdata h pidx r.method r.uploads
serve_management-IsAllowed zone pdata r (at_testcase pidx tcid) h =
    testcase-IsAllowed pdata h pidx tcid
serve_management-IsAllowed zone pdata r (at_testcase_file pidx tcid is_input) h =
    testcase_file-IsAllowed pdata h pidx tcid is_input r.method

serve-IsAllowed :
    (zone : Zone) (pdata : ContestEachPreparedData) (r : Request) (route : Route)
    → IsAllowed pdata (serve zone pdata r route)
unfolding serve
serve-IsAllowed zone pdata r to_top = top-IsAllowed pdata
serve-IsAllowed zone pdata r to_problems = problems-IsAllowed pdata
serve-IsAllowed zone pdata r to_ranking = ranking-IsAllowed pdata r.form
serve-IsAllowed zone pdata r to_submissions = submissions-IsAllowed pdata r.form
serve-IsAllowed zone pdata r to_join = join-IsAllowed pdata r.method
serve-IsAllowed zone pdata r to_submit = submit-IsAllowed pdata r.method r.form
serve-IsAllowed zone pdata r to_nothing = refl
serve-IsAllowed zone pdata r (to_problem pidx) = problem-IsAllowed pdata pidx
serve-IsAllowed zone pdata r (to_related_file pidx id) = related_file-IsAllowed pdata pidx id
serve-IsAllowed zone pdata r (to_submission sid) = submission_detail-IsAllowed pdata sid
serve-IsAllowed zone pdata r (to_management m) =
    IsAllowed-guard pdata pdata.is_admin (status status_forbidden) (serve_management zone pdata r m)
      refl (serve_management-IsAllowed zone pdata r m)

serve_rights :
    (zone : Zone) (pdata : ContestEachPreparedData) (r : Request) (route : Route) (host : Host)
    (past : List Call)
    → All (λ c. is_allowed pdata c ≡ true) (run host past (serve zone pdata r route)).0
      × (may_send pdata (run host past (serve zone pdata r route)).1 ≡ true)
serve_rights zone pdata r route host past =
    IsAllowed-run pdata host past (serve zone pdata r route) (serve-IsAllowed zone pdata r route)

-- What a visit makes of the rows of the contest and of the visitor, and of the clock.
abbrev pub prepared :
    Host → ℤ → SessionTemplateData → ContestRow → Bool → Bool → ContestEachPreparedData
prepared host cid std contest joined admin =
    prepare cid std contest (joined, admin)
      (host (contest_participation_first std.iid cid ∷ contest_find cid ∷ []) time_now)

-- The calls that find out what the visitor may do.
abbrev pub is_preparation : (cid iid : ℤ) → Call → Bool
is_preparation cid iid (contest_find c) = c ==ℤ cid
is_preparation cid iid (contest_participation_first i c) = i ==ℤ iid && c ==ℤ cid
is_preparation cid iid _ = false

-- Who is an admin and who is let in, from the rows and the time.
abbrev pub IsJudgedBy :
    ContestEachPreparedData → ContestRow → (joined admin : Bool) → (iid now : ℤ) → Type 0
IsJudgedBy pdata contest joined admin iid now =
    (pdata.is_admin ≡ (contest.admin ==ℤ iid || admin))
    × (pdata.is_finished ≡ leb_ℤ contest.finish_time now)
    × (pdata.accessible ≡ (
        (joined && leb_ℤ contest.start_time now)
        || (leb_ℤ contest.finish_time now || (contest.admin ==ℤ iid || admin))))

-- A visit of a contest that is found, by a user whose part in it is found: on every route, for every
-- form, and whatever else is answered, the visitor is let in exactly if he has joined and the contest
-- has started, or the contest has finished, or he is an admin of it. Every call but the two that find
-- this out is about this contest, and the visitor has the right to it that the table `right_of` asks
-- for: only an admin changes the contest; only who is let in reads problems and ranking; submissions
-- of others are listed to admins, and after the end; a user joins and submits for himself only; a
-- single submission is looked up for anybody. The response shows only what the visitor may see, a
-- single submission only to its user, to an admin, or after the end.
pub visit_rights :
    (zone : Zone) (cid : ℤ) (std : SessionTemplateData) (r : Request) (route : Route) (host : Host)
    (contest : ContestRow) (joined admin : Bool)
    → host [] (contest_find cid) ≡ ok contest
    → contest_participation_check
        (host (contest_find cid ∷ []) (contest_participation_first std.iid cid))
      ≡ ok (joined, admin)
    → IsJudgedBy
        (prepared host cid std contest joined admin)
        contest
        joined
        admin
        std.iid
        (host (contest_participation_first std.iid cid ∷ contest_find cid ∷ []) time_now)
      × All
          (λ c.
            (is_preparation cid std.iid c
              || is_allowed (prepared host cid std contest joined admin) c)
            ≡ true)
          (run host [] (visit zone cid std r route)).0
      × (may_send
            (prepared host cid std contest joined admin)
            (run host [] (visit zone cid std r route)).1
          ≡ true)
unfolding visit prepare_variables prepare
visit_rights zone cid std r route host contest joined admin found checked =
    let pdata = prepared host cid std contest joined admin in
    let past = time_now ∷ contest_participation_first std.iid cid ∷ contest_find cid ∷ [] in
    let served = run host past (serve zone pdata r route) in
    let rest = serve_rights zone pdata r route host past in
    let ran : run host [] (visit zone cid std r route) ≡ (
      contest_find cid ∷ contest_participation_first std.iid cid ∷ time_now ∷ served.0,
      served.1,
    ) =
      rw (found, checked) refl in
    let calls : All (λ c. (is_preparation cid std.iid c || is_allowed pdata c) ≡ true) served.0 =
      All-map (λ c. is_allowed pdata c ≡ true)
        (λ c. (is_preparation cid std.iid c || is_allowed pdata c) ≡ true) served.0
        (λ c h. ground arith) rest.0 in
    (
      (ground arith, refl, ground arith),
      subst (λ x. All (λ c. (is_preparation cid std.iid c || is_allowed pdata c) ≡ true) x.0)
          (sym ran) (ground arith, (ground arith, (refl, calls))),
      subst (λ x. may_send pdata x.1 ≡ true) (sym ran) rest.1,
    )

-- The calls of a visit by a user who has not joined a running contest.
abbrev pub outsider_call : (cid iid : ℤ) → Call → Bool
outsider_call cid iid (contest_find c) = c ==ℤ cid
outsider_call cid iid (contest_participation_first i c) = i ==ℤ iid && c ==ℤ cid
outsider_call cid iid time_now = true
outsider_call cid iid (description_load c) = c ==ℤ cid
outsider_call cid iid (submission_view_find sid c) = c ==ℤ cid
outsider_call cid iid (submission_get_code c sid) = c ==ℤ cid
outsider_call cid iid (submission_get_case c sid) = c ==ℤ cid
outsider_call cid iid (submission_get_msg c sid) = c ==ℤ cid
outsider_call cid iid (contest_participation_add i c) = i ==ℤ iid && c ==ℤ cid
outsider_call cid iid (contests_join c i) = i ==ℤ iid && c ==ℤ cid
outsider_call cid iid _ = false

abbrev pub outsider_page : ℤ → Response → Bool
outsider_page iid (page (top_page description join_button enabled management)) =
    not enabled && not management
outsider_page iid (page (submission_view view cases code msg)) = view.iid ==ℤ iid
outsider_page iid (page p) = false
outsider_page iid (file contents) = false
outsider_page iid r = true

module _ (pdata : ContestEachPreparedData) (a : pdata.accessible ≡ false)
    (m : pdata.is_admin ≡ false) (n : pdata.is_finished ≡ false) where
  outsider_call-is_allowed :
      (c : Call) → is_allowed pdata c ≡ true → outsider_call pdata.cid pdata.std.iid c ≡ true
  outsider_call-is_allowed time_now h = refl
  outsider_call-is_allowed (contest_participation_add i c) h = ground arith
  outsider_call-is_allowed _ h = ground arith

  outsider_page-may_send :
      (r : Response) → may_send pdata r ≡ true → outsider_page pdata.std.iid r ≡ true
  outsider_page-may_send (page (submission_view view cases code msg)) h = ground arith
  outsider_page-may_send (page p) h = ground arith
  outsider_page-may_send (file contents) h = ground arith
  outsider_page-may_send r h = ground arith

  outsider_serve :
      (zone : Zone) (r : Request) (route : Route) (host : Host) (past : List Call)
      → All
          (λ c. outsider_call pdata.cid pdata.std.iid c ≡ true)
          (run host past (serve zone pdata r route)).0
        × (outsider_page pdata.std.iid (run host past (serve zone pdata r route)).1 ≡ true)
  outsider_serve zone r route host past =
      let done =
        IsAllowed-run pdata host past (serve zone pdata r route)
          (serve-IsAllowed zone pdata r route) in
      (
        All-map (λ c. is_allowed pdata c ≡ true)
            (λ c. outsider_call pdata.cid pdata.std.iid c ≡ true)
            (run host past (serve zone pdata r route)).0 outsider_call-is_allowed done.0,
        outsider_page-may_send (run host past (serve zone pdata r route)).1 done.1,
      )

-- A user who is no admin of the contest, before its end, and who has not joined it or comes before
-- its start: whatever route he tries, and whatever is answered, the calls are those that find out
-- who he is, the description on the front page, the lookup of a single submission with its program,
-- cases and messages, and the two by which he joins. No problem, ranking or list of submissions is
-- read, and nothing but his joining is written. The response shows a submission only if it is his
-- own, and the front page without the links that only others may use, and no other page.
pub outsider_visit :
    (zone : Zone) (cid : ℤ) (std : SessionTemplateData) (r : Request) (route : Route) (host : Host)
    (contest : ContestRow) (joined : Bool)
    → host [] (contest_find cid) ≡ ok contest
    → contest_participation_check
        (host (contest_find cid ∷ []) (contest_participation_first std.iid cid))
      ≡ ok (joined, false)
    → (contest.admin ==ℤ std.iid) ≡ false
    → host (contest_participation_first std.iid cid ∷ contest_find cid ∷ []) time_now
      <ℤ contest.finish_time
    → (joined
        && leb_ℤ contest.start_time
            (host (contest_participation_first std.iid cid ∷ contest_find cid ∷ []) time_now))
      ≡ false
    → All (λ c. outsider_call cid std.iid c ≡ true) (run host [] (visit zone cid std r route)).0
      × (outsider_page std.iid (run host [] (visit zone cid std r route)).1 ≡ true)
unfolding visit prepare_variables
outsider_visit zone cid std r route host contest joined found checked no_admin early kept_out =
    let past = time_now ∷ contest_participation_first std.iid cid ∷ contest_find cid ∷ [] in
    let now = host (contest_participation_first std.iid cid ∷ contest_find cid ∷ []) time_now in
    let pdata = prepare cid std contest (joined, false) now in
    let no_right : (pdata.is_admin ≡ false) × (pdata.is_finished ≡ false) = ground arith in
    let shut : pdata.accessible ≡ false = ground arith in
    let rest = outsider_serve pdata shut no_right.0 no_right.1 zone r route host past in
    let served = run host past (serve zone pdata r route) in
    let ran : run host [] (visit zone cid std r route) ≡ (
      contest_find cid ∷ contest_participation_first std.iid cid ∷ time_now ∷ served.0,
      served.1,
    ) =
      rw (found, checked) refl in
    subst
      (λ x. All (λ c. outsider_call cid std.iid c ≡ true) x.0 × (outsider_page std.iid x.1 ≡ true))
      (sym ran) (((ground arith, (ground arith, (refl, rest.0))), rest.1))
