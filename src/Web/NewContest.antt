-- ===== src/Web/NewContest.antt =====
-- ppweb/contest_page.go: a new contest.
use popcon_sc.Prelude.{
  refl, ◌≤ℤ◌, All, arith, ◌≡◌, Bool, true, not, ◌&&◌, ◌||◌, List, [], ◌++◌, ℤ, pos, ◌==ℤ◌, leb_ℤ,
  ltb_ℤ, Text, text,
}
use popcon_sc.Types.Contest.{ContestType}
use popcon_sc.Database.{DbError, duplicate}
use popcon_sc.Web.Rows.{SessionTemplateData}
use popcon_sc.Web.Handler.{
  Call, time_now, description_update, can_create_contest, contest_add, status_bad_request,
  status_forbidden, status_internal_server_error,
}
use popcon_sc.Web.Reply.{
  contest_top, no_message, illegal_contest_name, illegal_start, illegal_finish, illegal_dates,
  contest_name_in_use, SettingForm, new_contest, Response, status, redirect, page, Handler, reply,
  ◌>>=◌, ◌>>◌, ask, guard, expect, some_or, failed, Host, run, Form, Method, get, post,
  other_method,
}
use popcon_sc.Web.Management.Problems.{is_legal_name}
use popcon_sc.Web.Management.Setting.{Zone, contest_type_named, read_setting_form}
use popcon_sc.Web.Contract.{
  Later, Ensures, Ensures-guard, Ensures-expect, Ensures-some_or, Ensures-run,
}

name_taken : SettingForm → DbError → Response
name_taken f duplicate = page (new_contest contest_name_in_use f)
name_taken f other = status status_internal_server_error

-- By POST.
unfoldable pub add_contest : Zone → SessionTemplateData → SettingForm → Handler Unit
unfolding name_taken
add_contest zone std f = do
  contest_type ← some_or (status status_bad_request) (contest_type_named f.contest_type)
  guard (not (ltb_ℤ f.penalty (pos 0) || ltb_ℤ (pos 10_000) f.penalty)) (status status_bad_request)
  guard (is_legal_name f.contest_name) (page (new_contest illegal_contest_name f))
  start ←
      some_or (page (new_contest illegal_start f))
        (zone.parse_in_location (f.start_date ++ (text " " ++ f.start_time)))
  finish ←
      some_or (page (new_contest illegal_finish f))
        (zone.parse_in_location (f.finish_date ++ (text " " ++ f.finish_time)))
  now ← ask time_now
  guard (not (leb_ℤ finish start || ltb_ℤ start now)) (page (new_contest illegal_dates f))
  cid ←
      expect (name_taken f)
        (← ask (contest_add f.contest_name start finish std.iid contest_type f.penalty))
  updated ← ask (description_update cid f.description)
  reply (redirect (contest_top cid))

abbrev empty_setting_form : SettingForm
empty_setting_form = record {
  start_date = [];
  start_time = [];
  finish_date = [];
  finish_time = [];
  description = [];
  contest_name = [];
  contest_type = [];
  penalty = pos 0;
}

unfoldable pub new_contest_by : Zone → SessionTemplateData → Method → Form → Handler Unit
new_contest_by zone std post form = add_contest zone std (read_setting_form form)
new_contest_by zone std get form = reply (page (new_contest no_message empty_setting_form))
new_contest_by zone std other_method form = reply (status status_bad_request)

-- `newContestHandler`: group 0 is the admins of the site.
unfoldable pub new_contest_handler : Zone → SessionTemplateData → Method → Form → Handler Unit
new_contest_handler zone std method form = do
  allowed ← expect failed (← ask can_create_contest)
  guard (allowed || std.gid ==ℤ pos 0) (status status_forbidden)
  new_contest_by zone std method form

-- A contest of the user himself with a legal name and penalty, that starts no earlier than t and
-- before it finishes.
abbrev pub is_fair_contest : (request_time : ℤ) → SessionTemplateData → Call → Bool
is_fair_contest t std (contest_add name start finish iid contest_type penalty) =
    (is_legal_name name && iid ==ℤ std.iid)
    && ((leb_ℤ t start && ltb_ℤ start finish)
        && (leb_ℤ (pos 0) penalty && leb_ℤ penalty (pos 10_000)))
is_fair_contest t std _ = true

module _ (t : ℤ) (std : SessionTemplateData) where
  fair_contest_lem :
      (name : Text) (start finish now penalty : ℤ) (contest_type : ContestType)
      → t ≤ℤ now
      → is_legal_name name ≡ true
      → not (leb_ℤ finish start || ltb_ℤ start now) ≡ true
      → not (ltb_ℤ penalty (pos 0) || ltb_ℤ (pos 10_000) penalty) ≡ true
      → is_fair_contest t std (contest_add name start finish std.iid contest_type penalty) ≡ true
  fair_contest_lem name start finish now penalty contest_type l legal ahead fine =
      rw legal (ground arith)

  add_contest-Ensures :
      (zone : Zone) (f : SettingForm)
      → Ensures (is_fair_contest t std) (Later t) (λ u. Unit) (add_contest zone std f)
  unfolding add_contest
  add_contest-Ensures zone f =
      Ensures-some_or (is_fair_contest t std) (Later t) (λ u. Unit) (status status_bad_request)
        (contest_type_named f.contest_type) _
        (λ contest_type.
          Ensures-guard (is_fair_contest t std) (Later t) (λ u. Unit)
            (not (ltb_ℤ f.penalty (pos 0) || ltb_ℤ (pos 10_000) f.penalty))
            (status status_bad_request) _
            (λ fine.
              Ensures-guard (is_fair_contest t std) (Later t) (λ u. Unit)
                (is_legal_name f.contest_name) (page (new_contest illegal_contest_name f)) _
                (λ legal.
                  Ensures-some_or (is_fair_contest t std) (Later t) (λ u. Unit)
                    (page (new_contest illegal_start f))
                    (zone.parse_in_location (f.start_date ++ (text " " ++ f.start_time))) _
                    (λ start.
                      Ensures-some_or (is_fair_contest t std) (Later t) (λ u. Unit)
                        (page (new_contest illegal_finish f))
                        (zone.parse_in_location (f.finish_date ++ (text " " ++ f.finish_time))) _
                        (λ finish. (
                          refl,
                          λ now l.
                              Ensures-guard (is_fair_contest t std) (Later t) (λ u. Unit)
                                (not (leb_ℤ finish start || ltb_ℤ start now))
                                (page (new_contest illegal_dates f)) _
                                (λ ahead. (
                                  fair_contest_lem f.contest_name start finish now f.penalty
                                      contest_type l legal ahead fine,
                                  λ added a.
                                      Ensures-expect (is_fair_contest t std) (Later t) (λ u. Unit)
                                        (name_taken f) added _ (λ cid. (refl, λ updated b. tt)),
                                )),
                        ))))))

  new_contest_by-Ensures :
      (zone : Zone) (method : Method) (form : Form)
      → Ensures (is_fair_contest t std) (Later t) (λ u. Unit) (new_contest_by zone std method form)
  unfolding new_contest_by
  new_contest_by-Ensures zone post form = add_contest-Ensures zone (read_setting_form form)
  new_contest_by-Ensures zone _ form = tt

  new_contest_handler-Ensures :
      (zone : Zone) (method : Method) (form : Form)
      → Ensures
          (is_fair_contest t std)
          (Later t)
          (λ u. Unit)
          (new_contest_handler zone std method form)
  unfolding new_contest_handler
  new_contest_handler-Ensures zone method form = (
    refl,
    λ answer l.
        Ensures-expect (is_fair_contest t std) (Later t) (λ u. Unit) failed answer _
          (λ allowed.
            Ensures-guard (is_fair_contest t std) (Later t) (λ u. Unit)
              (allowed || std.gid ==ℤ pos 0) (status status_forbidden) _
              (λ g. new_contest_by-Ensures zone method form)),
  )

  -- Whatever the form of a new contest says, while the clock does not run back behind the time t of
  -- the request: a contest is added only for the user himself, with a legal name, a penalty from 0 to
  -- 10000, a start that is not before t, and a finish behind the start.
  pub new_contest_handler-is_fair_contest :
      (zone : Zone) (method : Method) (form : Form) (host : Host)
      → ((before : List Call) → t ≤ℤ host before time_now)
      → All
          (λ c. is_fair_contest t std c ≡ true)
          (run host [] (new_contest_handler zone std method form)).0
  new_contest_handler-is_fair_contest zone method form host clock =
      Ensures-run (is_fair_contest t std) (Later t) host []
        (new_contest_handler zone std method form) relies
        (new_contest_handler-Ensures zone method form)
    where
      relies : (before : List Call) (c : Call) → Later t c (host before c)
      relies before time_now = clock before
      relies before _ = tt
