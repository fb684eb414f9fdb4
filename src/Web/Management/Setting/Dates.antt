-- ===== src/Web/Management/Setting/Dates.antt =====
-- ppweb/contest_each.go: the dates of a contest that the setting page accepts.
use popcon_sc.Prelude.{
  ◌≡◌, refl, Bool, true, not, ◌&&◌, ◌||◌, List, [], ℤ, pos, ltb_ℤ, leb_ℤ, ◌≤ℤ◌, ◌+ℤ◌, +ℤ_parts,
  ◌==ℤ◌, All, arith, text, ◌++◌,
}
use popcon_sc.Web.Rows.{ContestRow}
use popcon_sc.Web.Handler.{Call, time_now, contest_update, status_bad_request}
use popcon_sc.Web.Reply.{
  illegal_contest_name, illegal_start, illegal_finish, start_is_fixed, finish_is_fixed,
  illegal_dates, SettingForm, management_setting, status, page, Host, run, Form, Method, get, post,
  other_method,
}
use popcon_sc.Web.Contract.{
  Later, Ensures, Ensures->>=, Ensures-guard, Ensures-expect_nil, Ensures-some_or, Ensures-run,
}
use popcon_sc.Web.Contest.{ContestEachPreparedData}
use popcon_sc.Web.Management.Problems.{is_legal_name}
use popcon_sc.Web.Management.Setting.{
  Zone, read_setting_form, in_two_minutes, with_start, with_finish, contest_type_named, read_dates,
  name_in_use, save_setting, setting,
}

-- A date may stay as it is; a new one must not lie before the request, and the old one must be more
-- than two minutes ahead.
abbrev pub is_fair_date : (request_time old new : ℤ) → Bool
is_fair_date t old new = (old ==ℤ new) || (ltb_ℤ (t +ℤ pos 120) old && leb_ℤ t new)

abbrev pub are_fair_dates : (request_time : ℤ) → ContestRow → ℤ × ℤ → Bool
are_fair_dates t old (start, finish) =
    ltb_ℤ start finish
    && (is_fair_date t old.start_time start && is_fair_date t old.finish_time finish)

abbrev pub is_fair_update : (request_time : ℤ) → ContestRow → Call → Bool
is_fair_update t old (contest_update cid name start finish admin contest_type penalty) =
    are_fair_dates t old (start, finish) && (is_legal_name name && admin ==ℤ old.admin)
is_fair_update t old _ = true

-- What the guards of `read_dates` say of the clock that each of them has read.
abbrev old_date_stays : (now old new : ℤ) → Bool
old_date_stays now old new = not (leb_ℤ old (in_two_minutes now) && not (old ==ℤ new))

abbrev new_dates_ahead : ContestRow → (now3 now4 start finish : ℤ) → Bool
new_dates_ahead old now3 now4 start finish = not (
    leb_ℤ finish start
    || ((not (old.start_time ==ℤ start) && ltb_ℤ start now3)
        || (not (old.finish_time ==ℤ finish) && ltb_ℤ finish now4)))

fair_date_lem :
    (t now old new : ℤ)
    → t ≤ℤ now
    → old_date_stays now old new ≡ true
    → (((old ==ℤ new) || leb_ℤ t new) ≡ true)
    → is_fair_date t old new ≡ true
fair_date_lem t now old new l g h = ground (arith, +ℤ_parts t (pos 120), +ℤ_parts now (pos 120))

module _ (t : ℤ) (old : ContestRow) where
  fair_dates_lem :
      (start finish now1 now2 now3 now4 : ℤ)
      → t ≤ℤ now1
      → t ≤ℤ now2
      → t ≤ℤ now3
      → t ≤ℤ now4
      → old_date_stays now1 old.start_time start ≡ true
      → old_date_stays now2 old.finish_time finish ≡ true
      → new_dates_ahead old now3 now4 start finish ≡ true
      → are_fair_dates t old (start, finish) ≡ true
  fair_dates_lem start finish now1 now2 now3 now4 l1 l2 l3 l4 g1 g2 g3 =
      let ahead : (ltb_ℤ start finish ≡ true)
          × (((old.start_time ==ℤ start) || leb_ℤ t start) ≡ true)
          × (((old.finish_time ==ℤ finish) || leb_ℤ t finish) ≡ true) =
        ground arith in
      let s = fair_date_lem t now1 old.start_time start l1 g1 ahead.1 in
      let f = fair_date_lem t now2 old.finish_time finish l2 g2 ahead.2 in rw (ahead.0, s, f) refl

  -- The value of `read_dates`.
  abbrev AreFair : ℤ × ℤ → Type 0
  AreFair dates = are_fair_dates t old dates ≡ true

  read_dates-Ensures :
      (zone : Zone) (f : SettingForm)
      → Ensures (is_fair_update t old) (Later t) AreFair (read_dates zone old f)
  unfolding read_dates
  read_dates-Ensures zone f =
      Ensures-some_or (is_fair_update t old) (Later t) AreFair
        (page (management_setting illegal_start f))
        (zone.parse_in_location (f.start_date ++ (text " " ++ f.start_time))) _
        (λ start. (
          refl,
          λ now1 l1.
              Ensures-guard (is_fair_update t old) (Later t) AreFair
                (old_date_stays now1 old.start_time start)
                (page (management_setting start_is_fixed (with_start zone old.start_time f))) _
                (λ g1.
                  Ensures-some_or (is_fair_update t old) (Later t) AreFair
                    (page (management_setting illegal_finish f))
                    (zone.parse_in_location (f.finish_date ++ (text " " ++ f.finish_time))) _
                    (λ finish. (
                      refl,
                      λ now2 l2.
                          Ensures-guard (is_fair_update t old) (Later t) AreFair
                            (old_date_stays now2 old.finish_time finish)
                            (page (
                              management_setting finish_is_fixed
                                (with_finish zone old.finish_time f)))
                            _
                            (λ g2. (
                              refl,
                              λ now3 l3. (
                                refl,
                                λ now4 l4.
                                    Ensures-guard (is_fair_update t old) (Later t) AreFair
                                      (new_dates_ahead old now3 now4 start finish)
                                      (page (management_setting illegal_dates f)) _
                                      (λ g3.
                                        fair_dates_lem start finish now1 now2 now3 now4 l1 l2 l3 l4
                                          g1 g2 g3),
                              ),
                            )),
                    ))),
        ))

module _ (t : ℤ) (pdata : ContestEachPreparedData) where
  save_setting-Ensures :
      (zone : Zone) (f : SettingForm)
      → Ensures (is_fair_update t pdata.contest) (Later t) (λ u. Unit) (save_setting zone pdata f)
  unfolding save_setting
  save_setting-Ensures zone f =
      Ensures-some_or (is_fair_update t pdata.contest) (Later t) (λ u. Unit)
        (status status_bad_request) (contest_type_named f.contest_type) _
        (λ contest_type.
          Ensures-guard (is_fair_update t pdata.contest) (Later t) (λ u. Unit)
            (is_legal_name f.contest_name) (page (management_setting illegal_contest_name f)) _
            (λ legal.
              Ensures->>= (is_fair_update t pdata.contest) (Later t) (AreFair t pdata.contest)
                (λ u. Unit) (read_dates zone pdata.contest f) _
                (read_dates-Ensures t pdata.contest zone f)
                (λ dates fair. (
                  ground arith,
                  λ updated l.
                      Ensures-expect_nil (is_fair_update t pdata.contest) (Later t) (λ u. Unit)
                        (name_in_use f) updated _ (refl, λ a l. tt),
                ))))

  setting-Ensures :
      (zone : Zone) (method : Method) (form : Form)
      → Ensures
          (is_fair_update t pdata.contest)
          (Later t)
          (λ u. Unit)
          (setting zone pdata method form)
  unfolding setting
  setting-Ensures zone get form = (refl, λ a l. tt)
  setting-Ensures zone post form = save_setting-Ensures zone (read_setting_form form)
  setting-Ensures zone other_method form = tt

  -- Whatever the form of the setting page says, while the clock does not run back behind the time t
  -- of the request: a contest is updated only if it then starts before it finishes, if its name is
  -- legal and its admin stays, and if each of its two dates either stays, or was more than two
  -- minutes ahead of t and is not moved to before t.
  pub setting-is_fair_update :
      (zone : Zone) (method : Method) (form : Form) (host : Host)
      → ((before : List Call) → t ≤ℤ host before time_now)
      → All
          (λ c. is_fair_update t pdata.contest c ≡ true)
          (run host [] (setting zone pdata method form)).0
  setting-is_fair_update zone method form host clock =
      Ensures-run (is_fair_update t pdata.contest) (Later t) host []
        (setting zone pdata method form) relies (setting-Ensures zone method form)
    where
      relies : (before : List Call) (c : Call) → Later t c (host before c)
      relies before time_now = clock before
      relies before _ = tt
