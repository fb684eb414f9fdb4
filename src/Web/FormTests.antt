-- ===== src/Web/FormTests.antt =====
-- ppweb/contest_each.go and ppweb/contest_page.go: forms that are sent to a small contest.
use popcon_sc.Prelude.{
  Text, ◌≡◌, refl, false, true, none, some, List, [], ◌∷◌, pos, negsuc, All, arith, text, text_eq,
  if◌then◌else◌, ◌+ℤ◌, ◌-ℤ◌, ◌*ℤ◌, wrap64, sub64, mul64,
}
use popcon_sc.Types.Contest.{icpc, contest_type_to_string}
use popcon_sc.Codec.Decimal.{parse_int}
use popcon_sc.Web.Pagination.{
  PaginationHelper, links_between, new_pagination_helper, is_page, active_count,
  new_pagination_helper-is_page,
}
use popcon_sc.Web.Handler.{
  can_create_contest, contest_add, time_now, contest_problem_find2, language_find, submission_add,
  judge_submit, begin_dm, commit, submission_find, contest_update, description_update,
  submission_update_result, reset_submission,
}
use popcon_sc.Web.Reply.{
  management_top, management_testcases, redirect, submission, aborted, Host, run, Form, post,
  wrap_form_int64, wrap_form_str,
}
use popcon_sc.Web.Contest.Submissions.{max_page, show_list, list_for}
use popcon_sc.Web.Contest.Submit.{submit, submit_code, enqueue}
use popcon_sc.Web.Contest.Queue.{
  IsQueueing, submit-IsQueueing, is_mark, AgreeButQueue, rejudge_loses,
}
use popcon_sc.Web.Management.TestCases.{save_testcases, testcases}
use popcon_sc.Web.Management.TestCases.Sound.{is_sound_update, testcases-is_sound_update}
use popcon_sc.Web.Management.Setting.{setting, save_setting, read_dates, contest_type_named}
use popcon_sc.Web.Management.Problems.{is_legal_name}
use popcon_sc.Web.Texts.{utf8_string_length_and_bom_check, trim_space}
use popcon_sc.Types.Submission.{internal_error}
use popcon_sc.Web.Management.Setting.Dates.{is_fair_update, setting-is_fair_update}
use popcon_sc.Web.Management.Rejudge.{rejudge_submission, rejudge}
use popcon_sc.Web.NewContest.{
  is_fair_contest, new_contest_by, add_contest, new_contest_handler,
  new_contest_handler-is_fair_contest,
}
use popcon_sc.Web.ContestTests.{spring, alice, queue_down, tests_form, utc, visitor}

-- The contest ends later than it was to, under a new name and type.
abbrev date_form : (start finish : Text) → Form
date_form start finish key =
    if text_eq key (text "start_date")
    then start ∷ []
    else (if text_eq key (text "finish_date")
        then finish ∷ []
        else (if text_eq key (text "start_time")
            then text "10:00" ∷ []
            else (if text_eq key (text "finish_time")
                then text "10:00" ∷ []
                else (if text_eq key (text "contest_name")
                    then text "Final" ∷ []
                    else (if text_eq key (text "contest_type")
                        then text "ICPC" ∷ []
                        else (if text_eq key (text "penalty") then text "20" ∷ [] else []))))))

setting-is_fair_update_example :
    All
      (λ c. is_fair_update (pos 1_500) spring c ≡ true)
      (run queue_down [] (setting utc visitor post (date_form (text "1/1") (text "1/2")))).0
setting-is_fair_update_example =
    setting-is_fair_update (pos 1_500) visitor utc post (date_form (text "1/1") (text "1/2"))
      queue_down (λ before. omega arith)

-- The form is accepted.
setting_is_saved :
    run queue_down [] (setting utc visitor post (date_form (text "1/1") (text "1/2"))) ≡ (
      time_now
          ∷ time_now
          ∷ time_now
          ∷ time_now
          ∷ contest_update (pos 3) (text "Final") (pos 1_000) (pos 3_000) (pos 1) icpc (pos 20)
          ∷ description_update (pos 3) []
          ∷ [],
      redirect (management_top (pos 3)),
    )
unfolding setting save_setting read_dates text_eq contest_type_named contest_type_to_string
    parse_int is_legal_name utf8_string_length_and_bom_check trim_space wrap_form_int64
    wrap_form_str ◌+ℤ◌
setting_is_saved = refl

testcases-is_sound_update_example :
    All
      (λ c. is_sound_update c ≡ true)
      (run queue_down [] (testcases visitor (text "1") post tests_form)).0
testcases-is_sound_update_example =
    testcases-is_sound_update visitor (text "1") post tests_form queue_down

-- The form is accepted.
tests_are_saved :
    (run queue_down [] (testcases visitor (text "1") post tests_form)).1
    ≡ redirect (management_testcases (pos 3) (pos 1))
unfolding testcases save_testcases text_eq popcon_sc.Codec.Fields.split parse_int
tests_are_saved = refl

abbrev code_form : Form
code_form key =
    if text_eq key (text "code")
    then text "print(3)" ∷ []
    else (if text_eq key (text "lang") then text "1" ∷ [] else text "1" ∷ [])

submit-IsQueueing_example : IsQueueing (submit visitor post code_form)
submit-IsQueueing_example = submit-IsQueueing visitor post code_form

-- The form is accepted, and the queue is down.
code_is_submitted : run queue_down [] (submit visitor post code_form) ≡ (
  contest_problem_find2 (pos 3) (pos 1)
      ∷ language_find (pos 1)
      ∷ submission_add (pos 3) (pos 7) (pos 5) (pos 1) (text "print(3)")
      ∷ judge_submit (pos 3) (pos 9)
      ∷ submission_update_result (pos 3) (pos 9) (pos 0) internal_error (pos 0) (pos 0) (pos 0)
      ∷ [],
  redirect (submission (pos 3) (pos 9)),
)
unfolding submit submit_code enqueue text_eq parse_int wrap_form_int64 wrap_form_str
code_is_submitted = refl

-- The same host with a queue that works.
abbrev queue_up : Host
queue_up past (judge_submit cid sid) = none
queue_up past c = queue_down past c

abbrev rejudge_form : Form
rejudge_form key = if text_eq key (text "target") then text "1" ∷ [] else text "9" ∷ []

only_the_queue : AgreeButQueue queue_down queue_up
only_the_queue past (judge_submit cid sid) e = absurd (ground arith)
only_the_queue past c e = refl

rejudge_loses_example :
    (run queue_down [] (rejudge visitor post rejudge_form)
      ≡ run queue_up [] (rejudge visitor post rejudge_form))
    × All (λ c. is_mark c ≡ false) (run queue_down [] (rejudge visitor post rejudge_form)).0
rejudge_loses_example = rejudge_loses visitor post rejudge_form queue_down queue_up only_the_queue

-- The result has been reset, and nobody judges the submission.
rejudge_is_lost : run queue_down [] (rejudge visitor post rejudge_form) ≡ (
  begin_dm
      ∷ submission_find (pos 3) (pos 9)
      ∷ reset_submission (pos 3) (pos 9)
      ∷ commit
      ∷ judge_submit (pos 3) (pos 9)
      ∷ [],
  redirect (management_top (pos 3)),
)
unfolding rejudge rejudge_submission text_eq parse_int wrap_form_int64 wrap_form_str
rejudge_is_lost = refl

abbrev second_of_five : List PaginationHelper
second_of_five =
    record { page = pos 1; is_active = false }
    ∷ record { page = pos 2; is_active = true }
    ∷ record { page = pos 3; is_active = false }
    ∷ record { page = negsuc 0; is_active = false }
    ∷ record { page = pos 5; is_active = false }
    ∷ []

second_of_five_lem : new_pagination_helper (pos 2) (pos 5) (pos 1) ≡ some second_of_five
unfolding new_pagination_helper links_between ◌+ℤ◌ ◌-ℤ◌
second_of_five_lem = refl

new_pagination_helper-is_page_example :
    (links : List PaginationHelper) × (new_pagination_helper (pos 2) (pos 5) (pos 1) ≡ some links)
    × (active_count links ≡ 1)
    × All (λ h. is_page (pos 2) (pos 5) h ≡ true) links
new_pagination_helper-is_page_example =
    new_pagination_helper-is_page (pos 2) (pos 5) (pos 1) (omega arith) (omega arith) (omega arith)

-- An admin who asks for page -10 gets no answer.
page_before_the_first :
    (run queue_down [] (list_for visitor (pos 5) (negsuc 0) (negsuc 0) (negsuc 0) (negsuc 9))).1
    ≡ aborted
unfolding list_for new_pagination_helper max_page show_list ◌+ℤ◌ ◌-ℤ◌ sub64 mul64 wrap64 ◌*ℤ◌
page_before_the_first = refl

new_contest_handler-is_fair_contest_example :
    All
      (λ c. is_fair_contest (pos 1_500) alice c ≡ true)
      (run queue_down []
        (new_contest_handler utc alice post (date_form (text "1/2") (text "1/3")))).0
new_contest_handler-is_fair_contest_example =
    new_contest_handler-is_fair_contest (pos 1_500) alice utc post
      (date_form (text "1/2") (text "1/3")) queue_down (λ before. omega arith)

-- The form is accepted.
contest_is_added :
    (run queue_down [] (new_contest_handler utc alice post (date_form (text "1/2") (text "1/3")))).0
    ≡ can_create_contest
      ∷ time_now
      ∷ contest_add (text "Final") (pos 3_000) (pos 4_000) (pos 5) icpc (pos 20)
      ∷ description_update (pos 4) []
      ∷ []
unfolding new_contest_handler new_contest_by add_contest text_eq contest_type_named
    contest_type_to_string parse_int is_legal_name utf8_string_length_and_bom_check trim_space
    wrap_form_int64 wrap_form_str
contest_is_added = refl
