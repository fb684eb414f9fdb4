-- ===== src/Web/Account/Tests.antt =====
-- ppweb/handler.go: Alice logs in.
use popcon_sc.Prelude.{◌≡◌, refl, [], Text, text, text_eq}
use popcon_sc.Web.Reply.{run, redirect, comeback_to, post, wrap_form_str}
use popcon_sc.Web.Account.{login, has_double_slash}
use popcon_sc.Web.Account.Sessions.{IsAuthenticating, login-IsAuthenticating}
use popcon_sc.Web.ContestTests.{queue_down, tests_form}

-- The hash of every password, here.
abbrev same_hash : Text → Text
same_hash password = text "hash"

login-IsAuthenticating_example :
    IsAuthenticating
      (wrap_form_str tests_form (text "loginID"))
      (same_hash (wrap_form_str tests_form (text "password")))
      (login same_hash post tests_form)
login-IsAuthenticating_example = login-IsAuthenticating same_hash post tests_form

alice_logs_in :
    (run queue_down [] (login same_hash post tests_form)).1 ≡ redirect (comeback_to (text "/"))
unfolding login has_double_slash wrap_form_str text_eq
alice_logs_in = refl
