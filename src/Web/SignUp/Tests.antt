-- ===== src/Web/SignUp/Tests.antt =====
-- ppweb/handler.go: somebody signs up while Redis does not answer the question for the token.
use popcon_sc.Prelude.{
  some, none, ◌≡◌, refl, [], ◌∷◌, true, none, All, text, text_eq, if◌then◌else◌,
}
use popcon_sc.Web.Reply.{Form, run, redirect, comeback_to, post, wrap_form_str}
use popcon_sc.Web.Account.{open_session}
use popcon_sc.Web.SignUp.{
  user_id_errors, user_name_errors, pass_errors, email_errors, token_errors, welcome, create_user,
  create_or_refuse, sign_up_form, sign_up_by, is_signed_in, sign_up,
}
use popcon_sc.Web.SignUp.Users.{is_fair_user, sign_up-is_fair_user}
use popcon_sc.Web.ContestTests.{queue_down}

abbrev new_user : Form
new_user key =
    if text_eq key (text "token")
    then text "made up" ∷ []
    else (if text_eq key (text "email") then text "a@b.c" ∷ [] else text "mallory" ∷ [])

sign_up-is_fair_user_example :
    All (λ c. is_fair_user c ≡ true) (run queue_down [] (sign_up none post (some new_user))).0
sign_up-is_fair_user_example = sign_up-is_fair_user none post (some new_user) queue_down

-- The token is made up, and the error of Redis lets it pass.
redis_error_passes :
    (run queue_down [] (sign_up none post (some new_user))).1 ≡ redirect (comeback_to (text "/"))
unfolding sign_up sign_up_by sign_up_form token_errors create_or_refuse create_user welcome
    open_session wrap_form_str text_eq is_signed_in user_id_errors user_name_errors pass_errors
    email_errors
redis_error_passes = refl
