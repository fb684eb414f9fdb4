-- ===== src/Web/SignUp/Users.antt =====
-- ppweb/handler.go: which users are made.
use popcon_sc.Prelude.{
  Option, none, some, refl, All, arith, leb, ◌==◌, ◌≡◌, Bool, true, false, not, ◌&&◌, Option, none,
  some, List, [], ◌∷◌, ◌++◌, length, ℤ, Text, ltb,
}
use popcon_sc.Web.Handler.{Call, user_add, Answer}
use popcon_sc.Web.Reply.{
  home, SignupError, redirect, failed, Host, run, Form, Method, get, post, other_method,
}
use popcon_sc.Web.Contract.{Ensures, Ensures->>=, Ensures-guard, Ensures-expect, Ensures-run}
use popcon_sc.Web.Account.{open_session}
use popcon_sc.Web.SignUp.{
  SignupForm, read_signup_form, form_errors, is_user_id, user_id_errors, user_name_errors,
  pass_errors, email_step, email_errors, token_errors, signup_in_use, welcome, create_user,
  create_or_refuse, sign_up_form, sign_up_by, is_signed_in, sign_up,
}

-- A legal ID of 1 to 128 bytes, a name of 1 to 40, a password of 5 to 100, and an address of at most
-- 128 with "@" and a later ".".
abbrev pub is_fair_user : Call → Bool
is_fair_user (user_add uid user_name password email gid enabled) =
    (is_user_id uid && (ltb 0 (length uid) && leb (length uid) 128))
    && ((ltb 0 (length user_name) && leb (length user_name) 40)
        && ((leb 5 (length password) && leb (length password) 100)
            && (leb (length email) 128 && email_step 0 email == 2)))
is_fair_user _ = true

abbrev Nothing : (c : Call) → Answer c → Type 0
Nothing c a = Unit

abbrev Done : Unit {0} → Type 0
Done u = Unit

fair_user_lem :
    (f : SignupForm) (gid : ℤ) (enabled : Bool)
    → form_errors f ≡ []
    → is_fair_user (user_add f.user_id f.user_name f.password f.email gid enabled) ≡ true
unfolding user_id_errors user_name_errors pass_errors email_errors
fair_user_lem f gid enabled h = ground arith

welcome-Ensures : (mailed : Bool) (iid : ℤ) → Ensures is_fair_user Nothing Done (welcome mailed iid)
unfolding welcome open_session
welcome-Ensures true iid = ground arith
welcome-Ensures false iid = ground arith

create_user-Ensures :
    (token : Text) (f : SignupForm)
    → form_errors f ≡ []
    → Ensures is_fair_user Nothing Done (create_user token f)
unfolding create_user
create_user-Ensures token f h = (
  refl,
  λ group l. Ensures-expect is_fair_user Nothing Done failed group _ (λ gid. (
    refl,
    λ certified l. Ensures-expect is_fair_user Nothing Done failed certified _ (λ certification. (
      fair_user_lem f gid (not certification) h,
      λ added l.
          Ensures-expect is_fair_user Nothing Done (signup_in_use token f) added _
            (λ iid. welcome-Ensures certification iid),
    )),
  )),
)

no_errors : (wrong errors : List SignupError) → wrong ++ errors ≡ [] → errors ≡ []
no_errors [] errors h = h
no_errors (e ∷ wrong) errors h = cc

create_or_refuse-Ensures :
    (errors : List SignupError) (token : Text) (f : SignupForm)
    → (errors ≡ [] → form_errors f ≡ [])
    → Ensures is_fair_user Nothing Done (create_or_refuse errors token f)
unfolding create_or_refuse
create_or_refuse-Ensures [] token f h = create_user-Ensures token f (h refl)
create_or_refuse-Ensures (e ∷ errors) token f h = tt

token_errors-Ensures : (t : Text) → Ensures is_fair_user Nothing (λ e. Unit) (token_errors t)
unfolding token_errors
token_errors-Ensures [] = tt
token_errors-Ensures (c ∷ t) = (refl, λ a l. tt)

sign_up_form-Ensures :
    (token : Text) (f : SignupForm) → Ensures is_fair_user Nothing Done (sign_up_form token f)
unfolding sign_up_form
sign_up_form-Ensures token f =
    Ensures->>= is_fair_user Nothing (λ e. Unit) Done (token_errors f.token) _
      (token_errors-Ensures f.token)
      (λ wrong u.
        create_or_refuse-Ensures (wrong ++ form_errors f) token f (no_errors wrong (form_errors f)))

sign_up_by-Ensures :
    (token : Text) (method : Method) (form : Option Form)
    → Ensures is_fair_user Nothing Done (sign_up_by token method form)
unfolding sign_up_by
sign_up_by-Ensures token get form = tt
sign_up_by-Ensures token other_method form = tt
sign_up_by-Ensures token post none = tt
sign_up_by-Ensures token post (some form) = sign_up_form-Ensures token (read_signup_form form)

is_signed_in-Ensures :
    (session : Option Text) → Ensures is_fair_user Nothing (λ e. Unit) (is_signed_in session)
unfolding is_signed_in
is_signed_in-Ensures none = tt
is_signed_in-Ensures (some c) = (refl, λ a l. tt)

sign_up-Ensures :
    (session : Option Text) (method : Method) (form : Option Form)
    → Ensures is_fair_user Nothing Done (sign_up session method form)
unfolding sign_up
sign_up-Ensures session method form =
    Ensures->>= is_fair_user Nothing (λ e. Unit) Done (is_signed_in session) _
      (is_signed_in-Ensures session)
      (λ signed_in u.
        Ensures-guard is_fair_user Nothing Done (not signed_in) (redirect home) _ (λ g. (
          refl,
          λ can l. Ensures-expect is_fair_user Nothing Done failed can _ (λ can_create.
              Ensures-guard is_fair_user Nothing Done can_create (redirect home) _ (λ g. (
                refl,
                λ certified l.
                    Ensures-expect is_fair_user Nothing Done failed certified _ (λ certification. (
                      refl,
                      λ expires l. Ensures-expect is_fair_user Nothing Done failed expires _ (λ exp.
                          (
                            refl,
                            λ registered l.
                                Ensures-expect is_fair_user Nothing Done failed registered _
                                  (λ token. sign_up_by-Ensures token method form),
                          )),
                    )),
              ))),
        )))

-- Whatever the form of "/signup/" says, and whatever is answered: a user is added only with an ID of 1
-- to 128 letters, digits and "_", a name of 1 to 40 bytes, a password of 5 to 100 bytes, and an
-- address of at most 128 bytes with an "@" and a "." behind it.
pub sign_up-is_fair_user :
    (session : Option Text) (method : Method) (form : Option Form) (host : Host)
    → All (λ c. is_fair_user c ≡ true) (run host [] (sign_up session method form)).0
sign_up-is_fair_user session method form host =
    Ensures-run is_fair_user Nothing host [] (sign_up session method form) (λ before c. tt)
      (sign_up-Ensures session method form)
