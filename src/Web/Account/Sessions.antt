-- ===== src/Web/Account/Sessions.antt =====
-- ppweb/handler.go: who gets a session, and whose password is changed.
use popcon_sc.Prelude.{arith, ◌≡◌, Bool, true, false, ◌&&◌, ℤ, ◌==ℤ◌, Text, text, text_eq}
use popcon_sc.Database.{Result, ok, err}
use popcon_sc.Web.Rows.{UserRow}
use popcon_sc.Web.Handler.{user_find_from_user_id, session_add, Answer}
use popcon_sc.Web.Reply.{
  Handler, give, reply, call, Form, wrap_form_str, Method, get, post, other_method,
}
use popcon_sc.Web.Account.{login_again, refuse_disabled, open_session, log_in, login}

-- Every session that is opened is for a user of whom the test holds.
abbrev pub OpensOnly : (ℤ → Bool) → Handler Unit → Type 0
OpensOnly may (give a) = Unit
OpensOnly may (reply r) = Unit
OpensOnly may (call (session_add iid) k) =
    (may iid ≡ true) × ((a : Result Text) → OpensOnly may (k a))
OpensOnly may (call c k) = (a : Answer c) → OpensOnly may (k a)

-- The user that the row says, with this hash of the password, and enabled.
abbrev pub may_log_in : (pass_hash : Text) → Result UserRow → ℤ → Bool
may_log_in pass_hash (err e) iid = false
may_log_in pass_hash (ok user) iid =
    text_eq user.pass_hash pass_hash && (user.enabled && user.iid ==ℤ iid)

-- A row of a user is looked up first, by this name, and what may be opened follows from it.
abbrev pub IsAuthenticating : (login_id pass_hash : Text) → Handler Unit → Type 0
IsAuthenticating login_id pass_hash (call (user_find_from_user_id id) k) =
    (id ≡ login_id) × ((a : Result UserRow) → OpensOnly (may_log_in pass_hash a) (k a))
IsAuthenticating login_id pass_hash h = OpensOnly (λ iid. false) h

-- The login opens a session only for the user whose name the form has, if the SHA-512 of the password
-- of the form is the stored hash, and only if the account is enabled: on every path, whatever is
-- answered.
pub login-IsAuthenticating :
    (sum512 : Text → Text) (method : Method) (form : Form)
    → IsAuthenticating
        (wrap_form_str form (text "loginID"))
        (sum512 (wrap_form_str form (text "password")))
        (login sum512 method form)
unfolding login log_in login_again refuse_disabled open_session
login-IsAuthenticating sum512 get form = ground arith
login-IsAuthenticating sum512 post form = ground arith
login-IsAuthenticating sum512 other_method form = ground arith
