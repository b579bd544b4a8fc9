-- ===== src/Api/Users/Login.antt =====
-- What a login has checked, and what it leaves.
use vaul_tls.Base.{ℕ, ◌≡◌, Bool, true, false, Option, none, some}
use vaul_tls.Base.Result.{Result, ok, err}
use vaul_tls.Base.Outcome.{Outcome}
use vaul_tls.Text.{Text}
use vaul_tls.Db.Users.{Password, v1, v2, User, get_user_by_email}
use vaul_tls.Db.Audit.{insert_audit}
use vaul_tls.Api.Errors.{ApiError, unauthorized_error, conflict}
use vaul_tls.Api.State.{AppState, record_audit}
use vaul_tls.Api.Users.{
  Passwords, LoginResponse, failed_email, failed_password, logged_in, session_of, with_session,
}

module _ (passwords : Passwords) (now : ℕ) (fresh : Text) (ip : Option Text) (email password : Text)
    (include_token : Bool) (s : AppState) where
  -- What holds where a session is handed out.
  pub record LoggedIn (response : LoginResponse) (after : AppState) : Type 0 where
    pub enabled : s.settings.password_enabled ≡ true
    pub user : User
    pub hash : Password
    pub registered : get_user_by_email email s.users ≡ some user
    pub has_hash : user.password_hash ≡ some hash
    pub verified : passwords.verify hash password ≡ true
    pub session : response.session ≡ session_of now fresh user s
    pub stored : after.sessions ≡ (with_session now fresh user s).sessions
    pub logged : after.audit ≡ insert_audit (logged_in now ip user) s.audit

  -- The user has no password, or a hash of the second kind that the password does not meet.
  pub data NoFit (user : User) : Type 0 where
    no_hash : user.password_hash ≡ none → NoFit user
    other_password :
        (h : Text)
        → user.password_hash ≡ some (v2 h)
        → passwords.verify (v2 h) password ≡ false
        → NoFit user

  -- A refusal hands nothing out; only a failure of the hashing comes after the session is stored.
  pub data Refused : ApiError → AppState → Type 0 where
    disabled : s.settings.password_enabled ≡ false → Refused unauthorized_error s
    unknown :
        s.settings.password_enabled ≡ true
        → get_user_by_email email s.users ≡ none
        → Refused unauthorized_error (record_audit (failed_email now ip email) s)
    wrong :
        (user : User)
        → s.settings.password_enabled ≡ true
        → get_user_by_email email s.users ≡ some user
        → NoFit user
        → Refused unauthorized_error (record_audit (failed_password now ip user) s)
    unmigrated :
        (user : User) (h : Text)
        → s.settings.password_enabled ≡ true
        → get_user_by_email email s.users ≡ some user
        → user.password_hash ≡ some (v1 h)
        → passwords.verify (v1 h) password ≡ false
        → Refused (conflict h) s
    unhashed :
        (user : User) (h : Text) (e : ApiError)
        → s.settings.password_enabled ≡ true
        → get_user_by_email email s.users ≡ some user
        → user.password_hash ≡ some (v1 h)
        → passwords.verify (v1 h) password ≡ true
        → passwords.new_double_hash password ≡ err e
        → Refused e (with_session now fresh user s)

  abbrev pub LoginEnds : Result ApiError LoginResponse → AppState → Type 0
  LoginEnds (ok response) after = LoggedIn response after
  LoginEnds (err e) after = Refused e after
