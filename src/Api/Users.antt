-- ===== src/Api/Users.antt =====
-- The handlers on users of backend/src/api.rs: `setup`, `login`, `change_password`, `logout`,
-- `get_current_user`, `create_user`, `update_user`, `delete_user`. Argon2 (`Password::verify`,
-- `new_server_hash`, `new_double_hash` of backend/src/auth/password_auth.rs), the building and saving
-- of a CA, and the ids of sessions are parameters.
pub mod Login
pub mod Roles
pub mod Setup
use vaul_tls.Base.{
  ℕ, ◌/◌, Bool, true, false, not, ◌&&◌, ◌||◌, Option, none, some, List, [], ◌∷◌, ◌++◌, ◌==◌,
  is_some, any, if◌then◌else◌,
}
use vaul_tls.Base.Result.{Result, ok, err}
use vaul_tls.Base.Action.{Action, ◌>>=◌, ◌>>◌, pure, raise, lift, gets, modify, require, ensure}
use vaul_tls.Base.Tables.{next_id}
use vaul_tls.Text.{Text, text, trim, is_empty}
use vaul_tls.Text.Decimal.{show}
use vaul_tls.Session.{
  Claims, UserRole, is_service, is_admin, guard_privileged, generate_token, invalidate_token,
}
use vaul_tls.Db.Rows.{Db, Ca}
use vaul_tls.Db.Users.{
  Password, v1, v2, User, insert_user, update_user, get_user, get_user_by_email, set_user_password,
  is_setup, user_id_of,
}
use vaul_tls.Db.Audit.{AuditActorType, AuditAction, AuditResult, AuditEntry}
use vaul_tls.Api.Errors.{
  ApiError, unauthorized_error, forbidden_error, bad_request, conflict, other,
}
use vaul_tls.Api.State
use vaul_tls.Api.State.{
  Settings, AppState, Api, Authenticated, Deed, admitted, try_modify, record_audit, audited,
}

-- What the password library does.
pub record Passwords : Type 0 where
  pub verify : Password → Text → Bool
  pub new_server_hash : Text → Result ApiError Password
  pub new_double_hash : Text → Result ApiError Password

abbrev pub missing_user : ApiError
missing_user = other (text "Query returned no rows")

abbrev pub on_user : AuditAction → ℕ → Deed
on_user action id = record {
  action = action;
  target_type = some (text "user");
  target_id = some (show id);
  target_label = none;
  detail = none;
}

-- `conn.execute` of a statement on users that may fail.
abbrev pub on_users : (List User → Option (List User)) → AppState → Option AppState
on_users f s = elim (f s.users) [ none ↦ none | some users ↦ some (record s { users = users }) ]

pub record LoginResponse : Type 0 where
  pub session : Claims
  pub access_token : Option Claims

abbrev pub login_entry :
    ℕ → Option Text → Option ℕ → Text → AuditActorType → AuditResult → Option Text → AuditEntry
login_entry now ip actor_id label kind result detail = record {
  ts = now / 1000;
  actor_id = actor_id;
  actor_label = label;
  actor_type = kind;
  action = AuditAction.login;
  target_type = none;
  target_id = none;
  target_label = none;
  result = result;
  detail = detail;
  ip = ip;
}

abbrev pub failed_email : ℕ → Option Text → Text → AuditEntry
failed_email now ip email =
    login_entry now ip none email AuditActorType.anonymous AuditResult.failure
      (some (text "invalid email"))

abbrev pub failed_password : ℕ → Option Text → User → AuditEntry
failed_password now ip user =
    login_entry now ip (some user.id) user.name AuditActorType.user AuditResult.failure
      (some (text "invalid password"))

abbrev pub logged_in : ℕ → Option Text → User → AuditEntry
logged_in now ip user =
    login_entry now ip (some user.id) user.name AuditActorType.user AuditResult.success none

-- The session of a user who logs in with the password is local.
abbrev pub session_of : ℕ → Text → User → AppState → Claims
session_of now fresh user s =
    (generate_token (now / 1000) fresh user.id user.role true s.sessions).0

abbrev pub with_session : ℕ → Text → User → AppState → AppState
with_session now fresh user s = record s {
  sessions = (generate_token (now / 1000) fresh user.id user.role true s.sessions).1;
}

module _ (passwords : Passwords) (now : ℕ) (fresh : Text) (ip : Option Text) where
  -- A hash of the first kind is replaced.
  unfoldable pub migrate : User → Password → Text → Api (Unit {0})
  migrate user (v1 h) password = do
    migration_password ← lift (passwords.new_double_hash password)
    modify (λ s. record s { users = set_user_password user.id migration_password s.users })
  migrate user (v2 h) password = pure tt

  unfoldable pub enter : User → Password → Text → Bool → Api LoginResponse
  enter user hash password include_token = do
    session ← gets (session_of now fresh user)
    modify (with_session now fresh user)
    migrated ← migrate user hash password
    modify (record_audit (logged_in now ip user))
    pure (record { session = session; access_token = if include_token then some session else none })

  unfoldable pub refuse_password : User → Api LoginResponse
  refuse_password user = do
    modify (record_audit (failed_password now ip user))
    raise unauthorized_error

  -- A wrong password for a hash of the first kind is answered with that hash, and is not logged.
  unfoldable pub refuse_hash : User → Password → Api LoginResponse
  refuse_hash user (v1 h) = raise (conflict h)
  refuse_hash user (v2 h) = refuse_password user

  unfoldable pub check_hash : User → Text → Bool → Option Password → Api LoginResponse
  check_hash user password include_token none = refuse_password user
  check_hash user password include_token (some hash) =
      if passwords.verify hash password
      then enter user hash password include_token
      else refuse_hash user hash

  unfoldable pub check_user : Text → Text → Bool → Option User → Api LoginResponse
  check_user email password include_token none = do
    modify (record_audit (failed_email now ip email))
    raise unauthorized_error
  check_user email password include_token (some user) =
      check_hash user password include_token user.password_hash

  unfoldable pub login : Text → Text → Bool → Api LoginResponse
  login email password include_token = do
    enabled ← gets (λ s. s.settings.password_enabled)
    ensure enabled unauthorized_error
    user ← gets (λ s. get_user_by_email email s.users)
    check_user email password include_token user

module _ (passwords : Passwords) where
  -- The old password is asked for if there is one.
  abbrev pub old_password_fits : Option Password → Option Text → Result ApiError (Unit {0})
  old_password_fits none old = ok tt
  old_password_fits (some hash) none = err (bad_request (text "Old password is required"))
  old_password_fits (some hash) (some old) =
      if passwords.verify hash old
      then ok tt
      else err (bad_request (text "Old password is incorrect"))

  unfoldable pub change_password : Option Text → Text → Authenticated → Api (Unit {0})
  change_password old_password new_password auth = do
    ensure (not (is_service auth.claims)) forbidden_error
    user ← require (λ s. get_user auth.claims.id s.users) missing_user
    checked ← lift (old_password_fits user.password_hash old_password)
    password_hash ← lift (passwords.new_server_hash new_password)
    modify (λ s. record s { users = set_user_password auth.claims.id password_hash s.users })

  -- `None` where the password is blank.
  abbrev pub hash_of : Option Text → Result ApiError (Option Password)
  hash_of none = ok none
  hash_of (some password) =
      if is_empty (trim password)
      then ok none
      else elim (passwords.new_server_hash (trim password)) [ err e ↦ err e | ok h ↦ ok (some h) ]

  unfoldable pub create_user : Text → Text → Option Text → UserRole → Authenticated → Api ℕ
  create_user name email password role auth = do
    claims ← admitted (guard_privileged (some auth.claims))
    password_hash ← lift (hash_of password)
    id ← gets (λ s. next_id user_id_of s.users)
    try_modify (
        on_users (
          insert_user (record {
            id = 0;
            name = name;
            email = email;
            password_hash = password_hash;
            oidc_id = none;
            role = role;
          })))
    modify (audited auth (on_user AuditAction.create_user id))
    pure id

abbrev pub logout_deed : Deed
logout_deed = record {
  action = AuditAction.logout;
  target_type = none;
  target_id = none;
  target_label = none;
  detail = none;
}

unfoldable pub logout : Option Authenticated → Api (Unit {0})
logout none = pure tt
logout (some auth) = do
  modify (audited auth logout_deed)
  modify (λ s. record s { sessions = invalidate_token auth.claims.jti s.sessions })

unfoldable pub get_current_user : Authenticated → Api User
get_current_user auth = require (λ s. get_user auth.claims.id s.users) missing_user

-- The payload's profile; the id is the path's.
unfoldable pub edit_user : ℕ → User → Authenticated → Api (Unit {0})
edit_user id payload auth = do
  ensure (not (is_service auth.claims)) forbidden_error
  ensure (auth.claims.id == id || is_admin auth.claims.role) forbidden_error
  ensure (not (not (is_admin auth.claims.role) && is_admin payload.role)) forbidden_error
  try_modify (on_users (update_user (record payload { id = id })))
  modify (audited auth (on_user AuditAction.update_user id))

unfoldable pub remove_user : ℕ → Authenticated → Api (Unit {0})
remove_user id auth = do
  claims ← admitted (guard_privileged (some auth.claims))
  ensure (not (id == auth.claims.id)) (bad_request (text "You cannot delete your own account"))
  modify (State.delete_user id)
  modify (audited auth (on_user AuditAction.delete_user id))

pub data TimespanUnit : Type 0 where
  hour day month year : TimespanUnit

pub record SetupRequest : Type 0 where
  pub name : Text
  pub email : Text
  pub ca_name : Text
  pub validity_duration : Option ℕ
  pub validity_unit : Option TimespanUnit
  pub password : Option Text
  pub default_language : Option Text

-- There is a user or a CA.
abbrev pub already_setup : AppState → Bool
already_setup s = is_setup s.users || any (λ (ca : Ca). true) s.db.cas

abbrev pub with_password_enabled : Bool → AppState → AppState
with_password_enabled false s = s
with_password_enabled true s = record s { settings = record s.settings { password_enabled = true } }

abbrev pub has_password : Option Text → Bool
has_password none = false
has_password (some password) = not (is_empty (trim password))

-- The CA with the id that the insertion gives it.
abbrev pub inserted_ca : Ca → AppState → Ca
inserted_ca ca s = record ca { id = next_id (λ (c : Ca). c.id) s.db.cas }

abbrev pub insert_ca : Ca → AppState → AppState
insert_ca ca s = record s { db = record s.db { cas = s.db.cas ++ ca ∷ [] } }

abbrev pub with_language : Option Text → AppState → AppState
with_language none s = s
with_language (some language) s = record s {
  settings = record s.settings { default_language = language };
}

module _ (passwords : Passwords) (build_ca : SetupRequest → Result ApiError Ca)
    (save_ca : Ca → Result ApiError (Unit {0})) where
  unfoldable pub setup : SetupRequest → Api (Unit {0})
  setup req = do
    done ← gets already_setup
    ensure (not done) unauthorized_error
    no_oidc ← gets (λ s. is_empty s.settings.oidc_auth_url)
    ensure (not (not (is_some req.password) && no_oidc)) (other (text "Password is required"))
    modify (with_password_enabled (has_password req.password))
    password_hash ← lift (hash_of passwords req.password)
    try_modify (
        on_users (
          insert_user (record {
            id = 0;
            name = req.name;
            email = req.email;
            password_hash = password_hash;
            oidc_id = none;
            role = UserRole.admin;
          })))
    built ← lift (build_ca req)
    ca ← gets (inserted_ca built)
    modify (insert_ca ca)
    saved ← lift (save_ca ca)
    modify (with_language req.default_language)
