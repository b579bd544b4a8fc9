-- ===== src/Api/ServiceAccounts.antt =====
-- The handlers on service accounts of backend/src/api.rs: `service_token`,
-- `ensure_can_manage_service_accounts`, `create_service_account`, `list_service_accounts`,
-- `authorize_service_account`, `revoke_service_account`, `delete_service_account`. Argon2
-- (`hash_secret`, `verify_secret`) and the random credentials are parameters.
pub mod Scopes
pub mod Tokens
use vaul_tls.Base.{
  ℕ, Bool, true, false, not, ◌&&◌, ◌||◌, Option, none, some, List, [], ◌∷◌, ◌==◌, any,
  if◌then◌else◌,
}
use vaul_tls.Base.Result.{Result, ok, err}
use vaul_tls.Base.Action.{Action, ◌>>=◌, ◌>>◌, pure, raise, lift, gets, modify, require, ensure}
use vaul_tls.Text.{Text, text, text_eq}
use vaul_tls.Text.Decimal.{show}
use vaul_tls.Session.{Claims, is_service, is_admin}
use vaul_tls.Db.Users.{get_user}
use vaul_tls.Db.ServiceAccounts
use vaul_tls.Db.ServiceAccounts.{
  ServiceAccount, next_account_id, insert_service_account, get_service_account_by_client_id,
  get_service_account_by_id, list_service_accounts_by_user, touch_service_account_last_used,
}
use vaul_tls.Db.Audit.{AuditAction}
use vaul_tls.Api.Errors.{
  ApiError, unauthorized_error, forbidden_error, not_found_error, bad_request, other,
}
use vaul_tls.Api.State.{AppState, Api, Authenticated, Deed, try_modify, audited}

abbrev pub allowed_scopes : List Text
allowed_scopes = text "cert:read" ∷ text "cert:issue" ∷ text "acme:create" ∷ []

abbrev pub self_service_scopes : List Text
self_service_scopes = text "cert:read" ∷ []

abbrev pub is_among : List Text → Text → Bool
is_among scopes scope = any (λ x. text_eq x scope) scopes

unfoldable pub ensure_can_manage_service_accounts : Claims → ℕ → Result ApiError (Unit {0})
ensure_can_manage_service_accounts claims owner_id =
    if is_service claims
    then err forbidden_error
    else if is_admin claims.role || claims.id == owner_id
    then ok tt
    else err forbidden_error

abbrev pub on_account : AuditAction → ℕ → Deed
on_account action id = record {
  action = action;
  target_type = some (text "service_account");
  target_id = some (show id);
  target_label = none;
  detail = none;
}

-- The loop over the scopes that are asked for.
unfoldable pub check_scopes : Bool → List Text → Result ApiError (Unit {0})
check_scopes is_admin [] = ok tt
check_scopes is_admin (scope ∷ rest) =
    let later = check_scopes is_admin rest in
    if not (is_among allowed_scopes scope)
    then err (bad_request (text "Unknown scope"))
    else if not is_admin && not (is_among self_service_scopes scope)
    then err forbidden_error
    else later

pub record ServiceAccountCreated : Type 0 where
  pub id : ℕ
  pub name : Text
  pub client_id : Text
  pub secret : Text
  pub scopes : List Text

pub record Credentials : Type 0 where
  pub client_id : Text
  pub secret : Text

abbrev pub on_accounts :
    (List ServiceAccount → Option (List ServiceAccount)) → AppState → Option AppState
on_accounts f s = elim (f s.service_accounts) [
  | none ↦ none
  | some accounts ↦ some (record s { service_accounts = accounts })
]

abbrev pub new_account_row : ℕ → ℕ → Text → List Text → Text → Text → ServiceAccount
new_account_row now user_id name scopes client_id secret_hash = record {
  id = 0;
  name = name;
  client_id = client_id;
  secret_hash = secret_hash;
  user_id = user_id;
  scopes = scopes;
  created_at = now;
  last_used_at = none;
  revoked = false;
}

unfoldable pub create_service_account :
    (hash_secret : Text → Result ApiError Text)
    → Credentials
    → ℕ
    → Text
    → List Text
    → Authenticated
    → Api ServiceAccountCreated
create_service_account hash_secret fresh id name scopes auth = do
  managed ← lift (ensure_can_manage_service_accounts auth.claims id)
  checked ← lift (check_scopes (is_admin auth.claims.role) scopes)
  owner ← require (λ s. get_user id s.users) not_found_error
  secret_hash ← lift (hash_secret fresh.secret)
  new_id ← gets (λ s. next_account_id s.service_accounts)
  try_modify (
      on_accounts (
        insert_service_account
          (new_account_row auth.now id name scopes fresh.client_id secret_hash)))
  modify (audited auth (on_account AuditAction.create_service_account new_id))
  pure (record {
    id = new_id;
    name = name;
    client_id = fresh.client_id;
    secret = fresh.secret;
    scopes = scopes;
  })

unfoldable pub list_service_accounts : ℕ → Authenticated → Api (List ServiceAccount)
list_service_accounts id auth = do
  managed ← lift (ensure_can_manage_service_accounts auth.claims id)
  gets (λ s. list_service_accounts_by_user id s.service_accounts)

unfoldable pub authorize_service_account : Claims → ℕ → Api (Unit {0})
authorize_service_account claims sid = do
  sa ← require (λ s. get_service_account_by_id sid s.service_accounts) not_found_error
  lift (ensure_can_manage_service_accounts claims sa.user_id)

unfoldable pub withdraw_service_account : ℕ → Authenticated → Api (Unit {0})
withdraw_service_account sid auth = do
  managed ← authorize_service_account auth.claims sid
  modify (λ s. record s {
    service_accounts = ServiceAccounts.revoke_service_account sid s.service_accounts;
  })
  modify (audited auth (on_account AuditAction.revoke_service_account sid))

unfoldable pub remove_service_account : ℕ → Authenticated → Api (Unit {0})
remove_service_account sid auth = do
  managed ← authorize_service_account auth.claims sid
  modify (λ s. record s {
    service_accounts = ServiceAccounts.delete_service_account sid s.service_accounts;
  })
  modify (audited auth (on_account AuditAction.delete_service_account sid))

pub record ServiceToken : Type 0 where
  pub user_id : ℕ
  pub account_id : ℕ
  pub scopes : List Text

-- The token names the owner, the account and its scopes; it is not kept in the store of sessions.
unfoldable pub service_token :
    (verify_secret : Text → Text → Bool) → ℕ → Text → Text → Api ServiceToken
service_token verify_secret now client_id secret = do
  sa ←
      require (λ s. get_service_account_by_client_id client_id s.service_accounts)
        unauthorized_error
  ensure (not (sa.revoked || not (verify_secret secret sa.secret_hash))) unauthorized_error
  modify (λ s. record s {
    service_accounts = touch_service_account_last_used sa.id now s.service_accounts;
  })
  pure (record { user_id = sa.user_id; account_id = sa.id; scopes = sa.scopes })
