-- ===== src/Session.antt =====
-- The sessions of the management API: backend/src/auth/session_auth.rs. The store of the valid
-- tokens is an association list from token ids to times in seconds; decoding a token (its signature
-- and its `exp`), the random ids and the clock are parameters.
pub mod Laws
mod Tests
use vaul_tls.Base.{
  ℕ, ◌+◌, ◌-◌, ◌*◌, Bool, true, false, not, ◌&&◌, Option, none, some, List, [], ◌∷◌, ltb, any,
  select, update, is_some, if◌then◌else◌,
}
use vaul_tls.Text.{Text, text, text_eq, strip_prefix, trim}

pub data UserRole : Type 0 where
  user admin : UserRole

pub record ServiceClaims : Type 0 where
  pub account_id : ℕ
  pub scopes : List Text

pub record Claims : Type 0 where
  pub jti : Text
  pub id : ℕ
  pub role : UserRole
  pub exp : ℕ
  pub service : Option ServiceClaims
  pub is_local : Bool

abbrev pub is_service : Claims → Bool
is_service claims = is_some claims.service

abbrev pub has_scope : Text → Claims → Bool
has_scope scope claims = elim claims.service [
  | none ↦ false
  | some s ↦ any (λ x. text_eq x scope) s.scopes
]

abbrev pub is_admin : UserRole → Bool
is_admin UserRole.user = false
is_admin UserRole.admin = true

abbrev pub is_local_admin : Claims → Bool
is_local_admin claims = not (is_service claims) && (is_admin claims.role && claims.is_local)

-- What a guard answers.
pub data Guarded : Type 0 where
  success : Claims → Guarded
  unauthorized : Guarded
  forbidden : Guarded

abbrev pub guard_by : (Claims → Bool) → Option Claims → Guarded
guard_by test none = unauthorized
guard_by test (some claims) = if test claims then success claims else forbidden

-- The guards `Authenticated`, `AuthenticatedPrivileged` and `AuthenticatedLocalAdmin`.
unfoldable pub guard_authenticated : Option Claims → Guarded
guard_authenticated = guard_by (λ claims. true)

unfoldable pub guard_privileged : Option Claims → Guarded
guard_privileged = guard_by (λ claims. is_admin claims.role)

unfoldable pub guard_local_admin : Option Claims → Guarded
guard_local_admin = guard_by is_local_admin

abbrev pub session_ttl_secs : ℕ
session_ttl_secs = 60 * 60

abbrev pub session_renew_threshold_secs : ℕ
session_renew_threshold_secs = 15 * 60

abbrev pub session_renew_grace_secs : ℕ
session_renew_grace_secs = 60

abbrev pub Store : Type 0
Store = List (Text × ℕ)

abbrev pub store_get : Text → Store → Option ℕ
store_get jti [] = none
store_get jti (entry ∷ rest) = if text_eq entry.0 jti then some entry.1 else store_get jti rest

abbrev pub remove : Text → Store → Store
remove jti store = select (λ entry. not (text_eq entry.0 jti)) store

-- The entries that have expired are dropped; an entry of the same id is replaced.
unfoldable pub register_jti : ℕ → Text → ℕ → Store → Store
register_jti now jti expires store =
    (jti, expires) ∷ remove jti (select (λ entry. ltb now entry.1) store)

-- The difference is cut at 0, as `saturating_sub` cuts it.
unfoldable pub needs_renewal : ℕ → ℕ → Bool
needs_renewal exp now = ltb (exp - now) session_renew_threshold_secs

abbrev pub human_claims : ℕ → Text → ℕ → UserRole → Bool → Claims
human_claims now jti user_id role is_local = record {
  jti = jti;
  id = user_id;
  role = role;
  exp = now + session_ttl_secs;
  service = none;
  is_local = is_local;
}

-- `generate_token`: the claims of the new token, and the store with its id.
unfoldable pub generate_token : ℕ → Text → ℕ → UserRole → Bool → Store → Claims × Store
generate_token now fresh user_id role is_local store = (
  human_claims now fresh user_id role is_local,
  register_jti now fresh (now + session_ttl_secs) store,
)

-- The entry ends at the grace time, if it does not end before.
unfoldable pub shorten : Text → ℕ → Store → Store
shorten jti grace_exp store =
    update (λ entry. text_eq entry.0 jti)
      (λ entry. (entry.0, if ltb grace_exp entry.1 then grace_exp else entry.1)) store

-- The claims of the cookie that is handed out, if one is.
unfoldable pub renew_session_cookie_if_needed : ℕ → Text → Claims → Store → Option Claims × Store
renew_session_cookie_if_needed now fresh claims store =
    if needs_renewal claims.exp now
    then (
      some (human_claims now fresh claims.id claims.role claims.is_local),
      shorten claims.jti (now + session_renew_grace_secs)
          (generate_token now fresh claims.id claims.role claims.is_local store).1,
    )
    else (none, store)

-- `*store_exp > now`
unfoldable pub is_alive : ℕ → Text → Store → Bool
is_alive now jti store = elim (store_get jti store) [ none ↦ false | some exp ↦ ltb now exp ]

-- What the request carries: the `Authorization` header and the private cookie.
pub record Credentials : Type 0 where
  pub authorization : Option Text
  pub cookie : Option Text

abbrev bearer_of : Option Text → Option Text
bearer_of none = none
bearer_of (some h) = strip_prefix (text "Bearer ") h

-- The token, and whether it comes from the cookie.
unfoldable pub token_of : Credentials → Option (Text × Bool)
token_of credentials = elim (bearer_of credentials.authorization) [
  | some bearer ↦ some (trim bearer, false)
  | none ↦ elim credentials.cookie [ none ↦ none | some value ↦ some (value, true) ]
]

pub record Authentication : Type 0 where
  pub claims : Option Claims
  pub renewed : Option Claims
  pub store : Store

-- The claims of a token that decodes: a human one must be in the store and alive.
unfoldable pub admit : ℕ → Text → Bool → Claims → Store → Authentication
admit now fresh from_cookie claims store =
    if is_service claims
    then record { claims = some claims; renewed = none; store = store }
    else if is_alive now claims.jti store
    then if from_cookie
      then record {
        claims = some claims;
        renewed = (renew_session_cookie_if_needed now fresh claims store).0;
        store = (renew_session_cookie_if_needed now fresh claims store).1;
      }
      else record { claims = some claims; renewed = none; store = store }
    else record { claims = none; renewed = none; store = store }

unfoldable pub authenticate_auth_token :
    (decode : Text → Option Claims) → ℕ → Text → Credentials → Store → Authentication
authenticate_auth_token decode now fresh credentials store = elim (token_of credentials) [
  | none ↦ record { claims = none; renewed = none; store = store }
  | some token ↦ elim (decode token.0) [
    | none ↦ record { claims = none; renewed = none; store = store }
    | some claims ↦ admit now fresh token.1 claims store
  ]
]

unfoldable pub invalidate_token : Text → Store → Store
invalidate_token = remove
