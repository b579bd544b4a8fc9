-- ===== src/Api/ServiceAccounts/Scopes.antt =====
-- Which accounts a caller can create.
use vaul_tls.Base.{
  ℕ, ◌≡◌, refl, Bool, true, false, not, ◌&&◌, ◌||◌, Option, some, List, [], ◌∷◌, ◌==◌, All, ap, ◌∙◌,
  Bool-cases, Option-cases, ◌⊎◌, inl, inr, arith,
}
use vaul_tls.Base.Result.{Result, ok, err}
use vaul_tls.Base.Outcome.{
  Outcome-lift, Outcome-require, Outcome-gets, Outcome-modify, Outcome-pure,
}
use vaul_tls.Text.{Text, text, text_eq}
use vaul_tls.Text.Laws.{text_eq_iff}
use vaul_tls.Session.{Claims, is_service, is_admin}
use vaul_tls.Db.Users.{User, get_user}
use vaul_tls.Db.ServiceAccounts.{ServiceAccount, insert_service_account}
use vaul_tls.Api.Errors.{ApiError}
use vaul_tls.Api.State.{AppState, Authenticated, audited, record_audit}
use vaul_tls.Api.Outcomes.{Outcome-try_modify}
use vaul_tls.Api.ServiceAccounts.{
  allowed_scopes, self_service_scopes, is_among, ensure_can_manage_service_accounts, check_scopes,
  on_accounts, new_account_row, Credentials, ServiceAccountCreated, create_service_account,
}

-- The scopes that an administrator may give, and those that anyone may.
abbrev pub IsScope : Text → Type 0
IsScope scope =
    (text "cert:read" ≡ scope) ⊎ (text "cert:issue" ≡ scope) ⊎ (text "acme:create" ≡ scope)

abbrev pub MayGive : Bool → Text → Type 0
MayGive true scope = IsScope scope
MayGive false scope = text "cert:read" ≡ scope

allowed-IsScope : (scope : Text) → is_among allowed_scopes scope ≡ true → IsScope scope
allowed-IsScope scope h = elim (Bool-cases (text_eq (text "cert:read") scope)) [
  | inl e ↦ inl ((text_eq_iff _ scope).0 e)
  | inr d ↦ elim (Bool-cases (text_eq (text "cert:issue") scope)) [
    | inl e ↦ inr (inl ((text_eq_iff _ scope).0 e))
    | inr d' ↦ inr (inr ((text_eq_iff _ scope).0 (ground (arith, h, d, d'))))
  ]
]

self_service-read :
    (scope : Text) → is_among self_service_scopes scope ≡ true → text "cert:read" ≡ scope
self_service-read scope h = (text_eq_iff _ scope).0 (ground (arith, h))

gives :
    (admin : Bool) (scope : Text)
    → is_among allowed_scopes scope ≡ true
    → (not admin && not (is_among self_service_scopes scope)) ≡ false
    → MayGive admin scope
gives true scope h k = allowed-IsScope scope h
gives false scope h k = self_service-read scope (ground (arith, k))

check_scopes-MayGive :
    (admin : Bool) (scopes : List Text) (u : Unit {0})
    → check_scopes admin scopes ≡ ok u
    → All (MayGive admin) scopes
unfolding check_scopes
check_scopes-MayGive admin [] u e = tt
check_scopes-MayGive admin (scope ∷ rest) u e = elim (Bool-cases (is_among allowed_scopes scope)) [
  | inr unknown ↦ absurd (ground (arith, rw (check_scopes, unknown) at e))
  | inl known ↦ elim (Bool-cases (not admin && not (is_among self_service_scopes scope))) [
    | inl above ↦ absurd (ground (arith, rw (check_scopes, known, above) at e))
    | inr within ↦ (
      gives admin scope known within,
      check_scopes-MayGive admin rest u (rw (check_scopes, known, within) at e),
    )
  ]
]

manages :
    (claims : Claims) (id : ℕ) (u : Unit {0})
    → ensure_can_manage_service_accounts claims id ≡ ok u
    → (is_service claims ≡ false) × ((is_admin claims.role || claims.id == id) ≡ true)
unfolding ensure_can_manage_service_accounts
manages claims id u e = ground (arith, e)

-- What an account's creation has checked and written.
pub record Created (fresh : Credentials) (id : ℕ) (name : Text) (scopes : List Text)
    (auth : Authenticated) (s : AppState) (made : ServiceAccountCreated) (after : AppState)
    : Type 0 where
  pub human : is_service auth.claims ≡ false
  pub manager : (is_admin auth.claims.role || auth.claims.id == id) ≡ true
  pub within : All (MayGive (is_admin auth.claims.role)) scopes
  pub owner : User
  pub owned : get_user id s.users ≡ some owner
  pub secret_hash : Text
  pub stored :
      insert_service_account
        (new_account_row auth.now id name scopes fresh.client_id secret_hash)
        s.service_accounts
      ≡ some after.service_accounts
  pub scopes_told : made.scopes ≡ scopes

abbrev pub CreationEnds :
    Credentials
    → ℕ
    → Text
    → List Text
    → Authenticated
    → AppState
    → Result ApiError ServiceAccountCreated
    → AppState
    → Type 0
CreationEnds fresh id name scopes auth s (err e) after = after ≡ s
CreationEnds fresh id name scopes auth s (ok made) after =
    Created fresh id name scopes auth s made after

on_accounts-some :
    (f : List ServiceAccount → Option (List ServiceAccount)) (s after : AppState)
    → on_accounts f s ≡ some after
    → f s.service_accounts ≡ some after.service_accounts
on_accounts-some f s after went = elim (Option-cases (f s.service_accounts)) [
  | inl p ↦ absurd (ground (arith, rw (on_accounts, p) at went))
  | inr (accounts, p) ↦
      let made : record s { service_accounts = accounts } ≡ after =
        ground (arith, rw (on_accounts, p) at went) in
      p ∙ ap some (ap (λ (x : AppState). x.service_accounts) made)
]

-- A service account is created only by a human, for an owner who exists and who is the caller unless
-- the caller is an administrator, and with no scope beyond reading certificates unless the caller is
-- an administrator, who may also give the two other known scopes. It is stored with exactly these
-- scopes. A refusal changes nothing.
pub create_service_account-outcome :
    (hash_secret : Text → Result ApiError Text) (fresh : Credentials) (id : ℕ) (name : Text)
    (scopes : List Text) (auth : Authenticated) (s : AppState)
    → let (r, after) = create_service_account hash_secret fresh id name scopes auth s in
      CreationEnds fresh id name scopes auth s r after
unfolding create_service_account audited record_audit
create_service_account-outcome hash_secret fresh id name scopes auth s =
    let Q = CreationEnds fresh id name scopes auth s in
    Outcome-lift Q _ _ s
      (λ u managed.
        Outcome-lift Q _ _ s
          (λ v checked.
            Outcome-require Q _ _ _ s
              (λ owner owned.
                Outcome-lift Q _ _ s
                  (λ secret_hash _. Outcome-gets Q _ _ s (
                    Outcome-try_modify Q _ _ s
                      (λ after went. Outcome-modify Q _ _ after (
                        Outcome-pure Q _ _ (record {
                          human = (manages auth.claims id u managed).0;
                          manager = (manages auth.claims id u managed).1;
                          within = check_scopes-MayGive _ scopes v checked;
                          owner = owner;
                          owned = owned;
                          secret_hash = secret_hash;
                          stored =
                              on_accounts-some
                                (insert_service_account (
                                  new_account_row auth.now id name scopes fresh.client_id
                                    secret_hash))
                                s after went;
                          scopes_told = refl;
                        })))
                      (λ _. refl)))
                  (λ _ _. refl))
              (λ _. refl))
          (λ _ _. refl))
      (λ _ _. refl)
