-- ===== src/Api/ServiceAccounts/Tokens.antt =====
-- Who gets a service token.
use vaul_tls.Base.{ℕ, ◌≡◌, refl, ap, ◌∙◌, Bool, true, some, List, subst, ==_refl}
use vaul_tls.Base.Tables.{find-update_by}
use vaul_tls.Base.Result.{Result, ok, err}
use vaul_tls.Base.Action.{◌>>=◌, require}
use vaul_tls.Base.Outcome.{
  Outcome, Outcome-Then, Outcome-require, Outcome-modify, Outcome-modify_last, Then,
  Outcome-lift_last,
}
use vaul_tls.Text.{Text, text_eq}
use vaul_tls.Db.ServiceAccounts.{
  ServiceAccount, get_service_account_by_client_id, revoke_service_account, has_account_id,
}
use vaul_tls.Api.Errors.{ApiError, unauthorized_error}
use vaul_tls.Api.State.{AppState, Authenticated, audited, record_audit}
use vaul_tls.Api.ServiceAccounts.{
  service_token, authorize_service_account, withdraw_service_account,
}

abbrev Withdrawn : ℕ → AppState → Result ApiError (Unit {0}) → AppState → Type 0
Withdrawn sid s (err e) after = after ≡ s
Withdrawn sid s (ok u) after =
    after.service_accounts ≡ revoke_service_account sid s.service_accounts

withdraw-Withdrawn :
    (sid : ℕ) (auth : Authenticated) (s : AppState)
    → Outcome (Withdrawn sid s) (withdraw_service_account sid auth) s
unfolding withdraw_service_account authorize_service_account audited record_audit
withdraw-Withdrawn sid auth s =
    let Q = Withdrawn sid s in
    Outcome-Then Q _ _ s (
      Outcome-require (Then Q _) _ _ _ s
        (λ sa _.
          Outcome-lift_last (Then Q _) _ s
            (λ u _. Outcome-modify Q _ _ s (Outcome-modify_last Q _ _ refl)) (λ _ _. refl))
        (λ _. refl))

-- The account of a client once it is revoked.
found-revoked :
    (sid : ℕ) (client_id : Text) (sa : ServiceAccount) (accounts : List ServiceAccount)
    → get_service_account_by_client_id client_id accounts ≡ some sa
    → sa.id ≡ sid
    → get_service_account_by_client_id client_id (revoke_service_account sid accounts)
      ≡ some (record sa { revoked = true })
unfolding get_service_account_by_client_id revoke_service_account
found-revoked sid client_id sa accounts found same =
    find-update_by (has_account_id sid) (λ x. text_eq x.client_id client_id)
      (λ x. record x { revoked = true }) accounts (λ _. refl)
    ∙ rw (found, same, ==_refl sid) refl

refused :
    (verify_secret : Text → Text → Bool) (now : ℕ) (t : AppState) (client_id secret : Text)
    (sa : ServiceAccount)
    → get_service_account_by_client_id client_id t.service_accounts ≡ some sa
    → sa.revoked ≡ true
    → service_token verify_secret now client_id secret t ≡ (err unauthorized_error, t)
unfolding service_token ◌>>=◌
refused verify_secret now t client_id secret sa found revoked =
    rw (require, found) (rw revoked refl)

-- Once a service account has been revoked, its client id gets no token any more, whatever the secret
-- and the time, and the request changes nothing.
pub withdraw_service_account-service_token :
    (verify_secret : Text → Text → Bool) (sid now : ℕ) (auth : Authenticated) (s : AppState)
    (client_id secret : Text) (sa : ServiceAccount)
    → (withdraw_service_account sid auth s).0 ≡ ok tt
    → get_service_account_by_client_id client_id s.service_accounts ≡ some sa
    → sa.id ≡ sid
    → let after = (withdraw_service_account sid auth s).1 in
      service_token verify_secret now client_id secret after ≡ (err unauthorized_error, after)
withdraw_service_account-service_token verify_secret sid now auth s client_id secret sa went found
      same =
    refused verify_secret now _ client_id secret (record sa { revoked = true })
      (ap (get_service_account_by_client_id client_id) kept
        ∙ found-revoked sid client_id sa s.service_accounts found same)
      refl
  where
    kept : Withdrawn sid s (ok tt) (withdraw_service_account sid auth s).1
    kept =
        subst (λ r. Withdrawn sid s r (withdraw_service_account sid auth s).1) went
          (withdraw-Withdrawn sid auth s)
