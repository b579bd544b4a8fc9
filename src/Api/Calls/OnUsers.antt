-- ===== src/Api/Calls/OnUsers.antt =====
-- The audit log under the calls on users and service accounts.
use vaul_tls.Base.{ℕ, refl, Option, none, some, List}
use vaul_tls.Base.Result.{Result}
use vaul_tls.Base.Outcome.{
  Outcome, Outcome-Then, Then, Outcome-require, Outcome-ensure, Outcome-gets, Outcome-lift,
  Outcome-lift_last, Outcome-modify, Outcome-modify_last, Outcome-pure,
}
use vaul_tls.Text.{Text}
use vaul_tls.Session.{UserRole}
use vaul_tls.Db.Users.{User, insert_user, update_user}
use vaul_tls.Db.Audit.{AuditAction}
use vaul_tls.Db.ServiceAccounts.{insert_service_account}
use vaul_tls.Api.Errors.{ApiError}
use vaul_tls.Api.State.{AppState, Authenticated, delete_user}
use vaul_tls.Api.Outcomes.{Outcome-admitted, Outcome-try_modify}
use vaul_tls.Api.AuditLog.Trail.{Logged, audited-Logged, on_users-audit, on_accounts-audit}
use vaul_tls.Api.Users.{Passwords, logout_deed, create_user, edit_user, remove_user, logout}
use vaul_tls.Api.ServiceAccounts.{
  Credentials, new_account_row, create_service_account, authorize_service_account,
  withdraw_service_account, remove_service_account,
}

module _ (auth : Authenticated) (s : AppState) where
  pub create_user-Logged :
      (passwords : Passwords) (name email : Text) (password : Option Text) (role : UserRole)
      → Outcome
          (Logged AuditAction.create_user auth s)
          (create_user passwords name email password role auth)
          s
  unfolding create_user
  create_user-Logged passwords name email password role =
      let Q = Logged AuditAction.create_user auth s in
      Outcome-admitted Q _ _ s
        (λ _ _.
          Outcome-lift Q _ _ s
            (λ hash _. Outcome-gets Q _ _ s (
              Outcome-try_modify Q _ _ s
                (λ after went. Outcome-modify Q _ _ after (
                  Outcome-pure Q _ _ (
                    audited-Logged auth _ s after (
                      on_users-audit
                        (insert_user (record {
                          id = 0;
                          name = name;
                          email = email;
                          password_hash = hash;
                          oidc_id = none;
                          role = role;
                        }))
                        s after went))))
                (λ _. refl)))
            (λ _ _. refl))
        (λ _. refl)

  pub edit_user-Logged :
      (id : ℕ) (payload : User)
      → Outcome (Logged AuditAction.update_user auth s) (edit_user id payload auth) s
  unfolding edit_user
  edit_user-Logged id payload =
      let Q = Logged AuditAction.update_user auth s in
      Outcome-ensure Q _ _ _ s
        (λ _.
          Outcome-ensure Q _ _ _ s
            (λ _.
              Outcome-ensure Q _ _ _ s
                (λ _.
                  Outcome-try_modify Q _ _ s
                    (λ after went. Outcome-modify_last Q _ after (
                      audited-Logged auth _ s after
                        (on_users-audit (update_user (record payload { id = id })) s after went)))
                    (λ _. refl))
                (λ _. refl))
            (λ _. refl))
        (λ _. refl)

  pub remove_user-Logged :
      (id : ℕ) → Outcome (Logged AuditAction.delete_user auth s) (remove_user id auth) s
  unfolding remove_user delete_user
  remove_user-Logged id =
      let Q = Logged AuditAction.delete_user auth s in
      Outcome-admitted Q _ _ s
        (λ _ _.
          Outcome-ensure Q _ _ _ s
            (λ _.
              Outcome-modify Q _ _ s (Outcome-modify_last Q _ _ (audited-Logged auth _ s _ refl)))
            (λ _. refl))
        (λ _. refl)

  pub logout-Logged : Outcome (Logged AuditAction.logout auth s) (logout (some auth)) s
  unfolding logout
  logout-Logged =
      let Q = Logged AuditAction.logout auth s in
      let entered = audited-Logged auth logout_deed s s refl in
      Outcome-modify Q _ _ s (
        Outcome-modify_last Q _ _
          (record { row = entered.row; appended = entered.appended; telling = entered.telling }))

  pub create_service_account-Logged :
      (hash_secret : Text → Result ApiError Text) (fresh : Credentials) (id : ℕ) (name : Text)
      (scopes : List Text)
      → Outcome
          (Logged AuditAction.create_service_account auth s)
          (create_service_account hash_secret fresh id name scopes auth)
          s
  unfolding create_service_account
  create_service_account-Logged hash_secret fresh id name scopes =
      let Q = Logged AuditAction.create_service_account auth s in
      Outcome-lift Q _ _ s
        (λ _ _.
          Outcome-lift Q _ _ s
            (λ _ _.
              Outcome-require Q _ _ _ s
                (λ owner _.
                  Outcome-lift Q _ _ s
                    (λ hash _. Outcome-gets Q _ _ s (
                      Outcome-try_modify Q _ _ s
                        (λ after went. Outcome-modify Q _ _ after (
                          Outcome-pure Q _ _ (
                            audited-Logged auth _ s after (
                              on_accounts-audit
                                (insert_service_account
                                  (new_account_row auth.now id name scopes fresh.client_id hash))
                                s after went))))
                        (λ _. refl)))
                    (λ _ _. refl))
                (λ _. refl))
            (λ _ _. refl))
        (λ _ _. refl)

  pub withdraw_service_account-Logged :
      (sid : ℕ)
      → Outcome
          (Logged AuditAction.revoke_service_account auth s)
          (withdraw_service_account sid auth)
          s
  unfolding withdraw_service_account authorize_service_account
  withdraw_service_account-Logged sid =
      let Q = Logged AuditAction.revoke_service_account auth s in
      Outcome-Then Q _ _ s (
        Outcome-require (Then Q _) _ _ _ s
          (λ sa _.
            Outcome-lift_last (Then Q _) _ s
              (λ u _.
                Outcome-modify Q _ _ s (Outcome-modify_last Q _ _ (audited-Logged auth _ s _ refl)))
              (λ _ _. refl))
          (λ _. refl))

  pub remove_service_account-Logged :
      (sid : ℕ)
      → Outcome
          (Logged AuditAction.delete_service_account auth s)
          (remove_service_account sid auth)
          s
  unfolding remove_service_account authorize_service_account
  remove_service_account-Logged sid =
      let Q = Logged AuditAction.delete_service_account auth s in
      Outcome-Then Q _ _ s (
        Outcome-require (Then Q _) _ _ _ s
          (λ sa _.
            Outcome-lift_last (Then Q _) _ s
              (λ u _.
                Outcome-modify Q _ _ s (Outcome-modify_last Q _ _ (audited-Logged auth _ s _ refl)))
              (λ _ _. refl))
          (λ _. refl))
