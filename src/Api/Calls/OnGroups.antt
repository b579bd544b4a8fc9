-- ===== src/Api/Calls/OnGroups.antt =====
-- The audit log under the calls on groups.
use vaul_tls.Base.{ℕ, ◌/◌, refl, Option, List}
use vaul_tls.Base.Outcome.{Outcome, Outcome-gets, Outcome-modify, Outcome-modify_last, Outcome-pure}
use vaul_tls.Text.{Text}
use vaul_tls.Groups.{insert_group, update_group, set_group_users, set_group_certs}
use vaul_tls.Db.Audit.{AuditAction}
use vaul_tls.Api.State.{AppState, Authenticated}
use vaul_tls.Api.Outcomes.{Outcome-admitted, Outcome-try_modify}
use vaul_tls.Api.AuditLog.Trail.{Logged, audited-Logged, on_groups-audit}
use vaul_tls.Api.Groups.{
  create_group, edit_group, remove_group, put_group_users, set_group_certificates, known_user,
  known_cert, inserted,
}

module _ (auth : Authenticated) (s : AppState) where
  pub create_group-Logged :
      (name : Text) (description : Option Text)
      → Outcome (Logged AuditAction.create_group auth s) (create_group name description auth) s
  unfolding create_group
  create_group-Logged name description =
      let Q = Logged AuditAction.create_group auth s in
      Outcome-admitted Q _ _ s
        (λ _ _. Outcome-gets Q _ _ s (
          Outcome-try_modify Q _ _ s
            (λ after went. Outcome-modify Q _ _ after (
              Outcome-pure Q _ _ (
                audited-Logged auth _ s after (
                  on_groups-audit
                    (λ g. inserted (insert_group name description (auth.now / 1000) g)) s after
                    went))))
            (λ _. refl)))
        (λ _. refl)

  pub edit_group-Logged :
      (id : ℕ) (name : Text) (description : Option Text)
      → Outcome (Logged AuditAction.update_group auth s) (edit_group id name description auth) s
  unfolding edit_group
  edit_group-Logged id name description =
      let Q = Logged AuditAction.update_group auth s in
      Outcome-admitted Q _ _ s
        (λ _ _.
          Outcome-try_modify Q _ _ s
            (λ after went. Outcome-modify_last Q _ after (
              audited-Logged auth _ s after
                (on_groups-audit (update_group id name description) s after went)))
            (λ _. refl))
        (λ _. refl)

  pub remove_group-Logged :
      (id : ℕ) → Outcome (Logged AuditAction.delete_group auth s) (remove_group id auth) s
  unfolding remove_group
  remove_group-Logged id =
      let Q = Logged AuditAction.delete_group auth s in
      Outcome-admitted Q _ _ s
        (λ _ _. Outcome-modify Q _ _ s (Outcome-modify_last Q _ _ (audited-Logged auth _ s _ refl)))
        (λ _. refl)

  pub put_group_users-Logged :
      (id : ℕ) (ids : List ℕ)
      → Outcome (Logged AuditAction.update_group auth s) (put_group_users id ids auth) s
  unfolding put_group_users
  put_group_users-Logged id ids =
      let Q = Logged AuditAction.update_group auth s in
      Outcome-admitted Q _ _ s
        (λ _ _.
          Outcome-try_modify Q _ _ s
            (λ after went. Outcome-modify_last Q _ after (
              audited-Logged auth _ s after
                (on_groups-audit (set_group_users (known_user s) id ids) s after went)))
            (λ _. refl))
        (λ _. refl)

  pub set_group_certificates-Logged :
      (id : ℕ) (ids : List ℕ)
      → Outcome (Logged AuditAction.update_group auth s) (set_group_certificates id ids auth) s
  unfolding set_group_certificates
  set_group_certificates-Logged id ids =
      let Q = Logged AuditAction.update_group auth s in
      Outcome-admitted Q _ _ s
        (λ _ _.
          Outcome-try_modify Q _ _ s
            (λ after went. Outcome-modify_last Q _ after (
              audited-Logged auth _ s after
                (on_groups-audit (set_group_certs (known_cert s) id ids) s after went)))
            (λ _. refl))
        (λ _. refl)
