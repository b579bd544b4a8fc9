-- ===== src/Api/Calls/OnCertificates.antt =====
-- The audit log under the calls on certificates.
use vaul_tls.Base.{ℕ, refl, Option}
use vaul_tls.Base.Result.{Result}
use vaul_tls.Base.Outcome.{
  Outcome, Outcome-require, Outcome-ensure, Outcome-gets, Outcome-lift, Outcome-modify,
  Outcome-modify_last, Outcome-pure, Outcome-bind,
}
use vaul_tls.Text.{Text}
use vaul_tls.Db.Rows.{Bytes, Db, Ca}
use vaul_tls.Db.Audit.{AuditAction}
use vaul_tls.Api.Errors.{ApiError}
use vaul_tls.Api.State.{AppState, Authenticated, on_db, delete_user_cert, delete_ca}
use vaul_tls.Api.Outcomes.{Outcome-admitted}
use vaul_tls.Api.AuditLog.Trail.{Logged, audited-Logged}
use vaul_tls.Api.Certificates.{
  remove_version, fetch_certificate_password, download_certificate, remove_user_cert,
  revoke_certificate, remove_ca,
}

module _ (auth : Authenticated) (s : AppState) where
  pub fetch_certificate_password-Logged :
      (id : ℕ) (version : Option ℕ)
      → Outcome
          (Logged AuditAction.fetch_certificate_password auth s)
          (fetch_certificate_password id version auth)
          s
  unfolding fetch_certificate_password
  fetch_certificate_password-Logged id version =
      let Q = Logged AuditAction.fetch_certificate_password auth s in
      Outcome-ensure Q _ _ _ s
        (λ _.
          Outcome-require Q _ _ _ s
            (λ c _. Outcome-gets Q _ _ s (
              Outcome-ensure Q _ _ _ s
                (λ _.
                  Outcome-require Q _ _ _ s
                    (λ m _.
                      Outcome-modify Q _ _ s (Outcome-pure Q _ _ (audited-Logged auth _ s s refl)))
                    (λ _. refl))
                (λ _. refl)))
            (λ _. refl))
        (λ _. refl)

  pub download_certificate-Logged :
      (pem_zip : Bytes → Text → Result ApiError Bytes) (id : ℕ) (format : Option Text)
      (version : Option ℕ)
      → Outcome
          (Logged AuditAction.download_certificate auth s)
          (download_certificate pem_zip id format version auth)
          s
  unfolding download_certificate
  download_certificate-Logged pem_zip id format version =
      let Q = Logged AuditAction.download_certificate auth s in
      Outcome-ensure Q _ _ _ s
        (λ _.
          Outcome-require Q _ _ _ s
            (λ c _. Outcome-gets Q _ _ s (
              Outcome-ensure Q _ _ _ s
                (λ _.
                  Outcome-require Q _ _ _ s
                    (λ m _.
                      Outcome-lift Q _ _ s
                        (λ response _.
                          Outcome-modify Q _ _ s
                            (Outcome-pure Q _ _ (audited-Logged auth _ s s refl)))
                        (λ _ _. refl))
                    (λ _. refl))
                (λ _. refl)))
            (λ _. refl))
        (λ _. refl)

  pub remove_version-Logged :
      (id version : ℕ)
      → Outcome
          (Logged AuditAction.delete_certificate_version auth s)
          (remove_version id version auth)
          s
  unfolding remove_version
  remove_version-Logged id version =
      let Q = Logged AuditAction.delete_certificate_version auth s in
      Outcome-admitted Q _ _ s
        (λ _ _.
          Outcome-require Q _ _ _ s
            (λ c _.
              Outcome-ensure Q _ _ _ s
                (λ _.
                  Outcome-ensure Q _ _ _ s
                    (λ _. Outcome-gets Q _ _ s (
                      Outcome-modify Q _ _ s (
                        Outcome-ensure Q _ _ _ _
                          (λ _. Outcome-modify_last Q _ _ (audited-Logged auth _ s _ refl))
                          (λ _. refl))))
                    (λ _. refl))
                (λ _. refl))
            (λ _. refl))
        (λ _. refl)

  pub remove_user_cert-Logged :
      (id : ℕ) → Outcome (Logged AuditAction.delete_certificate auth s) (remove_user_cert id auth) s
  unfolding remove_user_cert delete_user_cert
  remove_user_cert-Logged id =
      let Q = Logged AuditAction.delete_certificate auth s in
      Outcome-require Q _ _ _ s
        (λ c _.
          Outcome-ensure Q _ _ _ s
            (λ _.
              Outcome-modify Q _ _ s (Outcome-modify_last Q _ _ (audited-Logged auth _ s _ refl)))
            (λ _. refl))
        (λ _. refl)

  pub revoke_certificate-Logged :
      (publish : Ca → Db → Result ApiError ℕ) (id : ℕ)
      → Outcome
          (Logged AuditAction.revoke_certificate auth s)
          (revoke_certificate publish id auth)
          s
  unfolding revoke_certificate on_db
  revoke_certificate-Logged publish id =
      let Q = Logged AuditAction.revoke_certificate auth s in
      Outcome-require Q _ _ _ s
        (λ c _.
          Outcome-ensure Q _ _ _ s
            (λ _.
              Outcome-bind Q _ _ s
                (λ _ _. Outcome-modify_last Q _ _ (audited-Logged auth _ s _ refl)) (λ _ _. refl))
            (λ _. refl))
        (λ _. refl)

  pub remove_ca-Logged :
      (id : ℕ) → Outcome (Logged AuditAction.delete_ca auth s) (remove_ca id auth) s
  unfolding remove_ca delete_ca
  remove_ca-Logged id =
      let Q = Logged AuditAction.delete_ca auth s in
      Outcome-admitted Q _ _ s
        (λ _ _. Outcome-gets Q _ _ s (
          Outcome-ensure Q _ _ _ s
            (λ _.
              Outcome-modify Q _ _ s (Outcome-modify_last Q _ _ (audited-Logged auth _ s _ refl)))
            (λ _. refl)))
        (λ _. refl)
