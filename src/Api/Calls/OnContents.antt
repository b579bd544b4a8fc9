-- ===== src/Api/Calls/OnContents.antt =====
-- The audit log under the calls that replace a certificate's contents, build or import a CA.
use vaul_tls.Base.{◌&&◌, leb, ℕ, refl, Option, some, List}
use vaul_tls.Base.Result.{Result}
use vaul_tls.Base.Action.{◌>>=◌, ◌>>◌, lift, modify, require}
use vaul_tls.Base.Outcome.{
  Outcome, Outcome-require, Outcome-require_last, Outcome-ensure, Outcome-gets, Outcome-lift,
  Outcome-modify, Outcome-pure,
}
use vaul_tls.Text.{Text}
use vaul_tls.Db.Rows.{Bytes, Ca, CertificateRow, CertificateRenewMethod}
use vaul_tls.Db.Certs.{get_user_cert_by_id}
use vaul_tls.Db.Audit.{AuditAction}
use vaul_tls.Api.Errors.{ApiError}
use vaul_tls.Api.State.{AppState, Authenticated, audited, record_audit}
use vaul_tls.Api.Outcomes.{Outcome-admitted}
use vaul_tls.Api.AuditLog.Trail.{Logged, audited-Logged}
use vaul_tls.Api.Import.{Pki, ImportCertForm, Material, or_blank, with_cas}
use vaul_tls.Api.Certificates.{found, missing_row, on_certificate}
use vaul_tls.Api.Replace.{replace_in, is_forced, input_of, replacement_detail, update_certificate}
use vaul_tls.Api.Replace.Steps.{Outcome-replace_in, Outcome-issuing_ca}
use vaul_tls.Api.Cas.{create_ca, persist_imported_ca}

module _ (auth : Authenticated) (s : AppState) where
  -- The last steps of a replacement, from the fingerprint on.
  finished :
      (pki : Pki) (id : ℕ) (form : ImportCertForm) (existing : CertificateRow) (m : Material)
      (method : CertificateRenewMethod) (ca_id : ℕ) (cas : List Ca)
      → Outcome
          (Logged AuditAction.update_certificate auth s)
          (do
            fingerprint ← lift (pki.get_fingerprint m.stored (or_blank form.password))
            version ← replace_in auth.now id auth.claims.id (
                input_of m
                  (or_blank form.password)
                  (pki.get_serial m.stored (or_blank form.password))
                  fingerprint
                  ca_id
                  method)
            modify (
                audited auth (
                  on_certificate AuditAction.update_certificate existing id (
                    some (
                      replacement_detail existing version fingerprint (
                        is_forced form auth.claims && leb m.leaf.not_after existing.valid_until)))))
            require (found id) missing_row)
          (with_cas cas s)
  unfolding get_user_cert_by_id audited record_audit
  finished pki id form existing m method ca_id cas =
      let Q = Logged AuditAction.update_certificate auth s in
      Outcome-lift Q _ _ (with_cas cas s)
        (λ fingerprint _.
          Outcome-replace_in Q auth.now id auth.claims.id _ _ (with_cas cas s)
            (λ version db (c, there, here, history).
              let t : AppState = record (with_cas cas s) { db = db } in
              Outcome-modify Q _ _ t (
                Outcome-require_last Q _ _ _ (λ made read. audited-Logged auth _ s t refl)
                  (λ gone. cc (gone, here))))
            (λ _. refl))
        (λ _ _. refl)

  pub create_ca-Logged :
      (build : Result ApiError Ca) (save_ca : Ca → Result ApiError (Unit {0}))
      → Outcome (Logged AuditAction.create_ca auth s) (create_ca build save_ca auth) s
  unfolding create_ca
  create_ca-Logged build save_ca =
      let Q = Logged AuditAction.create_ca auth s in
      Outcome-admitted Q _ _ s
        (λ _ _.
          Outcome-lift Q _ _ s
            (λ built _. Outcome-gets Q _ _ s (
              Outcome-modify Q _ _ s (
                Outcome-lift Q _ _ _
                  (λ _ _.
                    Outcome-modify Q _ _ _ (Outcome-pure Q _ _ (audited-Logged auth _ s _ refl)))
                  (λ _ _. refl))))
            (λ _ _. refl))
        (λ _. refl)

  pub persist_imported_ca-Logged :
      (pki : Pki) (save_ca : Ca → Result ApiError (Unit {0})) (cert : Bytes) (key : Option Bytes)
      (name : Option Text)
      → Outcome
          (Logged AuditAction.import_ca auth s)
          (persist_imported_ca pki save_ca cert key name auth)
          s
  unfolding persist_imported_ca
  persist_imported_ca-Logged pki save_ca cert key name =
      let Q = Logged AuditAction.import_ca auth s in
      Outcome-admitted Q _ _ s
        (λ _ _.
          Outcome-lift Q _ _ s
            (λ parsed _. Outcome-gets Q _ _ s (
              Outcome-ensure Q _ _ _ s
                (λ _.
                  Outcome-lift Q _ _ s
                    (λ _ _. Outcome-gets Q _ _ s (
                      Outcome-modify Q _ _ s (
                        Outcome-lift Q _ _ _
                          (λ _ _.
                            Outcome-modify Q _ _ _
                              (Outcome-pure Q _ _ (audited-Logged auth _ s _ refl)))
                          (λ _ _. refl))))
                    (λ _ _. refl))
                (λ _. refl)))
            (λ _ _. refl))
        (λ _. refl)

  pub update_certificate-Logged :
      (pki : Pki) (id : ℕ) (form : ImportCertForm)
      → Outcome
          (Logged AuditAction.update_certificate auth s)
          (update_certificate pki id form auth)
          s
  unfolding update_certificate get_user_cert_by_id audited record_audit
  update_certificate-Logged pki id form =
      let Q = Logged AuditAction.update_certificate auth s in
      Outcome-require Q _ _ _ s
        (λ existing _. Outcome-gets Q _ _ s (
          Outcome-ensure Q _ _ _ s
            (λ _.
              Outcome-lift Q _ _ s
                (λ _ _.
                  Outcome-lift Q _ _ s
                    (λ m _. Outcome-gets Q _ _ s (
                      Outcome-ensure Q _ _ _ s
                        (λ _.
                          Outcome-lift Q _ _ s
                            (λ _ _.
                              Outcome-lift Q _ _ s
                                (λ method _. Outcome-gets Q _ _ s (
                                  Outcome-issuing_ca Q pki m _ _ s
                                    (λ ca_id cas. finished pki id form existing m method ca_id cas)
                                    (λ _. refl)))
                                (λ _ _. refl))
                            (λ _ _. refl))
                        (λ _. refl)))
                    (λ _ _. refl))
                (λ _ _. refl))
            (λ _. refl)))
        (λ _. refl)
