-- ===== src/Notifier/Keeps/Tasks.antt =====
-- Each task of the watcher keeps the certificates.
use vaul_tls.Base.{ℕ, ◌≡◌, true, Option, none, some, List, [], ◌∷◌, arith}
use vaul_tls.Base.Result.{Result}
use vaul_tls.Base.Action.{pure}
use vaul_tls.Base.Outcome.{
  Outcome, Outcome-require, Outcome-ensure, Outcome-gets, Outcome-lift, Outcome-bind,
  Outcome-modify, Outcome-modify_last, Outcome-pure, Outcome-if,
}
use vaul_tls.Text.{Text}
use vaul_tls.Db.Rows.{Db, CertificateRow, CertificateRenewMethod}
use vaul_tls.Db.Versions.{ReplaceGuard, may_replace}
use vaul_tls.Db.Users.{User}
use vaul_tls.Db.AcmeClient.{TxtRecord, AcmeClientProvider, AcmeClientOrder}
use vaul_tls.Api.State.{record_audit}
use vaul_tls.Notifier.{
  World, Notice, CreatedOrder, PackedCert, Issuers, tell_renewed, renew_internal, expiry_by,
  handle_expiry, handle_imported_expiry, replace_unattended, renewal_extends_expiry,
}
use vaul_tls.Notifier.Watch.{
  refuse, tell_owner, tell_acme_renewed, replace_acme, replace_or_refuse, issue_or_ask,
  order_renewal, handle_acme_renewal, with_credentials,
}
use vaul_tls.Notifier.Keeps.{Keeps, is_renewable, Keeps-trans}
use vaul_tls.Notifier.Keeps.Writes.{Keeps-replace_certificate}

renewal_fits :
    (c : CertificateRow) → may_replace ReplaceGuard.renewal c ≡ true → is_renewable c ≡ true
unfolding may_replace
renewal_fits c h = ground (arith, h)

acme_renewal_fits :
    (c : CertificateRow) → may_replace ReplaceGuard.acme_renewal c ≡ true → is_renewable c ≡ true
unfolding may_replace
acme_renewal_fits c h = ground (arith, h)

-- However a task ends.
abbrev pub KeptBy : Db → {A : Type 0} → Result Text A → World → Type 0
KeptBy db r w = Keeps db w.app.db

module _ (issuers : Issuers) (now : ℕ) (cert : CertificateRow) (db : Db) where
  tell_renewed-Keeps :
      (user : User) (method : CertificateRenewMethod) (w : World)
      → Keeps db w.app.db
      → Outcome (KeptBy db) (tell_renewed issuers now cert user method) w
  tell_renewed-Keeps user CertificateRenewMethod.no_renewal w h = Outcome-pure (KeptBy db) _ w h
  tell_renewed-Keeps user CertificateRenewMethod.notify w h = Outcome-pure (KeptBy db) _ w h
  tell_renewed-Keeps user CertificateRenewMethod.renew w h = Outcome-pure (KeptBy db) _ w h
  tell_renewed-Keeps user CertificateRenewMethod.renew_and_notify w h =
      Outcome-require (KeptBy db) _ _ _ w (λ c _. Outcome-modify_last (KeptBy db) _ w h) (λ _. h)

  renew_internal-Keeps :
      (user : User) (method : CertificateRenewMethod) (w : World)
      → Keeps db w.app.db
      → Outcome (KeptBy db) (renew_internal issuers now cert user method) w
  unfolding renew_internal replace_unattended record_audit
  renew_internal-Keeps user method w h =
      Outcome-ensure (KeptBy db) _ _ _ w
        (λ _.
          Outcome-require (KeptBy db) _ _ _ w
            (λ ca _.
              Outcome-lift (KeptBy db) _ _ w
                (λ new_cert _.
                  Outcome-lift (KeptBy db) _ _ w
                    (λ fingerprint _.
                      let next : Keeps db _ = Keeps-trans db w.app.db _ h (
                        Keeps-replace_certificate now cert.id _ ReplaceGuard.renewal renewal_fits
                          w.app.db) in
                      Outcome-bind (KeptBy db) _ _ w
                        (λ version _.
                          Outcome-modify (KeptBy db) _ _ _ (tell_renewed-Keeps user method _ next))
                        (λ _ _. next))
                    (λ _ _. h))
                (λ _ _. h))
            (λ _. h))
        (λ _. h)

  expiry_by-Keeps :
      (user : User) (method : CertificateRenewMethod) (w : World)
      → Keeps db w.app.db
      → Outcome (KeptBy db) (expiry_by issuers now cert user method) w
  expiry_by-Keeps user CertificateRenewMethod.no_renewal w h = Outcome-pure (KeptBy db) _ w h
  expiry_by-Keeps user CertificateRenewMethod.notify w h = Outcome-modify_last (KeptBy db) _ w h
  expiry_by-Keeps user CertificateRenewMethod.renew w h = renew_internal-Keeps user _ w h
  expiry_by-Keeps user CertificateRenewMethod.renew_and_notify w h = renew_internal-Keeps user _ w h

  pub handle_expiry-Keeps :
      (w : World) → Keeps db w.app.db → Outcome (KeptBy db) (handle_expiry issuers now cert) w
  unfolding handle_expiry
  handle_expiry-Keeps w h =
      Outcome-require (KeptBy db) _ _ _ w (λ user _. expiry_by-Keeps user _ w h) (λ _. h)

  tell_owner-Keeps :
      (notice : Notice) (w : World)
      → Keeps db w.app.db
      → Outcome (KeptBy db) (tell_owner issuers now cert notice) w
  tell_owner-Keeps notice w h =
      Outcome-require (KeptBy db) _ _ _ w (λ user _. Outcome-modify_last (KeptBy db) _ w h) (λ _. h)

  pub handle_imported_expiry-Keeps :
      (w : World)
      → Keeps db w.app.db
      → Outcome (KeptBy db) (handle_imported_expiry issuers now cert) w
  unfolding handle_imported_expiry
  handle_imported_expiry-Keeps w h =
      Outcome-require (KeptBy db) _ _ _ w (λ user _. Outcome-modify_last (KeptBy db) _ w h) (λ _. h)

  tell_acme_renewed-Keeps :
      (method : CertificateRenewMethod) (w : World)
      → Keeps db w.app.db
      → Outcome (KeptBy db) (tell_acme_renewed issuers now cert method) w
  tell_acme_renewed-Keeps CertificateRenewMethod.no_renewal w h = Outcome-pure (KeptBy db) _ w h
  tell_acme_renewed-Keeps CertificateRenewMethod.notify w h = Outcome-pure (KeptBy db) _ w h
  tell_acme_renewed-Keeps CertificateRenewMethod.renew w h = Outcome-pure (KeptBy db) _ w h
  tell_acme_renewed-Keeps CertificateRenewMethod.renew_and_notify w h = tell_owner-Keeps _ w h

  replace_acme-Keeps :
      (order_id : ℕ) (packed : PackedCert) (w : World)
      → Keeps db w.app.db
      → Outcome (KeptBy db) (replace_acme issuers now cert order_id packed) w
  unfolding replace_acme replace_unattended record_audit
  replace_acme-Keeps order_id packed w h =
      Outcome-lift (KeptBy db) _ _ w
        (λ fingerprint _.
          let next : Keeps db _ = Keeps-trans db w.app.db _ h (
            Keeps-replace_certificate now cert.id _ ReplaceGuard.acme_renewal acme_renewal_fits
              w.app.db) in
          Outcome-bind (KeptBy db) _ _ w
            (λ version _.
              Outcome-modify (KeptBy db) _ _ _
                (Outcome-modify (KeptBy db) _ _ _ (tell_acme_renewed-Keeps _ _ next)))
            (λ _ _. next))
        (λ _ _. h)

  replace_or_refuse-Keeps :
      (order_id : ℕ) (packed : PackedCert) (w : World)
      → Keeps db w.app.db
      → Outcome (KeptBy db) (replace_or_refuse issuers now cert order_id packed) w
  replace_or_refuse-Keeps order_id packed w h =
      Outcome-if (KeptBy db) (renewal_extends_expiry packed.valid_until cert.valid_until)
        (replace_acme issuers now cert order_id packed) (refuse issuers now cert order_id) w
        (λ _. replace_acme-Keeps order_id packed w h) (λ _. Outcome-modify_last (KeptBy db) _ w h)

  issue_or_ask-Keeps :
      (provider : AcmeClientProvider) (source : AcmeClientOrder) (created : CreatedOrder)
      (order_id : ℕ) (records : List TxtRecord) (w : World)
      → Keeps db w.app.db
      → Outcome
          (KeptBy db)
          (issue_or_ask issuers now cert provider source created order_id records)
          w
  issue_or_ask-Keeps provider source created order_id [] w h =
      Outcome-lift (KeptBy db) _ _ w
        (λ issued _.
          Outcome-lift (KeptBy db) _ _ w (λ packed _. replace_or_refuse-Keeps order_id packed w h)
            (λ _ _. h))
        (λ _ _. h)
  issue_or_ask-Keeps provider source created order_id (first ∷ others) w h =
      tell_owner-Keeps Notice.old_certificate w h

  credentials_kept :
      (id : ℕ) (creds : Option Text) (w : World)
      → Keeps db w.app.db
      → Keeps db (with_credentials id creds w).app.db
  credentials_kept id none w h = h
  credentials_kept id (some creds) w h = h

  order_renewal-Keeps :
      (w : World) → Keeps db w.app.db → Outcome (KeptBy db) (order_renewal issuers now cert) w
  unfolding order_renewal
  order_renewal-Keeps w h =
      Outcome-require (KeptBy db) _ _ _ w
        (λ source _.
          Outcome-require (KeptBy db) _ _ _ w
            (λ provider _.
              Outcome-lift (KeptBy db) _ _ w
                (λ created _.
                  let h' : Keeps db _ =
                    credentials_kept provider.id created.account_credentials w h in
                  Outcome-modify (KeptBy db) _ _ w (
                    Outcome-gets (KeptBy db) _ _ _ (
                      Outcome-modify (KeptBy db) _ _ _
                        (issue_or_ask-Keeps provider source created _ _ _ h'))))
                (λ _ _. h))
            (λ _. h))
        (λ _. h)

  pub handle_acme_renewal-Keeps :
      (w : World) → Keeps db w.app.db → Outcome (KeptBy db) (handle_acme_renewal issuers now cert) w
  unfolding handle_acme_renewal
  handle_acme_renewal-Keeps w h = Outcome-gets (KeptBy db) _ _ w (
      Outcome-if (KeptBy db) _ (pure tt) (order_renewal issuers now cert) w
        (λ _. Outcome-pure (KeptBy db) _ w h) (λ _. order_renewal-Keeps w h))
