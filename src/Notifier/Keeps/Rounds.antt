-- ===== src/Notifier/Keeps/Rounds.antt =====
-- A whole round of the watcher.
use vaul_tls.Base.{
  ℕ, ◌≡◌, Bool, true, false, some, List, [], ◌∷◌, ◌++◌, is_some, ltb, Bool-cases, inl, inr,
  if◌then◌else◌,
}
use vaul_tls.Base.Result.{Result, ok, err}
use vaul_tls.Base.Outcome.{Outcome}
use vaul_tls.Text.{Text, text}
use vaul_tls.Db.Rows.{Db, CertificateRow, CertificateRenewMethod, VersionRow}
use vaul_tls.Db.Certs.{get_user_cert_by_id}
use vaul_tls.Api.State.{record_audit}
use vaul_tls.Notifier.{
  World, Task, Issuers, audit_renewal_failure, handle_expiry, handle_imported_expiry,
}
use vaul_tls.Notifier.Watch.{
  ended, silence, warn_once, renew_by, check_acme, check_internal, check_cert, check_all,
  handle_acme_renewal, watch_expiry, in_a_week, in_30_days, is_silent,
}
use vaul_tls.Notifier.Keeps.{Keeps, Kept, Keeps-refl, Keeps-trans}
use vaul_tls.Notifier.Keeps.Writes.{Keeps-update_cert_renew_method}
use vaul_tls.Notifier.Keeps.Tasks.{
  KeptBy, handle_expiry-Keeps, handle_imported_expiry-Keeps, handle_acme_renewal-Keeps,
}

if_Keeps :
    (db : Db) (b : Bool) (v u : World)
    → Keeps db v.app.db
    → Keeps db u.app.db
    → Keeps db (if b then v else u).app.db
if_Keeps db true v u p q = p
if_Keeps db false v u p q = q

module _ (now : ℕ) (db : Db) where
  silenced :
      (id : ℕ) (r : Result Text (Unit {0})) (w : World)
      → Keeps db w.app.db
      → Keeps db (ended (silence id) (λ e w'. w') (r, w)).app.db
  silenced id (ok u) w h =
      Keeps-trans db w.app.db _ h (Keeps-update_cert_renew_method id _ w.app.db)
  silenced id (err e) w h = h

  failed :
      (cert : CertificateRow) (kind : Text) (r : Result Text (Unit {0})) (w : World)
      → Keeps db w.app.db
      → Keeps db (ended (λ w'. w') (audit_renewal_failure now cert kind) (r, w)).app.db
  unfolding audit_renewal_failure record_audit
  failed cert kind (ok u) w h = h
  failed cert kind (err e) w h = h

module _ (issuers : Issuers) (now : ℕ) (db : Db) (cert : CertificateRow) (w : World)
    (h : Keeps db w.app.db) where
  warn_once-Keeps :
      (task : Task (Unit {0}))
      → Outcome (KeptBy db) task w
      → Keeps db (warn_once issuers now task cert w).app.db
  warn_once-Keeps task kept = elim (Bool-cases (ltb cert.valid_until (in_a_week issuers now))) [
    | inl soon ↦ rw soon (silenced now db cert.id (task w).0 (task w).1 kept)
    | inr later ↦ rw later h
  ]

  renew_by-Keeps :
      (kind : Text) (limit : ℕ) (task : Task (Unit {0}))
      → Outcome (KeptBy db) task w
      → Keeps db (renew_by issuers now kind limit task cert w).app.db
  renew_by-Keeps kind limit task kept = elim (Bool-cases (ltb cert.valid_until limit)) [
    | inl soon ↦ rw soon (failed now db cert kind (task w).0 (task w).1 kept)
    | inr later ↦ rw later h
  ]

  check_acme-Keeps :
      (method : CertificateRenewMethod) → Keeps db (check_acme issuers now cert method w).app.db
  check_acme-Keeps CertificateRenewMethod.no_renewal = h
  check_acme-Keeps CertificateRenewMethod.notify =
      warn_once-Keeps (handle_expiry issuers now cert) (handle_expiry-Keeps issuers now cert db w h)
  check_acme-Keeps CertificateRenewMethod.renew =
      renew_by-Keeps (text "automatic ACME renewal") (in_30_days issuers now)
        (handle_acme_renewal issuers now cert) (handle_acme_renewal-Keeps issuers now cert db w h)
  check_acme-Keeps CertificateRenewMethod.renew_and_notify =
      renew_by-Keeps (text "automatic ACME renewal") (in_30_days issuers now)
        (handle_acme_renewal issuers now cert) (handle_acme_renewal-Keeps issuers now cert db w h)

  check_internal-Keeps :
      (method : CertificateRenewMethod) → Keeps db (check_internal issuers now cert method w).app.db
  check_internal-Keeps CertificateRenewMethod.no_renewal = h
  check_internal-Keeps CertificateRenewMethod.notify =
      warn_once-Keeps (handle_expiry issuers now cert) (handle_expiry-Keeps issuers now cert db w h)
  check_internal-Keeps CertificateRenewMethod.renew =
      renew_by-Keeps (text "automatic renewal by internal CA") (in_a_week issuers now)
        (handle_expiry issuers now cert) (handle_expiry-Keeps issuers now cert db w h)
  check_internal-Keeps CertificateRenewMethod.renew_and_notify =
      renew_by-Keeps (text "automatic renewal by internal CA") (in_a_week issuers now)
        (handle_expiry issuers now cert) (handle_expiry-Keeps issuers now cert db w h)

  check_cert-Keeps : Keeps db (check_cert issuers now cert w).app.db
  unfolding check_cert
  check_cert-Keeps =
      let acme : World = check_acme issuers now cert cert.renew_method w in
      let imported : World =
        warn_once issuers now (handle_imported_expiry issuers now cert) cert w in
      let made : World = check_internal issuers now cert cert.renew_method w in
      let own : World = if cert.is_imported then imported else made in
      let loud : World = if is_some cert.acme_provider_id then acme else own in
      if_Keeps db (is_silent issuers now cert.renew_method) w loud h (
        if_Keeps db (is_some cert.acme_provider_id) acme own (check_acme-Keeps cert.renew_method) (
          if_Keeps db cert.is_imported imported made
            (warn_once-Keeps (handle_imported_expiry issuers now cert)
              (handle_imported_expiry-Keeps issuers now cert db w h))
            (check_internal-Keeps cert.renew_method)))

check_all-Keeps :
    (issuers : Issuers) (now : ℕ) (db : Db) (certs : List CertificateRow) (w : World)
    → Keeps db w.app.db
    → Keeps db (check_all issuers now certs w).app.db
unfolding check_all
check_all-Keeps issuers now db [] w h = h
check_all-Keeps issuers now db (cert ∷ rest) w h =
    check_all-Keeps issuers now db rest _ (check_cert-Keeps issuers now db cert w h)

-- A round of the expiry watcher keeps every certificate that there was: its owner, its name, its
-- type, its revocation, its ACME provider and whether it was imported. Its contents are as before, or
-- they were those of a certificate that may be renewed, which is not revoked and, unless an ACME
-- provider issues it, not imported, and then a version in the history has the old ones. The history
-- only grows.
pub watch_expiry-Kept :
    (issuers : Issuers) (now : ℕ) (w : World) (k : ℕ) (c : CertificateRow)
    → get_user_cert_by_id k w.app.db ≡ some c
    → let after = (watch_expiry issuers now w).app.db in
      Kept k c after × ((more : List VersionRow) × (after.versions ≡ w.app.db.versions ++ more))
unfolding watch_expiry
watch_expiry-Kept issuers now w k c there =
    let kept : Keeps w.app.db (watch_expiry issuers now w).app.db =
      check_all-Keeps issuers now w.app.db _ w (Keeps-refl w.app.db) in
    (kept.rows k c there, (kept.more, kept.grown))
