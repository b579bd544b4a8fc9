-- ===== src/Notifier/Watch.antt =====
-- `handle_acme_renewal` and the loop of `watch_expiry`: one round over the certificates that were not
-- revoked when it began.
use vaul_tls.Base.{
  ℕ, ◌+◌, ◌*◌, Bool, true, false, not, Option, none, some, List, [], ◌∷◌, select, update, ltb,
  is_some, ◌==◌, if◌then◌else◌,
}
use mathlib.Core.Option
use vaul_tls.Base.Result.{Result, ok, err}
use vaul_tls.Base.Action.{◌>>=◌, ◌>>◌, pure, lift, gets, modify, require}
use vaul_tls.Text.{Text, text}
use vaul_tls.Db.Rows.{Db, CertificateRow, CertificateRenewMethod}
use vaul_tls.Db.Versions.{ReplaceGuard, ReplaceCertificateInput}
use vaul_tls.Db.Users.{get_user}
use vaul_tls.Db.Audit.{AuditResult}
use vaul_tls.Db.AcmeClient.{
  TxtRecord, AcmeClientProvider, AcmeClientOrder, ClientOrderStatus, get_acme_client_provider,
  update_acme_client_provider_credentials, next_client_order_id, insert_acme_client_order,
  update_acme_client_order_status, get_acme_client_order_by_cert_id,
  get_active_renewal_order_for_cert,
}
use vaul_tls.Api.Revocation.{hex_encode}
use vaul_tls.Notifier.{
  Notice, World, Task, CreatedOrder, PackedCert, Issuers, no_row, send, renewal_entry, logged,
  audit_renewal_failure, version_detail, renewal_extends_expiry, replace_unattended, handle_expiry,
  handle_imported_expiry,
}

unfoldable pub update_cert_renew_method : ℕ → CertificateRenewMethod → Db → Db
update_cert_renew_method id renew_method db = record db {
  certs =
      update (λ (c : CertificateRow). c.id == id) (λ c. record c { renew_method = renew_method })
        db.certs;
}

abbrev pub with_credentials : ℕ → Option Text → World → World
with_credentials id none w = w
with_credentials id (some creds) w = record w {
  providers = update_acme_client_provider_credentials id creds w.providers;
}

abbrev pub with_order : ℕ → ℕ → AcmeClientOrder → CreatedOrder → World → World
with_order now cert_id source created w = record w {
  client_orders =
      insert_acme_client_order now source.provider_id source.domain source.include_wildcard
        (some created.order_url) created.txt_records created.expires_at (some cert_id)
        w.client_orders;
}

abbrev pub with_order_status : ℕ → ClientOrderStatus → Option ℕ → Option Text → World → World
with_order_status id status cert_id error w = record w {
  client_orders = update_acme_client_order_status id status cert_id error w.client_orders;
}

module _ (issuers : Issuers) (now : ℕ) (cert : CertificateRow) where
  abbrev pub tell_owner : Notice → Task (Unit {0})
  tell_owner notice = do
    user ← require (λ w. get_user cert.user_id w.app.users) no_row
    modify (send notice user cert)

  abbrev pub tell_acme_renewed : CertificateRenewMethod → Task (Unit {0})
  tell_acme_renewed CertificateRenewMethod.no_renewal = pure tt
  tell_acme_renewed CertificateRenewMethod.notify = pure tt
  tell_acme_renewed CertificateRenewMethod.renew = pure tt
  tell_acme_renewed CertificateRenewMethod.renew_and_notify = tell_owner Notice.renewed_certificate

  -- The CA of the row is kept, by the id 0.
  abbrev pub acme_input : PackedCert → Text → ReplaceCertificateInput
  acme_input packed fingerprint = record {
    bytes = packed.pkcs12_der;
    password = [];
    created_on = now;
    valid_until = packed.valid_until;
    serial_hex = Option.map hex_encode (issuers.get_serial packed.pkcs12_der []);
    fingerprint = fingerprint;
    ca_id = 0;
    renew_method = none;
  }

  unfoldable pub replace_acme : ℕ → PackedCert → Task (Unit {0})
  replace_acme order_id packed = do
    fingerprint ← lift (issuers.get_fingerprint packed.pkcs12_der [])
    new_version ←
        replace_unattended now cert.id (acme_input packed fingerprint) ReplaceGuard.acme_renewal
    modify (with_order_status order_id ClientOrderStatus.valid (some cert.id) none)
    modify (
        logged (
          renewal_entry now cert AuditResult.success
            (version_detail (text "automatic ACME renewal") cert new_version)))
    tell_acme_renewed cert.renew_method

  abbrev pub refuse : ℕ → Task (Unit {0})
  refuse order_id = modify (
      with_order_status order_id ClientOrderStatus.failed none
        (some (text "issued certificate does not extend the current expiry")))

  abbrev pub replace_or_refuse : ℕ → PackedCert → Task (Unit {0})
  replace_or_refuse order_id packed =
      if renewal_extends_expiry packed.valid_until cert.valid_until
      then replace_acme order_id packed
      else refuse order_id

  -- Without new records to publish the certificate is fetched; else the owner has to publish them.
  abbrev pub issue_or_ask :
      AcmeClientProvider → AcmeClientOrder → CreatedOrder → ℕ → List TxtRecord → Task (Unit {0})
  issue_or_ask provider source created order_id [] = do
    issued ← lift (issuers.issue_order provider created.order_url source.domain [])
    packed ← lift (issuers.pack_issued_certificate issued.0 issued.1 [])
    replace_or_refuse order_id packed
  issue_or_ask provider source created order_id (first ∷ others) = tell_owner Notice.old_certificate

  unfoldable pub order_renewal : Task (Unit {0})
  order_renewal = do
    source ←
        require (λ w. get_acme_client_order_by_cert_id cert.id w.client_orders)
          (text "no source order found")
    provider ← require (λ w. get_acme_client_provider source.provider_id w.providers) no_row
    created ← lift (issuers.create_order provider source.domain source.include_wildcard)
    modify (with_credentials provider.id created.account_credentials)
    order_id ← gets (λ w. next_client_order_id w.client_orders)
    modify (with_order now cert.id source created)
    issue_or_ask provider source created order_id created.txt_records

  -- Nothing is done while an earlier renewal is under way.
  unfoldable pub handle_acme_renewal : Task (Unit {0})
  handle_acme_renewal = do
    active ← gets (λ w.
        is_some (get_active_renewal_order_for_cert cert.id now w.app.db.certs w.client_orders))
    if active then pure tt else order_renewal

abbrev pub ended :
    {A : Type 0} → (World → World) → (Text → World → World) → Result Text A × World → World
ended good bad (ok a, w) = good w
ended good bad (err e, w) = bad e w

-- The owner is told once.
abbrev pub silence : ℕ → World → World
silence id w = record w {
  app = record w.app {
    db = update_cert_renew_method id CertificateRenewMethod.no_renewal w.app.db;
  };
}

module _ (issuers : Issuers) (now : ℕ) where
  abbrev pub in_a_week : ℕ
  in_a_week = now + 1000 * 60 * 60 * 24 * 7

  abbrev pub in_30_days : ℕ
  in_30_days = now + 1000 * 60 * 60 * 24 * 30

  abbrev pub warn_once : Task (Unit {0}) → CertificateRow → World → World
  warn_once task cert w =
      if ltb cert.valid_until in_a_week then ended (silence cert.id) (λ e w'. w') (task w) else w

  abbrev pub renew_by : Text → ℕ → Task (Unit {0}) → CertificateRow → World → World
  renew_by kind limit task cert w =
      if ltb cert.valid_until limit
      then ended (λ w'. w') (audit_renewal_failure now cert kind) (task w)
      else w

  abbrev pub check_acme : CertificateRow → CertificateRenewMethod → World → World
  check_acme cert CertificateRenewMethod.no_renewal w = w
  check_acme cert CertificateRenewMethod.notify w =
      warn_once (handle_expiry issuers now cert) cert w
  check_acme cert CertificateRenewMethod.renew w =
      renew_by (text "automatic ACME renewal") in_30_days (handle_acme_renewal issuers now cert)
        cert w
  check_acme cert CertificateRenewMethod.renew_and_notify w =
      renew_by (text "automatic ACME renewal") in_30_days (handle_acme_renewal issuers now cert)
        cert w

  abbrev pub check_internal : CertificateRow → CertificateRenewMethod → World → World
  check_internal cert CertificateRenewMethod.no_renewal w = w
  check_internal cert CertificateRenewMethod.notify w =
      warn_once (handle_expiry issuers now cert) cert w
  check_internal cert CertificateRenewMethod.renew w =
      renew_by (text "automatic renewal by internal CA") in_a_week (handle_expiry issuers now cert)
        cert w
  check_internal cert CertificateRenewMethod.renew_and_notify w =
      renew_by (text "automatic renewal by internal CA") in_a_week (handle_expiry issuers now cert)
        cert w

  abbrev pub is_silent : CertificateRenewMethod → Bool
  is_silent CertificateRenewMethod.no_renewal = true
  is_silent CertificateRenewMethod.notify = false
  is_silent CertificateRenewMethod.renew = false
  is_silent CertificateRenewMethod.renew_and_notify = false

  unfoldable pub check_cert : CertificateRow → World → World
  check_cert cert w =
      if is_silent cert.renew_method
      then w
      else if is_some cert.acme_provider_id
      then check_acme cert cert.renew_method w
      else if cert.is_imported
      then warn_once (handle_imported_expiry issuers now cert) cert w
      else check_internal cert cert.renew_method w

  unfoldable pub check_all : List CertificateRow → World → World
  check_all [] w = w
  check_all (cert ∷ rest) w = check_all rest (check_cert cert w)

  unfoldable pub watch_expiry : World → World
  watch_expiry w =
      check_all (select (λ (c : CertificateRow). not (is_some c.revoked_at)) w.app.db.certs) w
