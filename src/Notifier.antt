-- ===== src/Notifier.antt =====
-- backend/src/notification/notifier.rs: `watch_expiry`, which runs through the certificates now and
-- then, with `handle_expiry`, `handle_imported_expiry`, `handle_acme_renewal` and
-- `audit_renewal_failure`; and `update_cert_renew_method` of backend/src/db.rs. The building of a
-- certificate (backend/src/certs/tls_cert.rs) and the protocol run of
-- backend/src/acme_client/client.rs are parameters. A mail is handed over, whether or not it is sent.
-- The clock is read once in a round. An error carries a text, as anyhow's does.
pub mod Watch
pub mod Keeps
pub mod Tests
use vaul_tls.Base.{
  ℕ, ◌+◌, ◌*◌, ◌/◌, Bool, true, false, not, ◌&&◌, Option, none, some, List, [], ◌∷◌, ◌++◌, ◌==◌,
  select, update, is_some, ltb, if◌then◌else◌,
}
use mathlib.Core.Option
use vaul_tls.Base.Result.{Result, ok, err}
use vaul_tls.Base.Action.{Action, ◌>>=◌, ◌>>◌, pure, lift, gets, modify, require, ensure}
use vaul_tls.Text.{Text, text, is_empty}
use vaul_tls.Text.Decimal.{show}
use vaul_tls.Db.Rows.{Bytes, Db, CertificateRow, CertificateType, CertificateRenewMethod, Ca}
use vaul_tls.Db.Certs.{get_user_cert_by_id, get_latest_tls_ca}
use vaul_tls.Db.Versions.{
  ReplaceGuard, ReplaceError, missing, duplicate_version, not_replaceable, ReplaceCertificateInput,
  replace_certificate,
}
use vaul_tls.Db.Users.{User, get_user}
use vaul_tls.Db.Audit.{AuditActorType, AuditAction, AuditResult, AuditEntry}
use vaul_tls.Db.AcmeClient.{
  TxtRecord, AcmeClientProvider, AcmeClientOrder, ClientOrderStatus, get_acme_client_provider,
  update_acme_client_provider_credentials, next_client_order_id, insert_acme_client_order,
  update_acme_client_order_status, get_acme_client_order_by_cert_id,
  get_active_renewal_order_for_cert,
}
use vaul_tls.Api.State.{AppState, record_audit}
use vaul_tls.Api.Certificates.{is_tls_type}
use vaul_tls.Api.Revocation.{hex_encode}

pub data Notice : Type 0 where
  old_certificate renewed_certificate : Notice

-- `MailMessage`, and which mail it is for.
pub record MailMessage : Type 0 where
  pub notice : Notice
  pub recipient : User
  pub certificate : CertificateRow

pub record World : Type 0 where
  pub app : AppState
  pub providers : List AcmeClientProvider
  pub client_orders : List AcmeClientOrder
  pub mails : List MailMessage

abbrev pub Task : Type 0 → Type 0
Task = Action World Text

pub record NewCert : Type 0 where
  pub bytes : Bytes
  pub password : Text
  pub created_on : ℕ
  pub valid_until : ℕ

pub record CreatedOrder : Type 0 where
  pub account_credentials : Option Text
  pub order_url : Text
  pub txt_records : List TxtRecord
  pub expires_at : Option ℕ

pub record PackedCert : Type 0 where
  pub pkcs12_der : Bytes
  pub valid_until : ℕ

-- What the program does not implement, or what it leaves to OpenSSL and the network.
pub record Issuers : Type 0 where
  pub build_client : CertificateRow → Ca → Text → Result Text NewCert
  pub build_server : CertificateRow → Ca → Result Text NewCert
  pub get_fingerprint : Bytes → Text → Result Text Text
  pub get_serial : Bytes → Text → Option Bytes
  pub create_order : AcmeClientProvider → Text → Bool → Result Text CreatedOrder
  pub issue_order : AcmeClientProvider → Text → Text → List TxtRecord → Result Text (Text × Text)
  pub pack_issued_certificate : Text → Text → Text → Result Text PackedCert

abbrev pub no_row : Text
no_row = text "Query returned no rows"

abbrev pub send : Notice → User → CertificateRow → World → World
send notice user cert w = record w {
  mails = w.mails ++ record { notice = notice; recipient = user; certificate = cert } ∷ [];
}

-- The log has no user for what the program does by itself.
abbrev pub renewal_entry : ℕ → CertificateRow → AuditResult → Text → AuditEntry
renewal_entry now cert result detail = record {
  ts = now / 1000;
  actor_id = none;
  actor_label = text "system (automatic renewal)";
  actor_type = AuditActorType.anonymous;
  action = AuditAction.update_certificate;
  target_type = some (text "certificate");
  target_id = some (show cert.id);
  target_label = some cert.name.cn;
  result = result;
  detail = some detail;
  ip = none;
}

abbrev pub logged : AuditEntry → World → World
logged entry w = record w { app = record_audit entry w.app }

unfoldable pub audit_renewal_failure : ℕ → CertificateRow → Text → Text → World → World
audit_renewal_failure now cert kind error =
    logged (renewal_entry now cert AuditResult.failure (kind ++ (text " failed: " ++ error)))

abbrev pub version_detail : Text → CertificateRow → ℕ → Text
version_detail kind cert new_version =
    kind ++ (text ": v" ++ (show cert.version ++ (text " → v" ++ show new_version)))

unfoldable pub renewal_extends_expiry : ℕ → ℕ → Bool
renewal_extends_expiry issued_valid_until current_valid_until =
    ltb current_valid_until issued_valid_until

abbrev pub as_error : Result ReplaceError ℕ → Result Text ℕ
as_error (ok version) = ok version
as_error (err missing) = err no_row
as_error (err duplicate_version) = err (text "UNIQUE constraint failed")
as_error (err not_replaceable) = err (text "certificate cannot be replaced")

-- No user is named as the one who replaced it.
unfoldable pub replace_unattended : ℕ → ℕ → ReplaceCertificateInput → ReplaceGuard → Task ℕ
replace_unattended now id input guard w =
    let done = replace_certificate now id none input guard w.app.db in
    (as_error done.0, record w { app = record w.app { db = done.1 } })

abbrev pub is_client : CertificateType → Bool
is_client CertificateType.tls_client = true
is_client CertificateType.tls_server = false
is_client CertificateType.ssh_client = false
is_client CertificateType.ssh_server = false

module _ (issuers : Issuers) (now : ℕ) (cert : CertificateRow) where
  abbrev pub built_by : Ca → User → Result Text NewCert
  built_by ca user =
      if is_client cert.certificate_type
      then issuers.build_client cert ca user.email
      else issuers.build_server cert ca

  abbrev pub internal_input : NewCert → Text → ℕ → ReplaceCertificateInput
  internal_input new_cert fingerprint ca_id = record {
    bytes = new_cert.bytes;
    password = new_cert.password;
    created_on = new_cert.created_on;
    valid_until = new_cert.valid_until;
    serial_hex = Option.map hex_encode (issuers.get_serial new_cert.bytes new_cert.password);
    fingerprint = fingerprint;
    ca_id = ca_id;
    renew_method = none;
  }

  abbrev pub tell_renewed : User → CertificateRenewMethod → Task (Unit {0})
  tell_renewed user CertificateRenewMethod.no_renewal = pure tt
  tell_renewed user CertificateRenewMethod.notify = pure tt
  tell_renewed user CertificateRenewMethod.renew = pure tt
  tell_renewed user CertificateRenewMethod.renew_and_notify = do
    renewed_cert ← require (λ w. get_user_cert_by_id cert.id w.app.db) no_row
    modify (send Notice.renewed_certificate user renewed_cert)

  -- The renewal of `handle_expiry`, by the latest TLS CA.
  unfoldable pub renew_internal : User → CertificateRenewMethod → Task (Unit {0})
  renew_internal user method = do
    ensure (is_tls_type cert.certificate_type) (text "SSH not supported for renewal.")
    ca ← require (λ w. get_latest_tls_ca w.app.db) no_row
    new_cert ← lift (built_by ca user)
    fingerprint ← lift (issuers.get_fingerprint new_cert.bytes new_cert.password)
    new_version ←
        replace_unattended now cert.id (internal_input new_cert fingerprint ca.id)
          ReplaceGuard.renewal
    modify (
        logged (
          renewal_entry now cert AuditResult.success
            (version_detail (text "automatic renewal by internal CA") cert new_version)))
    tell_renewed user method

  abbrev pub expiry_by : User → CertificateRenewMethod → Task (Unit {0})
  expiry_by user CertificateRenewMethod.no_renewal = pure tt
  expiry_by user CertificateRenewMethod.notify = modify (send Notice.old_certificate user cert)
  expiry_by user CertificateRenewMethod.renew = renew_internal user CertificateRenewMethod.renew
  expiry_by user CertificateRenewMethod.renew_and_notify =
      renew_internal user CertificateRenewMethod.renew_and_notify

  unfoldable pub handle_expiry : Task (Unit {0})
  handle_expiry = do
    user ← require (λ w. get_user cert.user_id w.app.users) no_row
    expiry_by user cert.renew_method

  unfoldable pub handle_imported_expiry : Task (Unit {0})
  handle_imported_expiry = do
    user ← require (λ w. get_user cert.user_id w.app.users) no_row
    modify (send Notice.old_certificate user cert)
