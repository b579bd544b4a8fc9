-- ===== src/Api/Calls.antt =====
-- The calls of the management API that the audit log records, as one data type, and what each runs.
-- The results that only the caller sees are dropped.
pub mod OnCertificates
pub mod OnUsers
pub mod OnGroups
pub mod OnContents
pub mod Recorded
use vaul_tls.Base.{ℕ, Bool, Option, some, List}
use vaul_tls.Base.Result.{Result, ok, err}
use vaul_tls.Text.{Text}
use vaul_tls.Session.{UserRole}
use vaul_tls.Db.Rows.{Bytes, Db, Ca}
use vaul_tls.Db.Users.{User}
use vaul_tls.Db.Audit.{AuditAction}
use vaul_tls.Api.Errors.{ApiError}
use vaul_tls.Api.State.{AppState, Api, Authenticated}
use vaul_tls.Api.Import.{Pki, ImportCertForm}
use vaul_tls.Api.Certificates.{
  remove_version, fetch_certificate_password, download_certificate, remove_user_cert,
  revoke_certificate, remove_ca,
}
use vaul_tls.Api.Users.{Passwords, create_user, edit_user, remove_user, logout}
use vaul_tls.Api.ServiceAccounts.{
  Credentials, create_service_account, withdraw_service_account, remove_service_account,
}
use vaul_tls.Api.Groups.{
  create_group, edit_group, remove_group, put_group_users, set_group_certificates,
}
use vaul_tls.Api.Replace.{update_certificate}
use vaul_tls.Api.Cas.{create_ca, persist_imported_ca}

-- What the program does not implement, and the random values of a request.
pub record Env : Type 0 where
  pub pki : Pki
  pub passwords : Passwords
  pub pem_zip : Bytes → Text → Result ApiError Bytes
  pub publish : Ca → Db → Result ApiError ℕ
  pub hash_secret : Text → Result ApiError Text
  pub fresh : Credentials
  pub build_ca : Result ApiError Ca
  pub save_ca : Ca → Result ApiError (Unit {0})

pub data Call : Type 0 where
  revoke_certificate_call delete_user_cert_call delete_ca_call : ℕ → Call
  delete_certificate_version_call : ℕ → ℕ → Call
  fetch_certificate_password_call : ℕ → Option ℕ → Call
  download_certificate_call : ℕ → Option Text → Option ℕ → Call
  update_certificate_call : ℕ → ImportCertForm → Call
  create_ca_call : Call
  import_ca_call : Bytes → Option Bytes → Option Text → Call
  create_user_call : Text → Text → Option Text → UserRole → Call
  update_user_call : ℕ → User → Call
  delete_user_call : ℕ → Call
  logout_call : Call
  create_service_account_call : ℕ → Text → List Text → Call
  revoke_service_account_call delete_service_account_call : ℕ → Call
  create_group_call : Text → Option Text → Call
  update_group_call : ℕ → Text → Option Text → Call
  delete_group_call : ℕ → Call
  set_group_users_call set_group_certificates_call : ℕ → List ℕ → Call

abbrev pub forget : {A : Type 0} → Result ApiError A → Result ApiError (Unit {0})
forget (ok a) = ok tt
forget (err e) = err e

abbrev pub void : {A : Type 0} → Api A → Api (Unit {0})
void m s = (forget (m s).0, (m s).1)

abbrev pub action_of : Call → AuditAction
action_of (revoke_certificate_call id) = AuditAction.revoke_certificate
action_of (delete_user_cert_call id) = AuditAction.delete_certificate
action_of (delete_ca_call id) = AuditAction.delete_ca
action_of (delete_certificate_version_call id version) = AuditAction.delete_certificate_version
action_of (fetch_certificate_password_call id version) = AuditAction.fetch_certificate_password
action_of (download_certificate_call id format version) = AuditAction.download_certificate
action_of (update_certificate_call id form) = AuditAction.update_certificate
action_of create_ca_call = AuditAction.create_ca
action_of (import_ca_call cert key name) = AuditAction.import_ca
action_of (create_user_call name email password role) = AuditAction.create_user
action_of (update_user_call id payload) = AuditAction.update_user
action_of (delete_user_call id) = AuditAction.delete_user
action_of logout_call = AuditAction.logout
action_of (create_service_account_call id name scopes) = AuditAction.create_service_account
action_of (revoke_service_account_call sid) = AuditAction.revoke_service_account
action_of (delete_service_account_call sid) = AuditAction.delete_service_account
action_of (create_group_call name description) = AuditAction.create_group
action_of (update_group_call id name description) = AuditAction.update_group
action_of (delete_group_call id) = AuditAction.delete_group
action_of (set_group_users_call id ids) = AuditAction.update_group
action_of (set_group_certificates_call id ids) = AuditAction.update_group

unfoldable pub handle : Env → Call → Authenticated → Api (Unit {0})
handle env (revoke_certificate_call id) auth = revoke_certificate env.publish id auth
handle env (delete_user_cert_call id) auth = remove_user_cert id auth
handle env (delete_ca_call id) auth = remove_ca id auth
handle env (delete_certificate_version_call id version) auth = remove_version id version auth
handle env (fetch_certificate_password_call id version) auth =
    void (fetch_certificate_password id version auth)
handle env (download_certificate_call id format version) auth =
    void (download_certificate env.pem_zip id format version auth)
handle env (update_certificate_call id form) auth = void (update_certificate env.pki id form auth)
handle env create_ca_call auth = void (create_ca env.build_ca env.save_ca auth)
handle env (import_ca_call cert key name) auth =
    void (persist_imported_ca env.pki env.save_ca cert key name auth)
handle env (create_user_call name email password role) auth =
    void (create_user env.passwords name email password role auth)
handle env (update_user_call id payload) auth = edit_user id payload auth
handle env (delete_user_call id) auth = remove_user id auth
handle env logout_call auth = logout (some auth)
handle env (create_service_account_call id name scopes) auth =
    void (create_service_account env.hash_secret env.fresh id name scopes auth)
handle env (revoke_service_account_call sid) auth = withdraw_service_account sid auth
handle env (delete_service_account_call sid) auth = remove_service_account sid auth
handle env (create_group_call name description) auth = void (create_group name description auth)
handle env (update_group_call id name description) auth = edit_group id name description auth
handle env (delete_group_call id) auth = remove_group id auth
handle env (set_group_users_call id ids) auth = put_group_users id ids auth
handle env (set_group_certificates_call id ids) auth = set_group_certificates id ids auth
