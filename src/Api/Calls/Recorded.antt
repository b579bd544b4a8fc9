-- ===== src/Api/Calls/Recorded.antt =====
-- Every call that the audit log records.
use vaul_tls.Base.Result.{Result, ok, err}
use vaul_tls.Base.Outcome.{Outcome}
use vaul_tls.Db.Audit.{AuditAction}
use vaul_tls.Api.Errors.{ApiError}
use vaul_tls.Api.State.{AppState, Api, Authenticated}
use vaul_tls.Api.AuditLog.Trail.{Logged}
use vaul_tls.Api.Calls.{Env, Call, forget, void, action_of, handle}
use vaul_tls.Api.Certificates.{fetch_certificate_password, download_certificate}
use vaul_tls.Api.Users.{create_user}
use vaul_tls.Api.ServiceAccounts.{create_service_account}
use vaul_tls.Api.Groups.{create_group}
use vaul_tls.Api.Replace.{update_certificate}
use vaul_tls.Api.Cas.{create_ca, persist_imported_ca}
use vaul_tls.Api.Calls.OnCertificates.{
  fetch_certificate_password-Logged, download_certificate-Logged, remove_version-Logged,
  remove_user_cert-Logged, revoke_certificate-Logged, remove_ca-Logged,
}
use vaul_tls.Api.Calls.OnUsers.{
  create_user-Logged, edit_user-Logged, remove_user-Logged, logout-Logged,
  create_service_account-Logged, withdraw_service_account-Logged, remove_service_account-Logged,
}
use vaul_tls.Api.Calls.OnGroups.{
  create_group-Logged, edit_group-Logged, remove_group-Logged, put_group_users-Logged,
  set_group_certificates-Logged,
}
use vaul_tls.Api.Calls.OnContents.{
  update_certificate-Logged, create_ca-Logged, persist_imported_ca-Logged,
}

forget-Logged :
    {A : Type 0} (action : AuditAction) (auth : Authenticated) (s after : AppState)
    (r : Result ApiError A)
    → Logged action auth s r after
    → Logged action auth s (forget r) after
forget-Logged action auth s after (ok a) h = h
forget-Logged action auth s after (err e) h = h

void-Logged :
    {A : Type 0} (action : AuditAction) (auth : Authenticated) (s : AppState) (m : Api A)
    → Outcome (Logged action auth s) m s
    → Outcome (Logged action auth s) (void m) s
void-Logged action auth s m h = forget-Logged action auth s (m s).1 (m s).0 h

-- A call of the management API that the audit log records adds exactly one row at the end of the log
-- if it goes through: the row names the call's action, who acted (the service account for a service, the
-- user for a human), the time and the address, and says that the call succeeded. A call that is refused
-- or fails, at whatever step, leaves the log as it was.
pub handle-Logged :
    (env : Env) (call : Call) (auth : Authenticated) (s : AppState)
    → let (r, after) = handle env call auth s in Logged (action_of call) auth s r after
unfolding handle
handle-Logged env (Call.revoke_certificate_call id) auth s =
    revoke_certificate-Logged auth s env.publish id
handle-Logged env (Call.delete_user_cert_call id) auth s = remove_user_cert-Logged auth s id
handle-Logged env (Call.delete_ca_call id) auth s = remove_ca-Logged auth s id
handle-Logged env (Call.delete_certificate_version_call id version) auth s =
    remove_version-Logged auth s id version
handle-Logged env (Call.fetch_certificate_password_call id version) auth s =
    void-Logged AuditAction.fetch_certificate_password auth s
      (fetch_certificate_password id version auth)
      (fetch_certificate_password-Logged auth s id version)
handle-Logged env (Call.download_certificate_call id format version) auth s =
    void-Logged AuditAction.download_certificate auth s
      (download_certificate env.pem_zip id format version auth)
      (download_certificate-Logged auth s env.pem_zip id format version)
handle-Logged env (Call.update_certificate_call id form) auth s =
    void-Logged AuditAction.update_certificate auth s (update_certificate env.pki id form auth)
      (update_certificate-Logged auth s env.pki id form)
handle-Logged env Call.create_ca_call auth s =
    void-Logged AuditAction.create_ca auth s (create_ca env.build_ca env.save_ca auth)
      (create_ca-Logged auth s env.build_ca env.save_ca)
handle-Logged env (Call.import_ca_call cert key name) auth s =
    void-Logged AuditAction.import_ca auth s
      (persist_imported_ca env.pki env.save_ca cert key name auth)
      (persist_imported_ca-Logged auth s env.pki env.save_ca cert key name)
handle-Logged env (Call.create_user_call name email password role) auth s =
    void-Logged AuditAction.create_user auth s
      (create_user env.passwords name email password role auth)
      (create_user-Logged auth s env.passwords name email password role)
handle-Logged env (Call.update_user_call id payload) auth s = edit_user-Logged auth s id payload
handle-Logged env (Call.delete_user_call id) auth s = remove_user-Logged auth s id
handle-Logged env Call.logout_call auth s = logout-Logged auth s
handle-Logged env (Call.create_service_account_call id name scopes) auth s =
    void-Logged AuditAction.create_service_account auth s
      (create_service_account env.hash_secret env.fresh id name scopes auth)
      (create_service_account-Logged auth s env.hash_secret env.fresh id name scopes)
handle-Logged env (Call.revoke_service_account_call sid) auth s =
    withdraw_service_account-Logged auth s sid
handle-Logged env (Call.delete_service_account_call sid) auth s =
    remove_service_account-Logged auth s sid
handle-Logged env (Call.create_group_call name description) auth s =
    void-Logged AuditAction.create_group auth s (create_group name description auth)
      (create_group-Logged auth s name description)
handle-Logged env (Call.update_group_call id name description) auth s =
    edit_group-Logged auth s id name description
handle-Logged env (Call.delete_group_call id) auth s = remove_group-Logged auth s id
handle-Logged env (Call.set_group_users_call id ids) auth s = put_group_users-Logged auth s id ids
handle-Logged env (Call.set_group_certificates_call id ids) auth s =
    set_group_certificates-Logged auth s id ids
