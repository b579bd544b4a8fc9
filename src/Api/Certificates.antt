-- ===== src/Api/Certificates.antt =====
-- The handlers on certificates of backend/src/api.rs: `get_certificates`,
-- `list_certificate_versions`, `delete_certificate_version`, `download_certificate`,
-- `fetch_certificate_password`, `delete_user_cert`, `delete_ca`, `revoke_certificate`. Unpacking a
-- PKCS#12 container and packing the zip file are a parameter.
pub mod Access
pub mod Material
use vaul_tls.Base.{
  ℕ, ◌*◌, Bool, true, false, not, ◌&&◌, ◌||◌, Option, none, some, List, [], ◌∷◌, ◌++◌, map, ltb,
  ◌==◌, any, select, length, is_some, if◌then◌else◌,
}
use vaul_tls.Base.Result.{Result, ok, err, ok_or}
use vaul_tls.Base.Action.{Action, ◌>>=◌, ◌>>◌, pure, lift, gets, modify, require, ensure}
use vaul_tls.Text.{Text, text, text_eq, starts_with}
use vaul_tls.Text.Decimal.{show}
use vaul_tls.Session.{Claims, is_service, has_scope, is_local_admin, guard_local_admin}
use vaul_tls.Db.Rows.{Bytes, Db, CertificateRow, CertificateType, Ca, Name}
use vaul_tls.Db.Accounts.{opt_id_eq}
use vaul_tls.Db.Certs.{get_user_cert_by_id}
use vaul_tls.Db.Versions.{
  CertificateVersionEntry, list_certificate_versions, get_certificate_version,
  delete_certificate_version, StoredCertVersion,
}
use vaul_tls.Db.Audit.{AuditAction}
use vaul_tls.Groups.{user_shares_group_with_cert, group_shared_cert_ids, get_visible_certs}
use vaul_tls.Api.Revocation.{revoke_cert_and_update_crl}
use vaul_tls.Api.Errors.{ApiError, forbidden_error, not_found_error, bad_request, other}
use vaul_tls.Api.State
use vaul_tls.Api.State.{AppState, Api, Authenticated, Deed, admitted, on_db, audited}

-- A service needs the scope; whoever else is authenticated may read.
abbrev pub may_read : Claims → Bool
may_read claims = not (is_service claims && not (has_scope (text "cert:read") claims))

unfoldable pub can_access_cert_secret : Claims → ℕ → ℕ → AppState → Bool
can_access_cert_secret claims owner_id cert_id s =
    is_local_admin claims
    || (owner_id == claims.id || user_shares_group_with_cert claims.id cert_id s.groups)

pub record CertificateListEntry : Type 0 where
  pub certificate : CertificateRow
  pub managed_via_group : Bool

abbrev visible_rows : Claims → AppState → List CertificateRow
visible_rows claims s =
    if is_local_admin claims then s.db.certs else get_visible_certs claims.id s.groups s.db.certs

abbrev shared_ids : Claims → AppState → List ℕ
shared_ids claims s = if is_service claims then [] else group_shared_cert_ids claims.id s.groups

abbrev list_entry : List ℕ → CertificateRow → CertificateListEntry
list_entry shared c = record { certificate = c; managed_via_group = any (λ id. id == c.id) shared }

unfoldable pub get_certificates : Authenticated → Api (List CertificateListEntry)
get_certificates auth = do
  ensure (may_read auth.claims) forbidden_error
  gets (λ s. map (list_entry (shared_ids auth.claims s)) (visible_rows auth.claims s))

abbrev pub found : ℕ → AppState → Option CertificateRow
found id s = get_user_cert_by_id id s.db

abbrev pub missing_row : ApiError
missing_row = other (text "Query returned no rows")

-- What a deed on a certificate is recorded as.
abbrev pub on_certificate : AuditAction → CertificateRow → ℕ → Option Text → Deed
on_certificate action c id detail = record {
  action = action;
  target_type = some (text "certificate");
  target_id = some (show id);
  target_label = some c.name.cn;
  detail = detail;
}

unfoldable pub get_versions : ℕ → Authenticated → Api (List CertificateVersionEntry)
get_versions id auth = do
  ensure (may_read auth.claims) forbidden_error
  certificate ← require (found id) not_found_error
  allowed ← gets (can_access_cert_secret auth.claims certificate.user_id id)
  ensure allowed forbidden_error
  gets (λ s. list_certificate_versions id s.db)

abbrev pub drop_version : ℕ → ℕ → AppState → AppState
drop_version id version s = record s { db = (delete_certificate_version id version s.db).1 }

-- The current version stays, and so does the history of a revoked certificate.
unfoldable pub remove_version : ℕ → ℕ → Authenticated → Api (Unit {0})
remove_version id version auth = do
  claims ← admitted (guard_local_admin (some auth.claims))
  certificate ← require (found id) not_found_error
  ensure (not (certificate.version == version))
      (bad_request (text "current version cannot be deleted"))
  ensure (not (is_some certificate.revoked_at)) (bad_request (text "certificate is revoked"))
  deleted ← gets (λ s. (delete_certificate_version id version s.db).0)
  modify (drop_version id version)
  ensure deleted not_found_error
  modify (
      audited auth (
        on_certificate AuditAction.delete_certificate_version certificate id
          (some (text "version " ++ show version))))

-- The material of the version that is asked for.
abbrev pub served_material : ℕ → Option ℕ → CertificateRow → AppState → Option StoredCertVersion
served_material id none c s = some (record { bytes = c.bytes; password = c.password })
served_material id (some v) c s = get_certificate_version id v s.db

abbrev pub served_version : Option ℕ → CertificateRow → ℕ
served_version none c = c.version
served_version (some v) c = v

unfoldable pub fetch_certificate_password : ℕ → Option ℕ → Authenticated → Api Text
fetch_certificate_password id version auth = do
  ensure (may_read auth.claims) forbidden_error
  certificate ← require (found id) missing_row
  allowed ← gets (can_access_cert_secret auth.claims certificate.user_id id)
  ensure allowed forbidden_error
  material ← require (served_material id version certificate) not_found_error
  modify (
      audited auth (
        on_certificate AuditAction.fetch_certificate_password certificate id
          (some (text "v" ++ show (served_version version certificate)))))
  pure material.password

pub record DownloadResponse : Type 0 where
  pub content : Bytes
  pub filename : Text

abbrev pub is_tls_type : CertificateType → Bool
is_tls_type CertificateType.tls_client = true
is_tls_type CertificateType.tls_server = true
is_tls_type CertificateType.ssh_client = false
is_tls_type CertificateType.ssh_server = false

abbrev pub wants_pem : Option Text → Bool
wants_pem none = false
wants_pem (some format) = text_eq format (text "pem")

abbrev pub format_name : Option Text → Text
format_name none = text "pkcs12"
format_name (some format) = format

-- What is handed out: the PEM files of a TLS certificate, or the stored bytes.
abbrev pub packed :
    (Bytes → Text → Result ApiError Bytes)
    → Option Text
    → CertificateRow
    → StoredCertVersion
    → Result ApiError DownloadResponse
packed pem_zip format c material =
    if wants_pem format && is_tls_type c.certificate_type
    then elim (pem_zip material.bytes material.password) [
      | ok zip ↦ ok (record { content = zip; filename = c.name.cn ++ text ".zip" })
      | err e ↦ err e
    ]
    else ok (record {
      content = material.bytes;
      filename = c.name.cn ++ (if is_tls_type c.certificate_type then text ".p12" else text ".zip");
    })

unfoldable pub download_certificate :
    (pem_zip : Bytes → Text → Result ApiError Bytes)
    → ℕ
    → Option Text
    → Option ℕ
    → Authenticated
    → Api DownloadResponse
download_certificate pem_zip id format version auth = do
  ensure (may_read auth.claims) forbidden_error
  certificate ← require (found id) missing_row
  allowed ← gets (can_access_cert_secret auth.claims certificate.user_id id)
  ensure allowed forbidden_error
  material ← require (served_material id version certificate) not_found_error
  response ← lift (packed pem_zip format certificate material)
  modify (
      audited auth (
        on_certificate AuditAction.download_certificate certificate id
          (some (format_name format ++ (text " v" ++ show (served_version version certificate))))))
  pure response

-- The owner and a local admin; a service never.
abbrev pub may_manage : Claims → CertificateRow → Bool
may_manage claims c = is_local_admin claims || (not (is_service claims) && c.user_id == claims.id)

unfoldable pub remove_user_cert : ℕ → Authenticated → Api (Unit {0})
remove_user_cert id auth = do
  cert ← require (found id) missing_row
  ensure (may_manage auth.claims cert) forbidden_error
  modify (State.delete_user_cert id)
  modify (audited auth (on_certificate AuditAction.delete_certificate cert id none))

unfoldable pub revoke_certificate :
    (publish : Ca → Db → Result ApiError ℕ) → ℕ → Authenticated → Api (Unit {0})
revoke_certificate publish id auth = do
  cert ← require (found id) missing_row
  ensure (may_manage auth.claims cert) forbidden_error
  revoked ← on_db (revoke_cert_and_update_crl publish auth.now id)
  modify (audited auth (on_certificate AuditAction.revoke_certificate cert id none))

abbrev pub count_user_certs_by_ca_id : ℕ → AppState → ℕ
count_user_certs_by_ca_id ca_id s = length (select (λ c. opt_id_eq c.ca_id ca_id) s.db.certs)

unfoldable pub remove_ca : ℕ → Authenticated → Api (Unit {0})
remove_ca id auth = do
  claims ← admitted (guard_local_admin (some auth.claims))
  related_cert_count ← gets (count_user_certs_by_ca_id id)
  ensure (not (ltb 0 related_cert_count))
      (bad_request (text "The CA still has user certificates attached to it."))
  modify (State.delete_ca id)
  modify (
      audited auth (record {
        action = AuditAction.delete_ca;
        target_type = some (text "ca");
        target_id = some (show id);
        target_label = none;
        detail = none;
      }))
