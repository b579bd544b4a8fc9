-- ===== src/Api/Replace.antt =====
-- `update_certificate` of backend/src/api.rs: the replacement of an imported certificate's contents.
-- The moment of the request is that of its caller.
pub mod Steps
pub mod Rules
use vaul_tls.Base.{
  ℕ, suc, ◌+◌, ◌/◌, Bool, true, false, not, ◌&&◌, ◌||◌, Option, none, some, List, [], ◌∷◌, ◌++◌,
  ltb, leb, ◌==◌, is_some, if◌then◌else◌,
}
use mathlib.Core.Option
use vaul_tls.Base.Result.{Result, ok, err}
use vaul_tls.Base.Action.{Action, ◌>>=◌, ◌>>◌, pure, lift, gets, modify, require, ensure}
use vaul_tls.Text.{Text, text, text_eq, is_empty}
use vaul_tls.Text.Decimal.{show}
use vaul_tls.Session.{Claims, is_service, has_scope, is_local_admin}
use vaul_tls.Db.Rows.{
  Bytes, Db, CertificateRow, CertificateType, CertificateRenewMethod, VersionRow, Ca,
}
use vaul_tls.Db.Certs.{get_user_cert_by_id, get_ca_by_id}
use vaul_tls.Db.Versions.{
  ReplaceGuard, ReplaceError, missing, duplicate_version, not_replaceable, ReplaceCertificateInput,
  replace_certificate,
}
use vaul_tls.Db.Audit.{AuditAction}
use vaul_tls.Groups.{user_shares_group_with_cert}
use vaul_tls.Api.Errors.{ApiError, forbidden_error, not_found_error, bad_request, conflict, other}
use vaul_tls.Api.State.{AppState, Api, Authenticated, audited}
use vaul_tls.Api.Import.{
  X509, Pki, ImportCertForm, Material, parse_material, cn_from_cert, find_cert_by_fingerprint,
  find_cert_version_by_fingerprint, resolve_issuer, renew_method_of, or_blank,
}
use vaul_tls.Api.Certificates.{found, missing_row, on_certificate, is_tls_type}
use vaul_tls.Api.Revocation.{hex_encode}

-- The owner, a local admin, a member of a group with the certificate; a service with the scope to
-- issue, on its owner's certificates.
abbrev pub may_replace_file : Claims → CertificateRow → ℕ → AppState → Bool
may_replace_file claims c id s =
    if is_service claims
    then has_scope (text "cert:issue") claims && c.user_id == claims.id
    else is_local_admin claims
      || (c.user_id == claims.id || user_shares_group_with_cert claims.id id s.groups)

-- What may be replaced at all.
unfoldable pub check_replaceable : CertificateRow → Result ApiError (Unit {0})
check_replaceable c =
    if is_some c.acme_provider_id
    then err (bad_request (text "ACME certificates are renewed by the provider"))
    else if not c.is_imported
    then err (bad_request (text "certificate is not importable"))
    else if is_some c.revoked_at
    then err (bad_request (text "revoked certificate cannot be updated"))
    else if is_tls_type c.certificate_type
    then ok tt
    else err (bad_request (text "only TLS certificates can be replaced"))

-- A row or a version of another certificate that has the fingerprint.
abbrev pub other_row : ℕ → Option CertificateRow → Bool
other_row id none = false
other_row id (some c) = not (c.id == id)

abbrev pub other_version : ℕ → Option VersionRow → Bool
other_version id none = false
other_version id (some v) = not (v.cert_id == id)

abbrev pub is_duplicate : ℕ → X509 → AppState → Bool
is_duplicate id leaf s = elim leaf.digest [
  | none ↦ false
  | some fp ↦
      other_row id (find_cert_by_fingerprint fp s.db)
      || other_version id (find_cert_version_by_fingerprint fp s.db)
]

abbrev pub is_forced : ImportCertForm → Claims → Bool
is_forced form claims = elim form.force [ none ↦ false | some f ↦ f && is_local_admin claims ]

-- The name and the time of validity of the new leaf.
unfoldable pub check_leaf : ℕ → Bool → CertificateRow → X509 → Result ApiError (Unit {0})
check_leaf now forced c leaf =
    if not (text_eq (cn_from_cert leaf) c.name.cn)
    then err (bad_request (text "CN mismatch"))
    else if leb leaf.not_after now
    then err (bad_request (text "certificate expired, it cannot replace a live one"))
    else if ltb now leaf.not_before
    then err (bad_request (text "certificate is not valid yet"))
    else if leb leaf.not_after c.valid_until && not forced
    then err (bad_request (text "replacement must extend validity"))
    else ok tt

-- A certificate that has stopped warning warns again.
abbrev pub kept_method : CertificateRenewMethod → CertificateRenewMethod
kept_method CertificateRenewMethod.no_renewal = CertificateRenewMethod.notify
kept_method CertificateRenewMethod.notify = CertificateRenewMethod.notify
kept_method CertificateRenewMethod.renew = CertificateRenewMethod.renew
kept_method CertificateRenewMethod.renew_and_notify = CertificateRenewMethod.renew_and_notify

unfoldable pub new_method :
    Option ℕ → CertificateRenewMethod → Result ApiError CertificateRenewMethod
unfolding renew_method_of
new_method none current = ok (kept_method current)
new_method (some n) current = elim (renew_method_of n) [
  | none ↦ err (bad_request (text "invalid renew_method"))
  | some method ↦ ok method
]

-- The CA that the record names has signed the leaf.
abbrev pub signed_by : Pki → X509 → Option Ca → Bool
signed_by pki leaf none = false
signed_by pki leaf (some ca) = elim (pki.parse_cert ca.cert) [
  | err e ↦ false
  | ok issuer ↦ not (is_empty ca.cert) && pki.verify_signed_by leaf issuer
]

abbrev pub same_ca : Pki → X509 → Option ℕ → AppState → Option ℕ
same_ca pki leaf none s = none
same_ca pki leaf (some ca_id) s =
    if signed_by pki leaf (get_ca_by_id ca_id s.db) then some ca_id else none

unfoldable pub issuing_ca : Pki → Material → Option ℕ → Api ℕ
issuing_ca pki m none = resolve_issuer pki m
issuing_ca pki m (some ca_id) = pure ca_id

abbrev pub as_api : Result ReplaceError ℕ → Result ApiError ℕ
as_api (ok version) = ok version
as_api (err not_replaceable) =
    err (conflict (text "certificate state changed and it can no longer be replaced"))
as_api (err missing) = err missing_row
as_api (err duplicate_version) = err (other (text "UNIQUE constraint failed"))

unfoldable pub replace_in : ℕ → ℕ → ℕ → ReplaceCertificateInput → Api ℕ
replace_in now id actor_id input s =
    let done = replace_certificate now id (some actor_id) input ReplaceGuard.imported_manual s.db in
    (as_api done.0, record s { db = done.1 })

abbrev pub input_of :
    Material → Text → Option Bytes → Text → ℕ → CertificateRenewMethod → ReplaceCertificateInput
input_of m password serial fingerprint ca_id method = record {
  bytes = m.stored;
  password = password;
  created_on = m.leaf.not_before;
  valid_until = m.leaf.not_after;
  serial_hex = Option.map hex_encode serial;
  fingerprint = fingerprint;
  ca_id = ca_id;
  renew_method = some method;
}

abbrev pub replacement_detail : CertificateRow → ℕ → Text → Bool → Text
replacement_detail c version fingerprint downgrade =
    text "v"
    ++ (show c.version
        ++ (text " → v"
            ++ (show version
                ++ (text ", fingerprint "
                    ++ (fingerprint
                        ++ (if downgrade
                            then text ", FORCED validity downgrade by local admin"
                            else []))))))

unfoldable pub update_certificate : Pki → ℕ → ImportCertForm → Authenticated → Api CertificateRow
update_certificate pki id form auth = do
  existing ← require (found id) not_found_error
  allowed ← gets (may_replace_file auth.claims existing id)
  ensure allowed forbidden_error
  replaceable ← lift (check_replaceable existing)
  m ← lift (parse_material pki form)
  duplicate ← gets (is_duplicate existing.id m.leaf)
  ensure (not duplicate) (bad_request (text "identical certificate already exists"))
  fits ← lift (check_leaf auth.now (is_forced form auth.claims) existing m.leaf)
  renew_method ← lift (new_method form.renew_method existing.renew_method)
  known ← gets (same_ca pki m.leaf existing.ca_id)
  ca_id ← issuing_ca pki m known
  fingerprint ← lift (pki.get_fingerprint m.stored (or_blank form.password))
  version ← replace_in auth.now id auth.claims.id (
      input_of m (or_blank form.password) (pki.get_serial m.stored (or_blank form.password))
        fingerprint ca_id renew_method)
  modify (
      audited auth (
        on_certificate AuditAction.update_certificate existing id (
          some (
            replacement_detail existing version fingerprint
              (is_forced form auth.claims && leb m.leaf.not_after existing.valid_until)))))
  require (found id) missing_row
