-- ===== src/Api/Issue.antt =====
-- The certificates that enter the database through backend/src/api.rs: `create_user_certificate` with
-- `should_use_random_password`, `get_appropriate_ca` and `ensure_ca_validity`, and
-- `import_certificate`. The builders of TLS and SSH certificates are one parameter, of the payload, the
-- CA and the password; so are the random password and the end of the validity that is asked for.
use vaul_tls.Base.{
  ℕ, Bool, true, false, not, ◌||◌, Option, none, some, List, [], ◌∷◌, find, leb, is_some,
  if◌then◌else◌,
}
use mathlib.Core.List.{reverse}
use vaul_tls.Base.Result.{Result, ok, err}
use vaul_tls.Base.Action.{◌>>=◌, ◌>>◌, pure, lift, gets, modify, require, ensure}
use vaul_tls.Text.{Text, text, trim, is_empty}
use vaul_tls.Session.{Claims, is_service, has_scope, is_local_admin}
use vaul_tls.Db.Rows.{
  Bytes, Db, Name, CertificateRow, CertificateType, CertificateRenewMethod, Ca, CaType,
}
use vaul_tls.Db.Certs.{
  get_ca_by_id, get_latest_tls_ca, has_private_key, insert_user_cert, set_cert_serial, next_cert_id,
  get_user_cert_by_id,
}
use vaul_tls.Api.Errors.{ApiError, forbidden_error, bad_request}
use vaul_tls.Api.State.{AppState, Api, Authenticated}
use vaul_tls.Api.Users.{TimespanUnit}
use vaul_tls.Api.Import.{
  Pki, X509, ImportCertForm, Material, parse_material, cn_from_cert, find_cert_by_fingerprint,
  find_cert_version_by_fingerprint, resolve_issuer, renew_method_of, certificate_type_of, or_blank,
}
use vaul_tls.Api.Revocation.{hex_encode}
use vaul_tls.Api.Certificates.{missing_row}

pub data PasswordRule : Type 0 where
  optional required system : PasswordRule

pub record CreateUserCertificateRequest : Type 0 where
  pub cert_name : Name
  pub validity_duration : Option ℕ
  pub validity_unit : Option TimespanUnit
  pub user_id : ℕ
  pub system_generated_password : Bool
  pub cert_password : Option Text
  pub cert_type : Option CertificateType
  pub usage_limit : Option (List Text)
  pub renew_method : Option CertificateRenewMethod
  pub ca_id : Option ℕ

-- A local admin names the owner; everyone else is the owner, and a service needs the scope.
unfoldable pub owner_of : Claims → ℕ → Result ApiError ℕ
owner_of claims user_id =
    if is_service claims
    then if has_scope (text "cert:issue") claims then ok claims.id else err forbidden_error
    else ok (if is_local_admin claims then user_id else claims.id)

unfoldable pub should_use_random_password : PasswordRule → CreateUserCertificateRequest → Bool
should_use_random_password PasswordRule.system payload = true
should_use_random_password PasswordRule.required payload =
    if is_empty (trim (or_blank payload.cert_password))
    then true
    else payload.system_generated_password
should_use_random_password PasswordRule.optional payload = payload.system_generated_password

abbrev pub is_ssh_ca : CaType → Bool
is_ssh_ca CaType.tls = false
is_ssh_ca CaType.ssh = true

unfoldable pub get_latest_ssh_ca : Db → Option Ca
get_latest_ssh_ca db = find (λ ca. is_ssh_ca ca.ca_type) (reverse db.cas)

abbrev pub latest_ca : Option CertificateType → Db → Option Ca
latest_ca none db = get_latest_tls_ca db
latest_ca (some CertificateType.tls_client) db = get_latest_tls_ca db
latest_ca (some CertificateType.tls_server) db = get_latest_tls_ca db
latest_ca (some CertificateType.ssh_client) db = get_latest_ssh_ca db
latest_ca (some CertificateType.ssh_server) db = get_latest_ssh_ca db

abbrev pub chosen_ca : CreateUserCertificateRequest → AppState → Option Ca
chosen_ca payload s = elim payload.ca_id [
  | some ca_id ↦ get_ca_by_id ca_id s.db
  | none ↦ latest_ca payload.cert_type s.db
]

unfoldable pub get_appropriate_ca : CreateUserCertificateRequest → Api Ca
get_appropriate_ca payload = do
  ca ← require (chosen_ca payload) (bad_request (text "The CA id does not exist"))
  ensure (has_private_key ca) (
      bad_request (text "This CA was imported without a private key and cannot issue certificates"))
  pure ca

unfoldable pub ensure_ca_validity : ℕ → Ca → Result ApiError Ca
ensure_ca_validity cert_validity ca = elim ca.valid_until [
  | none ↦ ok ca
  | some until ↦
      if leb cert_validity until
      then ok ca
      else err (bad_request (text "The CA to be used would expire before the certificate"))
]

-- The serial is stored where it can be read.
abbrev pub with_serial : ℕ → Option Bytes → Db → Db
with_serial id none db = db
with_serial id (some []) db = db
with_serial id (some (b ∷ rest)) db = set_cert_serial id (hex_encode (b ∷ rest)) db

abbrev pub store_cert : Option Bytes → CertificateRow → AppState → AppState
store_cert serial cert s = record s {
  db = with_serial (next_cert_id s.db) serial (insert_user_cert cert s.db);
}

unfoldable pub create_user_certificate :
    (get_serial : Bytes → Text → Option Bytes)
    → (build_certificate : CreateUserCertificateRequest
        → Ca
        → Text
        → Result ApiError CertificateRow)
    → PasswordRule
    → (random_password : Text) → (cert_validity : Result ApiError ℕ) → CreateUserCertificateRequest
    → Authenticated
    → Api CertificateRow
create_user_certificate get_serial build_certificate rule random_password cert_validity request
      auth =
    do
      user_id ← lift (owner_of auth.claims request.user_id)
      let payload : CreateUserCertificateRequest = record request { user_id = user_id }
      let password : Text =
          if should_use_random_password rule payload
          then random_password
          else or_blank payload.cert_password
      chosen ← get_appropriate_ca payload
      until ← lift cert_validity
      ca ← lift (ensure_ca_validity until chosen)
      cert ← lift (build_certificate payload ca password)
      id ← gets (λ s. next_cert_id s.db)
      modify (store_cert (get_serial cert.bytes cert.password) cert)
      require (λ s. get_user_cert_by_id id s.db) missing_row

-- `import_certificate`
abbrev pub is_known : X509 → AppState → Bool
is_known leaf s = elim leaf.digest [
  | none ↦ false
  | some fp ↦
      is_some (find_cert_by_fingerprint fp s.db)
      || is_some (find_cert_version_by_fingerprint fp s.db)
]

abbrev pub fits_type : CertificateType → CaType → Bool
fits_type CertificateType.tls_client ca_type = not (is_ssh_ca ca_type)
fits_type CertificateType.tls_server ca_type = not (is_ssh_ca ca_type)
fits_type CertificateType.ssh_client ca_type = is_ssh_ca ca_type
fits_type CertificateType.ssh_server ca_type = is_ssh_ca ca_type

-- A number that is no type passes here and is refused later.
abbrev pub type_matches : Option ℕ → CaType → Bool
type_matches none ca_type = true
type_matches (some n) ca_type = elim (certificate_type_of n) [
  | none ↦ true
  | some t ↦ fits_type t ca_type
]

unfoldable pub named_ca : Pki → ImportCertForm → Material → ℕ → Api ℕ
named_ca pki form m id = do
  ca ← require (λ s. get_ca_by_id id s.db) (bad_request (text "CA id does not exist"))
  ensure (not (is_empty ca.cert))
      (bad_request (text "target CA has no certificate to verify against"))
  ensure (type_matches form.cert_type ca.ca_type)
      (bad_request (text "certificate type does not match CA type"))
  issuer ← lift (pki.parse_cert ca.cert)
  ensure (pki.verify_signed_by m.leaf issuer)
      (bad_request (text "leaf is not signed by the specified CA"))
  pure id

unfoldable pub resolve_ca : Pki → ImportCertForm → Material → Option ℕ → Api ℕ
resolve_ca pki form m none = resolve_issuer pki m
resolve_ca pki form m (some id) = named_ca pki form m id

abbrev pub or_default : {A : Type 0} → Option ℕ → (ℕ → Option A) → A → Text → Result ApiError A
or_default none read default message = ok default
or_default (some n) read default message = elim (read n) [
  | none ↦ err (bad_request message)
  | some a ↦ ok a
]

abbrev pub ok_value : Result ApiError Text → Option Text
ok_value (ok t) = some t
ok_value (err e) = none

abbrev pub imported_cert :
    Pki
    → ImportCertForm
    → Material
    → ℕ
    → ℕ
    → CertificateType
    → CertificateRenewMethod
    → CertificateRow
imported_cert pki form m user_id ca_id cert_type renew_method = record {
  id = 0;
  name = record { cn = cn_from_cert m.leaf; ou = none };
  created_on = m.leaf.not_before;
  valid_until = m.leaf.not_after;
  bytes = m.stored;
  password = or_blank form.password;
  certificate_type = cert_type;
  renew_method = renew_method;
  ca_id = some ca_id;
  user_id = user_id;
  revoked_at = none;
  acme_provider_id = none;
  acme_account_id = none;
  serial_hex = none;
  version = 1;
  fingerprint = ok_value (pki.get_fingerprint m.stored (or_blank form.password));
  is_imported = true;
}

unfoldable pub import_certificate : Pki → ImportCertForm → Authenticated → Api CertificateRow
import_certificate pki form auth = do
  user_id ← lift (owner_of auth.claims form.user_id)
  m ← lift (parse_material pki form)
  known ← gets (is_known m.leaf)
  ensure (not known) (bad_request (text "identical certificate already exists"))
  ca_id ← resolve_ca pki form m form.ca_id
  cert_type ← lift (
      or_default form.cert_type certificate_type_of CertificateType.tls_server
        (text "invalid cert_type"))
  renew_method ← lift (
      or_default form.renew_method renew_method_of CertificateRenewMethod.no_renewal
        (text "invalid renew_method"))
  id ← gets (λ s. next_cert_id s.db)
  modify (
      store_cert (pki.get_serial m.stored (or_blank form.password))
        (imported_cert pki form m user_id ca_id cert_type renew_method))
  require (λ s. get_user_cert_by_id id s.db) missing_row
