-- ===== src/Api/Validate.antt =====
-- `validate_certificate` of backend/src/api.rs and `compute_cert_status` of
-- backend/src/data/api.rs: the public status of a certificate by its serial number.
pub mod Revoked
use vaul_tls.Base.{
  ℕ, Bool, true, false, not, ◌&&◌, ◌||◌, Option, none, some, List, [], ◌∷◌, ◌==◌, ltb, select,
  is_some, if◌then◌else◌,
}
use vaul_tls.Base.Result.{Result, ok, err}
use vaul_tls.Text.{Text, text, trim, to_lowercase, is_space, is_empty}
use vaul_tls.Db.Rows.{Db}
use vaul_tls.Db.Versions.{CertStatusRow, get_cert_status_by_serial_hex}
use vaul_tls.Api.Errors.{ApiError, bad_request}

pub data CertStatus : Type 0 where
  valid expired not_yet_valid revoked unknown : CertStatus

-- Revocation comes first, then the window of validity.
unfoldable pub compute_cert_status : ℕ → ℕ → ℕ → Option ℕ → CertStatus
compute_cert_status now created_on valid_until revoked_at =
    if is_some revoked_at
    then CertStatus.revoked
    else if ltb valid_until now
    then CertStatus.expired
    else if ltb now created_on
    then CertStatus.not_yet_valid
    else CertStatus.valid

pub record CertStatusResponse : Type 0 where
  pub serial : Text
  pub status : CertStatus
  pub not_before : Option ℕ
  pub not_after : Option ℕ
  pub revoked_at : Option ℕ
  pub ca_id : Option ℕ
  pub superseded : Bool

-- Without whitespace and colons, in lower case.
unfoldable pub normalize_serial : Text → Text
unfolding trim to_lowercase is_space
normalize_serial serial =
    select (λ c. not (is_space c) && not (c == b':')) (to_lowercase (trim serial))

abbrev pub status_response : ℕ → Text → Option CertStatusRow → CertStatusResponse
status_response now serial none = record {
  serial = serial;
  status = CertStatus.unknown;
  not_before = none;
  not_after = none;
  revoked_at = none;
  ca_id = none;
  superseded = false;
}
status_response now serial (some row) = record {
  serial = serial;
  status = compute_cert_status now row.created_on row.valid_until row.revoked_at;
  not_before = some row.created_on;
  not_after = some row.valid_until;
  revoked_at = row.revoked_at;
  ca_id = row.ca_id;
  superseded = row.superseded;
}

unfoldable pub validate_certificate : ℕ → Text → Db → Result ApiError CertStatusResponse
validate_certificate now serial db =
    if is_empty (normalize_serial serial)
    then err (bad_request (text "Missing serial"))
    else ok (
        status_response now (normalize_serial serial)
          (get_cert_status_by_serial_hex (normalize_serial serial) db))
