-- ===== src/Db/Versions.antt =====
-- The versions of a certificate: `replace_certificate`, `list_certificate_versions`,
-- `get_certificate_version`, `delete_certificate_version`, `get_cert_status_by_serial_hex` and
-- `get_revoked_history_serials_for_ca` of backend/src/db.rs.
pub mod History
pub mod Revoked
mod Tests
use vaul_tls.Base.{
  ℕ, suc, ◌+◌, Bool, true, false, not, ◌&&◌, ◌||◌, Option, none, some, List, [], ◌∷◌, ◌++◌, map,
  ltb, leb, ◌==◌, any, find, select, update, is_some, if◌then◌else◌,
}
use vaul_tls.Base.Result.{Result, ok, err}
use vaul_tls.Base.Tables.{next_id}
use vaul_tls.Text.{Text, is_empty}
use vaul_tls.Db.Rows.{Bytes, Db, CertificateRow, CertificateRenewMethod, VersionRow}
use vaul_tls.Db.Accounts.{opt_text_eq, opt_id_eq, or_keep}
use vaul_tls.Db.Certs.{get_user_cert_by_id}

-- Which rows a caller may replace.
pub data ReplaceGuard : Type 0 where
  imported_manual renewal acme_renewal : ReplaceGuard

pub record ReplaceCertificateInput : Type 0 where
  pub bytes : Bytes
  pub password : Text
  pub created_on : ℕ
  pub valid_until : ℕ
  pub serial_hex : Option Text
  pub fingerprint : Text
  pub ca_id : ℕ
  pub renew_method : Option CertificateRenewMethod

-- The statement's failures: no such certificate, a second row of the same version (the table's
-- `UNIQUE`), and `CertificateNotReplaceable`.
pub data ReplaceError : Type 0 where
  missing duplicate_version not_replaceable : ReplaceError

-- The guard's clause of `WHERE`.
unfoldable pub may_replace : ReplaceGuard → CertificateRow → Bool
may_replace ReplaceGuard.imported_manual c =
    not (is_some c.revoked_at) && (c.is_imported && not (is_some c.acme_provider_id))
may_replace ReplaceGuard.renewal c =
    not (is_some c.revoked_at) && (not (is_some c.acme_provider_id) && not c.is_imported)
may_replace ReplaceGuard.acme_renewal c = not (is_some c.revoked_at) && is_some c.acme_provider_id

abbrev pub unwrap_or_default : Option Text → Text
unwrap_or_default none = []
unwrap_or_default (some t) = t

-- The row of the history that a certificate leaves.
abbrev pub version_of : ℕ → Option ℕ → ℕ → CertificateRow → VersionRow
version_of now actor_id id c = record {
  id = id;
  cert_id = c.id;
  version = c.version;
  bytes = c.bytes;
  password = c.password;
  created_on = c.created_on;
  valid_until = c.valid_until;
  serial_hex = c.serial_hex;
  ca_id = c.ca_id;
  fingerprint = unwrap_or_default c.fingerprint;
  replaced_at = now;
  replaced_by = actor_id;
}

abbrev pub replaced : ReplaceCertificateInput → ℕ → CertificateRow → CertificateRow
replaced input next c = record c {
  bytes = input.bytes;
  password = input.password;
  created_on = input.created_on;
  valid_until = input.valid_until;
  serial_hex = input.serial_hex;
  fingerprint = some input.fingerprint;
  version = next;
  ca_id = if ltb 0 input.ca_id then some input.ca_id else c.ca_id;
  renew_method = or_keep input.renew_method c.renew_method;
}

abbrev pub is_version : ℕ → ℕ → VersionRow → Bool
is_version cert_id version v = v.cert_id == cert_id && v.version == version

abbrev pub write_replacement : ℕ → Option ℕ → ReplaceCertificateInput → CertificateRow → Db → Db
write_replacement now actor_id input c db = record db {
  versions =
      db.versions
      ++ version_of now actor_id (next_id (λ (v : VersionRow). v.id) db.versions) c ∷ [];
  certs = update (λ row. row.id == c.id) (replaced input (suc c.version)) db.certs;
}

-- A failure rolls the transaction back.
unfoldable pub replace_certificate :
    ℕ → ℕ → Option ℕ → ReplaceCertificateInput → ReplaceGuard → Db → Result ReplaceError ℕ × Db
replace_certificate now cert_id actor_id input guard db = elim (get_user_cert_by_id cert_id db) [
  | none ↦ (err missing, db)
  | some c ↦
      if any (is_version c.id c.version) db.versions
      then (err duplicate_version, db)
      else if may_replace guard c
      then (ok (suc c.version), write_replacement now actor_id input c db)
      else (err not_replaceable, db)
]

pub record CertificateVersionEntry : Type 0 where
  pub version : ℕ
  pub version_id : Option ℕ
  pub current : Bool
  pub created_on : ℕ
  pub valid_until : ℕ
  pub serial_hex : Option Text
  pub fingerprint : Option Text
  pub replaced_at : Option ℕ
  pub replaced_by : Option ℕ

abbrev pub current_entry : CertificateRow → CertificateVersionEntry
current_entry c = record {
  version = c.version;
  version_id = none;
  current = true;
  created_on = c.created_on;
  valid_until = c.valid_until;
  serial_hex = c.serial_hex;
  fingerprint = c.fingerprint;
  replaced_at = none;
  replaced_by = none;
}

abbrev pub history_entry : VersionRow → CertificateVersionEntry
history_entry v = record {
  version = v.version;
  version_id = some v.id;
  current = false;
  created_on = v.created_on;
  valid_until = v.valid_until;
  serial_hex = v.serial_hex;
  fingerprint = some v.fingerprint;
  replaced_at = some v.replaced_at;
  replaced_by = v.replaced_by;
}

-- `ORDER BY version DESC`
unfoldable pub insert_version : VersionRow → List VersionRow → List VersionRow
insert_version v [] = v ∷ []
insert_version v (w ∷ rest) =
    if leb w.version v.version then v ∷ w ∷ rest else w ∷ insert_version v rest

unfoldable pub newest_first : List VersionRow → List VersionRow
newest_first [] = []
newest_first (v ∷ rest) = insert_version v (newest_first rest)

-- The current version, then those of the history.
unfoldable pub list_certificate_versions : ℕ → Db → List CertificateVersionEntry
list_certificate_versions cert_id db = elim (get_user_cert_by_id cert_id db) [
  | none ↦ []
  | some c ↦
      current_entry c
      ∷ map history_entry (newest_first (select (λ v. v.cert_id == cert_id) db.versions))
]

pub record StoredCertVersion : Type 0 where
  pub bytes : Bytes
  pub password : Text

abbrev stored_version : Option VersionRow → Option StoredCertVersion
stored_version none = none
stored_version (some v) = some (record { bytes = v.bytes; password = v.password })

unfoldable pub get_certificate_version : ℕ → ℕ → Db → Option StoredCertVersion
get_certificate_version cert_id version db = elim (get_user_cert_by_id cert_id db) [
  | none ↦ none
  | some c ↦
      if version == c.version
      then some (record { bytes = c.bytes; password = c.password })
      else stored_version (find (is_version cert_id version) db.versions)
]

-- Whether a row was deleted, and the database without it.
unfoldable pub delete_certificate_version : ℕ → ℕ → Db → Bool × Db
delete_certificate_version cert_id version db = (
  any (is_version cert_id version) db.versions,
  record db { versions = select (λ v. not (is_version cert_id version v)) db.versions },
)

pub record CertStatusRow : Type 0 where
  pub created_on : ℕ
  pub valid_until : ℕ
  pub revoked_at : Option ℕ
  pub ca_id : Option ℕ
  pub superseded : Bool

abbrev pub current_status : CertificateRow → CertStatusRow
current_status c = record {
  created_on = c.created_on;
  valid_until = c.valid_until;
  revoked_at = c.revoked_at;
  ca_id = c.ca_id;
  superseded = false;
}

abbrev version_status : CertificateRow → VersionRow → CertStatusRow
version_status c v = record {
  created_on = v.created_on;
  valid_until = v.valid_until;
  revoked_at = c.revoked_at;
  ca_id = v.ca_id;
  superseded = true;
}

-- The first row of the join of the versions that have the serial with their certificates.
abbrev joined_status : Text → List CertificateRow → List VersionRow → Option CertStatusRow
joined_status serial_hex certs [] = none
joined_status serial_hex certs (v ∷ rest) =
    let later = joined_status serial_hex certs rest in
    if opt_text_eq v.serial_hex serial_hex
    then elim (find (λ (c : CertificateRow). c.id == v.cert_id) certs) [
      | none ↦ later
      | some c ↦ some (version_status c v)
    ]
    else later

unfoldable pub get_cert_status_by_serial_hex : Text → Db → Option CertStatusRow
get_cert_status_by_serial_hex serial_hex db =
    elim (find (λ (c : CertificateRow). opt_text_eq c.serial_hex serial_hex) db.certs) [
      | some c ↦ some (current_status c)
      | none ↦ joined_status serial_hex db.certs db.versions
    ]

-- The serial and the time of revocation of a version in the join, if it belongs in the CRL.
abbrev pub revoked_serial : ℕ → List CertificateRow → VersionRow → List (Text × ℕ)
revoked_serial ca_id certs v = elim (find (λ (c : CertificateRow). c.id == v.cert_id) certs) [
  | none ↦ []
  | some c ↦ elim c.revoked_at [
    | none ↦ []
    | some at ↦ elim v.serial_hex [
      | none ↦ []
      | some serial ↦
          if opt_id_eq v.ca_id ca_id && not (is_empty serial) then (serial, at) ∷ [] else []
    ]
  ]
]

abbrev pub revoked_serials : ℕ → List CertificateRow → List VersionRow → List (Text × ℕ)
revoked_serials ca_id certs [] = []
revoked_serials ca_id certs (v ∷ rest) =
    revoked_serial ca_id certs v ++ revoked_serials ca_id certs rest

unfoldable pub get_revoked_history_serials_for_ca : ℕ → Db → List (Text × ℕ)
get_revoked_history_serials_for_ca ca_id db = revoked_serials ca_id db.certs db.versions
