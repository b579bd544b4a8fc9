-- ===== src/Db/Certs.antt =====
-- The certificate operations of backend/src/db.rs that the ACME server calls: `insert_user_cert`,
-- `get_user_cert_by_id`, `check_cert_acme_account`, `set_cert_serial`, `set_cert_acme_account`,
-- `get_cert_id_by_serial_hex`, `revoke_user_cert`, and the lookups of a CA.
use vaul_tls.Base.{
  ℕ, ◌/◌, Bool, true, false, not, ◌&&◌, Option, none, some, [], ◌∷◌, ◌++◌, ◌==◌, find, update, any,
  is_some,
}
use mathlib.Core.Option
use mathlib.Core.List.{reverse}
use vaul_tls.Base.Tables.{next_id}
use vaul_tls.Text.{Text, is_empty}
use vaul_tls.Db.Rows.{Db, CertificateRow, Ca, CaType}
use vaul_tls.Db.Accounts.{opt_text_eq, opt_id_eq}

abbrev pub next_cert_id : Db → ℕ
next_cert_id db = next_id (λ (c : CertificateRow). c.id) db.certs

-- The columns that the statement does not name take their defaults. The new row's id is
-- `next_cert_id` of the database before the insertion.
unfoldable pub insert_user_cert : CertificateRow → Db → Db
insert_user_cert cert db = record db {
  certs =
      db.certs
      ++ record cert {
        id = next_cert_id db;
        revoked_at = none;
        acme_provider_id = none;
        acme_account_id = none;
        serial_hex = none;
        version = 1;
      }
        ∷ [];
}

unfoldable pub get_user_cert_by_id : ℕ → Db → Option CertificateRow
get_user_cert_by_id id db = find (λ c. c.id == id) db.certs

unfoldable pub check_cert_acme_account : ℕ → ℕ → Db → Bool
check_cert_acme_account cert_id acme_account_id db =
    any (λ c. c.id == cert_id && opt_id_eq c.acme_account_id acme_account_id) db.certs

unfoldable pub set_cert_serial : ℕ → Text → Db → Db
set_cert_serial cert_id serial_hex db = record db {
  certs = update (λ c. c.id == cert_id) (λ c. record c { serial_hex = some serial_hex }) db.certs;
}

unfoldable pub set_cert_acme_account : ℕ → ℕ → Db → Db
set_cert_acme_account cert_id acme_account_id db = record db {
  certs =
      update (λ c. c.id == cert_id) (λ c. record c { acme_account_id = some acme_account_id })
        db.certs;
}

unfoldable pub get_cert_id_by_serial_hex : Text → Db → Option ℕ
get_cert_id_by_serial_hex serial_hex db =
    Option.map (λ (c : CertificateRow). c.id)
      (find (λ c. opt_text_eq c.serial_hex serial_hex && not (is_some c.revoked_at)) db.certs)

-- `revoked_at` is in seconds.
unfoldable pub revoke_user_cert : ℕ → ℕ → Db → Db
revoke_user_cert now id db = record db {
  certs = update (λ c. c.id == id) (λ c. record c { revoked_at = some (now / 1000) }) db.certs;
}

unfoldable pub get_ca_by_id : ℕ → Db → Option Ca
get_ca_by_id ca_id db = find (λ ca. ca.id == ca_id) db.cas

abbrev is_tls : CaType → Bool
is_tls CaType.tls = true
is_tls CaType.ssh = false

-- `ORDER BY id DESC LIMIT 1`: the rows stand in the order of their ids.
unfoldable pub get_latest_tls_ca : Db → Option Ca
get_latest_tls_ca db = find (λ ca. is_tls ca.ca_type) (reverse db.cas)

-- `CA::has_private_key`
abbrev pub has_private_key : Ca → Bool
has_private_key ca = not (is_empty ca.key)

unfoldable pub increase_ca_crl_number : ℕ → ℕ → Db → Db
increase_ca_crl_number ca_id crl_number db = record db {
  cas = update (λ ca. ca.id == ca_id) (λ ca. record ca { crl_number = crl_number }) db.cas;
}
