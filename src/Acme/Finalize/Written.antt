-- ===== src/Acme/Finalize/Written.antt =====
-- What `finalize_order` of backend/src/acme/routes.rs asks a certificate for, and what it stores.
use vaul_tls.Base.{
  ℕ, suc, ◌*◌, ◌/◌, ◌-◌, ◌≤◌, ◌==◌, ◌⊎◌, arith, ◌<◌, ◌≡◌, ◌≢◌, refl, none, some, List, [], ◌∷◌,
  ◌++◌, map, select, All, Bool-cases, inl, inr,
}
use vaul_tls.Base.Tables.{All-lt-next_id, update-appended}
use vaul_tls.Text.{Text, text}
use vaul_tls.Text.Laws.{text_eq_iff}
use vaul_tls.Db.Rows.{
  Bytes, Db, AcmeAccount, AcmeIdentifier, AcmeOrderRow, OrderStatus, CertificateRow,
  CertificateType, Ca,
}
use vaul_tls.Db.Orders.{get_acme_order, update_acme_order_status}
use vaul_tls.Db.Orders.Lookups.{get-update_status}
use vaul_tls.Db.Certs.{next_cert_id, insert_user_cert, set_cert_acme_account, set_cert_serial}
use vaul_tls.Acme.External.{External}
use vaul_tls.Acme.Finalize.{
  is_dns, validity_days, dns_names_of, first_or, issued_cert, store_issued,
}

-- The names of a list of identifiers: those of the type `dns`, in their order, and no others.
pub data DnsNames : List AcmeIdentifier → List Text → Type 0 where
  no_names : DnsNames [] []
  name :
      (i : AcmeIdentifier) {rest : List AcmeIdentifier} {names : List Text}
      → i.identifier_type ≡ text "dns"
      → DnsNames rest names
      → DnsNames (i ∷ rest) (i.value ∷ names)
  passed_over :
      (i : AcmeIdentifier) {rest : List AcmeIdentifier} {names : List Text}
      → i.identifier_type ≢ text "dns"
      → DnsNames rest names
      → DnsNames (i ∷ rest) names

select-DnsNames :
    (is : List AcmeIdentifier)
    → DnsNames is (map (λ (i : AcmeIdentifier). i.value) (select is_dns is))
select-DnsNames [] = no_names
select-DnsNames (i ∷ rest) = elim (Bool-cases (is_dns i)) [
  | inl dns ↦
      rw dns (name i ((text_eq_iff i.identifier_type (text "dns")).0 dns) (select-DnsNames rest))
  | inr other ↦ rw other (
      passed_over i (λ same. cc (other, (text_eq_iff i.identifier_type (text "dns")).1 same))
        (select-DnsNames rest))
]

pub dns_names_of-DnsNames : (order : AcmeOrderRow) → DnsNames order.identifiers (dns_names_of order)
unfolding dns_names_of
dns_names_of-DnsNames order = select-DnsNames order.identifiers

-- The validity in whole days: those that are left until the order's end, and at least one.
pub record DaysLeft (not_after now days : ℕ) : Type 0 where
  pub at_least_one : 1 ≤ days
  pub within : (days ≡ 1) ⊎ (days * 86_400_000 ≤ not_after - now)
  pub greatest : not_after - now < suc days * 86_400_000

pub validity_days-DaysLeft :
    (not_after now : ℕ) → DaysLeft not_after now (validity_days not_after now)
validity_days-DaysLeft not_after now = elim (Bool-cases ((not_after - now) / 86_400_000 == 0)) [
  | inl none_left ↦ record {
    at_least_one = ground arith;
    within = inl (ground arith);
    greatest = ground arith;
  }
  | inr some_left ↦ record {
    at_least_one = ground arith;
    within = inr (ground arith);
    greatest = ground arith;
  }
]

-- The tables once a certificate is issued: a new last row of the certificates, with the chain and
-- its serial, the account, its user, the CA and the dates; and the order, valid with that row's id.
pub record Stored (x : External) (now : ℕ) (order : AcmeOrderRow) (account : AcmeAccount) (ca : Ca)
    (names : List Text) (chain serial : Bytes) (db after : Db) : Type 0 where
  pub cert : CertificateRow
  pub fresh : All (λ c. c.id < cert.id) db.certs
  pub appended : after.certs ≡ db.certs ++ cert ∷ []
  pub contents : cert.bytes ≡ chain
  pub named : cert.name.cn ≡ first_or names (text "acme")
  pub serial_stored : cert.serial_hex ≡ some (x.hex serial)
  pub linked : cert.acme_account_id ≡ some account.id
  pub owner : cert.user_id ≡ account.user_id
  pub issuer : cert.ca_id ≡ some ca.id
  pub kind : cert.certificate_type ≡ CertificateType.tls_server
  pub from : cert.created_on ≡ now
  pub until : cert.valid_until ≡ order.not_after
  pub not_revoked : cert.revoked_at ≡ none
  pub updated : AcmeOrderRow
  pub order_after : get_acme_order order.id after ≡ some updated
  pub is_valid : updated.status ≡ OrderStatus.valid
  pub has_cert : updated.certificate_id ≡ some cert.id
  pub no_error : updated.error ≡ none
  pub same_account : updated.account_id ≡ order.account_id
  pub same_names : updated.identifiers ≡ order.identifiers

abbrev cert_id_of : CertificateRow → ℕ
cert_id_of c = c.id

stored_certs :
    (order_id account_id : ℕ) (cert : CertificateRow) (serial_hex : Text) (db : Db)
    → (store_issued order_id account_id (next_cert_id db) cert serial_hex db).certs
      ≡ db.certs
        ++ record cert {
          id = next_cert_id db;
          revoked_at = none;
          acme_provider_id = none;
          acme_account_id = some account_id;
          serial_hex = some serial_hex;
          version = 1;
        }
          ∷ []
unfolding store_issued insert_user_cert set_cert_acme_account set_cert_serial
    update_acme_order_status
stored_certs order_id account_id cert serial_hex db =
    rw
      (update-appended cert_id_of (λ c. record c { acme_account_id = some account_id }) db.certs
        (record cert {
          id = next_cert_id db;
          revoked_at = none;
          acme_provider_id = none;
          acme_account_id = none;
          serial_hex = none;
          version = 1;
        })
        (All-lt-next_id cert_id_of db.certs))
      (update-appended cert_id_of (λ c. record c { serial_hex = some serial_hex }) db.certs
        (record cert {
          id = next_cert_id db;
          revoked_at = none;
          acme_provider_id = none;
          acme_account_id = some account_id;
          serial_hex = none;
          version = 1;
        })
        (All-lt-next_id cert_id_of db.certs))

stored_order :
    (k account_id cert_id : ℕ) (cert : CertificateRow) (serial_hex : Text) (db : Db)
    (o : AcmeOrderRow)
    → get_acme_order k db ≡ some o
    → get_acme_order k (store_issued k account_id cert_id cert serial_hex db)
      ≡ some (record o { status = OrderStatus.valid; certificate_id = some cert_id; error = none })
unfolding store_issued insert_user_cert set_cert_acme_account set_cert_serial get_acme_order
stored_order k account_id cert_id cert serial_hex db o found =
    get-update_status k
      (set_cert_serial cert_id serial_hex
        (set_cert_acme_account cert_id account_id (insert_user_cert cert db)))
      o found OrderStatus.valid (some cert_id) none

pub store_issued-Stored :
    (x : External) (now : ℕ) (order : AcmeOrderRow) (account : AcmeAccount) (ca : Ca)
    (names : List Text) (chain serial : Bytes) (db : Db)
    → get_acme_order order.id db ≡ some order
    → Stored x now order account ca names chain serial db (
        store_issued order.id account.id
          (next_cert_id db)
          (issued_cert now order account ca names chain)
          (x.hex serial)
          db)
store_issued-Stored x now order account ca names chain serial db found = record {
  cert = record (issued_cert now order account ca names chain) {
    id = next_cert_id db;
    acme_account_id = some account.id;
    serial_hex = some (x.hex serial);
  };
  fresh = All-lt-next_id cert_id_of db.certs;
  appended =
      stored_certs order.id account.id (issued_cert now order account ca names chain) (x.hex serial)
        db;
  contents = refl;
  named = refl;
  serial_stored = refl;
  linked = refl;
  owner = refl;
  issuer = refl;
  kind = refl;
  from = refl;
  until = refl;
  not_revoked = refl;
  updated = record order {
    status = OrderStatus.valid;
    certificate_id = some (next_cert_id db);
    error = none;
  };
  order_after =
      stored_order order.id account.id (next_cert_id db)
        (issued_cert now order account ca names chain) (x.hex serial) db order found;
  is_valid = refl;
  has_cert = refl;
  no_error = refl;
  same_account = refl;
  same_names = refl;
}
