-- ===== src/Acme/Finalize.antt =====
-- `finalize_order` of backend/src/acme/routes.rs.
pub mod Written
pub mod Rules
pub mod Issuance
use vaul_tls.Base.{
  ℕ, ◌-◌, ◌/◌, Bool, true, false, not, Option, none, some, List, [], ◌∷◌, map, select, leb, ltb,
  ◌==◌, if◌then◌else◌,
}
use Prim.Native.Nat.{max}
use vaul_tls.Base.Result.{Result, ok, err, ok_or}
use vaul_tls.Base.Action.{◌>>=◌, ◌>>◌, pure, raise, lift, gets, modify, require, ensure}
use vaul_tls.Text.{Text, text, text_eq, is_empty}
use vaul_tls.Text.Decimal.{ℤ}
use vaul_tls.Db.Rows.{
  Bytes, Db, AcmeAccount, AcmeIdentifier, AcmeOrderRow, OrderStatus, CertificateRow,
  CertificateType, CertificateRenewMethod, Ca,
}
use vaul_tls.Db.Accounts.{get_acme_account}
use vaul_tls.Db.Orders.{get_acme_order, update_acme_order_status}
use vaul_tls.Db.Certs.{
  next_cert_id, insert_user_cert, set_cert_acme_account, set_cert_serial, get_ca_by_id,
  get_latest_tls_ca,
}
use vaul_tls.Acme.Types.{AcmeError, AcmeOrder, malformed, unauthorized, not_found, server_internal}
use vaul_tls.Acme.External.{External, Config, Env}
use vaul_tls.Acme.Jws.{str_at}
use vaul_tls.Acme.Urls.{order_row_to_response}
use vaul_tls.Acme.Authenticate.{Handler}
use vaul_tls.Acme.NewOrder.{owned_order}

abbrev pub is_ready : OrderStatus → Bool
is_ready OrderStatus.pending = false
is_ready OrderStatus.ready = true
is_ready OrderStatus.valid = false
is_ready OrderStatus.invalid = false

abbrev pub is_dns : AcmeIdentifier → Bool
is_dns i = text_eq i.identifier_type (text "dns")

-- The names that the certificate is issued for.
unfoldable pub dns_names_of : AcmeOrderRow → List Text
dns_names_of order = map (λ (i : AcmeIdentifier). i.value) (select is_dns order.identifiers)

abbrev pub first_or : List Text → Text → Text
first_or [] t = t
first_or (s ∷ rest) t = s

-- `((not_after - now) / day).max(1)`; the difference is cut at 0, where Rust's is negative and the
-- maximum is 1 too.
abbrev pub validity_days : ℕ → ℕ → ℕ
validity_days not_after now = max ((not_after - now) / 86_400_000) 1

-- The account's CA, or the latest one.
unfoldable pub ca_of : AcmeAccount → Db → Option Ca
ca_of account db = elim account.ca_id [
  | some ca_id ↦ get_ca_by_id ca_id db
  | none ↦ get_latest_tls_ca db
]

abbrev pub issued_cert : ℕ → AcmeOrderRow → AcmeAccount → Ca → List Text → Bytes → CertificateRow
issued_cert now order account ca dns_names chain_pem = record {
  id = 0;
  name = record { cn = first_or dns_names (text "acme"); ou = some (text "ACME") };
  created_on = now;
  valid_until = order.not_after;
  bytes = chain_pem;
  password = [];
  certificate_type = CertificateType.tls_server;
  renew_method = CertificateRenewMethod.no_renewal;
  ca_id = some ca.id;
  user_id = account.user_id;
  revoked_at = none;
  acme_provider_id = none;
  acme_account_id = none;
  serial_hex = none;
  version = 1;
  fingerprint = none;
  is_imported = false;
}

-- The database with the new certificate, its link to the account and its serial, and the order
-- marked as valid.
unfoldable pub store_issued : ℕ → ℕ → ℕ → CertificateRow → Text → Db → Db
store_issued order_id account_id cert_id cert serial_hex db =
    update_acme_order_status order_id OrderStatus.valid (some cert_id) none (
      set_cert_serial cert_id serial_hex
        (set_cert_acme_account cert_id account_id (insert_user_cert cert db)))

module _ (x : External) (config : Config) where
  -- The issuance and what it writes, the checks done.
  unfoldable pub issue : ℕ → AcmeOrderRow → AcmeAccount → Ca → Bytes → Handler AcmeOrder
  issue now order account ca csr_der =
      let dns_names = dns_names_of order in
      elim (x.issue_cert_from_csr csr_der ca (validity_days order.not_after now) dns_names) [
        | none ↦ do
          modify (
              update_acme_order_status order.id OrderStatus.invalid none
                (some (text "Certificate issuance failed: {e}")))
          raise (server_internal "Certificate issuance failed")
        | some issued ↦ do
          cert_id ← gets next_cert_id
          modify (
              store_issued order.id account.id cert_id
                (issued_cert now order account ca dns_names issued.0) (x.hex issued.1))
          updated_order ←
              require (get_acme_order order.id) (server_internal "Failed to reload order")
          pure (order_row_to_response updated_order config.vaultls_url)
      ]

  unfoldable pub finalize_order : ℕ → ℕ → ℤ → Bytes → Handler AcmeOrder
  finalize_order now account_id id payload_bytes = do
    order ← owned_order id account_id (unauthorized "Order does not belong to this account")
    ensure (is_ready order.status)
        (malformed "Order is not ready (status: {}); complete all authorizations first")
    ensure (ltb now order.expires) (malformed "Order has expired")
    payload ← lift (ok_or (x.from_str payload_bytes) (malformed "Invalid payload: {e}"))
    csr_b64 ← lift (ok_or (str_at x payload (text "csr")) (malformed "Missing csr field"))
    csr_der ← lift (ok_or (x.decode csr_b64) (malformed "Invalid base64url encoding"))
    account ← require (get_acme_account account_id) (server_internal "Account lookup failed")
    ca ← require (ca_of account) (server_internal "No TLS CA available")
    ensure (not (is_empty ca.key)) (server_internal "CA has no private key")
    issue now order account ca csr_der
