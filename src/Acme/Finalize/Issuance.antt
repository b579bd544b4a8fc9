-- ===== src/Acme/Finalize/Issuance.antt =====
-- `finalize_order` of backend/src/acme/routes.rs: when a certificate is issued, and for what.
use vaul_tls.Base.{ℕ, ◌≡◌, List, none, some, subst}
use vaul_tls.Base.Result.{ok, err}
use vaul_tls.Text.{Text, text}
use vaul_tls.Text.Decimal.{ℤ}
use vaul_tls.Db.Rows.{Bytes, Db, AcmeAccount, AcmeOrderRow, OrderStatus, Ca}
use vaul_tls.Db.Orders.{get_acme_order, update_acme_order_status}
use vaul_tls.Db.Orders.Lookups.{found_by_id, get-update_status}
use vaul_tls.Acme.Types.{AcmeError, Fallible, AcmeOrder, server_internal}
use vaul_tls.Acme.External.{External, Config}
use vaul_tls.Acme.Urls.{order_row_to_response}
use vaul_tls.Acme.Finalize.{dns_names_of, finalize_order}
use vaul_tls.Acme.Finalize.Written.{
  DaysLeft, validity_days-DaysLeft, DnsNames, dns_names_of-DnsNames, Stored, store_issued-Stored,
}
use vaul_tls.Acme.Finalize.Rules.{Cleared, Requested, issued_db, finalize_cases, issue_cases}

abbrev failed_db : ℕ → Db → Db
failed_db id db =
    update_acme_order_status id OrderStatus.invalid none
      (some (text "Certificate issuance failed: {e}")) db

-- A refusal that writes nothing; an issuance that fails and leaves the order invalid; or a
-- certificate, stored and linked, for the DNS names of the order.
pub data FinalizeOutcome (x : External) (config : Config) (now account_id : ℕ) (id : ℤ)
    (payload : Bytes) (db : Db) : Fallible AcmeOrder → Db → Type 0 where
  refused : (e : AcmeError) → FinalizeOutcome x config now account_id id payload db (err e) db
  failed :
      (order : AcmeOrderRow) (account : AcmeAccount) (ca : Ca) (csr : Bytes) (names : List Text)
      (days : ℕ)
      → Cleared now account_id id db order account ca
      → Requested x payload csr
      → DnsNames order.identifiers names
      → DaysLeft order.not_after now days
      → x.issue_cert_from_csr csr ca days names ≡ none
      → get_acme_order order.id (failed_db order.id db)
        ≡ some (record order {
          status = OrderStatus.invalid;
          certificate_id = none;
          error = some (text "Certificate issuance failed: {e}");
        })
      → FinalizeOutcome x config now account_id id payload db
          (err (server_internal "Certificate issuance failed"))
          (failed_db order.id db)
  issued :
      (order : AcmeOrderRow) (account : AcmeAccount) (ca : Ca) (csr : Bytes) (names : List Text)
      (days : ℕ) (chain serial : Bytes)
      (stored : Stored x now order account ca names chain serial db
        (issued_db x config now order account ca chain serial db))
      → Cleared now account_id id db order account ca
      → Requested x payload csr
      → DnsNames order.identifiers names
      → DaysLeft order.not_after now days
      → x.issue_cert_from_csr csr ca days names ≡ some (chain, serial)
      → FinalizeOutcome x config now account_id id payload db
          (ok (order_row_to_response stored.updated config.vaultls_url))
          (issued_db x config now order account ca chain serial db)

-- A finalization refuses and writes nothing, or the order is the account's own, ready and not
-- expired, the payload's field `csr` decodes to a signing request, and the CA that the account has,
-- or the latest TLS CA, has a private key. Then a certificate is asked of that CA for that request and
-- the values of the order's identifiers of the type `dns`, for the whole days until the order's end
-- and at least one. If that fails the order is found as invalid
-- afterwards, with the message. If it succeeds, a row with a new id is the last of the certificates,
-- and it has the chain, its serial, the account, the account's user, the CA and the dates; the order
-- is found as valid with that row's id and its own names, and the answer shows it.
pub finalize_order-outcome :
    (x : External) (config : Config) (now account_id : ℕ) (id : ℤ) (payload : Bytes) (db : Db)
    → FinalizeOutcome x config now account_id id payload db
        (finalize_order x config now account_id id payload db).0
        (finalize_order x config now account_id id payload db).1
finalize_order-outcome x config now account_id id payload db =
    let Q = FinalizeOutcome x config now account_id id payload db in
    finalize_cases x config now account_id id payload db Q refused
      (λ order account ca csr cleared requested.
        let found = found_by_id id db order cleared.found in
        let names = dns_names_of-DnsNames order in
        let days = validity_days-DaysLeft order.not_after now in
        let stored : (chain serial : Bytes)
            → Stored x now order account ca (dns_names_of order) chain serial db
                (issued_db x config now order account ca chain serial db) =
          λ chain serial.
            store_issued-Stored x now order account ca (dns_names_of order) chain serial db found in
        issue_cases x config now order account ca csr db Q
          (λ e. failed order account ca csr (dns_names_of order) _ cleared requested names days e (
            get-update_status order.id db order found OrderStatus.invalid none
              (some (text "Certificate issuance failed: {e}"))))
          (λ chain serial updated e read.
            subst
              (λ row.
                Q (ok (order_row_to_response row config.vaultls_url))
                  (issued_db x config now order account ca chain serial db))
              (cc (read, (stored chain serial).order_after))
              (issued order account ca csr (dns_names_of order) _ chain serial (stored chain serial)
                cleared requested names days e))
          (λ chain serial e lost. absurd (cc (lost, (stored chain serial).order_after))))
