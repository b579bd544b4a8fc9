-- ===== src/Acme/Finalize/Rules.antt =====
-- What a finalization does, by cases.
use vaul_tls.Base.{
  ℕ, ◌<◌, ◌≡◌, refl, true, false, not, none, some, ltb, arith, inl, inr, Option-cases,
}
use vaul_tls.Base.Result.{ok, err}
use vaul_tls.Base.Outcome.{
  Outcome, Outcome-require, Outcome-lift, Outcome-ensure, Outcome-modify, Outcome-gets,
  Outcome-pure, Outcome-raise,
}
use vaul_tls.Text.{Text, text, is_empty}
use vaul_tls.Text.Decimal.{ℤ}
use vaul_tls.Db.Rows.{Bytes, Db, AcmeAccount, AcmeOrderRow, OrderStatus, Ca}
use vaul_tls.Db.Accounts.{get_acme_account}
use vaul_tls.Db.Orders.{get_acme_order, get_acme_order_i64, update_acme_order_status}
use vaul_tls.Db.Certs.{next_cert_id, get_ca_by_id, get_latest_tls_ca}
use vaul_tls.Acme.Urls.{order_row_to_response}
use vaul_tls.Acme.Types.{AcmeError, Fallible, AcmeOrder, malformed, server_internal}
use vaul_tls.Acme.External.{External, Config}
use vaul_tls.Acme.Authenticate.Rules.{StrField, str_at-StrField, ok_or-eq-ok}
use vaul_tls.Acme.NewOrder.Rules.{Outcome-owned_order}
use vaul_tls.Acme.Finalize.{
  is_ready, ca_of, dns_names_of, validity_days, issued_cert, store_issued, issue, finalize_order,
}

-- The CA that the account names, or the latest TLS CA where it names none.
pub data CaChosen (account : AcmeAccount) (db : Db) (ca : Ca) : Type 0 where
  named :
      (ca_id : ℕ)
      → account.ca_id ≡ some ca_id
      → get_ca_by_id ca_id db ≡ some ca
      → CaChosen account db ca
  latest : account.ca_id ≡ none → get_latest_tls_ca db ≡ some ca → CaChosen account db ca

ca_of-CaChosen :
    (account : AcmeAccount) (db : Db) (ca : Ca)
    → ca_of account db ≡ some ca
    → CaChosen account db ca
unfolding ca_of
ca_of-CaChosen account db ca chosen = elim (Option-cases account.ca_id) [
  | inl no_ca ↦ latest no_ca (rw (ca_of, no_ca) at chosen)
  | inr (ca_id, has_ca) ↦ named ca_id has_ca (rw (ca_of, has_ca) at chosen)
]

is_ready-ready : (status : OrderStatus) → is_ready status ≡ true → status ≡ OrderStatus.ready
is_ready-ready OrderStatus.pending e = cc
is_ready-ready OrderStatus.ready e = refl
is_ready-ready OrderStatus.valid e = cc
is_ready-ready OrderStatus.invalid e = cc

-- What the checks of a finalization found before a certificate was asked for.
pub record Cleared (now account_id : ℕ) (id : ℤ) (db : Db) (order : AcmeOrderRow)
    (account : AcmeAccount) (ca : Ca) : Type 0 where
  pub found : get_acme_order_i64 id db ≡ some order
  pub owned : order.account_id ≡ account_id
  pub ready : order.status ≡ OrderStatus.ready
  pub alive : now < order.expires
  pub account_found : get_acme_account account_id db ≡ some account
  pub ca_found : CaChosen account db ca
  pub has_private_key : is_empty ca.key ≡ false

-- The signing request is the decoded field `csr` of the payload.
pub record Requested (x : External) (payload csr : Bytes) : Type 0 where
  pub json : x.Json
  pub csr_b64 : Text
  pub payload_read : x.from_str payload ≡ some json
  pub csr_field : StrField x json (text "csr") csr_b64
  pub decoded : x.decode csr_b64 ≡ some csr

module _ {κ} (x : External) (config : Config) (now account_id : ℕ) (id : ℤ) (payload : Bytes)
    (db : Db) (Q : Fallible AcmeOrder → Db → Type κ) where
  pub finalize_cases :
      ((e : AcmeError) → Q (err e) db)
      → ((order : AcmeOrderRow) (account : AcmeAccount) (ca : Ca) (csr : Bytes)
          → Cleared now account_id id db order account ca
          → Requested x payload csr
          → Outcome Q (issue x config now order account ca csr) db)
      → Outcome Q (finalize_order x config now account_id id payload) db
  unfolding finalize_order
  finalize_cases refused cleared =
      Outcome-owned_order Q id account_id _ _ db
        (λ order found owned.
          Outcome-ensure Q (is_ready order.status) _ _ db
            (λ ready.
              Outcome-ensure Q (ltb now order.expires) _ _ db
                (λ alive.
                  Outcome-lift Q _ _ db
                    (λ json payload_read.
                      Outcome-lift Q _ _ db
                        (λ csr_b64 csr_field.
                          Outcome-lift Q _ _ db
                            (λ csr decoded.
                              Outcome-require Q (get_acme_account account_id) _ _ db
                                (λ account account_found.
                                  Outcome-require Q (ca_of account) _ _ db
                                    (λ ca ca_found.
                                      Outcome-ensure Q (not (is_empty ca.key)) _ _ db
                                        (λ key.
                                          cleared order account ca csr
                                            (record {
                                              found = found;
                                              owned = owned;
                                              ready = is_ready-ready order.status ready;
                                              alive = ground arith;
                                              account_found = account_found;
                                              ca_found = ca_of-CaChosen account db ca ca_found;
                                              has_private_key = ground arith;
                                            })
                                            (record {
                                              json = json;
                                              csr_b64 = csr_b64;
                                              payload_read = ok_or-eq-ok _ _ payload_read;
                                              csr_field =
                                                  str_at-StrField x json (text "csr") csr_b64 (
                                                    ok_or-eq-ok _ (malformed "Missing csr field")
                                                      csr_field);
                                              decoded = ok_or-eq-ok _ _ decoded;
                                            }))
                                        (λ _. refused _))
                                    (λ _. refused _))
                                (λ _. refused _))
                            (λ e _. refused e))
                        (λ e _. refused e))
                    (λ e _. refused e))
                (λ _. refused _))
            (λ _. refused _))
        refused

-- The database after an issuance.
abbrev pub issued_db :
    External → Config → ℕ → AcmeOrderRow → AcmeAccount → Ca → Bytes → Bytes → Db → Db
issued_db x config now order account ca chain serial db =
    store_issued order.id account.id (next_cert_id db)
      (issued_cert now order account ca (dns_names_of order) chain) (x.hex serial) db

module _ {κ} (x : External) (config : Config) (now : ℕ) (order : AcmeOrderRow)
    (account : AcmeAccount) (ca : Ca) (csr : Bytes) (db : Db)
    (Q : Fallible AcmeOrder → Db → Type κ) where
  pub issue_cases :
      (x.issue_cert_from_csr csr ca (validity_days order.not_after now) (dns_names_of order) ≡ none
        → Q (err (server_internal "Certificate issuance failed")) (
            update_acme_order_status order.id OrderStatus.invalid none
              (some (text "Certificate issuance failed: {e}"))
              db))
      → ((chain serial : Bytes) (updated : AcmeOrderRow)
          → x.issue_cert_from_csr csr ca (validity_days order.not_after now) (dns_names_of order)
            ≡ some (chain, serial)
          → get_acme_order order.id (issued_db x config now order account ca chain serial db)
            ≡ some updated
          → Q
              (ok (order_row_to_response updated config.vaultls_url))
              (issued_db x config now order account ca chain serial db))
      → ((chain serial : Bytes)
          → x.issue_cert_from_csr csr ca (validity_days order.not_after now) (dns_names_of order)
            ≡ some (chain, serial)
          → get_acme_order order.id (issued_db x config now order account ca chain serial db) ≡ none
          → Q
              (err (server_internal "Failed to reload order"))
              (issued_db x config now order account ca chain serial db))
      → Outcome Q (issue x config now order account ca csr) db
  unfolding issue
  issue_cases failed issued lost =
      elim (Option-cases
        (x.issue_cert_from_csr csr ca (validity_days order.not_after now) (dns_names_of order))) [
          | inl e ↦ rw (e, issue) (Outcome-modify Q _ _ db (Outcome-raise Q _ _ (failed e)))
          | inr (pair, e) ↦
              rw (e, issue)
                (Outcome-gets Q _ _ db (
                  Outcome-modify Q _ _ db (
                    Outcome-require Q _ _ _ _
                      (λ updated found. Outcome-pure Q _ _ (issued pair.0 pair.1 updated e found))
                      (λ missing. lost pair.0 pair.1 e missing))))
        ]
