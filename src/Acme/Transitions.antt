-- ===== src/Acme/Transitions.antt =====
-- The writes of the ACME server to the database, as a step relation: each step names what the
-- handler had checked when it wrote.
pub mod Serves
use vaul_tls.Base.{ℕ, ◌≡◌, true, false, Option, none, some, List}
use vaul_tls.Text.{Text, text}
use vaul_tls.Text.Decimal.{ℤ}
use vaul_tls.Db.Rows.{Bytes, Db, AcmeAccount, AcmeIdentifier, AcmeOrderRow, OrderStatus, Ca}
use vaul_tls.Db.Orders.{update_acme_order_status}
use vaul_tls.Db.Certs.{revoke_user_cert}
use vaul_tls.Acme.External.{External, Config, Env}
use vaul_tls.Acme.Authenticate.Rules.{spent}
use vaul_tls.Acme.NewAccount.Rules.{Binds, bound_db}
use vaul_tls.Acme.NewOrder.Rules.{Accepted, accepted_order}
use vaul_tls.Acme.Challenge.{record_valid, record_invalid}
use vaul_tls.Acme.Challenge.Rules.{Attempted, passes, failure_message}
use vaul_tls.Acme.Finalize.{dns_names_of, validity_days}
use vaul_tls.Acme.Finalize.Rules.{Cleared, issued_db}
use vaul_tls.Acme.Revoke.Rows.{Unrevoked}
use vaul_tls.Acme.Server.{on_response}

-- One write.
pub data Write (x : External) (config : Config) (env : Env) : Db → Db → Type 0 where
  spend : {db : Db} (nonce : Option Text) → Write x config env db (spent env.now nonce db)
  bind :
      {db : Db} (jwk payload : x.Json) (thumbprint : Text) (account : AcmeAccount)
      → Binds x jwk payload thumbprint db account
      → Write x config env db (bound_db x jwk payload thumbprint account db)
  add_order :
      {db : Db} (account : AcmeAccount) (account_id : ℕ) (identifiers : List AcmeIdentifier)
      → Accepted x config env.now account_id db account identifiers
      → Write x config env db (accepted_order x env account_id identifiers db)
  validate :
      {db : Db} (account_id : ℕ) (order_id : ℤ) (domain_idx : ℕ) (challenge_type : Text)
      (order : AcmeOrderRow) (identifier : AcmeIdentifier) (account : AcmeAccount) (key_auth : Text)
      → Attempted x account_id order_id domain_idx challenge_type db order identifier account
          key_auth
      → passes x config env challenge_type identifier account key_auth ≡ true
      → Write x config env db (record_valid order.id domain_idx db)
  invalidate :
      {db : Db} (account_id : ℕ) (order_id : ℤ) (domain_idx : ℕ) (challenge_type : Text)
      (order : AcmeOrderRow) (identifier : AcmeIdentifier) (account : AcmeAccount) (key_auth : Text)
      → Attempted x account_id order_id domain_idx challenge_type db order identifier account
          key_auth
      → passes x config env challenge_type identifier account key_auth ≡ false
      → Write x config env db
          (record_invalid order.id domain_idx (failure_message challenge_type identifier) db)
  issue :
      {db : Db} (account_id : ℕ) (id : ℤ) (order : AcmeOrderRow) (account : AcmeAccount) (ca : Ca)
      (csr chain serial : Bytes)
      → Cleared env.now account_id id db order account ca
      → x.issue_cert_from_csr csr ca (validity_days order.not_after env.now) (dns_names_of order)
        ≡ some (chain, serial)
      → Write x config env db (issued_db x config env.now order account ca chain serial db)
  fail_issue :
      {db : Db} (account_id : ℕ) (id : ℤ) (order : AcmeOrderRow) (account : AcmeAccount) (ca : Ca)
      → Cleared env.now account_id id db order account ca
      → Write x config env db (
          update_acme_order_status order.id OrderStatus.invalid none
            (some (text "Certificate issuance failed: {e}"))
            db)
  revoke :
      {db : Db} (cert_id : ℕ) (serial_hex : Text)
      → Unrevoked serial_hex db cert_id
      → Write x config env db (revoke_user_cert env.now cert_id db)
  sweep : {db : Db} → Write x config env db (on_response x config env db)

pub data Writes (x : External) (config : Config) (env : Env) (start : Db) : Db → Type 0 where
  done : Writes x config env start start
  and_then :
      {db db' : Db}
      → Writes x config env start db
      → Write x config env db db'
      → Writes x config env start db'
