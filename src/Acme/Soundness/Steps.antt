-- ===== src/Acme/Soundness/Steps.antt =====
-- The steps of the server keep the orders sound.
use vaul_tls.Base.{ap, ℕ, ◌≡◌, none, some}
use vaul_tls.Base.Tables.{Ascending-select, All-select, All-find, has_id}
use vaul_tls.Db.Rows.{Db, AcmeOrderRow, OrderStatus}
use vaul_tls.Db.Nonces.{validate_and_delete_nonce, insert_acme_nonce, cleanup_old_nonces}
use vaul_tls.Db.Accounts.{set_acme_account_jwk}
use vaul_tls.Db.Orders.{get_acme_order, update_acme_order_status, cleanup_expired_orders}
use vaul_tls.Db.Orders.Lookups.{found_by_id}
use vaul_tls.Db.Certs.{insert_user_cert, set_cert_acme_account, set_cert_serial, revoke_user_cert}
use vaul_tls.Acme.External.{External, Config, Env}
use vaul_tls.Acme.Finalize.{store_issued}
use vaul_tls.Acme.Server.{on_response}
use vaul_tls.Acme.Transitions.{
  Write, spend, bind, add_order, validate, invalidate, issue, fail_issue, revoke, sweep,
}
use vaul_tls.Acme.Soundness.{IsSound, is_cleared}
use vaul_tls.Acme.Soundness.Orders.{
  order_id, AreSound, check_identifiers-IsNamed, with_tokens-IsNamed, length-with_tokens,
  insert_acme_order-AreSound, update_status-AreSound, not_cleared, record_valid-AreSound,
  record_invalid-AreSound,
}

found-IsSound :
    (k : ℕ) (db : Db) (o : AcmeOrderRow) → get_acme_order k db ≡ some o → AreSound db → IsSound o
unfolding get_acme_order
found-IsSound k db o e h = All-find IsSound (has_id order_id k) db.orders o h.1 e

module _ (x : External) (config : Config) (env : Env) where
  pub Write-AreSound : {db db' : Db} → Write x config env db db' → AreSound db → AreSound db'
  unfolding validate_and_delete_nonce set_acme_account_jwk revoke_user_cert on_response
      cleanup_expired_orders cleanup_old_nonces insert_acme_nonce store_issued insert_user_cert
      set_cert_acme_account set_cert_serial update_acme_order_status
  Write-AreSound (spend given) h = h
  Write-AreSound (bind jwk payload thumbprint account binds) h = h
  Write-AreSound {db = db} (add_order account account_id identifiers accepted) h =
      insert_acme_order-AreSound env.now account_id _ (some env.client_ip) db
        (with_tokens-IsNamed x env.random_bytes 0 identifiers
          (check_identifiers-IsNamed identifiers accepted.checked))
        (rw (length-with_tokens x env.random_bytes 0 identifiers) accepted.nonempty) h
  Write-AreSound {db = db}
        (validate account_id id n challenge_type order identifier account key_auth attempted p) h =
      let found = found_by_id id db order attempted.found in
      record_valid-AreSound n order db found
        (not_cleared order n identifier attempted.at_index attempted.pending
          (found-IsSound order.id db order found h))
        h
  Write-AreSound {db = db}
        (invalidate account_id id n challenge_type order identifier account key_auth attempted p)
        h =
      let found = found_by_id id db order attempted.found in
      record_invalid-AreSound n order db _ found
        (not_cleared order n identifier attempted.at_index attempted.pending
          (found-IsSound order.id db order found h))
        h
  Write-AreSound {db = db} (issue account_id id order account ca csr chain serial cleared e) h =
      update_status-AreSound order OrderStatus.valid _ none _
        (found_by_id id db order cleared.found)
        (λ sound. record {
          named = sound.named;
          nonempty = sound.nonempty;
          validated = λ _. sound.validated (ap is_cleared cleared.ready);
          expiry = sound.expiry;
          validity = sound.validity;
        })
        h
  Write-AreSound {db = db} (fail_issue account_id id order account ca cleared) h =
      update_status-AreSound order OrderStatus.invalid none _ db
        (found_by_id id db order cleared.found)
        (λ sound. record {
          named = sound.named;
          nonempty = sound.nonempty;
          validated = λ c. cc;
          expiry = sound.expiry;
          validity = sound.validity;
        })
        h
  Write-AreSound (revoke cert_id serial_hex found) h = h
  Write-AreSound {db = db} sweep h =
      (Ascending-select order_id _ db.orders h.0, All-select IsSound _ db.orders h.1)
