-- ===== src/Acme/System/Replay.antt =====
-- Replayed requests: `authenticate_jws` of backend/src/acme/jws.rs over a history.
use vaul_tls.Base.{ℕ, ◌≤◌, ◌≡◌, ◌≢◌, refl, sym, ap, subst, ◌∙◌, Bool, true, false, arith}
use vaul_tls.Base.Tables.{All-select}
use vaul_tls.Base.Result.{ok, err}
use vaul_tls.Text.{Text, text, text_eq}
use vaul_tls.Db.Rows.{Bytes, Db, AcmeAccount}
use vaul_tls.Db.Nonces.{validate_and_delete_nonce, insert_acme_nonce, cleanup_old_nonces}
use vaul_tls.Db.Accounts.{
  set_acme_account_jwk, insert_acme_account, update_acme_account, delete_acme_account,
}
use vaul_tls.Db.Orders.{
  insert_acme_order, update_acme_order_status, update_acme_order_identifier_status,
  cleanup_expired_orders, delete_acme_order,
}
use vaul_tls.Db.Certs.{
  insert_user_cert, set_cert_acme_account, set_cert_serial, revoke_user_cert,
  increase_ca_crl_number,
}
use vaul_tls.Acme.Types.{Fallible, JwsProtectedHeader}
use vaul_tls.Acme.External.{External, Config, Env}
use vaul_tls.Acme.Jws.{parse_jws}
use vaul_tls.Acme.Authenticate.{or_empty, authenticate_jws}
use vaul_tls.Acme.Authenticate.Rules.{Authenticated, spent, authenticate_cases}
use vaul_tls.Acme.Authenticate.Nonces.{
  IsStale, spent-IsStale, IsStale-later, insert-IsStale, stale-refused,
}
use vaul_tls.Acme.Challenge.{record_valid, record_invalid}
use vaul_tls.Acme.Finalize.{store_issued}
use vaul_tls.Acme.Server.{on_response}
use vaul_tls.Acme.Transitions.{
  Write, spend, bind, add_order, validate, invalidate, issue, fail_issue, revoke, sweep,
}
use vaul_tls.Api.State.{delete_certs, delete_user, delete_ca}
use vaul_tls.Acme.Admin.Keeps.{AdminKeeps}
use vaul_tls.Acme.System.{Step}
use vaul_tls.Acme.System.Keeps.{Meets, Step-keeps}

-- No new nonce is this one.
abbrev pub DrawsOther : Text → Env → Type 0
DrawsOther nonce env = text_eq env.uuid nonce ≡ false

-- A history after a request has been authenticated: what is left of it, and later calls, none of
-- which draws the nonce again.
pub data Since (x : External) (config : Config) (nonce : Text) (start : Db) : Db → Type 0 where
  here : Since x config nonce start start
  later_write :
      {db db' : Db} (env : Env)
      → Since x config nonce start db
      → DrawsOther nonce env
      → Write x config env db db'
      → Since x config nonce start db'
  later_step :
      {db db' : Db}
      → Since x config nonce start db
      → (step : Step x config db db') → Meets x config (DrawsOther nonce) step
      → Since x config nonce start db'

record_valid-nonces : (order_id n : ℕ) (db : Db) → (record_valid order_id n db).nonces ≡ db.nonces
unfolding record_valid update_acme_order_status update_acme_order_identifier_status
record_valid-nonces order_id n db = ground arith

module _ (x : External) (config : Config) (now : ℕ) (nonce : Text) where
  abbrev StaleDb : Db → Type 0
  StaleDb db = IsStale now nonce db.nonces

  Write-StaleDb :
      (env : Env)
      → DrawsOther nonce env
      → (db db' : Db) → Write x config env db db'
      → StaleDb db
      → StaleDb db'
  unfolding validate_and_delete_nonce set_acme_account_jwk revoke_user_cert on_response
      cleanup_expired_orders cleanup_old_nonces store_issued insert_user_cert set_cert_acme_account
      set_cert_serial update_acme_order_status update_acme_order_identifier_status insert_acme_order
      record_invalid
  Write-StaleDb env other db db' (spend given) h = All-select _ _ db.nonces h
  Write-StaleDb env other db db' (bind jwk payload thumbprint account binds) h = h
  Write-StaleDb env other db db' (add_order account account_id identifiers accepted) h = h
  Write-StaleDb env other db db'
        (validate account_id id n challenge_type order identifier account key_auth attempted p) h =
      subst (IsStale now nonce) (sym (record_valid-nonces order.id n db)) h
  Write-StaleDb env other db db'
        (invalidate account_id id n challenge_type order identifier account key_auth attempted p)
        h =
      h
  Write-StaleDb env other db db' (issue account_id id order account ca csr chain serial cleared e)
        h =
      h
  Write-StaleDb env other db db' (fail_issue account_id id order account ca cleared) h = h
  Write-StaleDb env other db db' (revoke cert_id serial_hex found) h = h
  Write-StaleDb env other db db' sweep h =
      All-select _ _ (insert_acme_nonce env.now env.uuid db).nonces
        (insert-IsStale now env.now nonce env.uuid db other h)

  StaleDb-AdminKeeps : AdminKeeps StaleDb
  unfolding insert_acme_account update_acme_account delete_acme_account delete_acme_order
      revoke_user_cert increase_ca_crl_number delete_certs delete_user delete_ca
  StaleDb-AdminKeeps = record {
    insert = λ db h _ _ _ _ _ _ _ _. h;
    update = λ db h _ _ _ _ _ _. h;
    delete = λ db h _. h;
    delete_order = λ db h _. h;
    revoke = λ db h _ _. h;
    publish = λ db h _ _. h;
    certificates = λ db h _ _ _. h;
    delete_certs = λ s h _. h;
    delete_user = λ s h _. h;
    delete_ca = λ s h _. h;
  }

  Since-StaleDb : {start db : Db} → Since x config nonce start db → StaleDb start → StaleDb db
  Since-StaleDb here h = h
  Since-StaleDb (later_write env before other w) h =
      Write-StaleDb env other _ _ w (Since-StaleDb before h)
  Since-StaleDb (later_step before step other) h =
      Step-keeps x config StaleDb StaleDb-AdminKeeps (DrawsOther nonce) Write-StaleDb step other
        (Since-StaleDb before h)

abbrev pub is_err : {A : Type 0} → Fallible A → Bool
is_err (ok a) = false
is_err (err e) = true

-- The nonce of a request that parses.
abbrev nonce_of : {Json : Type 0} → Fallible (JwsProtectedHeader Json × Bytes × Bytes) → Text
nonce_of (ok parsed) = or_empty parsed.0.nonce
nonce_of (err e) = text ""

true-false : true ≢ false
true-false e = cc

-- A request whose nonce has gone stale is refused.
module _ (x : External) (config : Config) (now : ℕ) (body expected : Text) (db : Db) where
  same_nonce :
      (header : JwsProtectedHeader x.Json) (account : AcmeAccount) (payload : Bytes)
      → Authenticated x config now body expected db header account payload
      → or_empty header.nonce ≡ nonce_of (parse_jws x body)
  same_nonce header account payload passed = rw passed.parsed refl

  refused_if_stale :
      IsStale now (nonce_of (parse_jws x body)) db.nonces
      → is_err (authenticate_jws x config now body expected db).0 ≡ true
  refused_if_stale stale =
      authenticate_cases x config now body expected db (λ r _. is_err r ≡ true) (λ _. refl)
        (λ _ _. refl)
        (λ header account payload passed. absurd (
          true-false (
            sym passed.fresh
            ∙ ap (λ n. (validate_and_delete_nonce now n db).0)
                (same_nonce header account payload passed)
            ∙ stale-refused now (nonce_of (parse_jws x body)) db stale)))

-- A request that was authenticated is refused if it is sent again, at any URL and any later time and
-- whatever happened in between, as long as no call has drawn the same nonce anew.
pub replay-refused :
    (x : External) (config : Config) (now later : ℕ) (body expected elsewhere : Text) (db : Db)
    {db' : Db} (jws : ℕ × Bytes)
    → (authenticate_jws x config now body expected db).0 ≡ ok jws
    → Since x config
        (nonce_of (parse_jws x body))
        (authenticate_jws x config now body expected db).1
        db'
    → now ≤ later
    → is_err (authenticate_jws x config later body elsewhere db').0 ≡ true
replay-refused x config now later body expected elsewhere db {db' = db'} jws passed since le =
    refused_if_stale x config later body elsewhere db' (
      IsStale-later now later nonce db'.nonces le
        (Since-StaleDb x config now nonce since (stale_after passed)))
  where
    nonce : Text
    nonce = nonce_of (parse_jws x body)

    stale_after :
        (authenticate_jws x config now body expected db).0 ≡ ok jws
        → IsStale now
            (nonce_of (parse_jws x body))
            (authenticate_jws x config now body expected db).1.nonces
    stale_after =
        authenticate_cases x config now body expected db
          (λ r after. r ≡ ok jws → IsStale now (nonce_of (parse_jws x body)) after.nonces)
          (λ e h. cc) (λ e _ h. cc)
          (λ header account payload p _.
            subst (λ n. IsStale now n (spent now header.nonce db).nonces)
              (same_nonce x config now body expected db header account payload p)
              (spent-IsStale now (or_empty header.nonce) db))
