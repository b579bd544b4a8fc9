-- ===== src/Acme/Transitions/Serves.antt =====
-- The server takes the steps of the relation only.
use vaul_tls.Base.{ℕ, Bool, true, false, ◌++◌, if◌then◌else◌}
use vaul_tls.Base.Action.{Action, ◌>>=◌}
use vaul_tls.Base.Outcome.{
  Outcome-bind, Outcome-lift, Outcome-pure, Outcome-require, Outcome-ensure, Outcome-gets,
}
use vaul_tls.Text.{Text}
use vaul_tls.Text.Decimal.{ℤ}
use vaul_tls.Db.Rows.{Bytes, Db}
use vaul_tls.Acme.Types.{AcmeError}
use vaul_tls.Acme.External.{External, Config, Env}
use vaul_tls.Acme.Authenticate.Rules.{authenticate_cases}
use vaul_tls.Acme.NewAccount.Rules.{new_account_cases}
use vaul_tls.Acme.NewOrder.{get_order, get_account_orders}
use vaul_tls.Acme.NewOrder.Rules.{new_order_cases, Outcome-owned_order}
use vaul_tls.Acme.Challenge.{get_authz, get_challenge}
use vaul_tls.Acme.Challenge.Rules.{get_challenge_cases}
use vaul_tls.Acme.Finalize.{finalize_order}
use vaul_tls.Acme.Finalize.Rules.{finalize_cases, issue_cases}
use vaul_tls.Acme.Revoke.{download_cert}
use vaul_tls.Acme.Revoke.Rules.{revoke_cases}
use vaul_tls.Acme.Server.{
  Reply, Request, get_directory, new_nonce_head, new_nonce_get, new_account_request, revoke_request,
  signed_request, SignedRoute, new_order_route, order_route, orders_route, finalize_route,
  authz_route, challenge_route, cert_route, as_reply, authenticated, route, handle, serve,
}
use vaul_tls.Acme.Transitions.{
  Writes, done, and_then, spend, bind, add_order, validate, invalidate, issue, fail_issue, revoke,
  sweep,
}

-- Reads.
module _ {κ} (x : External) (config : Config) (env : Env) (db : Db) where
  pub get_order-same :
      (P : Db → Type κ) (account_id : ℕ) (id : ℤ) → P db → P (get_order x config account_id id db).1
  unfolding get_order
  get_order-same P account_id id h =
      Outcome-owned_order (λ _. P) id account_id _ _ db (λ order _ _. Outcome-pure (λ _. P) _ db h)
        (λ _. h)

  pub get_account_orders-same :
      (P : Db → Type κ) (account_id : ℕ) (id : ℤ)
      → P db
      → P (get_account_orders x config account_id id db).1
  unfolding get_account_orders
  get_account_orders-same P account_id id h =
      Outcome-ensure (λ _. P) _ _ _ db
        (λ _. Outcome-gets (λ _. P) _ _ db (Outcome-pure (λ _. P) _ db h)) (λ _. h)

  pub get_authz-same :
      (P : Db → Type κ) (account_id : ℕ) (id : Text)
      → P db
      → P (get_authz x config env account_id id db).1
  unfolding get_authz
  get_authz-same P account_id id h =
      Outcome-lift (λ _. P) _ _ db
        (λ ids _.
          Outcome-owned_order (λ _. P) ids.0 account_id _ _ db
            (λ order _ _.
              Outcome-lift (λ _. P) _ _ db (λ i _. Outcome-pure (λ _. P) _ db h) (λ _ _. h))
            (λ _. h))
        (λ _ _. h)

  pub download_cert-same :
      (P : Db → Type κ) (account_id : ℕ) (id : ℤ) → P db → P (download_cert account_id id db).1
  unfolding download_cert
  download_cert-same P account_id id h =
      Outcome-require (λ _. P) _ _ _ db
        (λ cert _.
          Outcome-gets (λ _. P) _ _ db
            (Outcome-ensure (λ _. P) _ _ _ db
              (λ _. Outcome-ensure (λ _. P) _ _ _ db (λ _. Outcome-pure (λ _. P) _ db h) (λ _. h))
              (λ _. h)))
        (λ _. h)

bind-state :
    {A B : Type 0} (P : Db → Type 0) (m : Action Db AcmeError A) (k : A → Action Db AcmeError B)
    (db : Db)
    → P (m db).1
    → ((a : A) (db' : Db) → P db' → P (k a db').1)
    → P ((m >>= k) db).1
bind-state P m k db h keep = Outcome-bind (λ _. P) m k db (λ a _. keep a _ h) (λ _ _. h)

pub as_reply-state :
    {A : Type 0} (P : Db → Type 0) (f : A → Reply) (m : Action Db AcmeError A) (db : Db)
    → P (m db).1
    → P (as_reply f m db).1
as_reply-state P f m db h = bind-state P m _ db h (λ a db' h'. Outcome-pure (λ _. P) _ db' h')

if-state :
    {A : Type 0} (P : Db → Type 0) (b : Bool) (p q : A × Db)
    → P p.1
    → P q.1
    → P (if b then p else q).1
if-state P true p q h k = h
if-state P false p q h k = k

module _ (x : External) (config : Config) (env : Env) (start : Db) where
  challenge-Writes :
      (account_id : ℕ) (id : ℤ) (challenge_type : Text) (idx : ℕ) (db : Db)
      → Writes x config env start db
      → Writes x config env start (get_challenge x config env account_id id challenge_type idx db).1
  challenge-Writes account_id id challenge_type idx db prior =
      get_challenge_cases x config env account_id db (λ _. Writes x config env start) id
        challenge_type idx (λ _. prior) (λ _ _ _ _ _ _. prior)
        (λ order identifier account key_auth attempted p.
          and_then prior (
            validate account_id id idx challenge_type order identifier account key_auth attempted
              p))
        (λ order identifier account key_auth attempted p. and_then prior (
          invalidate account_id id idx challenge_type order identifier account key_auth attempted
            p))

  finalize-Writes :
      (account_id : ℕ) (id : ℤ) (payload : Bytes) (db : Db)
      → Writes x config env start db
      → Writes x config env start (finalize_order x config env.now account_id id payload db).1
  finalize-Writes account_id id payload db prior =
      finalize_cases x config env.now account_id id payload db (λ _. Writes x config env start)
        (λ _. prior)
        (λ order account ca csr cleared _.
          issue_cases x config env.now order account ca csr db (λ _. Writes x config env start)
            (λ _. and_then prior (fail_issue account_id id order account ca cleared))
            (λ chain serial _ e _.
              and_then prior (issue account_id id order account ca csr chain serial cleared e))
            (λ chain serial e _.
              and_then prior (issue account_id id order account ca csr chain serial cleared e)))

  route-Writes :
      (r : SignedRoute) (account_id : ℕ) (payload : Bytes) (db : Db)
      → Writes x config env start db
      → Writes x config env start (route x config env r account_id payload db).1
  unfolding route
  route-Writes new_order_route account_id payload db prior =
      as_reply-state (Writes x config env start) _ _ db (
        new_order_cases x config env account_id payload db (λ _. Writes x config env start)
          (λ _. prior)
          (λ account identifiers _ accepted _.
            and_then prior (add_order account account_id identifiers accepted)))
  route-Writes (order_route id) account_id payload db prior =
      as_reply-state (Writes x config env start) _ _ db
        (get_order-same x config env db (Writes x config env start) account_id id prior)
  route-Writes (orders_route id) account_id payload db prior =
      as_reply-state (Writes x config env start) _ _ db
        (get_account_orders-same x config env db (Writes x config env start) account_id id prior)
  route-Writes (finalize_route id) account_id payload db prior =
      as_reply-state (Writes x config env start) _ _ db
        (finalize-Writes account_id id payload db prior)
  route-Writes (authz_route id) account_id payload db prior =
      as_reply-state (Writes x config env start) _ _ db
        (get_authz-same x config env db (Writes x config env start) account_id id prior)
  route-Writes (challenge_route id challenge_type idx) account_id payload db prior =
      as_reply-state (Writes x config env start) _ _ db
        (challenge-Writes account_id id challenge_type idx db prior)
  route-Writes (cert_route id) account_id payload db prior =
      as_reply-state (Writes x config env start) _ _ db
        (download_cert-same x config env db (Writes x config env start) account_id id prior)

module _ (x : External) (config : Config) (env : Env) (db : Db) where
  handle-Writes : (request : Request) → Writes x config env db (handle x config env request db).1
  unfolding handle authenticated
  handle-Writes get_directory = Outcome-pure (λ _. Writes x config env db) _ db done
  handle-Writes new_nonce_head = Outcome-pure (λ _. Writes x config env db) _ db done
  handle-Writes new_nonce_get = Outcome-pure (λ _. Writes x config env db) _ db done
  handle-Writes (new_account_request body) =
      Outcome-lift (λ _. Writes x config env db) _ _ db
        (λ text_body _.
          bind-state (Writes x config env db) _ _ db
            (new_account_cases x config.vaultls_url env.now text_body db
              (λ _. Writes x config env db) (λ _. done) (λ nonce _. and_then done (spend nonce))
              (λ nonce jwk payload thumbprint account r _ binds.
                and_then (and_then done (spend nonce)) (bind jwk payload thumbprint account binds)))
            (λ a db' h. Outcome-pure (λ _. Writes x config env db) _ db' h))
        (λ _ _. done)
  handle-Writes (revoke_request body) =
      Outcome-lift (λ _. Writes x config env db) _ _ db
        (λ text_body _.
          bind-state (Writes x config env db) _ _ db
            (revoke_cases x config env.now text_body db (λ _. Writes x config env db) (λ _. done)
              (λ nonce _. and_then done (spend nonce))
              (λ nonce cert_id revoking.
                and_then (and_then done (spend nonce)) (revoke cert_id _ revoking.found)))
            (λ a db' h. Outcome-pure (λ _. Writes x config env db) _ db' h))
        (λ _ _. done)
  handle-Writes (signed_request path r body) =
      bind-state (Writes x config env db) _ _ db
        (Outcome-lift (λ _. Writes x config env db) _ _ db
          (λ text_body _.
            authenticate_cases x config env.now text_body (config.vaultls_url ++ path) db
              (λ _. Writes x config env db) (λ _. done) (λ _ nonce. and_then done (spend nonce))
              (λ header account payload _. and_then done (spend header.nonce)))
          (λ _ _. done))
        (λ jws db' h. route-Writes x config env db r jws.0 jws.1 db' h)

  -- A request leaves the database that a sequence of the steps of the relation leads to.
  pub serve-Writes : (request : Request) → Writes x config env db (serve x config env request db).1
  unfolding serve
  serve-Writes request =
      if-state (Writes x config env db) config.acme_enabled _ _
        (and_then (handle-Writes request) sweep) (and_then done sweep)
