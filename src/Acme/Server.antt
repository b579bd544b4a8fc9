-- ===== src/Acme/Server.antt =====
-- A request from the guards to the response: backend/src/acme/guard.rs, the routes of
-- backend/src/acme/routes.rs, and the fairing of backend/src/acme/nonce.rs.
use vaul_tls.Base.{ℕ, List, ◌++◌, if◌then◌else◌}
use vaul_tls.Base.Result.{ok, err}
use vaul_tls.Base.Action.{◌>>=◌, ◌>>◌, pure, lift}
use vaul_tls.Text.{Text}
use vaul_tls.Text.Decimal.{ℤ}
use vaul_tls.Db.Rows.{Bytes, Db}
use vaul_tls.Db.Nonces.{insert_acme_nonce, cleanup_old_nonces}
use vaul_tls.Db.Orders.{cleanup_expired_orders}
use vaul_tls.Acme.Types.{
  Fallible, AcmeOrder, AcmeAuthorization, AcmeChallenge, Directory, malformed, server_internal,
}
use vaul_tls.Acme.External.{External, Config, Env}
use vaul_tls.Acme.Urls.{make_directory}
use vaul_tls.Acme.Authenticate.{Handler, authenticate_jws}
use vaul_tls.Acme.NewAccount.{AccountReply, new_account}
use vaul_tls.Acme.NewOrder.{OrderReply, new_order, get_order, get_account_orders}
use vaul_tls.Acme.Challenge.{get_authz, get_challenge}
use vaul_tls.Acme.Finalize.{finalize_order}
use vaul_tls.Acme.Revoke.{download_cert, revoke_cert}

-- What reading the body gives: the whole text, a text past one mebibyte, or an error.
pub data Body : Type 0 where
  complete : Text → Body
  too_large : Body
  unreadable : Body

unfoldable pub read_body : Body → Fallible Text
read_body (complete s) = ok s
read_body too_large = err (malformed "Request body too large")
read_body unreadable = err (server_internal "Failed to read body")

-- The routes with a body that the account's key signs.
pub data SignedRoute : Type 0 where
  new_order_route : SignedRoute
  order_route : ℤ → SignedRoute
  orders_route : ℤ → SignedRoute
  finalize_route : ℤ → SignedRoute
  authz_route : Text → SignedRoute
  challenge_route : ℤ → Text → ℕ → SignedRoute
  cert_route : ℤ → SignedRoute

-- `path` is the path as it was sent.
pub data Request : Type 0 where
  get_directory : Request
  new_nonce_head : Request
  new_nonce_get : Request
  new_account_request : Body → Request
  revoke_request : Body → Request
  signed_request : (path : Text) → SignedRoute → Body → Request

pub data Reply : Type 0 where
  directory : Directory → Reply
  empty : ℕ → Reply
  account : AccountReply → Reply
  created_order : OrderReply → Reply
  order : AcmeOrder → Reply
  orders : List Text → Reply
  authorization : AcmeAuthorization → Reply
  challenge : AcmeChallenge → Reply
  pem : Bytes → Reply

-- A disabled server answers 404 to every route.
pub data Response : Type 0 where
  not_enabled : Response
  answered : Fallible Reply → Response

abbrev pub as_reply : {A : Type 0} → (A → Reply) → Handler A → Handler Reply
as_reply f m = do a ← m; pure (f a)

module _ (x : External) (config : Config) (env : Env) where
  -- The `AuthenticatedJws` guard.
  unfoldable pub authenticated : Text → Body → Handler (ℕ × Bytes)
  authenticated path body = do
    text_body ← lift (read_body body)
    authenticate_jws x config env.now text_body (config.vaultls_url ++ path)

  unfoldable pub route : SignedRoute → ℕ → Bytes → Handler Reply
  route new_order_route account_id payload =
      as_reply created_order (new_order x config env account_id payload)
  route (order_route id) account_id payload = as_reply order (get_order x config account_id id)
  route (orders_route id) account_id payload =
      as_reply orders (get_account_orders x config account_id id)
  route (finalize_route id) account_id payload =
      as_reply order (finalize_order x config env.now account_id id payload)
  route (authz_route id) account_id payload =
      as_reply authorization (get_authz x config env account_id id)
  route (challenge_route id challenge_type idx) account_id payload =
      as_reply challenge (get_challenge x config env account_id id challenge_type idx)
  route (cert_route id) account_id payload = as_reply pem (download_cert account_id id)

  unfoldable pub handle : Request → Handler Reply
  handle get_directory = pure (directory (make_directory config.vaultls_url))
  handle new_nonce_head = pure (empty 200)
  handle new_nonce_get = pure (empty 204)
  handle (new_account_request body) = do
    text_body ← lift (read_body body)
    reply ← new_account x config.vaultls_url env.now text_body
    pure (account reply)
  handle (revoke_request body) = do
    text_body ← lift (read_body body)
    revoke_cert x config env.now text_body
    pure (empty 200)
  handle (signed_request path r body) = do jws ← authenticated path body; route r jws.0 jws.1

  -- `NonceFairing::on_response`: a nonce for the client, and the tables swept.
  unfoldable pub on_response : Db → Db
  on_response db =
      cleanup_expired_orders env.now
        (cleanup_old_nonces env.now (insert_acme_nonce env.now env.uuid db))

  unfoldable pub serve : Request → Db → Response × Db
  serve request db =
      if config.acme_enabled
      then (answered (handle request db).0, on_response (handle request db).1)
      else (not_enabled, on_response db)
