-- ===== src/Acme/System.antt =====
-- The ACME server as a whole: every history of requests, of administrative calls and of the
-- management of certificates, each with its own clock, network and random bytes.
pub mod Keeps
pub mod Invariant
pub mod Replay
use vaul_tls.Base.{ℕ, ◌≡◌, Bool, Option, List, []}
use vaul_tls.Base.Result.{Result}
use vaul_tls.Text.{Text}
use vaul_tls.Session.{Claims}
use vaul_tls.Db.Rows.{Bytes, Db, Ca, CertificateRow, VersionRow}
use vaul_tls.Acme.External.{External, Config, Env}
use vaul_tls.Acme.Server.{Request, serve, on_response}
use vaul_tls.Api.Errors.{ApiError}
use vaul_tls.Api.State.{AppState, delete_certs, delete_user, delete_ca}
use vaul_tls.Acme.Admin.{
  CreateAcmeAccountRequest, UpdateAcmeAccountRequest, create_acme_account,
  admin_update_acme_account, deactivate_acme_account, purge_acme_account, admin_delete_acme_order,
  revoke_acme_order,
}

-- One call.
pub data Step (x : External) (config : Config) : Db → Db → Type 0 where
  request_step :
      {db : Db} (env : Env) (request : Request) → Step x config db (serve x config env request db).1
  -- The response of an administrative call passes the same fairing.
  fairing_step : {db : Db} (env : Env) → Step x config db (on_response x config env db)
  create_step :
      {db : Db} (now : ℕ) (eab_kid : Text) (eab_hmac_key : Bytes) (auth : Option Claims)
      (req : CreateAcmeAccountRequest)
      → Step x config db
          (create_acme_account config.acme_enabled now eab_kid eab_hmac_key auth req db).1
  update_step :
      {db : Db} (id : ℕ) (auth : Option Claims) (req : UpdateAcmeAccountRequest)
      → Step x config db (admin_update_acme_account config.acme_enabled id auth req db).1
  deactivate_step :
      {db : Db} (id : ℕ) (auth : Option Claims)
      → Step x config db (deactivate_acme_account config.acme_enabled id auth db).1
  purge_step :
      {db : Db} (id : ℕ) (auth : Option Claims)
      → Step x config db (purge_acme_account config.acme_enabled id auth db).1
  delete_order_step :
      {db : Db} (id : ℕ) (auth : Option Claims)
      → Step x config db (admin_delete_acme_order config.acme_enabled id auth db).1
  revoke_order_step :
      {db : Db} (publish : Ca → Db → Result ApiError ℕ) (now id : ℕ) (auth : Option Claims)
      → Step x config db (revoke_acme_order config.acme_enabled publish now id auth db).1
  -- The calls of the management API that write certificates and CAs: rows of any contents, and the
  -- deletions, which the orders and the accounts feel too.
  certificates_step :
      {db : Db} (certs : List CertificateRow) (versions : List VersionRow) (cas : List Ca)
      → Step x config db (record db { certs = certs; versions = versions; cas = cas })
  delete_certs_step :
      (s : AppState) (gone : CertificateRow → Bool) → Step x config s.db (delete_certs gone s).db
  delete_user_step : (s : AppState) (id : ℕ) → Step x config s.db (delete_user id s).db
  delete_ca_step : (s : AppState) (id : ℕ) → Step x config s.db (delete_ca id s).db

-- No account and no order yet.
pub record IsInitial (db : Db) : Type 0 where
  pub no_accounts : db.accounts ≡ []
  pub no_orders : db.orders ≡ []

-- The databases that a history leads to.
pub data Reachable (x : External) (config : Config) : Db → Type 0 where
  initial : {db : Db} → IsInitial db → Reachable x config db
  next : {db db' : Db} → Reachable x config db → Step x config db db' → Reachable x config db'
