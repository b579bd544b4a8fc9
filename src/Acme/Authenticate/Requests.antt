-- ===== src/Acme/Authenticate/Requests.antt =====
-- `authenticate_jws` of backend/src/acme/jws.rs: who may pass.
use vaul_tls.Base.{ℕ, Option}
use vaul_tls.Base.Result.{ok, err}
use vaul_tls.Text.{Text}
use vaul_tls.Db.Rows.{Bytes, Db, AcmeAccount}
use vaul_tls.Acme.Types.{AcmeError, Fallible, JwsProtectedHeader}
use vaul_tls.Acme.External.{External, Config}
use vaul_tls.Acme.Authenticate.{authenticate_jws}
use vaul_tls.Acme.Authenticate.Rules.{Authenticated, spent, authenticate_cases}

-- A refusal, before or after the nonce is spent, or the account and the payload of a request that
-- is `Authenticated`, its nonce spent.
pub data AuthOutcome (x : External) (config : Config) (now : ℕ) (body expected : Text) (db : Db)
    : Fallible (ℕ × Bytes) → Db → Type 0 where
  refused : (e : AcmeError) → AuthOutcome x config now body expected db (err e) db
  refused_late :
      (e : AcmeError) (nonce : Option Text)
      → AuthOutcome x config now body expected db (err e) (spent now nonce db)
  accepted :
      (header : JwsProtectedHeader x.Json) (account : AcmeAccount) (payload : Bytes)
      → Authenticated x config now body expected db header account payload
      → AuthOutcome x config now body expected db
          (ok (account.id, payload))
          (spent now header.nonce db)

-- An authentication returns an error, having changed the database at most by the deletion of a
-- nonce, or it returns the id of an account and the payload of the request. Then the header has a
-- `kid` and no `jwk`, its URL is the one expected, its nonce was in the table and fresh and is
-- deleted, the `kid` names the account, the account is valid and has a key, and the signature of the
-- request verifies under that key.
pub authenticate_jws-outcome :
    (x : External) (config : Config) (now : ℕ) (body expected : Text) (db : Db)
    → AuthOutcome x config now body expected db
        (authenticate_jws x config now body expected db).0
        (authenticate_jws x config now body expected db).1
authenticate_jws-outcome x config now body expected db =
    authenticate_cases x config now body expected db (AuthOutcome x config now body expected db)
      refused refused_late accepted
