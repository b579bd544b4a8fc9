-- ===== src/Acme/Authenticate.antt =====
-- `authenticate_jws` of backend/src/acme/jws.rs, and the steps that it shares with `new_account` and
-- `revoke_cert` of backend/src/acme/routes.rs.
pub mod Rules
pub mod Requests
pub mod Nonces
use vaul_tls.Base.{ℕ, String, Bool, true, false, not, ◌&&◌, Option, none, some, is_some}
use vaul_tls.Base.Result.{Result, ok, err, ok_or}
use vaul_tls.Base.Action.{Action, ◌>>=◌, ◌>>◌, pure, raise, lift, require, ensure}
use vaul_tls.Text.{Text, text, text_eq}
use vaul_tls.Db.Rows.{Bytes, Db, AccountStatus, AcmeAccount}
use vaul_tls.Db.Nonces.{validate_and_delete_nonce}
use vaul_tls.Db.Accounts.{get_acme_account_i64}
use vaul_tls.Acme.Types.{
  AcmeError, JwsRequest, JwsProtectedHeader, bad_nonce, malformed, unauthorized, server_internal,
  account_does_not_exist,
}
use vaul_tls.Acme.External.{External, Config, Env}
use vaul_tls.Acme.Jws.{parse_jws, verify_signature}
use vaul_tls.Acme.Urls.{parse_kid}

abbrev pub Handler : Type 0 → Type 0
Handler = Action Db AcmeError

abbrev pub or_empty : Option Text → Text
or_empty none = text ""
or_empty (some t) = t

-- The nonce is gone from the table when this returns, also where the request fails later.
unfoldable pub consume_nonce : ℕ → Option Text → Handler (Unit {0})
consume_nonce now nonce db =
    let (valid, db') = validate_and_delete_nonce now (or_empty nonce) db in
    ensure valid (bad_nonce "Nonce is invalid or already used") db'

unfoldable pub check_url : Option Text → Text → Handler (Unit {0})
check_url none expected_url = raise (malformed "JWS protected header missing url")
check_url (some url) expected_url =
    ensure (text_eq url expected_url) (unauthorized "JWS url mismatch")

abbrev pub is_valid : AccountStatus → Bool
is_valid AccountStatus.pending = false
is_valid AccountStatus.valid = true
is_valid AccountStatus.deactivated = false

module _ (x : External) (config : Config) where
  open x use {Json}

  -- The account that a `kid` names, which must be active, and the signature under its key.
  unfoldable pub authenticate_kid : Text → Text → Text → Bytes → Handler AcmeAccount
  authenticate_kid body alg kid signature = do
    account_id ← lift (parse_kid config.vaultls_url kid)
    account ← require (get_acme_account_i64 account_id) account_does_not_exist
    ensure (is_valid account.status) (unauthorized "Account is not active")
    jwk_str ← lift (ok_or account.acme_jwk account_does_not_exist)
    jwk ← lift (ok_or (x.from_str jwk_str) (server_internal "Stored JWK is invalid"))
    req ← lift (ok_or (x.parse_request body) (malformed "Invalid JWS: {e}"))
    lift (verify_signature x alg jwk req.protected req.payload signature)
    pure account

  -- The account and the payload.
  unfoldable pub authenticate_jws : ℕ → Text → Text → Handler (ℕ × Bytes)
  authenticate_jws now body expected_url = do
    parsed ← lift (parse_jws x body)
    let header = parsed.0
    ensure (not (is_some header.jwk && is_some header.kid))
        (malformed "JWS protected header must not contain both jwk and kid")
    consume_nonce now header.nonce
    check_url header.url expected_url
    kid ← lift (ok_or header.kid (malformed "Missing kid in protected header"))
    account ← authenticate_kid body header.alg kid parsed.2
    pure (account.id, parsed.1)
