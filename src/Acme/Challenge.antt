-- ===== src/Acme/Challenge.antt =====
-- `get_authz` and `get_challenge` of backend/src/acme/routes.rs.
pub mod Tries
pub mod Recorded
pub mod Rules
pub mod Validation
use vaul_tls.Base.{
  ℕ, Bool, true, false, not, ◌&&◌, ◌||◌, Option, none, some, List, [], ◌∷◌, ◌++◌, get_elem?, all,
  if◌then◌else◌,
}
use vaul_tls.Base.Result.{Result, ok, err, ok_or}
use vaul_tls.Base.Action.{◌>>=◌, ◌>>◌, pure, raise, lift, gets, modify, require, ensure}
use vaul_tls.Text.{Text, text, text_eq, is_empty, trim, strip_prefix, starts_with}
use vaul_tls.Text.Decimal.{ℤ, pos}
use vaul_tls.Db.Rows.{
  Bytes, Db, AcmeAccount, AcmeIdentifier, IdentifierStatus, AcmeOrderRow, OrderStatus,
}
use vaul_tls.Db.Accounts.{get_acme_account}
use vaul_tls.Db.Orders.{
  get_acme_order, update_acme_order_status, update_acme_order_identifier_status,
}
use vaul_tls.Acme.Types.{
  AcmeError, AcmeAuthorization, AcmeChallenge, malformed, unauthorized, not_found, server_internal,
  account_does_not_exist,
}
use vaul_tls.Acme.External.{External, Config, Env}
use vaul_tls.Acme.Jws.{jwk_thumbprint}
use vaul_tls.Acme.Urls.{parse_authz_id, chall_url}
use vaul_tls.Acme.Authenticate.{Handler}
use vaul_tls.Acme.NewOrder.{owned_order}

abbrev pub is_wildcard : AcmeIdentifier → Bool
is_wildcard identifier = starts_with (text "*.") identifier.value

abbrev pub is_validated : AcmeIdentifier → Bool
is_validated identifier = elim identifier.status [ IdentifierStatus.valid ↦ true | _ ↦ false ]

abbrev pub or_self : Option Text → Text → Text
or_self none t = t
or_self (some s) t = s

abbrev pub all_validated : Option AcmeOrderRow → Bool
all_validated none = false
all_validated (some order) = all is_validated order.identifiers

-- The identifier is validated, and the order is ready once all of its identifiers are.
unfoldable pub record_valid : ℕ → ℕ → Db → Db
record_valid order_id domain_idx db =
    let db' = update_acme_order_identifier_status order_id domain_idx IdentifierStatus.valid db in
    if all_validated (get_acme_order order_id db')
    then update_acme_order_status order_id OrderStatus.ready none none db'
    else db'

unfoldable pub record_invalid : ℕ → ℕ → Text → Db → Db
record_invalid order_id domain_idx message db =
    update_acme_order_status order_id OrderStatus.invalid none (some message)
      (update_acme_order_identifier_status order_id domain_idx IdentifierStatus.invalid db)

module _ (x : External) (config : Config) where
  unfoldable pub challenge_of : ℕ → AcmeIdentifier → Text → ℕ → Text → AcmeChallenge
  challenge_of order_id identifier token domain_idx challenge_type = record {
    challenge_type = challenge_type;
    url = chall_url config.vaultls_url order_id challenge_type domain_idx;
    token = token;
    status = identifier.status;
  }

  -- A token is drawn only where the stored one is empty.
  unfoldable pub get_authz : Env → ℕ → Text → Handler AcmeAuthorization
  get_authz env account_id authz_id = do
    ids ← lift (parse_authz_id authz_id)
    order ←
        owned_order ids.0 account_id (unauthorized "Authorization does not belong to this account")
    identifier ← lift (ok_or (get_elem? order.identifiers ids.1) not_found)
    let token =
        if is_empty identifier.token then x.encode (env.random_bytes 0) else identifier.token
    let dns_challenge = challenge_of order.id identifier token ids.1 (text "dns-01")
    let http_challenge = challenge_of order.id identifier token ids.1 (text "http-01")
    pure (record {
      identifier = identifier;
      status = identifier.status;
      challenges =
          if is_wildcard identifier
          then dns_challenge ∷ []
          else http_challenge ∷ dns_challenge ∷ [];
    })

  abbrev pub domain_for_dns : AcmeIdentifier → Text
  domain_for_dns identifier = or_self (strip_prefix (text "*.") identifier.value) identifier.value

  -- What the network says of an identifier.
  unfoldable pub validation_passes : Env → Text → AcmeIdentifier → Text → Bool
  validation_passes env challenge_type identifier expected_key_auth =
      if text_eq challenge_type (text "dns-01")
      then env.txt_record_present (domain_for_dns identifier)
          (x.encode (x.sha256 expected_key_auth))
      else elim (env.http_get (
          text "http://"
          ++ (identifier.value ++ (text "/.well-known/acme-challenge/" ++ identifier.token)))) [
            | none ↦ false
            | some body_text ↦ text_eq (trim body_text) expected_key_auth
          ]

  abbrev pub challenge_reply : ℕ → AcmeIdentifier → Text → ℕ → AcmeChallenge
  challenge_reply order_id identifier challenge_type domain_idx = record {
    challenge_type = challenge_type;
    url = chall_url config.vaultls_url order_id challenge_type domain_idx;
    token = identifier.token;
    status = IdentifierStatus.valid;
  }

  unfoldable pub key_authorization : ℕ → AcmeIdentifier → Handler (AcmeAccount × Text)
  key_authorization account_id identifier = do
    account ← require (get_acme_account account_id) (server_internal "Account lookup failed")
    jwk_str ← lift (ok_or account.acme_jwk account_does_not_exist)
    jwk ← lift (ok_or (x.from_str jwk_str) (server_internal "Stored JWK is invalid"))
    thumbprint ← lift (jwk_thumbprint x jwk)
    pure (account, identifier.token ++ (text "." ++ thumbprint))

  -- An identifier that is not validated yet.
  unfoldable pub attempt : Env → ℕ → ℕ → Text → ℕ → AcmeIdentifier → Handler AcmeChallenge
  attempt env account_id order_id challenge_type domain_idx identifier = do
    ensure (not (is_wildcard identifier && text_eq challenge_type (text "http-01")))
        (malformed "Wildcard identifiers require dns-01 challenge")
    key ← key_authorization account_id identifier
    let message = challenge_type ++ (text " validation failed for " ++ identifier.value)
    if key.0.auto_validate || validation_passes env challenge_type identifier key.1
        then (do
          modify (record_valid order_id domain_idx)
          pure (challenge_reply order_id identifier challenge_type domain_idx))
        else (do
          modify (record_invalid order_id domain_idx message)
          raise (unauthorized "{challenge_type} validation failed for {domain}"))

  unfoldable pub get_challenge : Env → ℕ → ℤ → Text → ℕ → Handler AcmeChallenge
  get_challenge env account_id order_id challenge_type domain_idx = do
    ensure (text_eq challenge_type (text "http-01") || text_eq challenge_type (text "dns-01"))
        (malformed "Unsupported challenge type: {challenge_type}")
    order ←
        owned_order order_id account_id (unauthorized "Challenge does not belong to this account")
    identifier ← lift (ok_or (get_elem? order.identifiers domain_idx) not_found)
    if is_validated identifier
        then pure (challenge_reply order.id identifier challenge_type domain_idx)
        else attempt env account_id order.id challenge_type domain_idx identifier
