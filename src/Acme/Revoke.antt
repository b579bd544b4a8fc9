-- ===== src/Acme/Revoke.antt =====
-- `revoke_cert` and `download_cert` of backend/src/acme/routes.rs.
pub mod Rules
pub mod Rows
pub mod Permission
use vaul_tls.Base.{
  ℕ, Bool, true, false, not, ◌&&◌, Option, none, some, ◌++◌, is_some, if◌then◌else◌,
}
use vaul_tls.Base.Result.{Result, ok, err, ok_or}
use vaul_tls.Base.Action.{◌>>=◌, ◌>>◌, pure, raise, lift, gets, modify, require, ensure}
use vaul_tls.Text.{Text, text, text_eq, strip_prefix, starts_with}
use vaul_tls.Text.Decimal.{ℤ, pos, negsuc}
use vaul_tls.Db.Rows.{Bytes, Db, CertificateRow, CertificateType}
use vaul_tls.Db.Certs.{
  get_user_cert_by_id, check_cert_acme_account, get_cert_id_by_serial_hex, revoke_user_cert,
}
use vaul_tls.Acme.Types.{AcmeError, malformed, unauthorized, not_found}
use vaul_tls.Acme.External.{External, Config}
use vaul_tls.Acme.Jws.{str_at, parse_jws, verify_signature, jwk_to_pkey}
use vaul_tls.Acme.Authenticate.{Handler, consume_nonce, check_url, authenticate_kid}

abbrev pub get_user_cert_by_i64 : ℤ → Db → Option CertificateRow
get_user_cert_by_i64 (pos id) db = get_user_cert_by_id id db
get_user_cert_by_i64 (negsuc n) db = none

-- `CertData::Pem` of `Certificate::from_row` (backend/src/certs/common.rs)
unfoldable pub is_pem : CertificateRow → Bool
is_pem cert = elim cert.certificate_type [
  | CertificateType.ssh_client ↦ false
  | CertificateType.ssh_server ↦ false
  | _ ↦ starts_with (text "-----BEGIN CERTIFICATE-----") cert.bytes
]

unfoldable pub download_cert : ℕ → ℤ → Handler Bytes
download_cert account_id id = do
  cert ← require (get_user_cert_by_i64 id) not_found
  owned ← gets (check_cert_acme_account cert.id account_id)
  ensure owned (unauthorized "Certificate does not belong to this account")
  ensure (is_pem cert) (malformed "Certificate is not in PEM format")
  pure cert.bytes

module _ (x : External) (config : Config) where
  open x use {Json}

  -- By the account key: the account must own the certificate.
  unfoldable pub revoke_by_account : ℕ → Text → Text → Text → Bytes → Text → Handler (Unit {0})
  revoke_by_account now body alg kid signature serial_hex = do
    account ← authenticate_kid x config body alg kid signature
    cert_id ← require (get_cert_id_by_serial_hex serial_hex) not_found
    owned ← gets (check_cert_acme_account cert_id account.id)
    ensure owned (unauthorized "Certificate does not belong to this account")
    modify (revoke_user_cert now cert_id)

  -- By the certificate's own key.
  unfoldable pub revoke_by_key :
      ℕ → Text → Json → Text → Text → Bytes → Bytes → Text → Handler (Unit {0})
  revoke_by_key now alg jwk protected payload signature certificate serial_hex = do
    lift (verify_signature x alg jwk protected payload signature)
    cert_pubkey_der ← lift (x.certificate_key_der certificate)
    jwk_pkey ← lift (jwk_to_pkey x alg jwk)
    jwk_pubkey_der ← lift (x.key_der jwk_pkey)
    ensure (text_eq cert_pubkey_der jwk_pubkey_der)
        (unauthorized "JWK does not match certificate public key")
    cert_id ← require (get_cert_id_by_serial_hex serial_hex) not_found
    modify (revoke_user_cert now cert_id)

  unfoldable pub revoke_cert : ℕ → Text → Handler (Unit {0})
  revoke_cert now body = do
    parsed ← lift (parse_jws x body)
    let header = parsed.0
    ensure (not (is_some header.jwk && is_some header.kid))
        (malformed "JWS protected header must not contain both jwk and kid")
    consume_nonce now header.nonce
    check_url header.url (config.vaultls_url ++ text "/api/acme/revoke-cert")
    req ← lift (ok_or (x.parse_request body) (malformed "Invalid JWS: {e}"))
    payload ← lift (ok_or (x.from_str parsed.1) (malformed "Invalid payload: {e}"))
    cert_b64 ←
        lift (ok_or (str_at x payload (text "certificate")) (malformed "Missing certificate field"))
    cert_der ← lift (ok_or (x.decode cert_b64) (malformed "Invalid base64url encoding"))
    certificate ← lift (ok_or (x.parse_certificate cert_der) (malformed "Invalid certificate DER"))
    serial_bytes ← lift (x.certificate_serial certificate)
    let serial_hex = x.hex serial_bytes
    elim header.kid [
      | some kid ↦ revoke_by_account now body header.alg kid parsed.2 serial_hex
      | none ↦ elim header.jwk [
        | some jwk ↦
            revoke_by_key now header.alg jwk req.protected req.payload parsed.2 certificate
              serial_hex
        | none ↦ raise (malformed "Revocation request must include either kid or jwk")
      ]
    ]
