-- ===== src/Acme/Revoke/Rules.antt =====
-- What a revocation request does, by cases.
use vaul_tls.Base.{ℕ, ◌≡◌, refl, inl, inr, true, Option, none, some, ◌++◌, Option-cases, Any}
use vaul_tls.Base.Result.{ok, err}
use vaul_tls.Base.Outcome.{
  Outcome, Then, Outcome-require, Outcome-lift, Outcome-ensure, Outcome-gets, Outcome-modify_last,
  Outcome-raise, Outcome-Then,
}
use vaul_tls.Text.{Text, text}
use vaul_tls.Text.Laws.{text_eq_iff}
use vaul_tls.Db.Rows.{Bytes, Db, AcmeAccount}
use vaul_tls.Db.Nonces.{validate_and_delete_nonce}
use vaul_tls.Db.Certs.{get_cert_id_by_serial_hex, revoke_user_cert}
use vaul_tls.Acme.Types.{AcmeError, Fallible, JwsRequest, JwsProtectedHeader, malformed}
use vaul_tls.Acme.External.{External, Config}
use vaul_tls.Acme.Jws.{parse_jws, verify_signature, jwk_to_pkey}
use vaul_tls.Acme.Authenticate.{or_empty}
use vaul_tls.Acme.Authenticate.Rules.{
  SignedBy, authenticate_kid_cases, StrField, str_at-StrField, ok_or-eq-ok, spent,
  Outcome-consume_nonce, Outcome-check_url,
}
use vaul_tls.Acme.Revoke.Rows.{
  check_cert_acme_account-Any, Unrevoked, get_cert_id_by_serial_hex-Unrevoked,
}
use vaul_tls.Acme.Revoke.{revoke_by_account, revoke_by_key, revoke_cert}

-- The account that has signed the request is the one that the certificate was issued to.
pub record ByAccount (x : External) (config : Config) (body alg : Text) (kid : Text)
    (signature : Bytes) (db : Db) (cert_id : ℕ) : Type 0 where
  pub account : AcmeAccount
  pub signed : SignedBy x config body alg kid signature db account
  pub owned : Any (λ row. (row.id ≡ cert_id) × (row.acme_account_id ≡ some account.id)) db.certs

-- The request is signed with the private key of the certificate that it shows.
pub record ByKey (x : External) (alg : Text) (jwk : x.Json) (protected payload : Text)
    (signature certificate : Bytes) : Type 0 where
  pub key : x.Key
  pub public_key : Bytes
  pub verified : verify_signature x alg jwk protected payload signature ≡ ok tt
  pub key_read : jwk_to_pkey x alg jwk ≡ ok key
  pub key_of_jwk : x.key_der key ≡ ok public_key
  pub key_of_certificate : x.certificate_key_der certificate ≡ ok public_key

module _ {κ} (x : External) (config : Config) (now : ℕ) (alg : Text) (signature : Bytes)
    (serial_hex : Text) (db : Db) (Q : Fallible (Unit {0}) → Db → Type κ) where
  revoke_by_account_cases :
      (body kid : Text)
      → ((e : AcmeError) → Q (err e) db)
      → ((cert_id : ℕ)
          → get_cert_id_by_serial_hex serial_hex db ≡ some cert_id
          → ByAccount x config body alg kid signature db cert_id
          → Q (ok tt) (revoke_user_cert now cert_id db))
      → Outcome Q (revoke_by_account x config now body alg kid signature serial_hex) db
  unfolding revoke_by_account
  revoke_by_account_cases body kid refused revoked = Outcome-Then Q _ _ db (
      authenticate_kid_cases x config body db (Then Q _) alg kid signature refused
        (λ account signed.
          Outcome-require Q _ _ _ db
            (λ cert_id found. Outcome-gets Q _ _ db (
              Outcome-ensure Q _ _ _ db
                (λ owned. Outcome-modify_last Q (revoke_user_cert now cert_id) db (
                  revoked cert_id found (record {
                    account = account;
                    signed = signed;
                    owned = check_cert_acme_account-Any cert_id account.id db owned;
                  })))
                (λ _. refused _)))
            (λ _. refused _)))

  revoke_by_key_cases :
      (jwk : x.Json) (protected payload : Text) (certificate : Bytes)
      → ((e : AcmeError) → Q (err e) db)
      → ((cert_id : ℕ)
          → get_cert_id_by_serial_hex serial_hex db ≡ some cert_id
          → ByKey x alg jwk protected payload signature certificate
          → Q (ok tt) (revoke_user_cert now cert_id db))
      → Outcome Q
          (revoke_by_key x config now alg jwk protected payload signature certificate serial_hex)
          db
  unfolding revoke_by_key
  revoke_by_key_cases jwk protected payload certificate refused revoked =
      Outcome-lift Q _ _ db
        (λ _ verified.
          Outcome-lift Q _ _ db
            (λ cert_key of_certificate.
              Outcome-lift Q _ _ db
                (λ key key_read.
                  Outcome-lift Q _ _ db
                    (λ jwk_key of_jwk.
                      Outcome-ensure Q _ _ _ db
                        (λ equal.
                          let same : cert_key ≡ jwk_key = (text_eq_iff cert_key jwk_key).0 equal in
                          Outcome-require Q _ _ _ db
                            (λ cert_id found.
                              Outcome-modify_last Q (revoke_user_cert now cert_id) db (
                                revoked cert_id found (record {
                                  key = key;
                                  public_key = cert_key;
                                  verified = verified;
                                  key_read = key_read;
                                  key_of_jwk = cc;
                                  key_of_certificate = of_certificate;
                                })))
                            (λ _. refused _))
                        (λ _. refused _))
                    (λ e _. refused e))
                (λ e _. refused e))
            (λ e _. refused e))
        (λ e _. refused e)

-- A revocation that has passed its checks, by one of the two ways.
pub data Revocable (x : External) (config : Config) (body : Text)
    (header : JwsProtectedHeader x.Json) (req : JwsRequest) (signature certificate : Bytes)
    (db : Db) (cert_id : ℕ) : Type 0 where
  by_account :
      (kid : Text)
      → header.kid ≡ some kid
      → ByAccount x config body header.alg kid signature db cert_id
      → Revocable x config body header req signature certificate db cert_id
  by_key :
      (jwk : x.Json)
      → header.kid ≡ none
      → header.jwk ≡ some jwk
      → ByKey x header.alg jwk req.protected req.payload signature certificate
      → Revocable x config body header req signature certificate db cert_id

-- What a revocation request has passed.
pub record Revoking (x : External) (config : Config) (now : ℕ) (body : Text) (db : Db)
    (nonce : Option Text) (cert_id : ℕ) : Type 0 where
  pub header : JwsProtectedHeader x.Json
  pub payload_bytes : Bytes
  pub signature : Bytes
  pub req : JwsRequest
  pub payload : x.Json
  pub shown : x.Json
  pub cert_b64 : Text
  pub cert_der : Bytes
  pub certificate : Bytes
  pub serial : Bytes
  pub parsed : parse_jws x body ≡ ok (header, payload_bytes, signature)
  pub nonce_given : header.nonce ≡ nonce
  pub fresh : (validate_and_delete_nonce now (or_empty nonce) db).0 ≡ true
  pub url : header.url ≡ some (config.vaultls_url ++ text "/api/acme/revoke-cert")
  pub request : x.parse_request body ≡ some req
  pub payload_read : x.from_str payload_bytes ≡ some payload
  pub certificate_field : x.get payload (text "certificate") ≡ some shown
  pub shown_text : x.as_str shown ≡ some cert_b64
  pub decoded : x.decode cert_b64 ≡ some cert_der
  pub certificate_read : x.parse_certificate cert_der ≡ some certificate
  pub serial_read : x.certificate_serial certificate ≡ ok serial
  pub found : Unrevoked (x.hex serial) (spent now nonce db) cert_id
  pub allowed :
      Revocable x config body header req signature certificate (spent now nonce db) cert_id

module _ {κ} (x : External) (config : Config) (now : ℕ) (body : Text) (db : Db)
    (Q : Fallible (Unit {0}) → Db → Type κ) where
  pub revoke_cases :
      ((e : AcmeError) → Q (err e) db)
      → ((nonce : Option Text) (e : AcmeError) → Q (err e) (spent now nonce db))
      → ((nonce : Option Text) (cert_id : ℕ)
          → Revoking x config now body db nonce cert_id
          → Q (ok tt) (revoke_user_cert now cert_id (spent now nonce db)))
      → Outcome Q (revoke_cert x config now body) db
  unfolding revoke_cert
  revoke_cases refused same revoked =
      Outcome-lift Q _ _ db
        (λ parsed p.
          let nonce = parsed.0.nonce in
          let db' = spent now nonce db in
          let fail : (e : AcmeError) → Q (err e) db' = same nonce in
          Outcome-ensure Q _ _ _ db
            (λ _.
              Outcome-consume_nonce Q now nonce _ db
                (λ fresh.
                  Outcome-check_url Q (config.vaultls_url ++ text "/api/acme/revoke-cert") _ db'
                    parsed.0.url
                    (λ url.
                      Outcome-lift Q _ _ db'
                        (λ req request.
                          Outcome-lift Q _ _ db'
                            (λ payload payload_read.
                              Outcome-lift Q _ _ db'
                                (λ cert_b64 shown.
                                  Outcome-lift Q _ _ db'
                                    (λ cert_der decoded.
                                      Outcome-lift Q _ _ db'
                                        (λ certificate certificate_read.
                                          Outcome-lift Q _ _ db'
                                            (λ serial serial_read.
                                              let field : StrField x payload (text "certificate")
                                                  cert_b64 =
                                                str_at-StrField x payload (text "certificate")
                                                  cert_b64
                                                  (ok_or-eq-ok _
                                                    (malformed "Missing certificate field")
                                                    shown) in
                                              let given : (cert_id : ℕ)
                                                  → get_cert_id_by_serial_hex (x.hex serial) db'
                                                    ≡ some cert_id
                                                  → Revocable x config body parsed.0 req parsed.2
                                                      certificate db' cert_id
                                                  → Q (ok tt) (revoke_user_cert now cert_id db') =
                                                λ cert_id found allowed.
                                                  revoked nonce cert_id (record {
                                                    header = parsed.0;
                                                    payload_bytes = parsed.1;
                                                    signature = parsed.2;
                                                    req = req;
                                                    payload = payload;
                                                    shown = field.0;
                                                    cert_b64 = cert_b64;
                                                    cert_der = cert_der;
                                                    certificate = certificate;
                                                    serial = serial;
                                                    parsed = p;
                                                    nonce_given = refl;
                                                    fresh = fresh;
                                                    url = url;
                                                    request = ok_or-eq-ok _ _ request;
                                                    payload_read = ok_or-eq-ok _ _ payload_read;
                                                    certificate_field = field.1;
                                                    shown_text = field.2;
                                                    decoded = ok_or-eq-ok _ _ decoded;
                                                    certificate_read =
                                                        ok_or-eq-ok _ _ certificate_read;
                                                    serial_read = serial_read;
                                                    found =
                                                        get_cert_id_by_serial_hex-Unrevoked _ _
                                                          cert_id found;
                                                    allowed = allowed;
                                                  }) in
                                              elim (Option-cases parsed.0.kid) [
                                                | inr (kid, by_kid) ↦ rw by_kid (
                                                    revoke_by_account_cases x config now
                                                      parsed.0.alg parsed.2 (x.hex serial) db' Q
                                                      body kid fail
                                                      (λ cert_id found own.
                                                        given cert_id found
                                                          (by_account kid by_kid own)))
                                                | inl no_kid ↦
                                                    rw no_kid (elim (Option-cases parsed.0.jwk) [
                                                      | inl no_jwk ↦
                                                          rw no_jwk (Outcome-raise Q _ db' (fail _))
                                                      | inr (jwk, given_jwk) ↦ rw given_jwk (
                                                          revoke_by_key_cases x config now
                                                            parsed.0.alg parsed.2 (x.hex serial) db'
                                                            Q jwk req.protected req.payload
                                                            certificate fail
                                                            (λ cert_id found own.
                                                            given cert_id found
                                                            (by_key jwk no_kid given_jwk own)))
                                                    ])
                                              ])
                                            (λ e _. fail e))
                                        (λ e _. fail e))
                                    (λ e _. fail e))
                                (λ e _. fail e))
                            (λ e _. fail e))
                        (λ e _. fail e))
                    fail)
                fail)
            (λ _. refused _))
        (λ e _. refused e)
