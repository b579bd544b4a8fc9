-- ===== src/Acme/External.antt =====
-- What the ACME server takes from code outside the repository: serde_json, base64, OpenSSL, the
-- issuance of a certificate (backend/src/certs/tls_cert.rs, OpenSSL calls throughout), the network
-- and the clock.
use vaul_tls.Base.{ℕ, Bool, Option, List}
use vaul_tls.Text.{Text}
use vaul_tls.Db.Rows.{Bytes, Ca}
use vaul_tls.Acme.Types.{Fallible, JwsRequest, JwsProtectedHeader}

-- Functions of their arguments alone.
pub record External : Type 1 where
  -- serde_json's `Value`
  pub Json : Type 0
  -- OpenSSL's `PKey<Public>`
  pub Key : Type 0
  pub from_str : Text → Option Json
  pub to_string : Json → Text
  pub get : Json → Text → Option Json
  pub as_str : Json → Option Text
  pub as_bool : Json → Option Bool
  pub as_array : Json → Option (List Json)
  pub json_eq : Json → Json → Bool
  -- `to_string` of a map from texts to texts
  pub object : List (Text × Text) → Text
  pub parse_request : Text → Option JwsRequest
  pub parse_header : Bytes → Option (JwsProtectedHeader Json)
  -- base64url without padding
  pub decode : Text → Option Bytes
  pub encode : Bytes → Text
  -- the P-256 key with the two coordinates, and the RSA key of a modulus and an exponent
  pub ec_key : Bytes → Bytes → Fallible Key
  pub check_key : Key → Bool
  pub rsa_key : Bytes → Bytes → Fallible Key
  pub rsa_size : Key → ℕ
  -- the DER form of an ECDSA signature's two numbers
  pub ecdsa_der : Bytes → Bytes → Fallible Bytes
  -- SHA-256 verification of a text's signature
  pub verify : Key → Text → Bytes → Fallible Bool
  pub hmac : Bytes → Text → Fallible Bytes
  -- `openssl::memcmp::eq`; `none` is its panic, on slices of different lengths
  pub memcmp_eq : Bytes → Bytes → Option Bool
  pub sha256 : Text → Bytes
  pub key_der : Key → Fallible Bytes
  -- a certificate in DER: whether it parses, its serial and its public key
  pub parse_certificate : Bytes → Option Bytes
  pub certificate_serial : Bytes → Fallible Bytes
  pub certificate_key_der : Bytes → Fallible Bytes
  -- the serial in hex
  pub hex : Bytes → Text
  -- `issue_cert_from_csr`: the chain in PEM and the serial
  pub issue_cert_from_csr : Bytes → Ca → ℕ → List Text → Option (Bytes × Bytes)

-- The settings that the server reads.
pub record Config : Type 0 where
  pub vaultls_url : Text
  pub acme_enabled : Bool
  pub rate_limit_enabled : Bool
  pub rate_limit : ℕ

-- What one request meets: the clock, which stands still while it is handled, the random bytes that
-- it draws, and what the network answers.
pub record Env : Type 0 where
  pub now : ℕ
  pub client_ip : Text
  pub uuid : Text
  pub random_bytes : ℕ → Bytes
  pub http_get : Text → Option Text
  pub txt_record_present : Text → Text → Bool
