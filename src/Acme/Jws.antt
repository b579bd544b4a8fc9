-- ===== src/Acme/Jws.antt =====
-- backend/src/acme/jws.rs: parsing, signatures, external account binding, thumbprints. The
-- authentication of a request stands in Acme/Authenticate.
use vaul_tls.Base.{
  String, ◌/◌, not, Option, none, some, [], ◌∷◌, ◌++◌, ltb, length, take, drop, if◌then◌else◌,
}
use vaul_tls.Base.Result.{ok, err, ok_or, ensure, ◌>>=◌, ◌>>◌}
use vaul_tls.Text.{Text, text, text_eq, is_empty}
use vaul_tls.Db.Rows.{Bytes}
use vaul_tls.Acme.Types.{Fallible, JwsProtectedHeader, malformed, panicked}
use vaul_tls.Acme.External.{External}

module _ (x : External) where
  open x use {Json, Key}

  -- `v[key].as_str()`
  abbrev pub str_at : Json → Text → Option Text
  str_at v key = elim (x.get v key) [ none ↦ none | some w ↦ x.as_str w ]

  abbrev pub decode_or_malformed : Text → Fallible Bytes
  decode_or_malformed t = ok_or (x.decode t) (malformed "Invalid base64url encoding")

  -- The header, the payload and the signature.
  unfoldable pub parse_jws : Text → Fallible (JwsProtectedHeader Json × Bytes × Bytes)
  parse_jws body = do
    req ← ok_or (x.parse_request body) (malformed "Invalid JWS JSON: {e}")
    protected_bytes ← decode_or_malformed req.protected
    header ← ok_or (x.parse_header protected_bytes) (malformed "Invalid protected header: {e}")
    payload_bytes ← if is_empty req.payload then ok [] else decode_or_malformed req.payload
    signature_bytes ← decode_or_malformed req.signature
    ok (header, payload_bytes, signature_bytes)

  unfoldable pub ecdsa_raw_to_der : Bytes → Fallible Bytes
  ecdsa_raw_to_der signature =
      let half = length signature / 2 in x.ecdsa_der (take half signature) (drop half signature)

  abbrev pub signing_input : Text → Text → Text
  signing_input protected_b64 payload_b64 = protected_b64 ++ (text "." ++ payload_b64)

  -- The key with the two base64url numbers of a JWK.
  abbrev jwk_key : (Bytes → Bytes → Fallible Key) → Json → String → String → Fallible Key
  jwk_key build key_data first second = do
    a_b64 ← ok_or (str_at key_data (text first)) (malformed "JWK missing {}")
    b_b64 ← ok_or (str_at key_data (text second)) (malformed "JWK missing {}")
    a_bytes ← decode_or_malformed a_b64
    b_bytes ← decode_or_malformed b_b64
    build a_bytes b_bytes

  abbrev pub ec_jwk_key : Json → Fallible Key
  ec_jwk_key key_data = jwk_key x.ec_key key_data "x" "y"

  abbrev pub rsa_jwk_key : Json → Fallible Key
  rsa_jwk_key key_data = jwk_key x.rsa_key key_data "n" "e"

  unfoldable pub verify_es256 : Json → Text → Bytes → Fallible (Unit {0})
  verify_es256 key_data input signature = do
    pkey ← ec_jwk_key key_data
    ensure (x.check_key pkey) (malformed "Invalid EC public key: point check failed")
    der_sig ← ecdsa_raw_to_der signature
    valid ← x.verify pkey input der_sig
    ensure valid (malformed "Signature verification failed")

  unfoldable pub verify_rs256 : Json → Text → Bytes → Fallible (Unit {0})
  verify_rs256 key_data input signature = do
    pkey ← rsa_jwk_key key_data
    ensure (not (ltb (x.rsa_size pkey) 256)) (malformed "RSA key must be at least 2048 bits")
    valid ← x.verify pkey input signature
    ensure valid (malformed "Signature verification failed")

  unfoldable pub verify_signature : Text → Json → Text → Text → Bytes → Fallible (Unit {0})
  verify_signature alg key_data protected_b64 payload_b64 signature =
      let input = signing_input protected_b64 payload_b64 in
      if text_eq alg (text "ES256")
      then verify_es256 key_data input signature
      else if text_eq alg (text "RS256")
      then verify_rs256 key_data input signature
      else err (malformed "Unsupported algorithm: {other}")

  abbrev pub check_eab_kid : Option Text → Text → Fallible (Unit {0})
  check_eab_kid none eab_kid = err (malformed "EAB protected header missing kid")
  check_eab_kid (some kid) eab_kid =
      ensure (text_eq kid eab_kid) (malformed "EAB kid mismatch: expected {eab_kid}, got {kid}")

  unfoldable pub verify_eab : Json → Text → Bytes → Json → Fallible (Unit {0})
  verify_eab outer_jwk eab_kid eab_hmac_key eab_jws = do
    protected_b64 ← ok_or (str_at eab_jws (text "protected")) (malformed "EAB missing protected")
    payload_b64 ← ok_or (str_at eab_jws (text "payload")) (malformed "EAB missing payload")
    signature_b64 ← ok_or (str_at eab_jws (text "signature")) (malformed "EAB missing signature")
    protected_bytes ← decode_or_malformed protected_b64
    header ← ok_or (x.parse_header protected_bytes) (malformed "Invalid EAB protected header: {e}")
    ensure (text_eq header.alg (text "HS256")) (malformed "EAB algorithm must be HS256, got {}")
    check_eab_kid header.kid eab_kid
    payload_bytes ← decode_or_malformed payload_b64
    payload_jwk ← ok_or (x.from_str payload_bytes) (malformed "Invalid EAB payload JSON: {e}")
    ensure (x.json_eq payload_jwk outer_jwk) (malformed "EAB payload does not match account JWK")
    computed_mac ← x.hmac eab_hmac_key (signing_input protected_b64 payload_b64)
    provided_mac ← decode_or_malformed signature_b64
    same ← ok_or (x.memcmp_eq computed_mac provided_mac) panicked
    ensure same (malformed "EAB signature verification failed")

  unfoldable pub jwk_to_pkey : Text → Json → Fallible Key
  jwk_to_pkey alg key_data =
      if text_eq alg (text "ES256")
      then ec_jwk_key key_data
      else if text_eq alg (text "RS256")
      then rsa_jwk_key key_data
      else err (malformed "Unsupported algorithm: {other}")

  -- The JWK's required members in lexicographic order (RFC 7638).
  unfoldable pub canonical_jwk : Json → Text → Fallible Text
  canonical_jwk jwk kty =
      if text_eq kty (text "EC")
      then (do
        crv ← ok_or (str_at jwk (text "crv")) (malformed "EC JWK missing crv")
        x' ← ok_or (str_at jwk (text "x")) (malformed "EC JWK missing x")
        y ← ok_or (str_at jwk (text "y")) (malformed "EC JWK missing y")
        ok (
            x.object
              ((text "crv", crv) ∷ (text "kty", text "EC") ∷ (text "x", x') ∷ (text "y", y) ∷ [])))
      else if text_eq kty (text "RSA")
      then (do
        e ← ok_or (str_at jwk (text "e")) (malformed "RSA JWK missing e")
        n ← ok_or (str_at jwk (text "n")) (malformed "RSA JWK missing n")
        ok (x.object ((text "e", e) ∷ (text "kty", text "RSA") ∷ (text "n", n) ∷ [])))
      else err (malformed "Unsupported JWK kty: {other}")

  unfoldable pub jwk_thumbprint : Json → Fallible Text
  jwk_thumbprint jwk = do
    kty ← ok_or (str_at jwk (text "kty")) (malformed "JWK missing kty")
    canonical ← canonical_jwk jwk kty
    ok (x.encode (x.sha256 canonical))
