-- ===== src/Acme/NewAccount/Eab.antt =====
-- `verify_eab` of backend/src/acme/jws.rs: what a verified external account binding has shown.
use vaul_tls.Base.{◌≡◌, refl, ◌∙◌, Bool, true, false, Option, none, some, ap}
use vaul_tls.Base.Result.{ok, ensure, >>=-eq-ok}
use vaul_tls.Text.{Text, text}
use vaul_tls.Text.Laws.{text_eq_iff}
use vaul_tls.Db.Rows.{Bytes}
use vaul_tls.Acme.Types.{AcmeError, JwsProtectedHeader}
use vaul_tls.Acme.External.{External}
use vaul_tls.Acme.Jws.{signing_input, check_eab_kid, verify_eab}
use vaul_tls.Acme.Authenticate.Rules.{StrField, str_at-StrField, ok_or-eq-ok}

-- The three parts of the binding; its header has HS256 and the key id, its payload is the key of the
-- account, and its signature is the MAC of header and payload under the EAB key.
pub record Bound (x : External) (jwk : x.Json) (eab_kid : Text) (eab_hmac_key : Bytes)
    (eab_jws : x.Json) : Type 0 where
  pub protected_b64 : Text
  pub payload_b64 : Text
  pub signature_b64 : Text
  pub protected_bytes : Bytes
  pub header : JwsProtectedHeader x.Json
  pub payload_bytes : Bytes
  pub payload_jwk : x.Json
  pub mac : Bytes
  pub signature : Bytes
  pub protected_shown : StrField x eab_jws (text "protected") protected_b64
  pub payload_shown : StrField x eab_jws (text "payload") payload_b64
  pub signature_shown : StrField x eab_jws (text "signature") signature_b64
  pub protected_decoded : x.decode protected_b64 ≡ some protected_bytes
  pub header_read : x.parse_header protected_bytes ≡ some header
  pub hs256 : header.alg ≡ text "HS256"
  pub kid : header.kid ≡ some eab_kid
  pub payload_decoded : x.decode payload_b64 ≡ some payload_bytes
  pub payload_read : x.from_str payload_bytes ≡ some payload_jwk
  pub same_key : x.json_eq payload_jwk jwk ≡ true
  pub computed : x.hmac eab_hmac_key (signing_input x protected_b64 payload_b64) ≡ ok mac
  pub signature_decoded : x.decode signature_b64 ≡ some signature
  pub equal : x.memcmp_eq mac signature ≡ some true

ensure-true : (b : Bool) (e : AcmeError) {u : Unit {0}} → ensure b e ≡ ok u → b ≡ true
ensure-true false e h = cc
ensure-true true e h = refl

check_eab_kid-ok :
    (x : External) (kid : Option Text) (eab_kid : Text) {u : Unit {0}}
    → check_eab_kid x kid eab_kid ≡ ok u
    → kid ≡ some eab_kid
check_eab_kid-ok x none eab_kid h = cc
check_eab_kid-ok x (some kid) eab_kid h = ap some ((text_eq_iff kid eab_kid).0 (ensure-true _ _ h))

pub verify_eab-Bound :
    (x : External) (jwk : x.Json) (eab_kid : Text) (eab_hmac_key : Bytes) (eab_jws : x.Json)
    → verify_eab x jwk eab_kid eab_hmac_key eab_jws ≡ ok tt
    → Bound x jwk eab_kid eab_hmac_key eab_jws
unfolding verify_eab
verify_eab-Bound x jwk eab_kid eab_hmac_key eab_jws h =
    let (protected_b64, r1, h1) = >>=-eq-ok _ _ h in
    let (payload_b64, r2, h2) = >>=-eq-ok _ _ h1 in
    let (signature_b64, r3, h3) = >>=-eq-ok _ _ h2 in
    let (protected_bytes, r4, h4) = >>=-eq-ok _ _ h3 in
    let (header, r5, h5) = >>=-eq-ok _ _ h4 in
    let (_, r6, h6) = >>=-eq-ok _ _ h5 in
    let (_, r7, h7) = >>=-eq-ok _ _ h6 in
    let (payload_bytes, r8, h8) = >>=-eq-ok _ _ h7 in
    let (payload_jwk, r9, h9) = >>=-eq-ok _ _ h8 in
    let (_, r10, h10) = >>=-eq-ok _ _ h9 in
    let (mac, r11, h11) = >>=-eq-ok _ _ h10 in
    let (signature, r12, h12) = >>=-eq-ok _ _ h11 in
    let (same, r13, h13) = >>=-eq-ok _ _ h12 in
    let is_same : same ≡ true = ensure-true same _ h13 in
    record {
      protected_b64 = protected_b64;
      payload_b64 = payload_b64;
      signature_b64 = signature_b64;
      protected_bytes = protected_bytes;
      header = header;
      payload_bytes = payload_bytes;
      payload_jwk = payload_jwk;
      mac = mac;
      signature = signature;
      protected_shown = str_at-StrField x _ _ _ (ok_or-eq-ok _ _ r1);
      payload_shown = str_at-StrField x _ _ _ (ok_or-eq-ok _ _ r2);
      signature_shown = str_at-StrField x _ _ _ (ok_or-eq-ok _ _ r3);
      protected_decoded = ok_or-eq-ok _ _ r4;
      header_read = ok_or-eq-ok _ _ r5;
      hs256 = (text_eq_iff header.alg (text "HS256")).0 (ensure-true _ _ r6);
      kid = check_eab_kid-ok x header.kid eab_kid r7;
      payload_decoded = ok_or-eq-ok _ _ r8;
      payload_read = ok_or-eq-ok _ _ r9;
      same_key = ensure-true _ _ r10;
      computed = r11;
      signature_decoded = ok_or-eq-ok _ _ r12;
      equal = ok_or-eq-ok _ _ r13 ∙ ap some is_same;
    }
