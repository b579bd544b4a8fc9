-- ===== src/Acme/Tests.antt =====
-- A stand-in for the code outside the repository, and a database with one account, for the tests.
-- A JSON value is its text; a member's value is the member's name but for a few.
mod Requests
mod Histories
use vaul_tls.Base.{ℕ, Bool, true, false, Option, none, some, List, [], ◌∷◌, if◌then◌else◌}
use vaul_tls.Base.Result.{Result, ok, err}
use vaul_tls.Text.{Text, text, text_eq}
use vaul_tls.Session.{Claims, UserRole}
use vaul_tls.Db.Rows.{
  Bytes, Db, NonceRow, AcmeAccount, AccountStatus, AcmeIdentifier, IdentifierStatus, AcmeOrderRow,
  OrderStatus, CertificateRow, CertificateType, CertificateRenewMethod, Name, Ca, CaType,
}
use vaul_tls.Acme.Types.{JwsRequest, JwsProtectedHeader}
use vaul_tls.Acme.External.{External, Config, Env}

unfoldable pub toy_get : Text → Text → Option Text
unfolding text_eq
toy_get v key =
    if text_eq key (text "kty")
    then some (text "EC")
    else if text_eq key (text "type")
    then some (text "dns")
    else if text_eq key (text "value")
    then some v
    else if text_eq key (text "onlyReturnExisting")
    then none
    else some key

abbrev header_of : Text → Option Text → Option Text → Text → JwsProtectedHeader Text
header_of nonce jwk kid url = record {
  alg = text "ES256";
  nonce = some nonce;
  url = some url;
  jwk = jwk;
  kid = kid;
}

-- By the body: a registration, an order, a revocation; else an external account binding.
unfoldable pub toy_header : Bytes → JwsProtectedHeader Text
unfolding text_eq
toy_header b =
    if text_eq b (text "register")
    then header_of (text "n1") (some (text "key")) none (text "/api/acme/new-account")
    else if text_eq b (text "order")
    then header_of (text "n2") none (some (text "/api/acme/account/1")) (text "/api/acme/new-order")
    else if text_eq b (text "revoke")
    then header_of (text "n2") none (some (text "/api/acme/account/1"))
        (text "/api/acme/revoke-cert")
    else record {
      alg = text "HS256";
      nonce = none;
      url = none;
      jwk = none;
      kid = some (text "kid");
    }

abbrev pub toy : External
toy = record {
  Json = Text;
  Key = ℕ;
  from_str = λ t. some t;
  to_string = λ v. v;
  get = toy_get;
  as_str = λ v. some v;
  as_bool = λ v. none;
  as_array = λ v. some (text "www.example.com" ∷ []);
  json_eq = λ v w. true;
  object = λ members. text "object";
  parse_request =
      λ body. some (record { protected = body; payload = text "payload"; signature = text "sign" });
  parse_header = λ b. some (toy_header b);
  decode = λ t. some t;
  encode = λ b. b;
  ec_key = λ a b. ok 1;
  check_key = λ k. true;
  rsa_key = λ a b. ok 2;
  rsa_size = λ k. 256;
  ecdsa_der = λ r s. ok r;
  verify = λ k t s. ok true;
  hmac = λ k t. ok (text "mac");
  memcmp_eq = λ a b. some true;
  sha256 = λ t. t;
  key_der = λ k. ok (text "der");
  parse_certificate = λ b. some b;
  certificate_serial = λ b. ok (text "01");
  certificate_key_der = λ b. ok (text "der");
  hex = λ b. b;
  issue_cert_from_csr = λ csr ca days names. some (text "-----BEGIN CERTIFICATE-----", text "01");
}

abbrev pub toy_config : Config
toy_config = record {
  vaultls_url = [];
  acme_enabled = true;
  rate_limit_enabled = true;
  rate_limit = 2;
}

abbrev pub toy_env : ℕ → Text → Env
toy_env now uuid = record {
  now = now;
  client_ip = text "10.0.0.1";
  uuid = uuid;
  random_bytes = λ n. text "token";
  http_get = λ url. none;
  txt_record_present = λ name value. true;
}

abbrev pub toy_account : AcmeAccount
toy_account = record {
  id = 1;
  name = text "ci";
  allowed_domains = text "*.example.com";
  eab_kid = text "kid";
  eab_hmac_key = text "hmac";
  acme_jwk = some (text "key");
  jwk_thumbprint = some (text "object");
  status = AccountStatus.valid;
  ca_id = none;
  contacts = [];
  created_on = 0;
  user_id = 1;
  auto_validate = false;
}

abbrev pub unbound_account : AcmeAccount
unbound_account = record toy_account {
  acme_jwk = none;
  jwk_thumbprint = none;
  status = AccountStatus.pending;
}

abbrev pub toy_identifier : IdentifierStatus → AcmeIdentifier
toy_identifier status = record {
  identifier_type = text "dns";
  value = text "www.example.com";
  token = text "token";
  status = status;
}

abbrev pub toy_order : OrderStatus → IdentifierStatus → AcmeOrderRow
toy_order status identifier_status = record {
  id = 1;
  account_id = 1;
  status = status;
  identifiers = toy_identifier identifier_status ∷ [];
  not_after = 7_776_000_000;
  expires = 86_400_000;
  certificate_id = none;
  created_on = 0;
  client_ip = none;
  error = none;
}

abbrev pub other_order : AcmeOrderRow
other_order = record (toy_order OrderStatus.pending IdentifierStatus.pending) {
  id = 2;
  account_id = 2;
}

abbrev pub toy_cert : CertificateRow
toy_cert = record {
  id = 1;
  name = record { cn = text "www.example.com"; ou = none };
  created_on = 0;
  valid_until = 7_776_000_000;
  bytes = text "-----BEGIN CERTIFICATE-----";
  password = [];
  certificate_type = CertificateType.tls_server;
  renew_method = CertificateRenewMethod.no_renewal;
  ca_id = some 1;
  user_id = 1;
  revoked_at = none;
  acme_provider_id = none;
  acme_account_id = some 1;
  serial_hex = some (text "01");
  version = 1;
  fingerprint = none;
  is_imported = false;
}

abbrev pub toy_db : List AcmeAccount → List AcmeOrderRow → Db
toy_db accounts orders = record {
  nonces =
      record { nonce = text "n1"; created_on = 0 }
      ∷ record { nonce = text "n2"; created_on = 0 }
      ∷ [];
  accounts = accounts;
  orders = orders;
  certs = toy_cert ∷ [];
  versions = [];
  cas =
      record {
        id = 1;
        name = record { cn = text "ca"; ou = none };
        created_on = 0;
        valid_until = none;
        ca_type = CaType.tls;
        cert = text "cert";
        key = text "key";
        crl_number = 0;
        is_imported = Bool.false;
      }
      ∷ [];
}

abbrev pub toy_admin : Claims
toy_admin = record {
  jti = text "j";
  id = 1;
  role = UserRole.admin;
  exp = 3600;
  service = none;
  is_local = true;
}
