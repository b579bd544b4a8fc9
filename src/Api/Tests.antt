-- ===== src/Api/Tests.antt =====
-- A small installation: an administrator, a user, a CA and two certificates; and test functions for
-- what the program does not implement.
pub mod Access
pub mod Accounts
pub mod Contents
use vaul_tls.Base.{ℕ, Bool, true, false, Option, none, some, List, [], ◌∷◌, ◌==◌, if◌then◌else◌}
use vaul_tls.Base.Result.{Result, ok, err}
use vaul_tls.Text.{Text, text, text_eq}
use vaul_tls.Session.{Claims, UserRole, human_claims}
use vaul_tls.Db.Rows.{
  Bytes, Db, CertificateRow, CertificateType, CertificateRenewMethod, VersionRow, Ca, CaType,
}
use vaul_tls.Db.Users.{User, Password}
use vaul_tls.Db.ServiceAccounts.{ServiceAccount}
use vaul_tls.Groups.{Group, Groups}
use vaul_tls.Api.Errors.{ApiError, other}
use vaul_tls.Api.State.{AppState, Authenticated}
use vaul_tls.Api.Import.{X509, Pki, ImportCertForm}
use vaul_tls.Api.Users.{Passwords}

abbrev pub root_cert : X509
root_cert = record {
  der = text "root";
  serial = text "r";
  common_name = some (text "Root");
  subject = text "CN=Root";
  issuer = text "CN=Root";
  not_before = 0;
  not_after = 9000;
  subject_key_id = none;
  authority_key_id = none;
  digest = some (text "fr");
}

abbrev pub leaf_cert : X509
leaf_cert = record {
  der = text "leaf";
  serial = text "n";
  common_name = some (text "web");
  subject = text "CN=web";
  issuer = text "CN=Root";
  not_before = 400;
  not_after = 5000;
  subject_key_id = none;
  authority_key_id = none;
  digest = some (text "fn");
}

-- Whatever the files hold, they are the leaf above and its key.
abbrev pub test_pki : Pki
test_pki = record {
  parse_pkcs12 = λ bytes password. ok (leaf_cert, root_cert ∷ []);
  parse_pem_bundle = λ bytes. ok (leaf_cert ∷ []);
  parse_cert = λ bytes. ok root_cert;
  parse_private_key = λ bytes. ok bytes;
  build_pkcs12 = λ leaf key chain password. ok (text "new");
  from_der = λ bytes. if text_eq bytes (text "root") then some root_cert else none;
  verify_signed_by = λ cert issuer. text_eq cert.issuer issuer.subject;
  get_serial = λ bytes password. some (text "n");
  get_fingerprint = λ bytes password. ok (text "fn");
}

abbrev pub test_passwords : Passwords
test_passwords = record {
  verify = λ hash password. text_eq password (text "secret");
  new_server_hash = λ password. ok (Password.v2 password);
  new_double_hash = λ password. ok (Password.v2 password);
}

abbrev pub web : CertificateRow
web = record {
  id = 5;
  name = record { cn = text "web"; ou = none };
  created_on = 100;
  valid_until = 2000;
  bytes = text "old";
  password = text "pw";
  certificate_type = CertificateType.tls_server;
  renew_method = CertificateRenewMethod.notify;
  ca_id = some 1;
  user_id = 2;
  revoked_at = none;
  acme_provider_id = none;
  acme_account_id = none;
  serial_hex = some (text "0b");
  version = 2;
  fingerprint = some (text "fo");
  is_imported = true;
}

abbrev pub web_v1 : VersionRow
web_v1 = record {
  id = 1;
  cert_id = 5;
  version = 1;
  bytes = text "older";
  password = text "pw1";
  created_on = 10;
  valid_until = 1000;
  serial_hex = some (text "0a");
  ca_id = some 1;
  fingerprint = text "f1";
  replaced_at = 100;
  replaced_by = some 2;
}

abbrev pub root_ca : Ca
root_ca = record {
  id = 1;
  name = record { cn = text "Root"; ou = none };
  created_on = 0;
  valid_until = some 9000;
  ca_type = CaType.tls;
  cert = text "root";
  key = text "k";
  crl_number = 0;
  is_imported = true;
}

abbrev pub test_db : Db
test_db = record {
  nonces = [];
  accounts = [];
  orders = [];
  certs = web ∷ [];
  versions = web_v1 ∷ [];
  cas = root_ca ∷ [];
}

abbrev pub ada : User
ada = record {
  id = 1;
  name = text "Ada";
  email = text "ada@x";
  password_hash = some (Password.v2 (text "secret"));
  oidc_id = none;
  role = UserRole.admin;
}

abbrev pub bob : User
bob = record {
  id = 2;
  name = text "Bob";
  email = text "bob@x";
  password_hash = some (Password.v2 (text "secret"));
  oidc_id = none;
  role = UserRole.user;
}

abbrev pub robot : ServiceAccount
robot = record {
  id = 3;
  name = text "ci";
  client_id = text "c3";
  secret_hash = text "h";
  user_id = 2;
  scopes = text "cert:read" ∷ [];
  created_at = 0;
  last_used_at = none;
  revoked = false;
}

abbrev pub no_groups : Groups
no_groups = record { groups = []; group_users = []; group_certs = [] }

abbrev pub installed : AppState
installed = record {
  settings = record { password_enabled = true; oidc_auth_url = []; default_language = text "en" };
  db = test_db;
  groups = no_groups;
  users = ada ∷ bob ∷ [];
  service_accounts = robot ∷ [];
  audit = [];
  sessions = [];
}

abbrev pub as_ada : Authenticated
as_ada = record {
  claims = human_claims 0 (text "j1") 1 UserRole.admin true;
  ip = some (text "10.0.0.1");
  now = 500;
}

abbrev pub as_bob : Authenticated
as_bob = record { claims = human_claims 0 (text "j2") 2 UserRole.user true; ip = none; now = 500 }

abbrev pub renewed_files : ImportCertForm
renewed_files = record {
  p12 = some (text "p12");
  password = some (text "pw2");
  cert = none;
  key = none;
  chain = none;
  user_id = 2;
  ca_id = none;
  cert_type = none;
  renew_method = none;
  force = none;
}
