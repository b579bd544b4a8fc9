-- ===== src/Db/Rows.antt =====
-- Row types, and the database as the record of its tables.
use vaul_tls.Base.{ℕ, Bool, Option, List}
use vaul_tls.Text.{Text}

abbrev pub Bytes : Type 0
Bytes = List ℕ

pub data AccountStatus : Type 0 where
  pending valid deactivated : AccountStatus

pub record AcmeAccount : Type 0 where
  pub id : ℕ
  pub name : Text
  pub allowed_domains : Text
  pub eab_kid : Text
  pub eab_hmac_key : Bytes
  pub acme_jwk : Option Text
  pub jwk_thumbprint : Option Text
  pub status : AccountStatus
  pub ca_id : Option ℕ
  pub contacts : Text
  pub created_on : ℕ
  pub user_id : ℕ
  pub auto_validate : Bool

pub data IdentifierStatus : Type 0 where
  pending valid invalid : IdentifierStatus

pub record AcmeIdentifier : Type 0 where
  pub identifier_type : Text
  pub value : Text
  pub token : Text
  pub status : IdentifierStatus

pub data OrderStatus : Type 0 where
  pending ready valid invalid : OrderStatus

pub record AcmeOrderRow : Type 0 where
  pub id : ℕ
  pub account_id : ℕ
  pub status : OrderStatus
  pub identifiers : List AcmeIdentifier
  pub not_after : ℕ
  pub expires : ℕ
  pub certificate_id : Option ℕ
  pub created_on : ℕ
  pub client_ip : Option Text
  pub error : Option Text

pub record NonceRow : Type 0 where
  pub nonce : Text
  pub created_on : ℕ

pub data CertificateType : Type 0 where
  tls_client tls_server ssh_client ssh_server : CertificateType

pub data CertificateRenewMethod : Type 0 where
  no_renewal notify renew renew_and_notify : CertificateRenewMethod

pub record Name : Type 0 where
  pub cn : Text
  pub ou : Option Text

-- `user_certificates`
pub record CertificateRow : Type 0 where
  pub id : ℕ
  pub name : Name
  pub created_on : ℕ
  pub valid_until : ℕ
  pub bytes : Bytes
  pub password : Text
  pub certificate_type : CertificateType
  pub renew_method : CertificateRenewMethod
  pub ca_id : Option ℕ
  pub user_id : ℕ
  pub revoked_at : Option ℕ
  pub acme_provider_id : Option ℕ
  pub acme_account_id : Option ℕ
  pub serial_hex : Option Text
  pub version : ℕ
  pub fingerprint : Option Text
  pub is_imported : Bool

-- `certificate_versions`
pub record VersionRow : Type 0 where
  pub id : ℕ
  pub cert_id : ℕ
  pub version : ℕ
  pub bytes : Bytes
  pub password : Text
  pub created_on : ℕ
  pub valid_until : ℕ
  pub serial_hex : Option Text
  pub ca_id : Option ℕ
  pub fingerprint : Text
  pub replaced_at : ℕ
  pub replaced_by : Option ℕ

pub data CaType : Type 0 where
  tls ssh : CaType

-- `valid_until` is `none` where the column holds -1.
pub record Ca : Type 0 where
  pub id : ℕ
  pub name : Name
  pub created_on : ℕ
  pub valid_until : Option ℕ
  pub ca_type : CaType
  pub cert : Bytes
  pub key : Bytes
  pub crl_number : ℕ
  pub is_imported : Bool

pub record Db : Type 0 where
  pub nonces : List NonceRow
  pub accounts : List AcmeAccount
  pub orders : List AcmeOrderRow
  pub certs : List CertificateRow
  pub versions : List VersionRow
  pub cas : List Ca
