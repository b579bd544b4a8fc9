-- ===== src/Db/AcmeClient.antt =====
-- The tables of the ACME client, which gets certificates from other CAs: `AcmeClientProvider`,
-- `AcmeClientOrder` of backend/src/acme_client/types.rs and the statements of backend/src/db.rs on them
-- that a renewal runs. The identifiers of the rows count up.
use vaul_tls.Base.{
  ℕ, Bool, true, false, not, ◌&&◌, Option, none, some, List, [], ◌∷◌, ◌++◌, ◌==◌, any, find, update,
  ltb,
}
use mathlib.Core.List.{reverse}
use vaul_tls.Base.Tables.{next_id}
use vaul_tls.Text.{Text}
use vaul_tls.Db.Rows.{Bytes, CertificateRow}
use vaul_tls.Db.Accounts.{opt_id_eq}

pub record TxtRecord : Type 0 where
  pub name : Text
  pub value : Text

pub record AcmeClientProvider : Type 0 where
  pub id : ℕ
  pub name : Text
  pub directory_url : Text
  pub account_email : Text
  pub eab_kid : Option Text
  pub eab_hmac_key : Option Bytes
  pub account_credentials : Option Text
  pub created_on : ℕ

pub data ClientOrderStatus : Type 0 where
  pending_dns ready valid failed : ClientOrderStatus

pub record AcmeClientOrder : Type 0 where
  pub id : ℕ
  pub provider_id : ℕ
  pub domain : Text
  pub include_wildcard : Bool
  pub status : ClientOrderStatus
  pub order_url : Option Text
  pub txt_records : List TxtRecord
  pub cert_id : Option ℕ
  pub error : Option Text
  pub created_on : ℕ
  pub expires_at : Option ℕ
  pub renews_cert_id : Option ℕ

unfoldable pub get_acme_client_provider : ℕ → List AcmeClientProvider → Option AcmeClientProvider
get_acme_client_provider id = find (λ p. p.id == id)

unfoldable pub update_acme_client_provider_credentials :
    ℕ → Text → List AcmeClientProvider → List AcmeClientProvider
update_acme_client_provider_credentials id account_credentials =
    update (λ p. p.id == id) (λ p. record p { account_credentials = some account_credentials })

abbrev pub next_client_order_id : List AcmeClientOrder → ℕ
next_client_order_id = next_id (λ (o : AcmeClientOrder). o.id)

unfoldable pub insert_acme_client_order :
    ℕ
    → ℕ
    → Text
    → Bool
    → Option Text
    → List TxtRecord
    → Option ℕ
    → Option ℕ
    → List AcmeClientOrder
    → List AcmeClientOrder
insert_acme_client_order now provider_id domain include_wildcard order_url txt_records expires_at
      renews_cert_id orders =
    orders
    ++ record {
      id = next_client_order_id orders;
      provider_id = provider_id;
      domain = domain;
      include_wildcard = include_wildcard;
      status = ClientOrderStatus.pending_dns;
      order_url = order_url;
      txt_records = txt_records;
      cert_id = none;
      error = none;
      created_on = now;
      expires_at = expires_at;
      renews_cert_id = renews_cert_id;
    }
      ∷ []

abbrev pub or_kept : Option ℕ → Option ℕ → Option ℕ
or_kept none old = old
or_kept (some id) old = some id

unfoldable pub update_acme_client_order_status :
    ℕ → ClientOrderStatus → Option ℕ → Option Text → List AcmeClientOrder → List AcmeClientOrder
update_acme_client_order_status id status cert_id error =
    update (λ o. o.id == id)
      (λ o. record o { status = status; cert_id = or_kept cert_id o.cert_id; error = error })

abbrev pub newest_order : (AcmeClientOrder → Bool) → List AcmeClientOrder → Option AcmeClientOrder
newest_order p orders = find p (reverse orders)

unfoldable pub get_acme_client_order_by_cert_id : ℕ → List AcmeClientOrder → Option AcmeClientOrder
get_acme_client_order_by_cert_id cert_id = newest_order (λ o. opt_id_eq o.cert_id cert_id)

abbrev pub is_open : ClientOrderStatus → Bool
is_open ClientOrderStatus.pending_dns = true
is_open ClientOrderStatus.ready = true
is_open ClientOrderStatus.valid = false
is_open ClientOrderStatus.failed = false

abbrev pub is_current : ℕ → Option ℕ → Bool
is_current now none = true
is_current now (some expires_at) = ltb now expires_at

-- The certificate has contents that are newer than the order.
abbrev pub overtaken : ℕ → AcmeClientOrder → List CertificateRow → Bool
overtaken cert_id o = any (λ (c : CertificateRow). c.id == cert_id && ltb o.created_on c.created_on)

unfoldable pub get_active_renewal_order_for_cert :
    ℕ → ℕ → List CertificateRow → List AcmeClientOrder → Option AcmeClientOrder
get_active_renewal_order_for_cert cert_id now certs = newest_order (λ o.
    opt_id_eq o.renews_cert_id cert_id
    && (is_open o.status && (is_current now o.expires_at && not (overtaken cert_id o certs))))
