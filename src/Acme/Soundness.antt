-- ===== src/Acme/Soundness.antt =====
-- What holds of every database that the ACME server and its administration write.
pub mod Orders
pub mod Steps
pub mod Keys
use vaul_tls.Base.{
  ℕ, ◌+◌, ◌*◌, ◌<◌, ◌≡◌, Bool, true, false, Option, none, some, List, all, All, length, is_some,
}
use vaul_tls.Base.Tables.{Ascending}
use vaul_tls.Text.{Text, text}
use vaul_tls.Db.Rows.{Db, AcmeAccount, AcmeIdentifier, AcmeOrderRow, OrderStatus}
use vaul_tls.Acme.Domain.{is_valid_dns_name}
use vaul_tls.Acme.NewOrder.{ms_per_day, order_expiry_days, cert_validity_days}
use vaul_tls.Acme.Challenge.{is_validated}

-- An order that may have a certificate, or has one.
abbrev pub is_cleared : OrderStatus → Bool
is_cleared OrderStatus.pending = false
is_cleared OrderStatus.ready = true
is_cleared OrderStatus.valid = true
is_cleared OrderStatus.invalid = false

abbrev pub IsNamed : AcmeIdentifier → Type 0
IsNamed i = (i.identifier_type ≡ text "dns") × (is_valid_dns_name i.value ≡ true)

pub record IsSound (o : AcmeOrderRow) : Type 0 where
  pub named : All IsNamed o.identifiers
  pub nonempty : 0 < length o.identifiers
  pub validated : is_cleared o.status ≡ true → all is_validated o.identifiers ≡ true
  pub expiry : o.expires ≡ o.created_on + order_expiry_days * ms_per_day
  pub validity : o.not_after ≡ o.created_on + cert_validity_days * ms_per_day

-- Every key is bound to one account at most: the accounts that have it have one id.
abbrev pub KeyHolder : Text → List AcmeAccount → ℕ → Type 0
KeyHolder thumbprint accounts id =
    All (λ (a : AcmeAccount). a.jwk_thumbprint ≡ some thumbprint → a.id ≡ id) accounts

pub record IsSoundDb (db : Db) : Type 0 where
  pub orders_ascending : Ascending (λ (o : AcmeOrderRow). o.id) db.orders
  pub accounts_ascending : Ascending (λ (a : AcmeAccount). a.id) db.accounts
  pub orders_sound : All IsSound db.orders
  pub key_holder : (thumbprint : Text) → (id : ℕ) × KeyHolder thumbprint db.accounts id
