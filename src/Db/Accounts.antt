-- ===== src/Db/Accounts.antt =====
-- The ACME accounts: `insert_acme_account`, the three lookups, `update_acme_account`,
-- `set_acme_account_jwk` and `delete_acme_account` of backend/src/db.rs.
use vaul_tls.Base.{
  ℕ, Bool, false, not, Option, none, some, [], ◌∷◌, ◌++◌, ◌==◌, find, update, select,
}
use vaul_tls.Base.Tables.{next_id}
use vaul_tls.Text.{Text, text_eq}
use vaul_tls.Text.Decimal.{ℤ, pos, negsuc}
use vaul_tls.Db.Rows.{Bytes, Db, AcmeAccount, AccountStatus, AcmeOrderRow}

abbrev pub opt_text_eq : Option Text → Text → Bool
opt_text_eq none t = false
opt_text_eq (some s) t = text_eq s t

unfoldable pub get_acme_account : ℕ → Db → Option AcmeAccount
get_acme_account id db = find (λ a. a.id == id) db.accounts

-- The lookup by an `i64` that a request gave: no row has a negative id.
unfoldable pub get_acme_account_i64 : ℤ → Db → Option AcmeAccount
unfolding get_acme_account
get_acme_account_i64 (pos id) db = get_acme_account id db
get_acme_account_i64 (negsuc n) db = none

unfoldable pub get_acme_account_by_eab_kid : Text → Db → Option AcmeAccount
get_acme_account_by_eab_kid eab_kid db = find (λ a. text_eq a.eab_kid eab_kid) db.accounts

unfoldable pub get_acme_account_by_jwk_thumbprint : Text → Db → Option AcmeAccount
get_acme_account_by_jwk_thumbprint thumbprint db =
    find (λ a. opt_text_eq a.jwk_thumbprint thumbprint) db.accounts

unfoldable pub insert_acme_account : ℕ → Text → Text → Text → Bytes → ℕ → ℕ → Bool → Db → Db
insert_acme_account now name allowed_domains eab_kid eab_hmac_key ca_id user_id auto_validate db =
    record db {
      accounts =
          db.accounts
          ++ record {
            id = next_id (λ (a : AcmeAccount). a.id) db.accounts;
            name = name;
            allowed_domains = allowed_domains;
            eab_kid = eab_kid;
            eab_hmac_key = eab_hmac_key;
            acme_jwk = none;
            jwk_thumbprint = none;
            status = AccountStatus.pending;
            ca_id = some ca_id;
            contacts = [];
            created_on = now;
            user_id = user_id;
            auto_validate = auto_validate;
          }
            ∷ [];
    }

abbrev pub or_keep : {A : Type 0} → Option A → A → A
or_keep none a = a
or_keep (some b) a = b

-- `None` leaves a column as it is.
unfoldable pub update_acme_account :
    ℕ → Option Text → Option Text → Option (Option ℕ) → Option AccountStatus → Option Bool → Db → Db
update_acme_account id name allowed_domains ca_id status auto_validate db = record db {
  accounts =
      update (λ a. a.id == id)
        (λ a. record a {
          name = or_keep name a.name;
          allowed_domains = or_keep allowed_domains a.allowed_domains;
          ca_id = or_keep ca_id a.ca_id;
          status = or_keep status a.status;
          auto_validate = or_keep auto_validate a.auto_validate;
        })
        db.accounts;
}

abbrev pub with_jwk : Text → Text → Text → AcmeAccount → AcmeAccount
with_jwk jwk contacts thumbprint a = record a {
  acme_jwk = some jwk;
  contacts = contacts;
  status = AccountStatus.valid;
  jwk_thumbprint = some thumbprint;
}

unfoldable pub set_acme_account_jwk : ℕ → Text → Text → Text → Db → Db
set_acme_account_jwk id jwk contacts thumbprint db = record db {
  accounts = update (λ a. a.id == id) (with_jwk jwk contacts thumbprint) db.accounts;
}

abbrev pub opt_id_eq : Option ℕ → ℕ → Bool
opt_id_eq none id = false
opt_id_eq (some i) id = i == id

-- The orders of the account go too, and its certificates lose their link to it (the foreign key's
-- `ON DELETE SET NULL`).
unfoldable pub delete_acme_account : ℕ → Db → Db
delete_acme_account id db = record db {
  orders = select (λ (o : AcmeOrderRow). not (o.account_id == id)) db.orders;
  accounts = select (λ a. not (a.id == id)) db.accounts;
  certs =
      update (λ c. opt_id_eq c.acme_account_id id) (λ c. record c { acme_account_id = none })
        db.certs;
}
