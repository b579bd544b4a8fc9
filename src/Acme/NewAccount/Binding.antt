-- ===== src/Acme/NewAccount/Binding.antt =====
-- `new_account` of backend/src/acme/routes.rs: when a key is bound to an account.
use vaul_tls.Base.{ℕ, ◌≡◌, Option, some, Any, ◌==◌, ==_refl}
use vaul_tls.Base.Tables.{Any-update, find-Any}
use vaul_tls.Base.Result.{err}
use vaul_tls.Text.{Text}
use vaul_tls.Db.Rows.{Db, AcmeAccount, AccountStatus}
use vaul_tls.Db.Accounts.{set_acme_account_jwk, get_acme_account_by_eab_kid}
use vaul_tls.Acme.Types.{AcmeError, Fallible}
use vaul_tls.Acme.External.{External}
use vaul_tls.Acme.Authenticate.Rules.{spent}
use vaul_tls.Acme.NewAccount.{AccountReply, contacts_of, new_account}
use vaul_tls.Acme.NewAccount.Rules.{Registering, Binds, bound_db, new_account_cases}

-- The row of the account once the key is bound.
bound_db-Any :
    (x : External) (jwk payload : x.Json) (thumbprint : Text) (account : AcmeAccount) (db : Db)
    → Binds x jwk payload thumbprint db account
    → Any
        (λ a. a ≡ record account {
          status = AccountStatus.valid;
          contacts = contacts_of x payload;
          acme_jwk = some (x.to_string jwk);
          jwk_thumbprint = some thumbprint;
        })
        (bound_db x jwk payload thumbprint account db).accounts
unfolding set_acme_account_jwk get_acme_account_by_eab_kid
bound_db-Any x jwk payload thumbprint account db binds =
    Any-update (λ (a : AcmeAccount). a.id == account.id) _ db.accounts account (==_refl account.id)
      (find-Any _ db.accounts account binds.found)

pub data AccountOutcome (x : External) (base : Text) (now : ℕ) (body : Text) (db : Db)
    : Fallible AccountReply → Db → Type 0 where
  refused : (e : AcmeError) → AccountOutcome x base now body db (err e) db
  unbound :
      (nonce : Option Text) (r : Fallible AccountReply)
      → AccountOutcome x base now body db r (spent now nonce db)
  bound :
      (nonce : Option Text) (jwk payload : x.Json) (thumbprint : Text) (account : AcmeAccount)
      (r : Fallible AccountReply)
      → Registering x base now body db nonce jwk payload
      → Binds x jwk payload thumbprint (spent now nonce db) account
      → Any
          (λ a. a ≡ record account {
            status = AccountStatus.valid;
            contacts = contacts_of x payload;
            acme_jwk = some (x.to_string jwk);
            jwk_thumbprint = some thumbprint;
          })
          (bound_db x jwk payload thumbprint account (spent now nonce db)).accounts
      → AccountOutcome x base now body db r
          (bound_db x jwk payload thumbprint account (spent now nonce db))

-- A request for an account changes the database at most by the deletion of a nonce, or it binds the
-- key of the request to an account: its row then has the status valid, the key, its
-- thumbprint and the contacts of the payload. Then the nonce was in the table and
-- fresh, the header has no `kid` and the URL of the endpoint, the request is signed with the key, the
-- external account binding of its payload has the HS256 header with the account's EAB key id, the same
-- key as its payload, and as its signature the MAC of both under the account's EAB key. The account
-- was pending or valid and had no key, and the lookup by thumbprint found no other account.
pub new_account-outcome :
    (x : External) (base : Text) (now : ℕ) (body : Text) (db : Db)
    → AccountOutcome x base now body db
        (new_account x base now body db).0
        (new_account x base now body db).1
new_account-outcome x base now body db =
    new_account_cases x base now body db (AccountOutcome x base now body db) refused unbound
      (λ nonce jwk payload thumbprint account r registering binds.
        bound nonce jwk payload thumbprint account r registering binds
          (bound_db-Any x jwk payload thumbprint account (spent now nonce db) binds))
