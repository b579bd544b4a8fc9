-- ===== src/Db/ServiceAccounts.antt =====
-- The table of service accounts: `insert_service_account`, `get_service_account_by_client_id`,
-- `get_service_account_by_id`, `list_service_accounts_by_user`, `revoke_service_account`,
-- `delete_service_account` and `touch_service_account_last_used` of backend/src/db.rs. A client id
-- is unique.
use vaul_tls.Base.{
  ℕ, Bool, true, false, not, Option, none, some, List, [], ◌∷◌, ◌++◌, ◌==◌, any, find, select,
  update, if◌then◌else◌,
}
use vaul_tls.Base.Tables.{next_id}
use vaul_tls.Text.{Text, text_eq}

pub record ServiceAccount : Type 0 where
  pub id : ℕ
  pub name : Text
  pub client_id : Text
  pub secret_hash : Text
  pub user_id : ℕ
  pub scopes : List Text
  pub created_at : ℕ
  pub last_used_at : Option ℕ
  pub revoked : Bool

abbrev pub has_account_id : ℕ → ServiceAccount → Bool
has_account_id id sa = sa.id == id

abbrev pub service_account_id : ServiceAccount → ℕ
service_account_id sa = sa.id

abbrev pub next_account_id : List ServiceAccount → ℕ
next_account_id = next_id service_account_id

unfoldable pub insert_service_account :
    ServiceAccount → List ServiceAccount → Option (List ServiceAccount)
insert_service_account sa accounts =
    if any (λ (a : ServiceAccount). text_eq a.client_id sa.client_id) accounts
    then none
    else some (
        accounts
        ++ record sa { id = next_account_id accounts; last_used_at = none; revoked = false } ∷ [])

unfoldable pub get_service_account_by_client_id : Text → List ServiceAccount → Option ServiceAccount
get_service_account_by_client_id client_id = find (λ sa. text_eq sa.client_id client_id)

unfoldable pub get_service_account_by_id : ℕ → List ServiceAccount → Option ServiceAccount
get_service_account_by_id id = find (has_account_id id)

-- The rows stand in the order of their ids.
unfoldable pub list_service_accounts_by_user : ℕ → List ServiceAccount → List ServiceAccount
list_service_accounts_by_user user_id = select (λ sa. sa.user_id == user_id)

unfoldable pub revoke_service_account : ℕ → List ServiceAccount → List ServiceAccount
revoke_service_account id = update (has_account_id id) (λ sa. record sa { revoked = true })

unfoldable pub delete_service_account : ℕ → List ServiceAccount → List ServiceAccount
delete_service_account id = select (λ sa. not (sa.id == id))

unfoldable pub touch_service_account_last_used : ℕ → ℕ → List ServiceAccount → List ServiceAccount
touch_service_account_last_used id now_ms =
    update (has_account_id id) (λ sa. record sa { last_used_at = some now_ms })
