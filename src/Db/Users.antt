-- ===== src/Db/Users.antt =====
-- The table of users: `insert_user`, `update_user`, `get_user`, `get_user_by_email`,
-- `set_user_password`, `register_oidc_user`, `is_setup` and `get_user_name` of backend/src/db.rs.
-- The index `one_email` makes an address unique: a statement that breaks it fails.
use vaul_tls.Base.{
  ℕ, Bool, true, not, ◌&&◌, Option, none, some, List, [], ◌∷◌, ◌++◌, ◌==◌, any, find, update,
  is_some, if◌then◌else◌,
}
use vaul_tls.Base.Tables.{next_id}
use mathlib.Core.Option
use vaul_tls.Text.{Text, text_eq}
use vaul_tls.Session.{UserRole}
use vaul_tls.Db.Accounts.{opt_text_eq}

-- The hash of a password, and how it was hashed.
pub data Password : Type 0 where
  v1 v2 : Text → Password

pub record User : Type 0 where
  pub id : ℕ
  pub name : Text
  pub email : Text
  pub password_hash : Option Password
  pub oidc_id : Option Text
  pub role : UserRole

abbrev pub has_user_id : ℕ → User → Bool
has_user_id id u = u.id == id

abbrev pub user_id_of : User → ℕ
user_id_of u = u.id

-- The new row has the id `next_id`.
unfoldable pub insert_user : User → List User → Option (List User)
insert_user user users =
    if any (λ (u : User). text_eq u.email user.email) users
    then none
    else some (users ++ record user { id = next_id user_id_of users } ∷ [])

abbrev pub with_profile : User → User → User
with_profile user u = record u { name = user.name; email = user.email; role = user.role }

-- The address of another row is refused, if there is a row to write.
unfoldable pub update_user : User → List User → Option (List User)
update_user user users =
    if any (has_user_id user.id) users
      && any (λ (u : User). not (u.id == user.id) && text_eq u.email user.email) users
    then none
    else some (update (has_user_id user.id) (with_profile user) users)

unfoldable pub get_user : ℕ → List User → Option User
get_user id = find (has_user_id id)

unfoldable pub get_user_by_email : Text → List User → Option User
get_user_by_email email = find (λ u. text_eq u.email email)

unfoldable pub set_user_password : ℕ → Password → List User → List User
set_user_password id password_hash =
    update (has_user_id id) (λ u. record u { password_hash = some password_hash })

unfoldable pub get_user_name : ℕ → List User → Option Text
get_user_name id users = Option.map (λ (u : User). u.name) (find (has_user_id id) users)

abbrev same_subject : Option Text → User → Bool
same_subject none u = Bool.false
same_subject (some subject) u = opt_text_eq u.oidc_id subject

-- The user of the subject, the user of the address, or a new one; `none` where the address belongs
-- to another subject. With the user come the rows.
unfoldable pub register_oidc_user : User → List User → Option (User × List User)
register_oidc_user user users = elim (find (same_subject user.oidc_id) users) [
  | some known ↦ some (record user { id = known.id; role = known.role }, users)
  | none ↦ elim (find (λ (u : User). text_eq u.email user.email) users) [
    | some local ↦
        if is_some local.oidc_id
        then none
        else some (
          record user { id = local.id; role = local.role },
          update (has_user_id local.id) (λ u. record u { oidc_id = user.oidc_id }) users,
        )
    | none ↦ some (
      record user { id = next_id user_id_of users },
      users ++ record user { id = next_id user_id_of users } ∷ [],
    )
  ]
]

-- There is a user.
unfoldable pub is_setup : List User → Bool
is_setup = any (λ u. true)
