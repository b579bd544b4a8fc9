-- ===== src/Api/Groups.antt =====
-- The handlers on groups of backend/src/api.rs: `get_groups`, `get_group`, `create_group`,
-- `update_group`, `delete_group`, `set_group_users`, `set_group_certificates`. All are for local
-- administrators.
use vaul_tls.Base.{ℕ, ◌/◌, Bool, Option, none, some, List, ◌==◌, any}
use vaul_tls.Base.Action.{◌>>=◌, ◌>>◌, pure, gets, modify, require}
use vaul_tls.Base.Tables.{next_id}
use vaul_tls.Text.{Text, text}
use vaul_tls.Text.Decimal.{show}
use vaul_tls.Session.{guard_local_admin}
use vaul_tls.Db.Rows.{CertificateRow}
use vaul_tls.Db.Users.{User}
use vaul_tls.Db.Audit.{AuditAction}
use vaul_tls.Groups as Tables
use vaul_tls.Groups.{
  Groups, Group, GroupDetail, group_id_of, insert_group, update_group, set_group_users,
  set_group_certs, get_group_detail,
}
use vaul_tls.Api.Errors.{other}
use vaul_tls.Api.State.{AppState, Api, Authenticated, Deed, admitted, try_modify, audited}

abbrev pub on_group : AuditAction → ℕ → Option Text → Deed
on_group action id detail = record {
  action = action;
  target_type = some (text "group");
  target_id = some (show id);
  target_label = none;
  detail = detail;
}

abbrev pub on_groups : (Groups → Option Groups) → AppState → Option AppState
on_groups f s = elim (f s.groups) [
  | none ↦ none
  | some groups ↦ some (record s { groups = groups })
]

abbrev pub inserted : Option (Group × Groups) → Option Groups
inserted none = none
inserted (some made) = some made.1

unfoldable pub get_group : ℕ → Authenticated → Api GroupDetail
get_group id auth = do
  claims ← admitted (guard_local_admin (some auth.claims))
  require (λ s. get_group_detail id s.groups) (other (text "Query returned no rows"))

unfoldable pub create_group : Text → Option Text → Authenticated → Api ℕ
create_group name description auth = do
  claims ← admitted (guard_local_admin (some auth.claims))
  id ← gets (λ s. next_id group_id_of s.groups.groups)
  try_modify (on_groups (λ g. inserted (insert_group name description (auth.now / 1000) g)))
  modify (audited auth (on_group AuditAction.create_group id none))
  pure id

unfoldable pub edit_group : ℕ → Text → Option Text → Authenticated → Api (Unit {0})
edit_group id name description auth = do
  claims ← admitted (guard_local_admin (some auth.claims))
  try_modify (on_groups (update_group id name description))
  modify (audited auth (on_group AuditAction.update_group id none))

unfoldable pub remove_group : ℕ → Authenticated → Api (Unit {0})
remove_group id auth = do
  claims ← admitted (guard_local_admin (some auth.claims))
  modify (λ s. record s { groups = Tables.delete_group id s.groups })
  modify (audited auth (on_group AuditAction.delete_group id none))

abbrev pub known_user : AppState → ℕ → Bool
known_user s id = any (λ (u : User). u.id == id) s.users

abbrev pub known_cert : AppState → ℕ → Bool
known_cert s id = any (λ (c : CertificateRow). c.id == id) s.db.certs

unfoldable pub put_group_users : ℕ → List ℕ → Authenticated → Api (Unit {0})
put_group_users id ids auth = do
  claims ← admitted (guard_local_admin (some auth.claims))
  try_modify (λ s. on_groups (set_group_users (known_user s) id ids) s)
  modify (audited auth (on_group AuditAction.update_group id (some (text "members"))))

unfoldable pub set_group_certificates : ℕ → List ℕ → Authenticated → Api (Unit {0})
set_group_certificates id ids auth = do
  claims ← admitted (guard_local_admin (some auth.claims))
  try_modify (λ s. on_groups (set_group_certs (known_cert s) id ids) s)
  modify (audited auth (on_group AuditAction.update_group id (some (text "certificates"))))
