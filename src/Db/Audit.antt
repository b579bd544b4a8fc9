-- ===== src/Db/Audit.antt =====
-- The audit log: `insert_audit`, `query_audit` and `purge_audit` of backend/src/db.rs, with the
-- entries of backend/src/data/objects.rs and the names of backend/src/data/enums.rs.
pub mod Pages
mod Tests
use vaul_tls.Base.{
  ℕ, Bool, true, not, ◌&&◌, ◌||◌, Option, none, some, List, [], ◌∷◌, ◌++◌, ltb, leb, ◌==◌, select,
  length, take, drop, if◌then◌else◌,
}
use vaul_tls.Base.Tables.{next_id}
use vaul_tls.Text.{Text, text, text_eq}
use vaul_tls.Db.Accounts.{opt_id_eq}

pub data AuditActorType : Type 0 where
  user service anonymous : AuditActorType

pub data AuditResult : Type 0 where
  success failure : AuditResult

pub data AuditAction : Type 0 where
  login logout download_certificate fetch_certificate_password create_ca import_ca delete_ca
        revoke_certificate delete_certificate update_certificate delete_certificate_version
        create_user update_user delete_user create_group update_group delete_group
        create_service_account revoke_service_account delete_service_account update_settings
        delete_acme_account delete_acme_order :
      AuditAction

unfoldable pub actor_type_as_str : AuditActorType → Text
actor_type_as_str AuditActorType.user = text "user"
actor_type_as_str AuditActorType.service = text "service"
actor_type_as_str AuditActorType.anonymous = text "anonymous"

unfoldable pub result_as_str : AuditResult → Text
result_as_str AuditResult.success = text "success"
result_as_str AuditResult.failure = text "failure"

unfoldable pub action_as_str : AuditAction → Text
action_as_str AuditAction.login = text "login"
action_as_str AuditAction.logout = text "logout"
action_as_str AuditAction.download_certificate = text "download_certificate"
action_as_str AuditAction.fetch_certificate_password = text "fetch_certificate_password"
action_as_str AuditAction.create_ca = text "create_ca"
action_as_str AuditAction.import_ca = text "import_ca"
action_as_str AuditAction.delete_ca = text "delete_ca"
action_as_str AuditAction.revoke_certificate = text "revoke_certificate"
action_as_str AuditAction.delete_certificate = text "delete_certificate"
action_as_str AuditAction.update_certificate = text "update_certificate"
action_as_str AuditAction.delete_certificate_version = text "delete_certificate_version"
action_as_str AuditAction.create_user = text "create_user"
action_as_str AuditAction.update_user = text "update_user"
action_as_str AuditAction.delete_user = text "delete_user"
action_as_str AuditAction.create_group = text "create_group"
action_as_str AuditAction.update_group = text "update_group"
action_as_str AuditAction.delete_group = text "delete_group"
action_as_str AuditAction.create_service_account = text "create_service_account"
action_as_str AuditAction.revoke_service_account = text "revoke_service_account"
action_as_str AuditAction.delete_service_account = text "delete_service_account"
action_as_str AuditAction.update_settings = text "update_settings"
action_as_str AuditAction.delete_acme_account = text "delete_acme_account"
action_as_str AuditAction.delete_acme_order = text "delete_acme_order"

pub record AuditEntry : Type 0 where
  pub ts : ℕ
  pub actor_id : Option ℕ
  pub actor_label : Text
  pub actor_type : AuditActorType
  pub action : AuditAction
  pub target_type : Option Text
  pub target_id : Option Text
  pub target_label : Option Text
  pub result : AuditResult
  pub detail : Option Text
  pub ip : Option Text

pub record AuditLogRow : Type 0 where
  pub id : ℕ
  pub ts : ℕ
  pub actor_id : Option ℕ
  pub actor_label : Text
  pub actor_type : Text
  pub action : Text
  pub target_type : Option Text
  pub target_id : Option Text
  pub target_label : Option Text
  pub result : Text
  pub detail : Option Text
  pub ip : Option Text

abbrev pub row_id : AuditLogRow → ℕ
row_id r = r.id

abbrev pub row_of : ℕ → AuditEntry → AuditLogRow
row_of id e = record {
  id = id;
  ts = e.ts;
  actor_id = e.actor_id;
  actor_label = e.actor_label;
  actor_type = actor_type_as_str e.actor_type;
  action = action_as_str e.action;
  target_type = e.target_type;
  target_id = e.target_id;
  target_label = e.target_label;
  result = result_as_str e.result;
  detail = e.detail;
  ip = e.ip;
}

unfoldable pub insert_audit : AuditEntry → List AuditLogRow → List AuditLogRow
insert_audit e log = log ++ row_of (next_id row_id log) e ∷ []

pub record AuditFilter : Type 0 where
  pub actor_id : Option ℕ
  pub action : Option Text
  pub result : Option Text
  pub from : Option ℕ
  pub to : Option ℕ

pub record AuditPage : Type 0 where
  pub rows : List AuditLogRow
  pub total : ℕ

-- A part of `WHERE` that is left out passes every row.
abbrev pub if_given : {A : Type 0} → Option A → (A → Bool) → Bool
if_given none test = true
if_given (some a) test = test a

unfoldable pub passes_filter : AuditFilter → AuditLogRow → Bool
passes_filter filter r =
    if_given filter.actor_id (opt_id_eq r.actor_id)
    && (if_given filter.action (text_eq r.action)
        && (if_given filter.result (text_eq r.result)
            && (if_given filter.from (λ f. leb f r.ts) && if_given filter.to (λ t. leb r.ts t))))

-- `ts DESC, id DESC`
unfoldable pub goes_before : AuditLogRow → AuditLogRow → Bool
goes_before r s = ltb s.ts r.ts || (r.ts == s.ts && leb s.id r.id)

unfoldable pub insert_sorted : AuditLogRow → List AuditLogRow → List AuditLogRow
insert_sorted r [] = r ∷ []
insert_sorted r (s ∷ rest) = if goes_before r s then r ∷ s ∷ rest else s ∷ insert_sorted r rest

unfoldable pub order_by : List AuditLogRow → List AuditLogRow
order_by [] = []
order_by (r ∷ rest) = insert_sorted r (order_by rest)

unfoldable pub query_audit : AuditFilter → ℕ → ℕ → List AuditLogRow → AuditPage
query_audit filter limit offset log = record {
  rows = take limit (drop offset (order_by (select (passes_filter filter) log)));
  total = length (select (passes_filter filter) log);
}

-- The number of rows that are deleted, and the log without them.
unfoldable pub purge_audit : ℕ → List AuditLogRow → ℕ × List AuditLogRow
purge_audit before_ts log =
    (length (select (λ r. ltb r.ts before_ts) log), select (λ r. not (ltb r.ts before_ts)) log)
