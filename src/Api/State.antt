-- ===== src/Api/State.antt =====
-- What the handlers of backend/src/api.rs share: the state (`AppState` of
-- backend/src/data/objects.rs), the caller, the request guards and the audit trail
-- (`record_audit`, `audit_actor`). The database is `Db` with the tables that only the management
-- uses beside it; foreign keys cascade when a user, a certificate or a CA is deleted. The clock and
-- the address of the caller are parameters. Times are in milliseconds; the audit log has seconds.
use vaul_tls.Base.{
  ℕ, ◌/◌, Bool, not, ◌&&◌, Option, none, some, List, ◌++◌, ◌==◌, any, select, if◌then◌else◌, map,
}
use vaul_tls.Base.Result.{ok, err}
use vaul_tls.Base.Action.{Action, pure, raise}
use vaul_tls.Text.{Text, text}
use vaul_tls.Text.Decimal.{show}
use vaul_tls.Session.{Claims, Guarded, success, unauthorized, forbidden, Store}
use vaul_tls.Db.Rows.{Db, CertificateRow, AcmeAccount, AcmeOrderRow}
use vaul_tls.Db.Accounts.{opt_id_eq}
use vaul_tls.Db.Users.{User, get_user_name}
use vaul_tls.Db.ServiceAccounts.{ServiceAccount, get_service_account_by_id}
use vaul_tls.Db.Audit.{
  AuditActorType, AuditAction, AuditResult, AuditEntry, AuditLogRow, insert_audit,
}
use vaul_tls.Groups.{Groups, Membership}
use vaul_tls.Api.Errors.{ApiError, unauthorized_error, forbidden_error, other}

-- The settings that these handlers read.
pub record Settings : Type 0 where
  pub password_enabled : Bool
  pub oidc_auth_url : Text
  pub default_language : Text

pub record AppState : Type 0 where
  pub settings : Settings
  pub db : Db
  pub groups : Groups
  pub users : List User
  pub service_accounts : List ServiceAccount
  pub audit : List AuditLogRow
  pub sessions : Store

abbrev pub Api : Type 0 → Type 0
Api = Action AppState ApiError

-- `Authenticated`: who calls, from where, and when.
pub record Authenticated : Type 0 where
  pub claims : Claims
  pub ip : Option Text
  pub now : ℕ

-- A request guard stands before the handler.
unfoldable pub admitted : Guarded → Api Claims
admitted unauthorized = raise unauthorized_error
admitted forbidden = raise forbidden_error
admitted (success claims) = pure claims

-- A handler that works on the database alone.
unfoldable pub on_db : {A : Type 0} → Action Db ApiError A → Api A
on_db m s = ((m s.db).0, record s { db = (m s.db).1 })

-- A statement that may fail.
unfoldable pub try_modify : (AppState → Option AppState) → Api (Unit {0})
try_modify f s = elim (f s) [ none ↦ (err (other (text "database")), s) | some s' ↦ (ok tt, s') ]

abbrev service_label : ℕ → Option ServiceAccount → List User → Text
service_label account_id none users = text "service:" ++ show account_id
service_label account_id (some sa) users =
    sa.name
    ++ (text " ("
        ++ ((elim (get_user_name sa.user_id users) [ none ↦ show sa.user_id | some name ↦ name ])
            ++ text ")"))

pub record Actor : Type 0 where
  pub id : ℕ
  pub label : Text
  pub kind : AuditActorType

-- A service account signs with its name and its owner's.
unfoldable pub audit_actor : Claims → AppState → Actor
audit_actor claims s = elim claims.service [
  | some service ↦ record {
    id = service.account_id;
    label =
        service_label service.account_id
          (get_service_account_by_id service.account_id s.service_accounts) s.users;
    kind = AuditActorType.service;
  }
  | none ↦ record {
    id = claims.id;
    label = elim (get_user_name claims.id s.users) [ none ↦ show claims.id | some name ↦ name ];
    kind = AuditActorType.user;
  }
]

-- What was done to what.
pub record Deed : Type 0 where
  pub action : AuditAction
  pub target_type : Option Text
  pub target_id : Option Text
  pub target_label : Option Text
  pub detail : Option Text

-- The entry of a caller's deed that went through.
unfoldable pub entry_of : Authenticated → Deed → AppState → AuditEntry
entry_of auth deed s = record {
  ts = auth.now / 1000;
  actor_id = some (audit_actor auth.claims s).id;
  actor_label = (audit_actor auth.claims s).label;
  actor_type = (audit_actor auth.claims s).kind;
  action = deed.action;
  target_type = deed.target_type;
  target_id = deed.target_id;
  target_label = deed.target_label;
  result = AuditResult.success;
  detail = deed.detail;
  ip = auth.ip;
}

unfoldable pub record_audit : AuditEntry → AppState → AppState
record_audit entry s = record s { audit = insert_audit entry s.audit }

-- `audit_actor` and `record_audit`, as the handlers end.
unfoldable pub audited : Authenticated → Deed → AppState → AppState
audited auth deed s = record_audit (entry_of auth deed s) s

-- The members that are deleted leave their groups.
abbrev pub without_members : (ℕ → Bool) → List Membership → List Membership
without_members gone rows = select (λ m. not (gone m.member_id)) rows

abbrev pub has_cert_id : ℕ → CertificateRow → Bool
has_cert_id id c = c.id == id

abbrev pub forget_certificate : (ℕ → Bool) → AcmeOrderRow → AcmeOrderRow
forget_certificate gone o = record o {
  certificate_id = elim o.certificate_id [
    | none ↦ none
    | some id ↦ if gone id then none else some id
  ];
}

-- Certificates go with their versions and their places in groups; orders forget them.
unfoldable pub delete_certs : (CertificateRow → Bool) → AppState → AppState
delete_certs gone s =
    let lost : ℕ → Bool = λ id. any (λ (c : CertificateRow). c.id == id && gone c) s.db.certs in
    record s {
      db = record s.db {
        certs = select (λ c. not (gone c)) s.db.certs;
        versions = select (λ v. not (lost v.cert_id)) s.db.versions;
        orders = map (forget_certificate lost) s.db.orders;
      };
      groups = record s.groups { group_certs = without_members lost s.groups.group_certs };
    }

unfoldable pub delete_user_cert : ℕ → AppState → AppState
unfolding delete_certs
delete_user_cert id = delete_certs (has_cert_id id)

abbrev pub orders_without : List AcmeAccount → List AcmeOrderRow → List AcmeOrderRow
orders_without accounts orders =
    select (λ o. not (any (λ (a : AcmeAccount). a.id == o.account_id) accounts)) orders

abbrev pub forget_account : List AcmeAccount → CertificateRow → CertificateRow
forget_account accounts c = record c {
  acme_account_id =
      if any (λ (a : AcmeAccount). opt_id_eq c.acme_account_id a.id) accounts
      then none
      else c.acme_account_id;
}

-- A user goes with the certificates, the service accounts, the ACME accounts and their orders.
unfoldable pub delete_user : ℕ → AppState → AppState
unfolding delete_certs
delete_user id s =
    let t = delete_certs (λ c. c.user_id == id) s in
    record t {
      db = record t.db {
        accounts = select (λ a. not (a.user_id == id)) t.db.accounts;
        certs = map (forget_account (select (λ a. a.user_id == id) t.db.accounts)) t.db.certs;
        orders = orders_without (select (λ a. a.user_id == id) t.db.accounts) t.db.orders;
      };
      groups = record t.groups {
        group_users = without_members (λ m. m == id) t.groups.group_users;
      };
      users = select (λ u. not (u.id == id)) t.users;
      service_accounts = select (λ sa. not (sa.user_id == id)) t.service_accounts;
    }

abbrev pub forget_ca : ℕ → AcmeAccount → AcmeAccount
forget_ca id a = record a { ca_id = if opt_id_eq a.ca_id id then none else a.ca_id }

-- A CA goes with the certificates that name it; ACME accounts forget it.
unfoldable pub delete_ca : ℕ → AppState → AppState
unfolding delete_certs
delete_ca id s =
    let t = delete_certs (λ c. opt_id_eq c.ca_id id) s in
    record t {
      db = record t.db {
        cas = select (λ ca. not (ca.id == id)) t.db.cas;
        accounts = map (forget_ca id) t.db.accounts;
      };
    }
