-- ===== src/Api/AuditLog/Trail.antt =====
-- What each handler leaves in the audit log.
use vaul_tls.Base.{
  ℕ, ◌/◌, ◌≡◌, refl, sym, ap, Option, none, some, List, [], ◌∷◌, ◌++◌, Option-cases, inl, inr,
  arith,
}
use vaul_tls.Base.Result.{Result, ok, err}
use vaul_tls.Base.Tables.{next_id}
use vaul_tls.Text.{text}
use vaul_tls.Session.{Claims}
use vaul_tls.Db.Users.{User}
use vaul_tls.Db.ServiceAccounts.{ServiceAccount}
use vaul_tls.Db.Audit.{
  AuditAction, AuditLogRow, action_as_str, result_as_str, insert_audit, row_of, row_id,
}
use vaul_tls.Groups.{Groups}
use vaul_tls.Api.Errors.{ApiError}
use vaul_tls.Api.State.{AppState, Authenticated, Deed, audit_actor, entry_of, audited, record_audit}
use vaul_tls.Api.Users.{on_users}
use vaul_tls.Api.ServiceAccounts.{on_accounts}
use vaul_tls.Api.Groups.{on_groups}

-- Who acts: a service under its account's id, a human under the user's.
abbrev pub actor_of : Claims → ℕ
actor_of claims = elim claims.service [ none ↦ claims.id | some service ↦ service.account_id ]

-- The row tells who did what, from where and when, and that it went through.
pub record Tells (auth : Authenticated) (action : AuditAction) (row : AuditLogRow) : Type 0 where
  pub actor : row.actor_id ≡ some (actor_of auth.claims)
  pub deed : row.action ≡ action_as_str action
  pub outcome : row.result ≡ text "success"
  pub time : row.ts ≡ auth.now / 1000
  pub address : row.ip ≡ auth.ip

audit_actor-id : (claims : Claims) (s : AppState) → (audit_actor claims s).id ≡ actor_of claims
unfolding audit_actor
audit_actor-id claims s = elim (Option-cases claims.service) [
  | inl human ↦ rw (audit_actor, human) refl
  | inr (service, e) ↦ rw (audit_actor, e) refl
]

-- One row more than before, which tells of the action.
pub record Entered (action : AuditAction) (auth : Authenticated) (s after : AppState) : Type 0 where
  pub row : AuditLogRow
  pub appended : after.audit ≡ s.audit ++ row ∷ []
  pub telling : Tells auth action row

-- How a handler ends: one row more where it went through, the log as it was where it did not.
abbrev pub Logged :
    {B : Type 0} → AuditAction → Authenticated → AppState → Result ApiError B → AppState → Type 0
Logged action auth s (ok b) after = Entered action auth s after
Logged action auth s (err e) after = after.audit ≡ s.audit

pub audited-Logged :
    (auth : Authenticated) (deed : Deed) (s t : AppState)
    → t.audit ≡ s.audit
    → Entered deed.action auth s (audited auth deed t)
unfolding audited record_audit entry_of insert_audit result_as_str
audited-Logged auth deed s t same = record {
  row = row_of (next_id row_id t.audit) (entry_of auth deed t);
  appended = ap (λ log. log ++ row_of (next_id row_id t.audit) (entry_of auth deed t) ∷ []) same;
  telling = record {
    actor = ap some (audit_actor-id auth.claims t);
    deed = refl;
    outcome = refl;
    time = refl;
    address = refl;
  };
}

pub on_users-audit :
    (f : List User → Option (List User)) (s after : AppState)
    → on_users f s ≡ some after
    → after.audit ≡ s.audit
on_users-audit f s after went = elim (Option-cases (f s.users)) [
  | inl p ↦ absurd (ground (arith, rw (on_users, p) at went))
  | inr (users, p) ↦
      let made : record s { users = users } ≡ after = ground (arith, rw (on_users, p) at went) in
      sym (ap (λ (x : AppState). x.audit) made)
]

pub on_accounts-audit :
    (f : List ServiceAccount → Option (List ServiceAccount)) (s after : AppState)
    → on_accounts f s ≡ some after
    → after.audit ≡ s.audit
on_accounts-audit f s after went = elim (Option-cases (f s.service_accounts)) [
  | inl p ↦ absurd (ground (arith, rw (on_accounts, p) at went))
  | inr (accounts, p) ↦
      let made : record s { service_accounts = accounts } ≡ after =
        ground (arith, rw (on_accounts, p) at went) in
      sym (ap (λ (x : AppState). x.audit) made)
]

pub on_groups-audit :
    (f : Groups → Option Groups) (s after : AppState)
    → on_groups f s ≡ some after
    → after.audit ≡ s.audit
on_groups-audit f s after went = elim (Option-cases (f s.groups)) [
  | inl p ↦ absurd (ground (arith, rw (on_groups, p) at went))
  | inr (groups, p) ↦
      let made : record s { groups = groups } ≡ after = ground (arith, rw (on_groups, p) at went) in
      sym (ap (λ (x : AppState). x.audit) made)
]
