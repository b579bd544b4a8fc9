-- ===== src/Api/AuditLog.antt =====
-- The handlers on the audit log of backend/src/api.rs: `get_audit`, `delete_audit`. A negative limit
-- or offset is `none`: the first is raised to 1 and the second to 0.
pub mod Trail
use vaul_tls.Base.{ℕ, Option, none, some, ltb, if◌then◌else◌}
use vaul_tls.Base.Action.{Action, ◌>>=◌, ◌>>◌, pure, gets, modify}
use vaul_tls.Session.{Claims, guard_local_admin}
use vaul_tls.Db.Audit.{AuditFilter, AuditPage, query_audit, purge_audit}
use vaul_tls.Api.State.{AppState, Api, Authenticated, admitted}

-- A 64-bit parameter: below zero, or a number.
pub data Parameter : Type 0 where
  below : Parameter
  number : ℕ → Parameter

-- `unwrap_or(100).clamp(1, 500)`
unfoldable pub clamp_limit : Option Parameter → ℕ
clamp_limit none = 100
clamp_limit (some Parameter.below) = 1
clamp_limit (some (Parameter.number n)) = if ltb n 1 then 1 else if ltb 500 n then 500 else n

-- `unwrap_or(0).max(0)`
unfoldable pub clamp_offset : Option Parameter → ℕ
clamp_offset none = 0
clamp_offset (some Parameter.below) = 0
clamp_offset (some (Parameter.number n)) = n

unfoldable pub get_audit :
    AuditFilter → Option Parameter → Option Parameter → Authenticated → Api AuditPage
get_audit filter limit offset auth = do
  claims ← admitted (guard_local_admin (some auth.claims))
  gets (λ s. query_audit filter (clamp_limit limit) (clamp_offset offset) s.audit)

unfoldable pub delete_audit : ℕ → Authenticated → Api ℕ
delete_audit before auth = do
  claims ← admitted (guard_local_admin (some auth.claims))
  n ← gets (λ s. (purge_audit before s.audit).0)
  modify (λ s. record s { audit = (purge_audit before s.audit).1 })
  pure n
