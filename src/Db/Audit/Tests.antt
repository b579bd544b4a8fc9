-- ===== src/Db/Audit/Tests.antt =====
-- A page of a small log.
use vaul_tls.Base.{
  ℕ, ◌+◌, ◌≤◌, ◌≡◌, true, ◌&&◌, Bool, none, some, List, [], ◌∷◌, ◌++◌, length, select, All,
}
use vaul_tls.Text.{text}
use vaul_tls.Db.Audit.{AuditFilter, AuditLogRow, passes_filter, query_audit}
use vaul_tls.Db.Audit.Pages.{IsNewestFirst, query_audit-pages}

abbrev row_at : ℕ → ℕ → AuditLogRow
row_at id ts = record {
  id = id;
  ts = ts;
  actor_id = some 1;
  actor_label = text "Ada";
  actor_type = text "user";
  action = text "login";
  target_type = none;
  target_id = none;
  target_label = none;
  result = text "success";
  detail = none;
  ip = none;
}

abbrev small_log : List AuditLogRow
small_log = row_at 1 10 ∷ row_at 2 30 ∷ row_at 3 20 ∷ []

abbrev since_15 : AuditFilter
since_15 = record { actor_id = some 1; action = none; result = none; from = some 15; to = none }

abbrev anything : AuditLogRow → Bool
anything r = true

query_audit-pages_example :
    let page = query_audit since_15 1 0 small_log in
    let everything = query_audit since_15 page.total 0 small_log in
    (length page.rows ≤ 1)
    × All (λ r. passes_filter since_15 r ≡ true) page.rows
    × IsNewestFirst page.rows
    × (page.rows ++ (query_audit since_15 1 (0 + 1) small_log).rows
        ≡ (query_audit since_15 (1 + 1) 0 small_log).rows)
    × (length (select anything everything.rows)
        ≡ length (select (λ r. passes_filter since_15 r && anything r) small_log))
query_audit-pages_example = query_audit-pages since_15 small_log 1 1 0 anything
