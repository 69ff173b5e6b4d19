-- ===== src/Postgres/Audits.antt =====
-- The audit table in internal/infrastructure/postgres/store.go: `CreateEntry` and `ListEntries`. Rows
-- of one `created_at` stand in the order of the table.
pub mod Listing
use pg_analytics_service.Prelude.{
  ℕ, suc, ◌≡◌, Bool, ◌&&◌, ◌||◌, List, [], ◌∷◌, ◌++◌, map, keep, count_if, leb, if◌then◌else◌, Text,
  ◌=ₜ◌, sort_rows,
}
use pg_analytics_service.Domain.Models.{Time, AuditEntry, AuditFilter}
use pg_analytics_service.Effects.{Result, ok, err, Action, pure, ◌>>=◌}
use pg_analytics_service.Postgres.Database.{AuditRow, Database, World, Driver, Statement, statement}
use pg_analytics_service.Postgres.Reports.{page}

unfoldable pub new_audit_row : ℕ → Time → AuditEntry → AuditRow
new_audit_row id now entry = record {
  id = id;
  actor = entry.actor;
  action = entry.action;
  resource_type = entry.resource_type;
  resource_id = entry.resource_id;
  metadata = entry.metadata;
  created_at = now;
}

-- `INSERT`; the id comes from the table's sequence, the time from the server.
unfoldable pub insert_audit : Time → AuditEntry → Statement (Unit {0})
unfolding new_audit_row
insert_audit now entry db = ok (
  tt,
  record db {
    audits = db.audits ++ new_audit_row (suc db.audit_seq) now entry ∷ [];
    audit_seq = suc db.audit_seq;
  },
)

-- The `WHERE` of both queries.
unfoldable pub passes_filter : AuditFilter → AuditRow → Bool
passes_filter filter row =
    ((filter.action =ₜ []) || (row.action =ₜ filter.action))
    && ((filter.actor =ₜ []) || (row.actor =ₜ filter.actor))

-- `ORDER BY created_at DESC`.
unfoldable pub newest_first : AuditRow → AuditRow → Bool
newest_first a b = leb b.created_at a.created_at

unfoldable pub count_audits : AuditFilter → Statement ℕ
unfolding passes_filter
count_audits filter db = ok (count_if (passes_filter filter) db.audits, db)

unfoldable pub scan_audit : AuditRow → AuditEntry
scan_audit row = record {
  id = row.id;
  actor = row.actor;
  action = row.action;
  resource_type = row.resource_type;
  resource_id = row.resource_id;
  metadata = row.metadata;
  created_at = row.created_at;
}

unfoldable pub listed_audits : AuditFilter → List AuditRow → List AuditRow
unfolding passes_filter newest_first
listed_audits filter rows = sort_rows newest_first (keep (passes_filter filter) rows)

abbrev pub scanned_audits : Database → Result (List AuditRow) → Result (List AuditEntry × Database)
scanned_audits db (ok rows) = ok (map scan_audit rows, db)
scanned_audits db (err e) = err e

unfoldable pub select_audits : AuditFilter → Statement (List AuditEntry)
unfolding listed_audits scan_audit
select_audits filter db =
    scanned_audits db (page filter.limit filter.offset (listed_audits filter db.audits))

module _ (driver : Driver) where
  unfoldable pub create_entry : AuditEntry → Action World (Unit {0})
  unfolding insert_audit
  create_entry entry w = statement driver (insert_audit w.now entry) w

  unfoldable pub select_entries : AuditFilter → Action World (List AuditEntry × ℕ)
  unfolding count_audits select_audits
  select_entries filter = do
    total ← statement driver (count_audits filter)
    entries ← statement driver (select_audits filter)
    pure (entries, total)
