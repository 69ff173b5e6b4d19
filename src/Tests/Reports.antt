-- ===== src/Tests/Reports.antt =====
-- Report queries, report definitions and audit entries on the tables of `Databases`.
use pg_analytics_service.Prelude.{
  ◌++◌, ◌∷◌, ℕ, ◌+◌, ◌*◌, ◌≡◌, ◌⊎◌, ◌≤◌, ◌&&◌, refl, inl, Bool, true, [], List, map, keep, count_if,
  take, drop, All, if◌then◌else◌, Text, codes, pos, IsTotal, IsSortedBy,
}
use pg_analytics_service.Domain.Errors.{err_code_not_found, new_app_error}
use pg_analytics_service.Domain.Models.{
  ReportListFilter, ReportRunParams, AuditEntry, AuditFilter, day_ns, window_day,
}
use pg_analytics_service.Effects.{ok, err}
use pg_analytics_service.Postgres.Audits.{
  newest_first, passes_filter, scan_audit, create_entry, select_entries,
}
use pg_analytics_service.Postgres.Audits.Listing.{row_of, select_entries-create_entry}
use pg_analytics_service.Postgres.Database.{DefinitionRow, AuditRow, statement}
use pg_analytics_service.Postgres.Definitions.{
  clamped_filter, definition_order, sort_field, sort_direction, is_listed, scan_report_definition,
  list_report_definitions, get_report_definition,
}
use pg_analytics_service.Postgres.Definitions.Listing.{
  listed, IsHidden, list_report_definitions_lem, get_report_definition_lem,
}
use pg_analytics_service.Postgres.Reports.{
  Sum, by_day_and_value, order_of, collect_row, select_sums,
}
use pg_analytics_service.Postgres.Reports.Exact.{sums, report_counts_events}
use pg_analytics_service.Postgres.Reports.Rebuilt.{events_of_row}
use pg_analytics_service.Postgres.Recompute.{recompute_report}
use pg_analytics_service.Postgres.Reports.Sums.{HaveDistinctKeys}
use pg_analytics_service.Postgres.Snapshots.Grouping.{grouped}
use pg_analytics_service.Postgres.Snapshots.{Key, status_counts, report_slug_text}
use pg_analytics_service.Tests.Databases.{up, utc, utc-TruncLaws, world, request_for}

abbrev collate : Text → Text → Bool
collate a b = true

collate-IsTotal : IsTotal collate
collate-IsTotal a b e = refl

abbrev filter : ReportListFilter
filter = record {
  search = [];
  limit = pos 500;
  offset = pos 0;
  sort = codes "slug";
  order = codes "desc";
}

abbrev definitions : List DefinitionRow
definitions = listed up (λ n. refl) collate collate filter world

list_report_definitions_lem_example :
    IsSortedBy
      (definition_order collate
        (sort_field (clamped_filter filter).sort)
        (sort_direction (clamped_filter filter).order))
      definitions
    × ((p : DefinitionRow → Bool)
        → count_if p definitions
          ≡ count_if p
              (keep (is_listed collate (clamped_filter filter).search) world.db.definitions))
    × (limit offset : ℕ) × ((clamped_filter filter).limit ≡ pos limit)
    × ((clamped_filter filter).offset ≡ pos offset)
    × (1 ≤ limit)
    × (limit ≤ 100)
    × ((list_report_definitions up collate collate filter world).0
        ≡ ok (
          map (scan_report_definition world.db.windows) (take limit (drop offset definitions)),
          count_if (is_listed collate (clamped_filter filter).search) world.db.definitions,
        ))
list_report_definitions_lem_example =
    list_report_definitions_lem up (λ n. refl) collate collate filter world collate-IsTotal

get_report_definition_lem_example :
    ((before : List DefinitionRow) × (row : DefinitionRow) × (after : List DefinitionRow)
      × (world.db.definitions ≡ before ++ row ∷ after)
      × All (IsHidden (codes "status-counts")) before
      × (row.slug ≡ codes "status-counts")
      × (row.is_public ≡ true)
      × ((get_report_definition up (codes "status-counts") world).0
          ≡ ok (scan_report_definition world.db.windows row)))
    ⊎ (All (IsHidden (codes "status-counts")) world.db.definitions
        × ((get_report_definition up (codes "status-counts") world).0
            ≡ err (new_app_error err_code_not_found (codes "report was not found"))))
get_report_definition_lem_example =
    get_report_definition_lem up (λ n. refl) (codes "status-counts") world

abbrev entry : AuditEntry
entry = record {
  id = 0;
  actor = codes "ops";
  action = codes "recompute.triggered";
  resource_type = codes "recompute_run";
  resource_id = codes "run-1";
  metadata = [];
  created_at = 0;
}

abbrev entries : AuditFilter
entries = record { action = []; actor = codes "ops"; limit = pos 20; offset = pos 0 }

abbrev row : AuditRow
row = row_of up (λ n. refl) world entry

select_entries-create_entry_example :
    (rows : List AuditRow) × IsSortedBy newest_first rows
    × ((p : AuditRow → Bool)
        → count_if p rows
          ≡ count_if (λ r. passes_filter entries r && p r) world.db.audits
            + (if passes_filter entries row && p row then 1 else 0))
    × ((create_entry up entry world).0 ≡ ok tt)
    × ((select_entries up entries (create_entry up entry world).1).0
        ≡ ok (map scan_audit (take 20 (drop 0 rows)), count_if (λ _. true) rows))
select_entries-create_entry_example =
    select_entries-create_entry up (λ n. refl) entry entries 20 0 world refl refl

abbrev params : ReportRunParams
params = record {
  window = codes "day";
  date_from = 885547 * day_ns;
  date_to = 885548 * day_ns;
  breakdown = [];
  limit = pos 20;
  offset = pos 0;
  source = [];
  status = [];
}

abbrev counts : List Sum
counts =
    sums up utc collate status_counts by_day_and_value (codes "status") []
      (request_for (codes "day") 885547 885548) (codes "run-1") params world

report_counts_events_example :
    HaveDistinctKeys counts
    × IsSortedBy (order_of collate by_day_and_value) counts
    × ((k : Key)
        → grouped k counts
          ≡ events_of_row status_counts by_day_and_value params [] k utc world.db.sources
              world.db.events)
    × ((statement up
          (select_sums collate status_counts by_day_and_value (codes "status") params [])
          (recompute_report up utc
            (request_for (codes "day") 885547 885548)
            (codes "run-1")
            world).1).0
        ≡ ok (map (collect_row by_day_and_value (codes "status")) (take 20 (drop 0 counts))))
unfolding report_slug_text window_day codes
report_counts_events_example =
    report_counts_events up utc collate status_counts by_day_and_value (codes "status") []
      (request_for (codes "day") 885547 885548) (codes "run-1") params world (λ n. refl)
      utc-TruncLaws collate-IsTotal refl (inl refl) refl refl refl 20 0 refl refl
