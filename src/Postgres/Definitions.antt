-- ===== src/Postgres/Definitions.antt =====
-- The report definitions in internal/infrastructure/postgres/store.go: `ListReportDefinitions`,
-- `GetReportDefinition` and `scanReportDefinition`. `ilike` is the server's `ILIKE`, `collate` its order
-- of texts; rows that the `ORDER BY` leaves level stand in the order of the table.
pub mod Listing
use pg_analytics_service.Prelude.{
  ℕ, ◌≡◌, Bool, true, not, ◌&&◌, ◌||◌, Option, none, some, List, [], ◌∷◌, ◌++◌, map, keep, count_if,
  ltb, leb, if◌then◌else◌, Text, codes, ◌=ₜ◌, ℤ, pos, ltb_ℤ, sort_rows,
}
use pg_analytics_service.Domain.Errors.{Error, err_code_not_found, err_no_rows, new_app_error}
use pg_analytics_service.Domain.Models.{ReportDefinition, ReportListFilter, window_day}
use pg_analytics_service.Effects.{Result, ok, err, Action, pure, raise, ◌>>=◌, attempt}
use pg_analytics_service.Postgres.Database.{
  DefinitionRow, WindowRow, Database, World, Driver, Statement, statement,
}
use pg_analytics_service.Postgres.Reports.{equal_fold, page}

-- The three `if`s on the limit and the offset.
unfoldable pub clamped_filter : ReportListFilter → ReportListFilter
clamped_filter filter = record filter {
  limit =
      if ltb_ℤ filter.limit (pos 1)
      then pos 20
      else if ltb_ℤ (pos 100) filter.limit
      then pos 100
      else filter.limit;
  offset = if ltb_ℤ filter.offset (pos 0) then pos 0 else filter.offset;
}

-- The `switch` on the sort field, and the direction, as they stand in the SQL.
unfoldable pub sort_field : Text → Text
sort_field sort =
    if (sort =ₜ codes "slug")
      || (sort =ₜ codes "name")
      || (sort =ₜ codes "updated_at")
      || (sort =ₜ codes "cache_ttl_seconds")
    then sort
    else codes "name"

unfoldable pub sort_direction : Text → Text
unfolding equal_fold
sort_direction order = if equal_fold order (codes "desc") then codes "DESC" else codes "ASC"

-- `ORDER BY %s %s` for those texts.
unfoldable pub field_order : (Text → Text → Bool) → Text → DefinitionRow → DefinitionRow → Bool
field_order collate field a b =
    if field =ₜ codes "slug"
    then collate a.slug b.slug
    else if field =ₜ codes "updated_at"
    then leb a.updated_at b.updated_at
    else if field =ₜ codes "cache_ttl_seconds"
    then leb a.cache_ttl_seconds b.cache_ttl_seconds
    else collate a.name b.name

unfoldable pub definition_order :
    (Text → Text → Bool) → Text → Text → DefinitionRow → DefinitionRow → Bool
unfolding field_order
definition_order collate field direction a b =
    if direction =ₜ codes "DESC"
    then field_order collate field b a
    else field_order collate field a b

-- `ARRAY_AGG(… ORDER BY CASE … WHEN 'day' THEN 1 ELSE 2 END)`.
unfoldable pub window_order : Text → Text → Bool
window_order a b = (a =ₜ window_day) || not (b =ₜ window_day)

unfoldable pub allowed_windows : Text → List WindowRow → List Text
unfolding window_order
allowed_windows slug windows =
    sort_rows window_order
      (map (λ w. w.window_name) (keep (λ (w : WindowRow). w.report_slug =ₜ slug) windows))

-- The columns, as `scanReportDefinition` reads them.
unfoldable pub scan_report_definition : List WindowRow → DefinitionRow → ReportDefinition
unfolding allowed_windows
scan_report_definition windows row = record {
  slug = row.slug;
  name = row.name;
  description = row.description;
  cache_ttl_seconds = row.cache_ttl_seconds;
  default_window = row.default_window;
  allowed_windows = allowed_windows row.slug windows;
  supported_filters = row.supported_filters;
}

-- The `WHERE` of both queries of the list; the search stands in the pattern as it is.
unfoldable pub is_listed : (Text → Text → Bool) → Text → DefinitionRow → Bool
is_listed ilike search row =
    row.is_public
    && ((search =ₜ [])
        || ilike row.slug (b'%' ∷ (search ++ b'%' ∷ []))
        || ilike row.name (b'%' ∷ (search ++ b'%' ∷ [])))

unfoldable pub count_listed : (Text → Text → Bool) → Text → Statement ℕ
unfolding is_listed
count_listed ilike search db = ok (count_if (is_listed ilike search) db.definitions, db)

unfoldable pub listed_rows :
    (Text → Text → Bool) → (Text → Text → Bool) → ReportListFilter → Database → List DefinitionRow
unfolding is_listed definition_order sort_field sort_direction
listed_rows collate ilike filter db =
    sort_rows (definition_order collate (sort_field filter.sort) (sort_direction filter.order))
      (keep (is_listed ilike filter.search) db.definitions)

abbrev pub scanned :
    Database → Result (List DefinitionRow) → Result (List ReportDefinition × Database)
scanned db (ok rows) = ok (map (scan_report_definition db.windows) rows, db)
scanned db (err e) = err e

unfoldable pub select_listed :
    (Text → Text → Bool)
    → (Text → Text → Bool)
    → ReportListFilter
    → Statement (List ReportDefinition)
unfolding listed_rows scan_report_definition
select_listed collate ilike filter db =
    scanned db (page filter.limit filter.offset (listed_rows collate ilike filter db))

unfoldable pub find_public : Text → List DefinitionRow → Option DefinitionRow
find_public slug [] = none
find_public slug (row ∷ rows) =
    if (row.slug =ₜ slug) && row.is_public then some row else find_public slug rows

abbrev pub definition_or_error :
    Database → Option DefinitionRow → Result (ReportDefinition × Database)
definition_or_error db none = err err_no_rows
definition_or_error db (some row) = ok (scan_report_definition db.windows row, db)

unfoldable pub select_public : Text → Statement ReportDefinition
unfolding find_public scan_report_definition
select_public slug db = definition_or_error db (find_public slug db.definitions)

module _ (driver : Driver) where
  unfoldable pub list_report_definitions :
      (Text → Text → Bool)
      → (Text → Text → Bool)
      → ReportListFilter
      → Action World (List ReportDefinition × ℕ)
  unfolding clamped_filter count_listed select_listed
  list_report_definitions collate ilike request = do
    let filter = clamped_filter request
    total ← statement driver (count_listed ilike filter.search)
    reports ← statement driver (select_listed collate ilike filter)
    pure (reports, total)

  unfoldable pub found_definition : Result ReportDefinition → Action World ReportDefinition
  found_definition (ok report) = pure report
  found_definition (err err_no_rows) =
      raise (new_app_error err_code_not_found (codes "report was not found"))
  found_definition (err e) = raise e

  unfoldable pub get_report_definition : Text → Action World ReportDefinition
  unfolding found_definition select_public
  get_report_definition slug = do
    report ← attempt (statement driver (select_public slug))
    found_definition report
