-- ===== src/Domain/Models.antt =====
-- internal/domain/models.go. A `time.Time` is a number of nanoseconds since 1 March of the year
-- -400, a leap-cycle boundary before every date that the program parses; strings are byte lists.
use pg_analytics_service.Prelude.{ℕ, ◌*◌, Bool, Option, List, Text, codes, ℤ}

abbrev pub Time : Type 0
Time = ℕ

-- Nanoseconds in a second and in a day.
abbrev pub second : ℕ
second = 1000000000

abbrev pub day_ns : ℕ
day_ns = 86400 * second

unfoldable pub window_day : Text
window_day = codes "day"

unfoldable pub window_week : Text
window_week = codes "week"

-- The four constants `RunStatus…`, and any other string.
pub data RunStatus : Type 0 where
  run_status_pending run_status_running run_status_completed run_status_failed : RunStatus

pub record ReportDefinition : Type 0 where
  pub slug : Text
  pub name : Text
  pub description : Text
  pub cache_ttl_seconds : ℕ
  pub default_window : Text
  pub allowed_windows : List Text
  pub supported_filters : List (Text × Text)

pub record ReportListFilter : Type 0 where
  pub search : Text
  pub limit : ℤ
  pub offset : ℤ
  pub sort : Text
  pub order : Text

pub record ReportRunParams : Type 0 where
  pub window : Text
  pub date_from : Time
  pub date_to : Time
  pub breakdown : Text
  pub limit : ℤ
  pub offset : ℤ
  pub source : Text
  pub status : Text

-- The `any` of a row: what `collectRows` yields after `normalizeValue`.
pub data Value : Type 0 where
  text : Text → Value
  number : ℤ → Value

abbrev pub Row : Type 0
Row = List (Text × Value)

pub record ReportResult : Type 0 where
  pub report_slug : Text
  pub window : Text
  pub date_from : Text
  pub date_to : Text
  pub generated_at : Time
  pub rows : List Row
  pub cache_hit : Bool
  pub row_count : ℕ
  pub execution_ms : ℕ
  pub source_system : Text

pub record RecomputeRequest : Type 0 where
  pub report_slug : Text
  pub window : Text
  pub date_from : Time
  pub date_to : Time
  pub requested_by : Text
  pub requested_via : Text

pub record RecomputeSummary : Type 0 where
  pub rows_deleted : ℕ
  pub rows_inserted : ℕ
  pub bucket_count : ℕ

pub record RecomputeRun : Type 0 where
  pub id : Text
  pub report_slug : Text
  pub window : Text
  pub date_from : Text
  pub date_to : Text
  pub requested_by : Text
  pub status : RunStatus
  pub requested_at : Time
  pub started_at : Option Time
  pub finished_at : Option Time
  pub error_message : Text
  pub summary : Option RecomputeSummary

pub record AuditEntry : Type 0 where
  pub id : ℕ
  pub actor : Text
  pub action : Text
  pub resource_type : Text
  pub resource_id : Text
  pub metadata : Row
  pub created_at : Time

pub record AuditFilter : Type 0 where
  pub action : Text
  pub actor : Text
  pub limit : ℤ
  pub offset : ℤ

pub record Pagination : Type 0 where
  pub limit : ℤ
  pub offset : ℤ
  pub total : ℕ

pub record HealthStatus : Type 0 where
  pub status : Text
  pub service : Text
  pub version : Text
  pub timestamp : Time
  pub dependencies : List (Text × Text)
