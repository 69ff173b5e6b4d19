-- ===== src/Application/Ports.antt =====
-- internal/application/ports.go: each interface is a record of actions on a state `S`, which holds
-- whatever the implementation changes. The `ctx` argument is not passed: that a call fails because
-- its context has expired is one of the errors that any action may return.
use pg_analytics_service.Prelude.{ℕ, Bool, Option, List, Text, ℤ}
use pg_analytics_service.Domain.Models.{
  Time, RunStatus, ReportDefinition, ReportListFilter, ReportRunParams, ReportResult, Row,
  RecomputeRequest, RecomputeRun, RecomputeSummary, AuditEntry, AuditFilter,
}
use pg_analytics_service.Effects.{Result, Action}

pub record ReportRepository (S : Type 0) : Type 0 where
  pub list_report_definitions : ReportListFilter → Action S (List ReportDefinition × ℕ)
  pub get_report_definition : Text → Action S ReportDefinition
  pub run_volume_report : ReportRunParams → Action S (List Row)
  pub run_status_counts_report : ReportRunParams → Action S (List Row)
  pub run_top_entities_report : ReportRunParams → Action S (List Row)
  pub recompute_report : RecomputeRequest → Text → Action S RecomputeSummary

pub record RecomputeRunRepository (S : Type 0) : Type 0 where
  pub create_run : RecomputeRequest → RunStatus → Action S RecomputeRun
  pub get_run : Text → Action S RecomputeRun
  pub mark_run_running : Text → Action S (Unit {0})
  pub mark_run_completed : Text → RecomputeSummary → Action S (Unit {0})
  pub mark_run_failed : Text → Text → Action S (Unit {0})

pub record AuditRepository (S : Type 0) : Type 0 where
  pub create_entry : AuditEntry → Action S (Unit {0})
  pub list_entries : AuditFilter → Action S (List AuditEntry × ℕ)

pub record ReportCache (S : Type 0) : Type 0 where
  pub get : Text → Action S (Option Text)
  pub set : Text → Text → ℕ → Action S (Unit {0})
  pub get_version : Text → Action S ℤ
  pub bump_version : Text → Action S ℤ

pub record RecomputeLock (S : Type 0) : Type 0 where
  pub try_acquire : Text → Text → ℕ → Action S Bool
  pub release : Text → Text → Action S (Unit {0})

pub record HealthStore (S : Type 0) : Type 0 where
  pub ping_db : Action S (Unit {0})
  pub ping_cache : Action S (Unit {0})

-- What `normalized` in `cacheKey` holds.
pub record CacheParams : Type 0 where
  pub window : Text
  pub date_from : Text
  pub date_to : Text
  pub breakdown : Text
  pub limit : ℤ
  pub offset : ℤ
  pub source : Text
  pub status : Text

-- What the Go runtime and its libraries supply: the clock, random UUIDs, JSON and SHA-256.
pub record Host (S : Type 0) : Type 0 where
  pub now : S → Time × S
  pub new_uuid : S → Text × S
  pub marshal_params : CacheParams → Result Text
  pub marshal_result : ReportResult → Result Text
  pub unmarshal_result : Text → Result ReportResult
  pub sha256_hex : Text → Text
