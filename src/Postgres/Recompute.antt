-- ===== src/Postgres/Recompute.antt =====
-- `RecomputeReport` of internal/infrastructure/postgres/store.go: delete, rebuild and count in one
-- transaction.
pub mod Rebuild
pub mod Metrics
pub mod Atomic
pub mod Frame
pub mod Exact
pub mod Gaps
use pg_analytics_service.Prelude.{
  ℕ, suc, ◌+◌, ◌-◌, ◌%◌, ◌≡◌, ◌⊎◌, Option, none, some, List, ◌++◌, map, length, keep, not, Text,
  codes,
}
use pg_analytics_service.Domain.Errors.{ErrorCode, err_code_invalid, new_app_error}
use pg_analytics_service.Domain.Models.{Time, day_ns, RecomputeRequest, RecomputeSummary}
use pg_analytics_service.Effects.{Result, ok, err, Action, pure, raise, ◌>>=◌, ◌>>◌}
use pg_analytics_service.Postgres.Database.{Database, World, Driver, statement, transaction}
use pg_analytics_service.Postgres.Snapshots.{
  DateTrunc, width, Report, report_of, delete_range, insert_report, count_buckets,
}

-- `time.Date(t.Year(), t.Month(), t.Day(), 0, 0, 0, 0, time.UTC)` of a time in UTC.
unfoldable pub midnight : Time → Time
midnight t = t - t % day_ns

module _ (driver : Driver) (trunc : DateTrunc) where
  -- The `switch` on the slug.
  unfoldable pub insert_switch : Option Report → Text → Time → Time → Text → Action World ℕ
  insert_switch none window from to run_id =
      raise (new_app_error err_code_invalid (codes "unsupported report slug for recompute"))
  insert_switch (some report) window from to run_id =
      statement driver (insert_report trunc report window from to run_id)

  -- What runs between `BeginTx` and `Commit`.
  unfoldable pub rebuild : Text → Text → Time → Time → Text → Action World RecomputeSummary
  unfolding insert_switch
  rebuild slug window from to run_id = do
    let lo = trunc window from
    let hi = trunc window to + width window
    deleted ← statement driver (delete_range slug window lo hi)
    inserted ← insert_switch (report_of slug) window from to run_id
    buckets ← statement driver (count_buckets slug window lo hi)
    pure (record { rows_deleted = deleted; rows_inserted = inserted; bucket_count = buckets })

  unfoldable pub recompute_report : RecomputeRequest → Text → Action World RecomputeSummary
  unfolding rebuild midnight
  recompute_report request run_id = transaction driver (
      rebuild request.report_slug request.window (midnight request.date_from)
        (midnight request.date_to + day_ns) run_id)
