-- ===== src/Tests/Snapshots.antt =====
-- Recomputations of the tables of `Databases`.
use pg_analytics_service.Prelude.{
  ◌+◌, ◌*◌, ◌<◌, ◌≡◌, refl, inl, inr, [], ◌∷◌, codes, ◌=ₜ◌, count_if, ◌≢◌, arith,
}
use pg_analytics_service.Domain.Models.{day_ns, window_day, window_week}
use pg_analytics_service.Effects.{ok}
use pg_analytics_service.Postgres.Snapshots.{
  status_counts, report_slug_text, dimension_key_of, dimension_values,
}
use pg_analytics_service.Postgres.Snapshots.Metrics.{metric}
use pg_analytics_service.Postgres.Recompute.{midnight, recompute_report}
use pg_analytics_service.Postgres.Recompute.Rebuild.{recompute_report_succeeds, rebuilt, summary_of}
use pg_analytics_service.Postgres.Recompute.Metrics.{bucket_total}
use pg_analytics_service.Postgres.Recompute.Atomic.{recompute_report_atomic, Untouched}
use pg_analytics_service.Postgres.Recompute.Exact.{
  after, recompute_report_day_exact, recompute_report_others,
}
use pg_analytics_service.Postgres.Recompute.Gaps.{
  recompute_report_clears_next_day, recompute_report_truncates_week,
}
use pg_analytics_service.Tests.Databases.{
  utc, monday, utc-TruncLaws, up, refusing, event_on, tables, world, request_for,
}

pub slug_lem : codes "status-counts" ≡ report_slug_text status_counts
unfolding codes report_slug_text
slug_lem = refl

pub day_lem : codes "day" ≡ window_day
unfolding codes window_day
day_lem = refl

week_lem : codes "week" ≡ window_week
unfolding codes window_week
week_lem = refl

recompute_report_succeeds_example :
    (recompute_report up utc (request_for (codes "day") 885547 885547) (codes "run-1") world) ≡ (
      ok (
          summary_of utc status_counts
            (codes "day")
            (midnight (885547 * day_ns))
            (midnight (885547 * day_ns) + day_ns)
            (codes "run-1")
            tables),
      record world {
        db = record tables {
          snapshots =
              rebuilt utc status_counts
                (codes "day")
                (midnight (885547 * day_ns))
                (midnight (885547 * day_ns) + day_ns)
                (codes "run-1")
                tables;
        };
        calls = 5;
      },
    )
recompute_report_succeeds_example =
    recompute_report_succeeds up utc status_counts (request_for (codes "day") 885547 885547)
      (codes "run-1") world (λ n. refl) utc-TruncLaws (inl day_lem) slug_lem

recompute_report_day_exact_example :
    metric
      (report_slug_text status_counts)
      window_day
      (dimension_key_of status_counts)
      (885547 * day_ns, codes "processed")
      (after up utc status_counts
        (request_for (codes "day") 885547 885547)
        (codes "run-1")
        world).snapshots
    ≡ bucket_total utc status_counts window_day tables.sources
        (885547 * day_ns, codes "processed")
        tables.events
unfolding midnight
recompute_report_day_exact_example =
    recompute_report_day_exact up utc status_counts (request_for (codes "day") 885547 885547)
      (codes "run-1") world (λ n. refl) utc-TruncLaws slug_lem day_lem
      (885547 * day_ns, codes "processed") refl (omega arith) (omega arith)

week_ne_day : window_week ≢ codes "day"
unfolding window_week codes
week_ne_day e = ground (arith, e)

recompute_report_others_example :
    metric
      (report_slug_text status_counts)
      window_week
      (codes "status")
      (885547 * day_ns, codes "processed")
      (after up utc status_counts
        (request_for (codes "day") 885547 885547)
        (codes "run-1")
        world).snapshots
    ≡ metric
        (report_slug_text status_counts)
        window_week
        (codes "status")
        (885547 * day_ns, codes "processed")
        tables.snapshots
recompute_report_others_example =
    recompute_report_others up utc status_counts (request_for (codes "day") 885547 885547)
      (codes "run-1") world (λ n. refl) utc-TruncLaws slug_lem (inl day_lem)
      (report_slug_text status_counts) window_week (codes "status")
      (885547 * day_ns, codes "processed") (inr week_ne_day)

recompute_report_atomic_example :
    Untouched refusing world (
      recompute_report refusing utc (request_for (codes "day") 885547 885547) (codes "run-1") world)
recompute_report_atomic_example =
    recompute_report_atomic refusing utc (request_for (codes "day") 885547 885547) (codes "run-1")
      world

-- The day after the range has an event.
recompute_report_clears_next_day_example :
    metric
      (report_slug_text status_counts)
      window_day
      (dimension_key_of status_counts)
      (midnight (885547 * day_ns) + day_ns, codes "processed")
      (after up utc status_counts
        (request_for (codes "day") 885547 885547)
        (codes "run-1")
        world).snapshots
    ≡ 0
recompute_report_clears_next_day_example =
    recompute_report_clears_next_day up utc status_counts (request_for (codes "day") 885547 885547)
      (codes "run-1") world (λ n. refl) utc-TruncLaws slug_lem day_lem (omega arith)
      (codes "processed")

-- The week of Monday, recomputed from Tuesday on.
recompute_report_truncates_week_example :
    metric
      (report_slug_text status_counts)
      window_week
      (dimension_key_of status_counts)
      (885547 * day_ns, codes "processed")
      (after up utc status_counts
        (request_for (codes "week") 885548 885550)
        (codes "run-1")
        world).snapshots
    < bucket_total utc status_counts window_week tables.sources
        (885547 * day_ns, codes "processed")
        tables.events
unfolding midnight utc monday window_week codes ◌=ₜ◌ dimension_values count_if
recompute_report_truncates_week_example =
    recompute_report_truncates_week up utc status_counts (request_for (codes "week") 885548 885550)
      (codes "run-1") world (λ n. refl) utc-TruncLaws slug_lem week_lem (omega arith)
      (885547 * day_ns, codes "processed") (event_on 1 885547) []
      (event_on 2 885547 ∷ event_on 1 885548 ∷ []) refl refl (omega arith) (omega arith)
