-- ===== src/Postgres/Recompute/Exact.antt =====
-- What `RecomputeReport` does to the numbers that the reports read.
use pg_analytics_service.Prelude.{
  ◌+◌, ◌%◌, ◌≤◌, ◌<◌, ◌≡◌, refl, ap, ◌∙◌, inl, ◌⊎◌, ◌≢◌, List, [], ◌∷◌, Text, arith,
}
use pg_analytics_service.Domain.Models.{Time, day_ns, window_day, RecomputeRequest}
use pg_analytics_service.Postgres.Database.{Source, Event, Database, World, Driver}
use pg_analytics_service.Postgres.Snapshots.{
  DateTrunc, Report, Key, report_slug_text, dimension_key_of,
}
use pg_analytics_service.Postgres.Snapshots.Metrics.{metric}
use pg_analytics_service.Postgres.Snapshots.Unique.{IsUnique}
use pg_analytics_service.Postgres.Buckets.{TruncLaws, IsWindow}
use pg_analytics_service.Postgres.Recompute.{midnight, recompute_report}
use pg_analytics_service.Postgres.Recompute.Rebuild.{
  IsUp, rebuilt, rebuilt-IsUnique, recompute_report_succeeds,
}
use pg_analytics_service.Postgres.Recompute.Metrics.{
  bucket_total, dated_total, metric-rebuilt, metric-rebuilt_other,
}

midnight_aligned : (t : Time) → midnight t % day_ns ≡ 0
unfolding midnight
midnight_aligned t = omega arith

-- A whole day between two midnights: all of its events are dated between them.
dated_total-day :
    (trunc : DateTrunc) (laws : TruncLaws trunc) (r : Report) (sources : List Source) (k : Key)
    (from to : Time)
    → from ≤ k.0
    → k.0 < to
    → k.0 % day_ns ≡ 0
    → to % day_ns ≡ 0
    → (es : List Event)
    → dated_total trunc r window_day sources k from to es
      ≡ bucket_total trunc r window_day sources k es
unfolding dated_total bucket_total
dated_total-day trunc laws r sources k from to h h' a b [] = refl
dated_total-day trunc laws r sources k from to h h' a b (e ∷ es) = ground (
  arith,
  laws.trunc_day e.occurred_at,
  dated_total-day trunc laws r sources k from to h h' a b es,
)

module _ (driver : Driver) (trunc : DateTrunc) (r : Report) (request : RecomputeRequest)
    (run_id : Text) (w : World) where
  abbrev pub after : Database
  after = (recompute_report driver trunc request run_id w).1.db

  abbrev pub from_ts : Time
  from_ts = midnight request.date_from

  abbrev pub to_exclusive : Time
  to_exclusive = midnight request.date_to + day_ns

  module _ (up : IsUp driver) (laws : TruncLaws trunc)
      (slug : request.report_slug ≡ report_slug_text r) where
    after-snapshots :
        IsWindow request.window
        → after.snapshots ≡ rebuilt trunc r request.window from_ts to_exclusive run_id w.db
    after-snapshots is_window =
        ap (λ p. p.1.db.snapshots)
          (recompute_report_succeeds driver trunc r request run_id w up laws is_window slug)

    pub after-snapshots_as :
        (window : Text)
        → request.window ≡ window
        → IsWindow window
        → after.snapshots ≡ rebuilt trunc r window from_ts to_exclusive run_id w.db
    after-snapshots_as window e is_window =
        after-snapshots (rw e is_window)
        ∙ ap (λ v. rebuilt trunc r v from_ts to_exclusive run_id w.db) e

    -- With the server up, `date_trunc` as in UTC and a known report, after a recomputation of `day`
    -- windows every day from `date_from` to `date_to` counts, for each dimension value, exactly the
    -- events of that day, whatever the snapshots were before.
    pub recompute_report_day_exact :
        request.window ≡ window_day
        → (k : Key) → k.0 % day_ns ≡ 0
        → from_ts ≤ k.0
        → k.0 < to_exclusive
        → metric (report_slug_text r) window_day (dimension_key_of r) k after.snapshots
          ≡ bucket_total trunc r window_day w.db.sources k w.db.events
    recompute_report_day_exact day k aligned lo_le lt_hi =
        ap (metric (report_slug_text r) window_day (dimension_key_of r) k)
          (after-snapshots_as window_day day (inl refl))
        ∙ (metric-rebuilt trunc r window_day from_ts to_exclusive run_id w.db k
              (omega (arith, laws.trunc_le window_day from_ts (inl refl)))
              (omega (arith, laws.lt_trunc_add window_day to_exclusive (inl refl)))
            ∙ dated_total-day trunc laws r w.db.sources k from_ts to_exclusive lo_le lt_hi aligned
                (omega (arith, midnight_aligned request.date_to)) w.db.events)

    -- Under the same conditions, for a day or week window: the metrics of another report, or of another
    -- window, are as they were.
    pub recompute_report_others :
        IsWindow request.window
        → (other window dimension : Text) (k : Key)
        → (other ≢ report_slug_text r) ⊎ (window ≢ request.window)
        → metric other window dimension k after.snapshots
          ≡ metric other window dimension k w.db.snapshots
    recompute_report_others is_window other window dimension k h =
        ap (metric other window dimension k) (after-snapshots is_window)
        ∙ metric-rebuilt_other trunc r request.window from_ts to_exclusive run_id w.db k other
            window dimension h

    -- Under the same conditions, for a day or week window: the `UNIQUE` constraint of the snapshots holds
    -- after a recomputation if it held before.
    recompute_report-IsUnique :
        IsWindow request.window → IsUnique w.db.snapshots → IsUnique after.snapshots
    recompute_report-IsUnique is_window u =
        rw (after-snapshots is_window) (
          rebuilt-IsUnique trunc r request.window from_ts to_exclusive run_id laws is_window w.db u)
