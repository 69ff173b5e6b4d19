-- ===== src/Postgres/Recompute/Gaps.antt =====
-- Where a recomputation leaves numbers that are not those of the events: the `DELETE` of
-- `RecomputeReport` reaches further than its `INSERT`.
use pg_analytics_service.Prelude.{
  ◌+◌, ◌≤◌, ◌<◌, ◌≡◌, refl, ap, ◌∙◌, inl, inr, List, [], ◌∷◌, ◌++◌, Text, arith,
}
use pg_analytics_service.Domain.Models.{Time, day_ns, window_day, window_week, RecomputeRequest}
use pg_analytics_service.Postgres.Database.{Source, Event, World, Driver}
use pg_analytics_service.Postgres.Snapshots.{
  DateTrunc, Report, Key, report_slug_text, dimension_key_of,
}
use pg_analytics_service.Postgres.Snapshots.Metrics.{metric}
use pg_analytics_service.Postgres.Buckets.{TruncLaws, width_pos}
use pg_analytics_service.Postgres.Recompute.{midnight}
use pg_analytics_service.Postgres.Recompute.Rebuild.{IsUp}
use pg_analytics_service.Postgres.Recompute.Metrics.{
  weight, bucket_total, dated_total, metric-rebuilt,
}
use pg_analytics_service.Postgres.Recompute.Exact.{after, after-snapshots_as}

midnight_mono :
    (request : RecomputeRequest)
    → request.date_from ≤ request.date_to
    → midnight request.date_from ≤ midnight request.date_to
unfolding midnight
midnight_mono request h = omega arith

-- No event before an instant falls into a bucket that starts there.
dated_total_late :
    (trunc : DateTrunc) (laws : TruncLaws trunc) (r : Report) (sources : List Source) (k : Key)
    (from to : Time)
    → to ≤ k.0
    → (es : List Event) → dated_total trunc r window_day sources k from to es ≡ 0
unfolding dated_total
dated_total_late trunc laws r sources k from to h [] = refl
dated_total_late trunc laws r sources k from to h (e ∷ es) = ground (
  arith,
  laws.trunc_le window_day e.occurred_at (inl refl),
  dated_total_late trunc laws r sources k from to h es,
)

module _ (trunc : DateTrunc) (r : Report) (window : Text) (sources : List Source) (k : Key)
    (from to : Time) where
  dated_total-le :
      (es : List Event)
      → dated_total trunc r window sources k from to es ≤ bucket_total trunc r window sources k es
  unfolding dated_total bucket_total
  dated_total-le [] = omega arith
  dated_total-le (e ∷ es) = ground (arith, dated_total-le es)

  -- An event before `from` is in the total and not in the dated total.
  dated_total-lt :
      (e : Event) (xs ys : List Event)
      → e.occurred_at < from
      → 0 < weight trunc r window sources k e
      → dated_total trunc r window sources k from to (xs ++ e ∷ ys)
        < bucket_total trunc r window sources k (xs ++ e ∷ ys)
  unfolding dated_total bucket_total
  dated_total-lt e [] ys h p = ground (arith, dated_total-le ys)
  dated_total-lt e (x ∷ xs) ys h p = ground (arith, dated_total-lt e xs ys h p)

module _ (driver : Driver) (trunc : DateTrunc) (r : Report) (request : RecomputeRequest)
    (run_id : Text) (w : World) (up : IsUp driver) (laws : TruncLaws trunc)
    (slug : request.report_slug ≡ report_slug_text r) where
  -- With the server up, `date_trunc` as in UTC, a known report, `day` windows and dates in order: the
  -- day after `date_to` counts no events after the recomputation, whatever its events are.
  pub recompute_report_clears_next_day :
      request.window ≡ window_day
      → request.date_from ≤ request.date_to
      → (value : Text)
      → metric
          (report_slug_text r)
          window_day
          (dimension_key_of r)
          (midnight request.date_to + day_ns, value)
          (after driver trunc r request run_id w).snapshots
        ≡ 0
  recompute_report_clears_next_day day ordered value =
      ap (metric (report_slug_text r) window_day (dimension_key_of r) (to, value))
        (after-snapshots_as driver trunc r request run_id w up laws slug window_day day (inl refl))
      ∙ (metric-rebuilt trunc r window_day from to run_id w.db (to, value)
            (omega (arith, laws.trunc_le window_day from (inl refl), midnight_mono request ordered))
            (omega (arith, laws.lt_trunc_add window_day to (inl refl)))
          ∙ dated_total_late trunc laws r w.db.sources (to, value) from to (omega arith)
              w.db.events)
    where
      from : Time
      from = midnight request.date_from

      to : Time
      to = midnight request.date_to + day_ns

  -- With the server up, `date_trunc` as in UTC, a known report, `week` windows and dates in order: if
  -- the week of `date_from` has an event before `date_from`, then for the dimension values of that
  -- event the week counts fewer events after the recomputation than it has.
  pub recompute_report_truncates_week :
      request.window ≡ window_week
      → request.date_from ≤ request.date_to
      → (k : Key) (e : Event) (xs ys : List Event)
      → k.0 ≡ trunc window_week (midnight request.date_from)
      → w.db.events ≡ xs ++ e ∷ ys
      → e.occurred_at < midnight request.date_from
      → 0 < weight trunc r window_week w.db.sources k e
      → metric
          (report_slug_text r)
          window_week
          (dimension_key_of r)
          k
          (after driver trunc r request run_id w).snapshots
        < bucket_total trunc r window_week w.db.sources k w.db.events
  recompute_report_truncates_week week ordered k e xs ys start split early counts = omega (
    arith,
    ap (metric (report_slug_text r) window_week (dimension_key_of r) k) (
        after-snapshots_as driver trunc r request run_id w up laws slug window_week week
          (inr refl)),
    metric-rebuilt trunc r window_week from to run_id w.db k (omega arith) (
        omega (
          arith,
          laws.trunc_mono window_week from to (inr refl)
              (omega (arith, midnight_mono request ordered)),
          width_pos window_week,
        )),
    ap (dated_total trunc r window_week w.db.sources k from to) split,
    ap (bucket_total trunc r window_week w.db.sources k) split,
    dated_total-lt trunc r window_week w.db.sources k from to e xs ys early counts,
  )
    where
      from : Time
      from = midnight request.date_from

      to : Time
      to = midnight request.date_to + day_ns
