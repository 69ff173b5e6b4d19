-- ===== src/Postgres/Reports/Exact.antt =====
-- A report that is read after its recomputation, against the events themselves.
use pg_analytics_service.Prelude.{
  ℕ, ◌+◌, ◌≡◌, ap, ◌∙◌, Bool, List, map, Text, IsTotal, IsSortedBy, take, drop, pos,
}
use pg_analytics_service.Domain.Models.{day_ns, ReportRunParams, RecomputeRequest}
use pg_analytics_service.Effects.{ok}
use pg_analytics_service.Postgres.Database.{World, Driver, statement}
use pg_analytics_service.Postgres.Snapshots.{DateTrunc, Report, Key, report_slug_text}
use pg_analytics_service.Postgres.Snapshots.Grouping.{grouped}
use pg_analytics_service.Postgres.Snapshots.Metrics.{sum_if}
use pg_analytics_service.Postgres.Buckets.{TruncLaws, IsWindow}
use pg_analytics_service.Postgres.Recompute.{midnight, recompute_report}
use pg_analytics_service.Postgres.Recompute.Rebuild.{IsUp, statement_runs, rebuilt}
use pg_analytics_service.Postgres.Recompute.Exact.{after, after-snapshots_as}
use pg_analytics_service.Postgres.Reports.{
  Sum, Grouping, report_sums, order_of, page, collect_row, rows_of, select_sums,
}
use pg_analytics_service.Postgres.Reports.Sums.{
  HaveDistinctKeys, report_sums-HaveDistinctKeys, report_sums-IsSortedBy, grouped-report_sums,
}
use pg_analytics_service.Postgres.Reports.Rebuilt.{events_of_row, row_test, sum_if-rebuilt}

module _ (driver : Driver) (trunc : DateTrunc) (collate : Text → Text → Bool) (report : Report)
    (by : Grouping) (column value : Text) (request : RecomputeRequest) (run_id : Text)
    (params : ReportRunParams) (w : World) where
  -- The sums of the report in the tables that the recomputation leaves.
  abbrev pub sums : List Sum
  sums =
      report_sums collate report by params value
        (after driver trunc report request run_id w).snapshots

  -- With the server up, `date_trunc` as in UTC and a total order of texts: a report that is read
  -- after a recomputation of its window and dates has one row for each key, in the order of its
  -- `ORDER BY`, and the sum of each key is the number of events from `date_from` to `date_to` that go
  -- to its row, each as often as it has such a dimension value. The reply is the page of these rows
  -- that `LIMIT` and `OFFSET` name.
  pub report_counts_events :
      IsUp driver
      → TruncLaws trunc
      → IsTotal collate
      → request.report_slug ≡ report_slug_text report
      → IsWindow params.window
      → request.window ≡ params.window
      → request.date_from ≡ params.date_from
      → request.date_to ≡ params.date_to
      → (limit offset : ℕ) → params.limit ≡ pos limit
      → params.offset ≡ pos offset
      → HaveDistinctKeys sums
        × IsSortedBy (order_of collate by) sums
        × ((k : Key)
            → grouped k sums
              ≡ events_of_row report by params value k trunc w.db.sources w.db.events)
        × ((statement driver
              (select_sums collate report by column params value)
              (recompute_report driver trunc request run_id w).1).0
            ≡ ok (map (collect_row by column) (take limit (drop offset sums))))
  unfolding select_sums page
  report_counts_events up laws total slug is_window window from to limit offset l o = (
    report_sums-HaveDistinctKeys collate report by params value _,
    report_sums-IsSortedBy collate report by params value _ total,
    λ k.
        grouped-report_sums collate report by params value _ k
        ∙ (ap (sum_if (row_test report by params value k)) left
            ∙ sum_if-rebuilt report by params value k trunc laws is_window run_id w),
    ap (λ r. r.0)
        (statement_runs driver up (select_sums collate report by column params value)
          (recompute_report driver trunc request run_id w).1
          (map (collect_row by column) (take limit (drop offset sums)))
          (recompute_report driver trunc request run_id w).1.db
          (ap (λ r. rows_of (recompute_report driver trunc request run_id w).1.db by column r)
            (ap (λ n. page n params.offset sums) l ∙ ap (λ n. page (pos limit) n sums) o))),
  )
    where
      left :
          (after driver trunc report request run_id w).snapshots
          ≡ rebuilt trunc report params.window
              (midnight params.date_from)
              (midnight params.date_to + day_ns)
              run_id
              w.db
      left =
          after-snapshots_as driver trunc report request run_id w up laws slug params.window window
            is_window
          ∙ (ap
                (λ d.
                  rebuilt trunc report params.window (midnight d)
                    (midnight request.date_to + day_ns) run_id w.db)
                from
              ∙ ap
                  (λ d.
                    rebuilt trunc report params.window (midnight params.date_from)
                      (midnight d + day_ns) run_id w.db)
                  to)
