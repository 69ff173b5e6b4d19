-- ===== src/Postgres/Reports.antt =====
-- The report queries of internal/infrastructure/postgres/store.go: `RunVolumeReport`,
-- `RunStatusCountsReport`, `RunTopEntitiesReport` and `collectRows`. `collate` is the order of texts in
-- the database, on which it only matters that it is total.
pub mod Sums
pub mod Rebuilt
pub mod Exact
use pg_analytics_service.Prelude.{
  ℕ, ◌+◌, ◌≡◌, Bool, ◌&&◌, ◌||◌, List, [], ◌∷◌, map, keep, take, drop, ltb, leb, ◌==◌,
  if◌then◌else◌, Text, codes, ◌=ₜ◌, ℤ, pos, negsuc, sort_rows,
}
use pg_analytics_service.Domain.Errors.{Error, plain}
use pg_analytics_service.Domain.Models.{Time, day_ns, ReportRunParams, Row, text, number}
use pg_analytics_service.Domain.Calendar.{format_date}
use pg_analytics_service.Effects.{Result, ok, err, Action}
use pg_analytics_service.Strings.{lower}
use pg_analytics_service.Postgres.Database.{Snapshot, Database, World, Driver, Statement, statement}
use pg_analytics_service.Postgres.Snapshots.{
  Report, volume_by_period, status_counts, top_entities, report_slug_text, dimension_key_of, Key,
  same_key, event_count,
}
use pg_analytics_service.Postgres.Recompute.{midnight}

-- The two bytes of U+017F, the long s, as the s that it folds to.
unfoldable pub joined : ℕ → Text → Text
joined c [] = c ∷ []
joined c (d ∷ s) = if (c == 197) && (d == 191) then b's' ∷ s else c ∷ d ∷ s

-- A string with its letters folded to those of ASCII.
unfoldable pub folded : Text → Text
unfolding joined lower
folded [] = []
folded (c ∷ s) = joined (lower c) (folded s)

-- `strings.EqualFold(s, t)` where `t` is ASCII and has no k, as the three literals of the code.
unfoldable pub equal_fold : Text → Text → Bool
unfolding folded
equal_fold s t = folded s =ₜ folded t

-- A column and its sum, keyed by the columns of `GROUP BY`.
abbrev pub Sum : Type 0
Sum = Key × ℕ

-- The `WHERE` of the five queries: `$2::date` and `$3::date + INTERVAL '1 day'` are midnights in UTC,
-- and an empty `value` filters nothing; `RunTopEntitiesReport` has no such filter.
unfoldable pub selects : Report → ReportRunParams → Text → Snapshot → Bool
unfolding midnight
selects report params value s =
    (s.report_slug =ₜ report_slug_text report)
    && (s.window_name =ₜ params.window)
    && (s.metric_name =ₜ event_count)
    && (s.dimension_key =ₜ dimension_key_of report)
    && leb (midnight params.date_from) s.bucket_start
    && ltb s.bucket_start (midnight params.date_to + day_ns)
    && ((value =ₜ []) || (s.dimension_value =ₜ value))

-- The three lists of columns of `GROUP BY`. A column that is not grouped by is 0 or empty in the key.
pub data Grouping : Type 0 where
  by_day_and_value by_day by_value : Grouping

unfoldable pub group_key : Grouping → Time → Text → Key
unfolding midnight
group_key by_day_and_value bucket value = (midnight bucket, value)
group_key by_day bucket value = (midnight bucket, [])
group_key by_value bucket value = (0, value)

-- `GROUP BY` with `SUM(metric_value)`.
unfoldable pub add_to : Key → ℕ → List Sum → List Sum
add_to k n [] = (k, n) ∷ []
add_to k n ((j, m) ∷ sums) = if same_key k j then (j, m + n) ∷ sums else (j, m) ∷ add_to k n sums

unfoldable pub sum_groups : Grouping → List Snapshot → List Sum
unfolding add_to group_key
sum_groups by [] = []
sum_groups by (s ∷ ss) =
    add_to (group_key by s.bucket_start s.dimension_value) s.metric_value (sum_groups by ss)

-- `ORDER BY bucket_date ASC, value ASC`.
unfoldable pub by_key_order : (Text → Text → Bool) → Sum → Sum → Bool
by_key_order collate a b = ltb a.0.0 b.0.0 || ((a.0.0 == b.0.0) && collate a.0.1 b.0.1)

-- `ORDER BY event_count DESC, value ASC`.
unfoldable pub by_count_order : (Text → Text → Bool) → Sum → Sum → Bool
by_count_order collate a b = ltb b.1 a.1 || ((a.1 == b.1) && collate a.0.1 b.0.1)

unfoldable pub order_of : (Text → Text → Bool) → Grouping → Sum → Sum → Bool
unfolding by_key_order by_count_order
order_of collate by_day_and_value = by_key_order collate
order_of collate by_day = by_key_order collate
order_of collate by_value = by_count_order collate

-- `LIMIT` and `OFFSET`, which the server refuses below 0.
unfoldable pub page {ℓ} : {A : Type ℓ} → ℤ → ℤ → List A → Result (List A)
page (negsuc n) offset rows = err (plain (codes "LIMIT must not be negative"))
page (pos n) (negsuc m) rows = err (plain (codes "OFFSET must not be negative"))
page (pos n) (pos m) rows = ok (take n (drop m rows))

-- `collectRows` under the column names: a time is printed as a date by `normalizeValue`.
unfoldable pub collect_row : Grouping → Text → Sum → Row
collect_row by_day_and_value column (k, n) =
    (codes "bucket_date", text (format_date k.0))
    ∷ (column, text k.1)
    ∷ (codes "event_count", number (pos n))
    ∷ []
collect_row by_day column (k, n) =
    (codes "bucket_date", text (format_date k.0)) ∷ (codes "event_count", number (pos n)) ∷ []
collect_row by_value column (k, n) = (column, text k.1) ∷ (codes "event_count", number (pos n)) ∷ []

-- The sums of a query before its `LIMIT`.
unfoldable pub report_sums :
    (Text → Text → Bool) → Report → Grouping → ReportRunParams → Text → List Snapshot → List Sum
unfolding selects sum_groups order_of
report_sums collate report by params value snapshots =
    sort_rows (order_of collate by) (sum_groups by (keep (selects report params value) snapshots))

abbrev pub rows_of : Database → Grouping → Text → Result (List Sum) → Result (List Row × Database)
rows_of db by column (ok sums) = ok (map (collect_row by column) sums, db)
rows_of db by column (err e) = err e

-- One of the five `SELECT`s. A sum is less than 2^63.
unfoldable pub select_sums :
    (Text → Text → Bool) → Report → Grouping → Text → ReportRunParams → Text → Statement (List Row)
unfolding report_sums page collect_row
select_sums collate report by column params value db =
    rows_of db by column
      (page params.limit params.offset (report_sums collate report by params value db.snapshots))

module _ (driver : Driver) (collate : Text → Text → Bool) where
  unfoldable pub run_volume_report : ReportRunParams → Action World (List Row)
  unfolding select_sums equal_fold
  run_volume_report params =
      if equal_fold params.breakdown (codes "source")
      then statement driver (
          select_sums collate volume_by_period by_day_and_value (codes "source") params
            params.source)
      else statement driver (select_sums collate volume_by_period by_day [] params params.source)

  unfoldable pub run_status_counts_report : ReportRunParams → Action World (List Row)
  unfolding select_sums equal_fold
  run_status_counts_report params =
      if equal_fold params.breakdown (codes "period")
      then statement driver
          (select_sums collate status_counts by_day_and_value (codes "status") params params.status)
      else statement driver
          (select_sums collate status_counts by_value (codes "status") params params.status)

  unfoldable pub run_top_entities_report : ReportRunParams → Action World (List Row)
  unfolding select_sums
  run_top_entities_report params =
      statement driver (select_sums collate top_entities by_value (codes "entity_id") params [])
