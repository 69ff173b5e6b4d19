-- ===== src/Postgres/Snapshots.antt =====
-- The SQL of `RecomputeReport` in internal/infrastructure/postgres/store.go, statement by statement,
-- as functions on the tables.
pub mod Grouping
pub mod Metrics
pub mod Unique
use pg_analytics_service.Prelude.{
  ℕ, ◌+◌, ◌*◌, ◌≤◌, ◌<◌, ◌≡◌, ◌⊎◌, Bool, true, false, not, ◌&&◌, Option, none, some, List, [], ◌∷◌,
  ◌++◌, map, ltb, leb, ◌==◌, if◌then◌else◌, Text, codes, ◌=ₜ◌, keep, any, length, count_if,
}
use pg_analytics_service.Domain.Models.{Time, day_ns, window_day, window_week}
use pg_analytics_service.Domain.Errors.{plain}
use pg_analytics_service.Effects.{Result, ok, err}
use pg_analytics_service.Postgres.Database.{Source, Event, Snapshot, Database, Statement}

-- Postgres's `date_trunc` on `timestamptz`: a function of the server.
abbrev pub DateTrunc : Type 0
DateTrunc = Text → Time → Time

-- `CASE WHEN $2 = 'week' THEN INTERVAL '1 week' ELSE INTERVAL '1 day' END`.
unfoldable pub width : Text → ℕ
width window = if window =ₜ window_week then 7 * day_ns else day_ns

-- The rows that the `DELETE` and the `COUNT(DISTINCT …)` read: the report's, of the window, with
-- `lo <= bucket_start < hi`.
unfoldable pub in_range : Text → Text → Time → Time → Snapshot → Bool
in_range slug window lo hi s =
    (s.report_slug =ₜ slug)
    && (s.window_name =ₜ window)
    && leb lo s.bucket_start
    && ltb s.bucket_start hi

-- The three reports of the `switch`.
pub data Report : Type 0 where
  volume_by_period status_counts top_entities : Report

unfoldable pub report_slug_text : Report → Text
report_slug_text volume_by_period = codes "volume-by-period"
report_slug_text status_counts = codes "status-counts"
report_slug_text top_entities = codes "top-entities"

unfoldable pub report_of : Text → Option Report
report_of slug =
    if slug =ₜ codes "volume-by-period"
    then some volume_by_period
    else if slug =ₜ codes "status-counts"
    then some status_counts
    else if slug =ₜ codes "top-entities"
    then some top_entities
    else none

unfoldable pub dimension_key_of : Report → Text
dimension_key_of volume_by_period = codes "source"
dimension_key_of status_counts = codes "status"
dimension_key_of top_entities = codes "entity_id"

unfoldable pub event_count : Text
event_count = codes "event_count"

-- The dimension values of an event; for the volume report one for each row that `JOIN` pairs it with.
unfoldable pub dimension_values : Report → List Source → Event → List Text
dimension_values volume_by_period sources e =
    map (λ s. s.slug) (keep (λ s. s.id == e.source_id) sources)
dimension_values status_counts sources e = e.status ∷ []
dimension_values top_entities sources e = e.entity_id ∷ []

abbrev pub Key : Type 0
Key = Time × Text

-- The `GROUP BY` key of each selected row: `occurred_at >= $2 AND occurred_at < $3`.
unfoldable pub selected :
    DateTrunc → Report → Text → Time → Time → List Source → List Event → List Key
selected trunc report window from to sources [] = []
selected trunc report window from to sources (e ∷ es) =
    (if leb from e.occurred_at && ltb e.occurred_at to
      then map (λ v. (trunc window e.occurred_at, v)) (dimension_values report sources e)
      else [])
    ++ selected trunc report window from to sources es

unfoldable pub same_key : Key → Key → Bool
same_key a b = (a.0 == b.0) && (a.1 =ₜ b.1)

-- `GROUP BY` with `COUNT(*)`.
unfoldable pub tally : Key → List (Key × ℕ) → List (Key × ℕ)
tally k [] = (k, 1) ∷ []
tally k ((j, n) ∷ gs) = if same_key k j then (j, n + 1) ∷ gs else (j, n) ∷ tally k gs

unfoldable pub group : List Key → List (Key × ℕ)
group [] = []
group (k ∷ ks) = tally k (group ks)

unfoldable pub to_snapshot : Report → Text → Text → Key × ℕ → Snapshot
to_snapshot report window run_id (k, n) = record {
  report_slug = report_slug_text report;
  window_name = window;
  bucket_start = k.0;
  dimension_key = dimension_key_of report;
  dimension_value = k.1;
  metric_name = event_count;
  metric_value = n;
  run_id = run_id;
}

-- The columns of the table's `UNIQUE` constraint.
unfoldable pub conflicts : Snapshot → Snapshot → Bool
conflicts s t =
    (s.report_slug =ₜ t.report_slug)
    && (s.window_name =ₜ t.window_name)
    && (s.bucket_start == t.bucket_start)
    && (s.dimension_key =ₜ t.dimension_key)
    && (s.dimension_value =ₜ t.dimension_value)
    && (s.metric_name =ₜ t.metric_name)

-- `INSERT`: every new row is checked against the rows before it.
unfoldable pub insert_snapshots : List Snapshot → List Snapshot → Result (List Snapshot)
insert_snapshots [] rows = ok rows
insert_snapshots (s ∷ ss) rows =
    let rest = insert_snapshots ss (rows ++ s ∷ []) in
    if any (conflicts s) rows
    then err (plain (codes "duplicate key value violates unique constraint"))
    else rest

-- `DELETE FROM metric_snapshots …`, with the number of rows that it removes.
unfoldable pub delete_range : Text → Text → Time → Time → Statement ℕ
delete_range slug window lo hi db = ok (
  count_if (in_range slug window lo hi) db.snapshots,
  record db { snapshots = keep (λ s. not (in_range slug window lo hi s)) db.snapshots },
)

unfoldable pub new_rows : DateTrunc → Report → Text → Time → Time → Text → Database → List Snapshot
new_rows trunc report window from to run_id db =
    map (to_snapshot report window run_id)
      (group (selected trunc report window from to db.sources db.events))

abbrev pub stored : Database → ℕ → Result (List Snapshot) → Result (ℕ × Database)
stored db n (ok rows) = ok (n, record db { snapshots = rows })
stored db n (err e) = err e

-- `INSERT INTO metric_snapshots … SELECT … GROUP BY …`, with the number of rows that it adds.
unfoldable pub insert_report : DateTrunc → Report → Text → Time → Time → Text → Statement ℕ
unfolding new_rows
insert_report trunc report window from to run_id db =
    let rows = new_rows trunc report window from to run_id db in
    stored db (length rows) (insert_snapshots rows db.snapshots)

unfoldable pub distinct : List Time → List Time
distinct [] = []
distinct (t ∷ ts) = if any (λ u. t == u) ts then distinct ts else t ∷ distinct ts

-- `SELECT COUNT(DISTINCT bucket_start) …`.
unfoldable pub count_buckets : Text → Text → Time → Time → Statement ℕ
unfolding distinct
count_buckets slug window lo hi db = ok (
  length (distinct (map (λ s. s.bucket_start) (keep (in_range slug window lo hi) db.snapshots))),
  db,
)
