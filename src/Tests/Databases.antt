-- ===== src/Tests/Databases.antt =====
-- A server in UTC that answers every call, one that refuses and one that loses a reply, and tables with
-- two sources and events of September 2024.
use pg_analytics_service.Prelude.{
  ℕ, ◌+◌, ◌-◌, ◌*◌, ◌/◌, ◌%◌, ◌≤◌, ◌<◌, refl, true, [], ◌∷◌, ◌==◌, if◌then◌else◌, Text, codes, ◌=ₜ◌,
  arith,
}
use pg_analytics_service.Domain.Errors.{plain}
use pg_analytics_service.Domain.Models.{Time, day_ns, window_day, window_week, RecomputeRequest}
use pg_analytics_service.Effects.{ok}
use pg_analytics_service.Postgres.Database.{
  Event, DefinitionRow, Snapshot, Database, World, Driver, runs, refused,
}
use pg_analytics_service.Postgres.Snapshots.{DateTrunc, width}
use pg_analytics_service.Postgres.Buckets.{TruncLaws}

-- Monday by Monday: day 0 is a Wednesday.
unfoldable pub monday : Time → Time
monday t = (t / day_ns - (t / day_ns + 2) % 7) * day_ns

unfoldable pub utc : DateTrunc
unfolding monday
utc window t = if window =ₜ window_week then monday t else t - t % day_ns

monday_le : (t : Time) → monday t ≤ t
unfolding monday
monday_le t = omega arith

lt_monday : (t : Time) → t < monday t + 7 * day_ns
unfolding monday
lt_monday t = omega arith

monday_mono : (s t : Time) → s ≤ t → monday s ≤ monday t
unfolding monday
monday_mono s t h = omega arith

pub utc-TruncLaws : TruncLaws utc
unfolding utc width window_day window_week codes ◌=ₜ◌
utc-TruncLaws = record {
  trunc_le = λ w t _. ground (arith, monday_le t);
  lt_trunc_add = λ w t _. ground (arith, lt_monday t);
  trunc_mono = λ w s t _ h. ground (arith, monday_mono s t h);
  trunc_day = λ t. refl;
}

abbrev pub up : Driver
up = record { verdict = λ _. runs; random_uuid = λ _. codes "uuid"; read_uuid = ok }

-- The fourth call, the count of the buckets, is refused.
abbrev pub refusing : Driver
refusing = record {
  verdict = λ n. if n == 3 then refused (plain (codes "timeout")) else runs;
  random_uuid = λ _. codes "uuid";
  read_uuid = ok;
}

-- 2024-09-16 is a Monday, 885547 days after the origin.
abbrev pub noon : ℕ → Time
noon day = day * day_ns + 12 * 3600 * 1000000000

abbrev pub event_on : ℕ → ℕ → Event
event_on source day = record {
  source_id = source;
  entity_id = codes "order-1";
  status = codes "processed";
  occurred_at = noon day;
}

abbrev pub old_row : Snapshot
old_row = record {
  report_slug = codes "status-counts";
  window_name = codes "day";
  bucket_start = 885547 * day_ns;
  dimension_key = codes "status";
  dimension_value = codes "processed";
  metric_name = codes "event_count";
  metric_value = 9;
  run_id = codes "run-0";
}

abbrev pub definition_row : DefinitionRow
definition_row = record {
  slug = codes "status-counts";
  name = codes "Status counts";
  description = [];
  cache_ttl_seconds = 60;
  default_window = codes "day";
  is_public = true;
  supported_filters = [];
  updated_at = 0;
}

abbrev pub tables : Database
tables = record {
  sources = record { id = 1; slug = codes "web" } ∷ record { id = 2; slug = codes "mobile" } ∷ [];
  events = event_on 1 885547 ∷ event_on 2 885547 ∷ event_on 1 885548 ∷ [];
  snapshots = old_row ∷ [];
  runs = [];
  audits = [];
  audit_seq = 0;
  definitions = definition_row ∷ [];
  windows =
      record { report_slug = codes "status-counts"; window_name = codes "week" }
      ∷ record { report_slug = codes "status-counts"; window_name = codes "day" }
      ∷ [];
}

abbrev pub world : World
world = record { db = tables; now = noon 885560; calls = 0 }

-- A request for some days of status counts.
abbrev pub request_for : Text → ℕ → ℕ → RecomputeRequest
request_for window from to = record {
  report_slug = codes "status-counts";
  window = window;
  date_from = from * day_ns;
  date_to = to * day_ns;
  requested_by = [];
  requested_via = [];
}
