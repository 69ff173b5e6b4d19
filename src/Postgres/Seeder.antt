-- ===== src/Postgres/Seeder.antt =====
-- internal/infrastructure/postgres/seed.go, in a session whose time zone is UTC. Of the demo events the
-- columns that the reports read are kept. The logger is left out.
pub mod Skip
pub mod Scope
pub mod Complete
use pg_analytics_service.Prelude.{
  ℕ, zero, suc, ◌+◌, ◌-◌, ◌*◌, ◌%◌, Bool, true, false, Option, none, some, List, [], ◌∷◌, ◌++◌, map,
  keep, length, ltb, ◌==◌, if◌then◌else◌, Text, codes, ◌=ₜ◌,
}
use pg_analytics_service.Domain.Errors.{Error, plain, wrapped, error_text}
use pg_analytics_service.Domain.Models.{
  Time, second, day_ns, window_day, window_week, run_status_running, RecomputeRequest, RecomputeRun,
  RecomputeSummary,
}
use pg_analytics_service.Domain.Numbers.{decimal}
use pg_analytics_service.Effects.{
  Result, ok, err, Action, pure, raise, ◌>>=◌, ◌>>◌, attempt, rethrow,
}
use pg_analytics_service.Postgres.Database.{
  Source, Event, Database, World, Driver, Statement, statement,
}
use pg_analytics_service.Postgres.Recompute.{recompute_report}
use pg_analytics_service.Postgres.Runs.{create_run, mark_run_completed, mark_run_failed}
use pg_analytics_service.Postgres.Snapshots.{DateTrunc}

-- `TRUNCATE TABLE … RESTART IDENTITY CASCADE`.
unfoldable pub reset_demo_tables : Statement (Unit {0})
reset_demo_tables db =
    ok (tt, record db { snapshots = []; runs = []; audits = []; audit_seq = 0; events = [] })

-- `SELECT COUNT(*) FROM analytics_events`.
unfoldable pub count_events : Statement ℕ
count_events db = ok (length db.events, db)

-- `MAX(id)`, of no rows NULL.
unfoldable pub max_id : List Source → Option ℕ
max_id [] = none
max_id (s ∷ ss) = elim (max_id ss) [
  | none ↦ some s.id
  | some n ↦ some (if ltb n s.id then s.id else n)
]

unfoldable pub id_of_slug : Text → List Source → Option ℕ
unfolding max_id
id_of_slug slug sources = max_id (keep (λ s. s.slug =ₜ slug) sources)

-- The row `source_map`.
pub record SourceMap : Type 0 where
  pub stripe_id : Option ℕ
  pub adyen_id : Option ℕ
  pub paypal_id : Option ℕ

unfoldable pub source_map : List Source → SourceMap
unfolding id_of_slug
source_map sources = record {
  stripe_id = id_of_slug (codes "stripe") sources;
  adyen_id = id_of_slug (codes "adyen") sources;
  paypal_id = id_of_slug (codes "paypal") sources;
}

unfoldable pub source_id_of : SourceMap → ℕ → Option ℕ
source_id_of ids gs =
    if gs % 3 == 0 then ids.stripe_id else if gs % 3 == 1 then ids.adyen_id else ids.paypal_id

unfoldable pub demo_status : ℕ → Text
demo_status gs =
    if gs % 17 == 0
    then codes "failed"
    else if gs % 11 == 0
    then codes "pending"
    else codes "success"

unfoldable pub demo_event : DateTrunc → Time → ℕ → ℕ → Event
unfolding demo_status
demo_event trunc now gs source_id = record {
  source_id = source_id;
  entity_id = codes "entity-" ++ decimal (gs % 240 + 1);
  status = demo_status gs;
  occurred_at = trunc (codes "hour") (now - gs % 90 * day_ns - gs % 24 * (3600 * second));
}

-- A row of the `SELECT` in front of the rows after it; `source_id` is NOT NULL.
abbrev pub with_event : DateTrunc → Time → ℕ → Option ℕ → Option (List Event) → Option (List Event)
with_event trunc now gs none rest = none
with_event trunc now gs (some id) none = none
with_event trunc now gs (some id) (some events) = some (demo_event trunc now gs id ∷ events)

-- The rows for `count` numbers from `gs` on.
unfoldable pub demo_events : DateTrunc → Time → SourceMap → ℕ → ℕ → Option (List Event)
unfolding demo_event source_id_of
demo_events trunc now ids gs zero = some []
demo_events trunc now ids gs (suc count) =
    with_event trunc now gs (source_id_of ids gs) (demo_events trunc now ids (suc gs) count)

unfoldable pub demo_size : ℕ
demo_size = 25000

abbrev pub inserted_or_error : Database → Option (List Event) → Result (Unit {0} × Database)
inserted_or_error db none =
    err (plain (codes "null value in column \"source_id\" violates not-null constraint"))
inserted_or_error db (some events) = ok (tt, record db { events = db.events ++ events })

-- `INSERT INTO analytics_events … FROM generate_series(1, 25000)`; the table is empty, so no
-- `external_ref` is taken.
unfoldable pub insert_demo_events : DateTrunc → Time → Statement (Unit {0})
unfolding demo_events demo_size source_map
insert_demo_events trunc now db =
    inserted_or_error db (demo_events trunc now (source_map db.sources) 1 demo_size)

unfoldable pub seed_request : Text → Text → Time → Time → RecomputeRequest
seed_request slug window from to = record {
  report_slug = slug;
  window = window;
  date_from = from;
  date_to = to;
  requested_by = codes "seed";
  requested_via = [];
}

unfoldable pub seed_error : Text → Text → Text → Error → Error
seed_error message slug window e = wrapped (message ++ (slug ++ (b'/' ∷ window))) e

-- The slugs and windows of the two loops, in their order.
unfoldable pub seed_scopes : List (Text × Text)
seed_scopes =
    (codes "volume-by-period", window_day)
    ∷ (codes "volume-by-period", window_week)
    ∷ (codes "status-counts", window_day)
    ∷ (codes "status-counts", window_week)
    ∷ (codes "top-entities", window_day)
    ∷ (codes "top-entities", window_week)
    ∷ []

module _ (driver : Driver) (trunc : DateTrunc) where
  unfoldable pub finish_seed_run :
      Text → Text → Text → Result RecomputeSummary → Action World (Unit {0})
  unfolding seed_error
  finish_seed_run slug window run_id (err e) = do
    attempt (mark_run_failed driver run_id (error_text e))
    raise (seed_error (codes "failed to recompute seed snapshots for ") slug window e)
  finish_seed_run slug window run_id (ok summary) =
      rethrow (seed_error (codes "failed to finalize seed run for ") slug window)
        (mark_run_completed driver run_id summary)

  unfoldable pub seed_snapshots : Text → Text → Time → Time → Action World (Unit {0})
  unfolding finish_seed_run seed_request seed_error
  seed_snapshots slug window from to = do
    let request = seed_request slug window from to
    run ←
        rethrow (seed_error (codes "failed to create seed run for ") slug window)
          (create_run driver request run_status_running)
    summary ← attempt (recompute_report driver trunc request run.id)
    finish_seed_run slug window run.id summary

  unfoldable pub seed_all : List (Text × Text) → Time → Time → Action World (Unit {0})
  unfolding seed_snapshots
  seed_all [] from to = pure tt
  seed_all ((slug, window) ∷ scopes) from to =
      seed_snapshots slug window from to >> seed_all scopes from to

  -- The inserts. `from_now` and `to_now` are the two reads of `time.Now().UTC()`.
  unfoldable pub seed_tables : Time → Time → Action World (Unit {0})
  unfolding insert_demo_events seed_all seed_scopes
  seed_tables from_now to_now = do
    rethrow (wrapped (codes "failed to insert demo events"))
        (λ w. statement driver (insert_demo_events trunc w.now) w)
    seed_all seed_scopes (from_now - 90 * day_ns) to_now

  unfoldable pub seed_if_empty : Time → Time → Action World (Unit {0})
  unfolding seed_tables count_events
  seed_if_empty from_now to_now = do
    count ←
        rethrow (wrapped (codes "failed to check analytics_events count"))
          (statement driver count_events)
    if ltb 0 count then pure tt else seed_tables from_now to_now

  unfoldable pub seed : Bool → Time → Time → Action World (Unit {0})
  unfolding seed_if_empty reset_demo_tables
  seed false from_now to_now = seed_if_empty from_now to_now
  seed true from_now to_now =
      rethrow (wrapped (codes "failed to reset demo tables")) (statement driver reset_demo_tables)
      >> seed_if_empty from_now to_now
