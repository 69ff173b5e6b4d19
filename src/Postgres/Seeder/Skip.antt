-- ===== src/Postgres/Seeder/Skip.antt =====
-- `Seed` on tables that have events already, also after a seed that failed half way.
use pg_analytics_service.Prelude.{
  ℕ, zero, suc, ◌-◌, ◌*◌, ◌<◌, ◌≡◌, refl, false, some, List, [], ◌∷◌, ◌++◌, length, ltb, Text,
  codes, arith,
}
use pg_analytics_service.Domain.Errors.{Error}
use pg_analytics_service.Domain.Models.{Time, day_ns, window_day}
use pg_analytics_service.Effects.{ok, err}
use pg_analytics_service.Postgres.Database.{Event, World, Driver, runs, refused, statement}
use pg_analytics_service.Postgres.Runs.{create_run}
use pg_analytics_service.Postgres.Seeder.{
  SourceMap, source_map, source_id_of, count_events, demo_event, demo_events, demo_size,
  insert_demo_events, seed_error, seed_scopes, seed_snapshots, seed_all, seed_tables, seed_if_empty,
  seed,
}
use pg_analytics_service.Postgres.Snapshots.{DateTrunc}

module _ (driver : Driver) (trunc : DateTrunc) where
  pub count_answered :
      (w : World)
      → driver.verdict w.calls ≡ runs
      → statement driver count_events w
        ≡ (ok (length w.db.events), record w { calls = suc w.calls })
  unfolding statement count_events
  count_answered w up = rw (up, statement) refl

  -- When the count is answered and there are events, `Seed` without force succeeds and leaves every
  -- table alone, whatever snapshots and runs there are.
  pub seed-skips :
      (from_now to_now : Time) (w : World)
      → driver.verdict w.calls ≡ runs
      → 0 < length w.db.events
      → seed driver trunc false from_now to_now w ≡ (ok tt, record w { calls = suc w.calls })
  unfolding seed seed_if_empty
  seed-skips from_now to_now w up h = rw (count_answered w up) (ground arith)

  -- The three sources of the demo data are there.
  abbrev pub HasSources : SourceMap → Type 0
  HasSources ids = (gs : ℕ) → (n : ℕ) × (source_id_of ids gs ≡ some n)

  pub demo_events-some :
      (now : Time) (ids : SourceMap)
      → HasSources ids
      → (gs count : ℕ)
      → (events : List Event) × (demo_events trunc now ids gs count ≡ some events)
        × (length events ≡ count)
  unfolding demo_events
  demo_events-some now ids h gs zero = ([], refl, refl)
  demo_events-some now ids h gs (suc count) =
      let (n, e) = h gs in
      let (events, es, len) = demo_events-some now ids h (suc gs) count in
      (demo_event trunc now gs n ∷ events, rw (e, es), rw len)

  demo_size-suc : demo_size ≡ suc 24999
  unfolding demo_size
  demo_size-suc = refl

  -- The world after the count and the insert.
  abbrev pub with_events : World → List Event → World
  with_events w events = record w {
    db = record w.db { events = w.db.events ++ events };
    calls = suc (suc w.calls);
  }

  pub insert_answered :
      (w : World) (events : List Event)
      → driver.verdict (suc w.calls) ≡ runs
      → demo_events trunc w.now (source_map w.db.sources) 1 demo_size ≡ some events
      → statement driver (insert_demo_events trunc w.now) (record w { calls = suc w.calls })
        ≡ (ok tt, with_events w events)
  unfolding statement insert_demo_events
  insert_answered w events up e = rw (up, statement) (rw e refl)

  create_refused :
      (slug window : Text) (from to : Time) (w : World) (x : Error)
      → driver.verdict w.calls ≡ refused x
      → seed_snapshots driver trunc slug window from to w ≡ (
        err (seed_error (codes "failed to create seed run for ") slug window x),
        record w { calls = suc w.calls },
      )
  unfolding seed_snapshots create_run statement
  create_refused slug window from to w x refusal = rw (refusal, statement) refl

  first_seed :
      (from_now to_now : Time) (w : World) (events : List Event) (x : Error)
      → w.db.events ≡ []
      → demo_events trunc w.now (source_map w.db.sources) 1 demo_size ≡ some events
      → driver.verdict w.calls ≡ runs
      → driver.verdict (suc w.calls) ≡ runs
      → driver.verdict (suc (suc w.calls)) ≡ refused x
      → seed driver trunc false from_now to_now w ≡ (
        err (
            seed_error
              (codes "failed to create seed run for ")
              (codes "volume-by-period")
              window_day
              x),
        record (with_events w events) { calls = suc (suc (suc w.calls)) },
      )
  unfolding seed seed_if_empty seed_tables seed_all seed_scopes
  first_seed from_now to_now w events x empty e count insert create = rw (count_answered w count) (
      rw no_events (
        rw (insert_answered w events insert e) (
          rw
            (create_refused (codes "volume-by-period") window_day (from_now - 90 * day_ns) to_now
              (with_events w events) x create)
            refl)))
    where
      no_events : ltb 0 (length w.db.events) ≡ false
      no_events = rw empty refl

  some_events : (events : List Event) → length events ≡ demo_size → 0 < length events
  some_events events e = rw (e, demo_size-suc) (omega arith)

  -- On an empty table of events with the three sources, when the count and the insert are answered and
  -- the first `CreateRun` is refused: `Seed` returns that error and leaves 25000 events, and no snapshot
  -- that was not there before; the next `Seed` without force, its count answered, reports success and
  -- adds none either.
  pub seed_after_failure :
      (from_now to_now from_later to_later : Time) (w : World) (x : Error)
      → HasSources (source_map w.db.sources)
      → w.db.events ≡ []
      → driver.verdict w.calls ≡ runs
      → driver.verdict (suc w.calls) ≡ runs
      → driver.verdict (suc (suc w.calls)) ≡ refused x
      → driver.verdict (suc (suc (suc w.calls))) ≡ runs
      → let failed = seed driver trunc false from_now to_now w in
        let retried = seed driver trunc false from_later to_later failed.1 in
        (failed.0
          ≡ err (
              seed_error
                (codes "failed to create seed run for ")
                (codes "volume-by-period")
                window_day
                x))
        × (length failed.1.db.events ≡ demo_size)
        × (retried.0 ≡ ok tt)
        × (retried.1.db ≡ failed.1.db)
        × (retried.1.db.snapshots ≡ w.db.snapshots)
        × (retried.1.db.runs ≡ w.db.runs)
  seed_after_failure from_now to_now from_later to_later w x h empty count insert create again =
      let (events, es, len) = demo_events-some w.now (source_map w.db.sources) h 1 demo_size in
      let stored : length (w.db.events ++ events) ≡ demo_size = rw empty len in
      rw (first_seed from_now to_now w events x empty es count insert create) (
        rw
          (seed-skips from_later to_later
            (record (with_events w events) { calls = suc (suc (suc w.calls)) }) again
            (some_events (w.db.events ++ events) stored))
          (refl, stored, refl, refl, refl, refl))
