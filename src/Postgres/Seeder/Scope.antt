-- ===== src/Postgres/Seeder/Scope.antt =====
-- One report and window of `Seed`, while the server answers.
use pg_analytics_service.Prelude.{
  suc, ◌+◌, ◌<◌, ◌≡◌, refl, false, List, [], ◌∷◌, ◌++◌, any, Text, ◌=ₜ◌, =ₜ_refl, arith,
}
use pg_analytics_service.Domain.Models.{
  Time, day_ns, run_status_running, run_status_completed, RecomputeRequest, RecomputeSummary,
}
use pg_analytics_service.Effects.{ok}
use pg_analytics_service.Postgres.Buckets.{TruncLaws, IsWindow}
use pg_analytics_service.Postgres.Database.{RunRow, World, Driver, statement}
use pg_analytics_service.Postgres.Recompute.{midnight, recompute_report}
use pg_analytics_service.Postgres.Recompute.Rebuild.{
  IsUp, statement_runs, summary_of, rebuilt, recompute_report_succeeds,
}
use pg_analytics_service.Postgres.Runs.{
  to_run, new_run_row, insert_run, set_completed, update_rows, update_run, create_run,
  mark_run_completed,
}
use pg_analytics_service.Postgres.Seeder.{finish_seed_run, seed_request, seed_snapshots}
use pg_analytics_service.Postgres.Snapshots.{DateTrunc, Report, report_slug_text}

update_rows-snoc :
    (id : Text) (f : RunRow → RunRow) (rows : List RunRow) (row : RunRow)
    → row.id ≡ id
    → any (λ (r : RunRow). r.id =ₜ id) rows ≡ false
    → update_rows id f (rows ++ row ∷ []) ≡ rows ++ f row ∷ []
unfolding update_rows any
update_rows-snoc id f [] row e h = rw (e, =ₜ_refl id)
update_rows-snoc id f (r ∷ rows) row e h = ground (arith, update_rows-snoc id f rows row e)

pub any-snoc :
    (id : Text) (rows : List RunRow) (row : RunRow)
    → any (λ (r : RunRow). r.id =ₜ id) rows ≡ false
    → (row.id =ₜ id) ≡ false
    → any (λ (r : RunRow). r.id =ₜ id) (rows ++ row ∷ []) ≡ false
unfolding any
any-snoc id [] row h e = rw e refl
any-snoc id (r ∷ rows) row h e = ground (arith, any-snoc id rows row)

module _ (driver : Driver) (trunc : DateTrunc) (up : IsUp driver) (laws : TruncLaws trunc) where
  -- The run that a scope leaves.
  abbrev pub SeededRow : Text × Text → RunRow → Type 0
  SeededRow scope row =
      (row.report_slug ≡ scope.0)
      × (row.window_name ≡ scope.1)
      × (row.status ≡ run_status_completed)

  pub seed_snapshots_step :
      (r : Report) (window : Text) (from to : Time) (w : World)
      → IsWindow window
      → any (λ (row : RunRow). row.id =ₜ driver.random_uuid w.calls) w.db.runs ≡ false
      → (row : RunRow) × (w' : World) × (seed_snapshots driver trunc
            (report_slug_text r)
            window
            from
            to
            w
          ≡ (ok tt, w'))
        × (w'.db.runs ≡ w.db.runs ++ row ∷ [])
        × (w.calls < w'.calls)
        × (row.id ≡ driver.random_uuid w.calls)
        × SeededRow (report_slug_text r, window) row
  unfolding seed_snapshots finish_seed_run create_run insert_run to_run new_run_row seed_request
      mark_run_completed set_completed update_run
  seed_snapshots_step r window from to w is_window fresh = (
    set_completed w.now summary row,
    record w2 {
      db = record w2.db { runs = update_rows row.id (set_completed w.now summary) w2.db.runs };
      calls = suc w2.calls;
    },
    rw created (rw recomputed (rw finished refl)),
    update_rows-snoc row.id (set_completed w.now summary) w.db.runs row refl fresh,
    omega arith,
    refl,
    (refl, refl, refl),
  )
    where
      request : RecomputeRequest
      request = seed_request (report_slug_text r) window from to

      row : RunRow
      row = new_run_row (driver.random_uuid w.calls) w.now request run_status_running

      created : create_run driver request run_status_running w ≡ (
        ok (to_run row),
        record w { db = record w.db { runs = w.db.runs ++ row ∷ [] }; calls = suc w.calls },
      )
      created =
          statement_runs driver up (insert_run row) w (to_run row)
            (record w.db { runs = w.db.runs ++ row ∷ [] }) (rw fresh)

      w1 : World
      w1 = record w { db = record w.db { runs = w.db.runs ++ row ∷ [] }; calls = suc w.calls }

      summary : RecomputeSummary
      summary = summary_of trunc r window (midnight from) (midnight to + day_ns) row.id w1.db

      w2 : World
      w2 = record w1 {
        db = record w1.db {
          snapshots = rebuilt trunc r window (midnight from) (midnight to + day_ns) row.id w1.db;
        };
        calls = suc (suc (suc (suc (suc w1.calls))));
      }

      recomputed : recompute_report driver trunc request row.id w1 ≡ (ok summary, w2)
      recomputed = recompute_report_succeeds driver trunc r request row.id w1 up laws is_window refl

      finished : statement driver (update_run row.id (set_completed w2.now summary)) w2 ≡ (
        ok tt,
        record w2 {
          db = record w2.db { runs = update_rows row.id (set_completed w2.now summary) w2.db.runs };
          calls = suc w2.calls;
        },
      )
      finished =
          statement_runs driver up (update_run row.id (set_completed w2.now summary)) w2 tt _ refl
