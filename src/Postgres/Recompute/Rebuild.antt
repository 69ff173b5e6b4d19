-- ===== src/Postgres/Recompute/Rebuild.antt =====
-- When the server answers, a recomputation succeeds, and this is the table that it leaves.
use pg_analytics_service.Prelude.{
  ℕ, suc, ◌+◌, ◌≡◌, refl, ap, ◌∙◌, some, List, ◌++◌, map, length, keep, not, count_if, Text, codes,
  ◌=ₜ◌,
}
use pg_analytics_service.Domain.Models.{Time, day_ns, RecomputeRequest, RecomputeSummary}
use pg_analytics_service.Domain.Errors.{Error}
use pg_analytics_service.Effects.{Result, ok, err}
use pg_analytics_service.Postgres.Database.{
  Snapshot, Database, World, Driver, runs, statement, commit, transaction,
}
use pg_analytics_service.Postgres.Snapshots.{
  DateTrunc, width, Report, volume_by_period, status_counts, top_entities, report_slug_text,
  report_of, in_range, selected, new_rows, delete_range, insert_report, count_buckets, distinct,
}
use pg_analytics_service.Postgres.Snapshots.Unique.{
  IsUnique, keep-IsUnique, grouped-IsUnique, append-IsUnique, insert_snapshots_fresh, AreFresh,
}
use pg_analytics_service.Postgres.Buckets.{
  TruncLaws, IsWindow, selected-InBuckets, group-InBuckets, AreFresh-deleted,
}
use pg_analytics_service.Postgres.Recompute.{midnight, insert_switch, rebuild, recompute_report}

pub report_of-report_slug_text : (r : Report) → report_of (report_slug_text r) ≡ some r
unfolding report_of report_slug_text codes ◌=ₜ◌
report_of-report_slug_text volume_by_period = refl
report_of-report_slug_text status_counts = refl
report_of-report_slug_text top_entities = refl

-- Every call is answered.
abbrev pub IsUp : Driver → Type 0
IsUp driver = (n : ℕ) → driver.verdict n ≡ runs

pub statement_runs :
    {A : Type 0} (driver : Driver) (up : IsUp driver) (f : Database → Result (A × Database))
    (w : World) (a : A) (db : Database)
    → f w.db ≡ ok (a, db)
    → statement driver f w ≡ (ok a, record w { db = db; calls = suc w.calls })
unfolding statement
statement_runs driver up f w a db e = rw (up w.calls, statement) (rw e refl)

pub statement_fails :
    {A : Type 0} (driver : Driver) (up : IsUp driver) (f : Database → Result (A × Database))
    (w : World) (e : Error)
    → f w.db ≡ err e
    → statement driver f w ≡ (err e, record w { calls = suc w.calls })
unfolding statement
statement_fails driver up f w e h = rw (up w.calls, statement) (rw h refl)

pub transaction_runs :
    {A : Type 0} (driver : Driver) (up : IsUp driver) (body : World → Result A × World) (w : World)
    (a : A) (w' : World)
    → body (record w { calls = suc w.calls }) ≡ (ok a, w')
    → transaction driver body w ≡ (ok a, record w' { calls = suc w'.calls })
unfolding transaction commit
transaction_runs driver up body w a w' e =
    rw (up w.calls, transaction) (rw (e, commit) (rw (up w'.calls, commit)))

module _ (trunc : DateTrunc) (r : Report) (window : Text) (from to : Time) (run_id : Text) where
  abbrev pub lo : Time
  lo = trunc window from

  abbrev pub hi : Time
  hi = trunc window to + width window

  -- The rows that the `DELETE` leaves, then one row for each group.
  abbrev pub rebuilt : Database → List Snapshot
  rebuilt db =
      keep (λ s. not (in_range (report_slug_text r) window lo hi s)) db.snapshots
      ++ new_rows trunc r window from to run_id db

  abbrev pub summary_of : Database → RecomputeSummary
  summary_of db = record {
    rows_deleted = count_if (in_range (report_slug_text r) window lo hi) db.snapshots;
    rows_inserted = length (new_rows trunc r window from to run_id db);
    bucket_count = length (
        distinct (
          map (λ s. s.bucket_start)
            (keep (in_range (report_slug_text r) window lo hi) (rebuilt db))));
  }

  new_rows_fresh :
      TruncLaws trunc
      → IsWindow window
      → (db : Database)
      → AreFresh
          (keep (λ s. not (in_range (report_slug_text r) window lo hi s)) db.snapshots)
          (new_rows trunc r window from to run_id db)
  unfolding new_rows
  new_rows_fresh laws is_window db = AreFresh-deleted r window run_id lo hi _ db.snapshots (
      group-InBuckets lo hi _
        (selected-InBuckets trunc laws window is_window r from to db.sources db.events))

  -- The rebuilt rows meet the `UNIQUE` constraint, if the rows before them did.
  pub rebuilt-IsUnique :
      TruncLaws trunc
      → IsWindow window
      → (db : Database) → IsUnique db.snapshots
      → IsUnique (rebuilt db)
  unfolding new_rows
  rebuilt-IsUnique laws is_window db u =
      append-IsUnique _ _ (keep-IsUnique _ db.snapshots u)
        (grouped-IsUnique r window run_id (selected trunc r window from to db.sources db.events))
        (new_rows_fresh laws is_window db)

  insert_report_lem :
      TruncLaws trunc
      → IsWindow window
      → (db : Database)
      → insert_report trunc r window from to run_id (record db {
        snapshots = keep (λ s. not (in_range (report_slug_text r) window lo hi s)) db.snapshots;
      })
        ≡ ok (
          length (new_rows trunc r window from to run_id db),
          record db { snapshots = rebuilt db },
        )
  unfolding insert_report
  insert_report_lem laws is_window db = rw (
      insert_snapshots_fresh _ _ (new_rows_fresh laws is_window db)
        (grouped-IsUnique r window run_id (selected trunc r window from to db.sources db.events)))

  -- The world after the `DELETE`.
  abbrev cleared : World → World
  cleared w = record w {
    db = record w.db {
      snapshots = keep (λ s. not (in_range (report_slug_text r) window lo hi s)) w.db.snapshots;
    };
    calls = suc w.calls;
  }

  abbrev restored : World → World
  restored w = record w { db = record w.db { snapshots = rebuilt w.db }; calls = suc (suc w.calls) }

  module _ (driver : Driver) (up : IsUp driver) where
    delete_step :
        (w : World)
        → statement driver (delete_range (report_slug_text r) window lo hi) w
          ≡ (ok (summary_of w.db).rows_deleted, cleared w)
    unfolding delete_range
    delete_step w = statement_runs driver up _ w _ _ refl

    insert_step :
        TruncLaws trunc
        → IsWindow window
        → (w : World)
        → insert_switch driver trunc
            (report_of (report_slug_text r))
            window
            from
            to
            run_id
            (cleared w)
          ≡ (ok (summary_of w.db).rows_inserted, restored w)
    unfolding insert_switch
    insert_step laws is_window w =
        ap (λ report. insert_switch driver trunc report window from to run_id (cleared w))
          (report_of-report_slug_text r)
        ∙ statement_runs driver up _ (cleared w) _ _ (insert_report_lem laws is_window w.db)

    count_step :
        (w : World)
        → statement driver (count_buckets (report_slug_text r) window lo hi) (restored w) ≡ (
          ok (summary_of w.db).bucket_count,
          record (restored w) { calls = suc (suc (suc w.calls)) },
        )
    unfolding count_buckets
    count_step w = statement_runs driver up _ (restored w) _ _ refl

    pub rebuild_runs :
        TruncLaws trunc
        → IsWindow window
        → (w : World)
        → rebuild driver trunc (report_slug_text r) window from to run_id w
          ≡ (ok (summary_of w.db), record (restored w) { calls = suc (suc (suc w.calls)) })
    unfolding rebuild
    rebuild_runs laws is_window w = rw (delete_step w, insert_step laws is_window w, count_step w)

-- With the server up and `date_trunc` as in UTC, a recomputation of a known report and window succeeds.
-- It leaves the rows outside of the deleted range and one row for each group of events of the dates,
-- reports the rows that it deleted and inserted and the buckets that it counted, and touches no other
-- table.
pub recompute_report_succeeds :
    (driver : Driver) (trunc : DateTrunc) (r : Report) (request : RecomputeRequest) (run_id : Text)
    (w : World)
    → IsUp driver
    → TruncLaws trunc
    → IsWindow request.window
    → request.report_slug ≡ report_slug_text r
    → let from = midnight request.date_from in
      let to = midnight request.date_to + day_ns in
      recompute_report driver trunc request run_id w ≡ (
        ok (summary_of trunc r request.window from to run_id w.db),
        record w {
          db = record w.db { snapshots = rebuilt trunc r request.window from to run_id w.db };
          calls = suc (suc (suc (suc (suc w.calls))));
        },
      )
unfolding recompute_report
recompute_report_succeeds driver trunc r request run_id w up laws is_window e = rw e (
    transaction_runs driver up _ w _ _
      (rebuild_runs trunc r request.window _ _ run_id driver up laws is_window _))
