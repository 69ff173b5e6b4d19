-- ===== src/Postgres/Recompute/Frame.antt =====
-- `RecomputeReport` changes no table but that of the snapshots, however it ends.
use pg_analytics_service.Prelude.{
  ℕ, suc, ◌+◌, ◌≡◌, refl, ap, ◌∙◌, Option, none, some, List, [], Text,
}
use pg_analytics_service.Domain.Models.{Time, RecomputeRequest}
use pg_analytics_service.Effects.{Result, ok, err, Action, continue}
use pg_analytics_service.Postgres.Database.{
  Snapshot, Database, World, Driver, Verdict, runs, refused, lost, Statement, settle, statement,
  commit, transaction,
}
use pg_analytics_service.Postgres.Snapshots.{
  DateTrunc, width, Report, report_of, stored, new_rows, insert_snapshots, delete_range,
  insert_report, count_buckets,
}
use pg_analytics_service.Postgres.Recompute.{insert_switch, rebuild, recompute_report}

module _ {X : Type 0} (part : Database → X) where
  -- A part of the tables after a result of a statement, and after an action.
  abbrev pub Kept : {A : Type 0} → X → Result (A × Database) → Type 0
  Kept old (ok (a, db)) = part db ≡ old
  Kept old (err e) = Unit {0}

  abbrev pub Keeps : {A : Type 0} → Action World A → Type 0
  Keeps m = (w : World) → part (m w).1.db ≡ part w.db

  settle-part :
      {A : Type 0} (w : World) (r : Result (A × Database))
      → Kept (part w.db) r
      → part (settle w r).1.db ≡ part w.db
  settle-part w (ok (a, db)) k = k
  settle-part w (err e) k = refl

  pub statement-Keeps :
      {A : Type 0} (driver : Driver) (f : Statement A)
      → ((db : Database) → Kept (part db) (f db))
      → Keeps (statement driver f)
  unfolding statement
  statement-Keeps driver f h w = go (driver.verdict w.calls) refl
    where
      go : (v : Verdict) → driver.verdict w.calls ≡ v → part (statement driver f w).1.db ≡ part w.db
      go runs e =
          rw (e, statement) (settle-part (record w { calls = suc w.calls }) (f w.db) (h w.db))
      go (refused x) e = rw (e, statement) refl
      go (lost x) e =
          rw (e, statement) (settle-part (record w { calls = suc w.calls }) (f w.db) (h w.db))

  continue-part :
      {A B : Type 0} (k : A → Action World B) (old : X) (r : Result A × World)
      → ((a : A) → Keeps (k a))
      → part r.1.db ≡ old
      → part (continue k r).1.db ≡ old
  continue-part k old (ok a, w) h e = h a w ∙ e
  continue-part k old (err x, w) h e = e

  commit-part :
      {A : Type 0} (driver : Driver) (before : Database) (r : Result A × World)
      → part r.1.db ≡ part before
      → part (commit driver before r).1.db ≡ part before
  unfolding commit
  commit-part driver before (err e, w) h = refl
  commit-part driver before (ok a, w) h = go (driver.verdict w.calls) refl
    where
      go :
          (v : Verdict)
          → driver.verdict w.calls ≡ v
          → part (commit driver before (ok a, w)).1.db ≡ part before
      go runs e = rw (e, commit) h
      go (refused x) e = rw (e, commit) refl
      go (lost x) e = rw (e, commit) h

  transaction-Keeps :
      {A : Type 0} (driver : Driver) (body : Action World A)
      → Keeps body
      → Keeps (transaction driver body)
  unfolding transaction
  transaction-Keeps driver body h w = go (driver.verdict w.calls) refl
    where
      go :
          (v : Verdict)
          → driver.verdict w.calls ≡ v
          → part (transaction driver body w).1.db ≡ part w.db
      go runs e =
          rw (e, transaction)
            (commit-part driver w.db (body (record w { calls = suc w.calls }))
              (h (record w { calls = suc w.calls })))
      go (refused x) e = rw (e, transaction) refl
      go (lost x) e = rw (e, transaction) refl

-- The tables but for the snapshots.
abbrev pub others : Database → Database
others db = record db { snapshots = [] }

stored-Kept :
    (db : Database) (n : ℕ) (r : Result (List Snapshot)) → Kept others (others db) (stored db n r)
stored-Kept db n (ok rows) = refl
stored-Kept db n (err e) = tt

module _ (driver : Driver) (trunc : DateTrunc) where
  insert_switch-Keeps :
      (o : Option Report) (window : Text) (from to : Time) (run_id : Text)
      → Keeps others (insert_switch driver trunc o window from to run_id)
  unfolding insert_switch insert_report
  insert_switch-Keeps none window from to run_id w = refl
  insert_switch-Keeps (some report) window from to run_id w =
      statement-Keeps others driver (insert_report trunc report window from to run_id)
        (λ db.
          stored-Kept db _
            (insert_snapshots (new_rows trunc report window from to run_id db) db.snapshots))
        w

  rebuild-Keeps :
      (slug window : Text) (from to : Time) (run_id : Text)
      → Keeps others (rebuild driver trunc slug window from to run_id)
  unfolding rebuild delete_range count_buckets
  rebuild-Keeps slug window from to run_id w =
      continue-part others _ (others w.db) (statement driver (delete_range slug window lo hi) w)
        (λ deleted w1.
          continue-part others _ (others w1.db)
            (insert_switch driver trunc (report_of slug) window from to run_id w1)
            (λ inserted w2.
              continue-part others _ (others w2.db)
                (statement driver (count_buckets slug window lo hi) w2) (λ buckets w3. refl)
                (statement-Keeps others driver (count_buckets slug window lo hi) (λ db. refl) w2))
            (insert_switch-Keeps (report_of slug) window from to run_id w1))
        (statement-Keeps others driver (delete_range slug window lo hi) (λ db. refl) w)
    where
      lo : Time
      lo = trunc window from

      hi : Time
      hi = trunc window to + width window

  pub recompute_report-others :
      (request : RecomputeRequest) (run_id : Text) (w : World)
      → others (recompute_report driver trunc request run_id w).1.db ≡ others w.db
  unfolding recompute_report
  recompute_report-others request run_id =
      transaction-Keeps others driver _ (rebuild-Keeps _ _ _ _ run_id)

  pub recompute_report-runs :
      (request : RecomputeRequest) (run_id : Text) (w : World)
      → (recompute_report driver trunc request run_id w).1.db.runs ≡ w.db.runs
  recompute_report-runs request run_id w =
      ap (λ db. db.runs) (recompute_report-others request run_id w)
