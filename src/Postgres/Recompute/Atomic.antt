-- ===== src/Postgres/Recompute/Atomic.antt =====
-- A recomputation that fails leaves every table alone, but for the reply of a `Commit` that is lost.
use pg_analytics_service.Prelude.{ℕ, suc, ◌≡◌, refl, ◌⊎◌, inl, inr, Text}
use pg_analytics_service.Domain.Models.{RecomputeRequest}
use pg_analytics_service.Effects.{Result, ok, err}
use pg_analytics_service.Postgres.Database.{
  World, Driver, Verdict, runs, refused, lost, commit, transaction,
}
use pg_analytics_service.Postgres.Snapshots.{DateTrunc}
use pg_analytics_service.Postgres.Recompute.{recompute_report}

-- The tables are as before, or the reply of some call was lost.
abbrev pub Untouched : {A : Type 0} → Driver → World → Result A × World → Type 0
Untouched driver w (ok a, w') = Unit {0}
Untouched driver w (err e, w') = (w'.db ≡ w.db) ⊎ ((n : ℕ) × (driver.verdict n ≡ lost e))

commit-Untouched :
    {A : Type 0} (driver : Driver) (w : World) (r : Result A × World)
    → Untouched driver w (commit driver w.db r)
unfolding commit
commit-Untouched driver w (err e, w') = inl refl
commit-Untouched driver w (ok a, w') = go (driver.verdict w'.calls) refl
  where
    go :
        (v : Verdict)
        → driver.verdict w'.calls ≡ v
        → Untouched driver w (commit driver w.db (ok a, w'))
    go runs e = rw (e, commit) tt
    go (refused x) e = rw (e, commit) (inl refl)
    go (lost x) e = rw (e, commit) (inr (w'.calls, e))

transaction-Untouched :
    {A : Type 0} (driver : Driver) (body : World → Result A × World) (w : World)
    → Untouched driver w (transaction driver body w)
unfolding transaction
transaction-Untouched driver body w = go (driver.verdict w.calls) refl
  where
    go : (v : Verdict) → driver.verdict w.calls ≡ v → Untouched driver w (transaction driver body w)
    go runs e =
        rw (e, transaction) (commit-Untouched driver w (body (record w { calls = suc w.calls })))
    go (refused x) e = rw (e, transaction) (inl refl)
    go (lost x) e = rw (e, transaction) (inl refl)

-- Whatever the server does to the calls of `RecomputeReport`: if it returns an error, all the tables
-- are as before it, or the server lost the reply of a call, with that error.
pub recompute_report_atomic :
    (driver : Driver) (trunc : DateTrunc) (request : RecomputeRequest) (run_id : Text) (w : World)
    → Untouched driver w (recompute_report driver trunc request run_id w)
unfolding recompute_report
recompute_report_atomic driver trunc request run_id w = transaction-Untouched driver _ w
