-- ===== src/Tests/Runs.antt =====
-- Runs of the tables of `Databases`.
use pg_analytics_service.Prelude.{
  ◌≡◌, refl, true, [], ◌∷◌, ◌++◌, any, All, codes, ◌=ₜ◌, ◌==◌, if◌then◌else◌,
}
use pg_analytics_service.Domain.Errors.{plain}
use pg_analytics_service.Domain.Models.{run_status_pending, RecomputeRun, RecomputeSummary}
use pg_analytics_service.Effects.{ok, err}
use pg_analytics_service.Postgres.Database.{Driver, runs, lost, statement}
use pg_analytics_service.Postgres.Reports.{equal_fold}
use pg_analytics_service.Postgres.Runs.{create_run, get_run}
use pg_analytics_service.Postgres.Runs.Rows.{get_run-create_run}
use pg_analytics_service.Postgres.Runs.Lifecycle.{
  IsConsistent, creates, creates_running, starts, completes, fails, calling_all,
  calling_all-IsConsistent,
}
use pg_analytics_service.Tests.Databases.{up, world, request_for}

abbrev losing : Driver
losing = record {
  verdict = λ n. if n == 1 then lost (plain (codes "timeout")) else runs;
  random_uuid = λ n. codes "uuid";
  read_uuid = ok;
}

abbrev summary : RecomputeSummary
summary = record { rows_deleted = 1; rows_inserted = 2; bucket_count = 1 }

calling_all-IsConsistent_example :
    All IsConsistent
      (calling_all losing
        (creates_running (request_for (codes "day") 885547 885547)
          ∷ creates (request_for (codes "day") 885547 885547)
          ∷ starts (codes "uuid")
          ∷ completes (codes "uuid") summary
          ∷ fails (codes "uuid") (codes "late")
          ∷ [])
        world).db.runs
calling_all-IsConsistent_example =
    calling_all-IsConsistent losing
      (creates_running (request_for (codes "day") 885547 885547)
        ∷ creates (request_for (codes "day") 885547 885547)
        ∷ starts (codes "uuid")
        ∷ completes (codes "uuid") summary
        ∷ fails (codes "uuid") (codes "late")
        ∷ [])
      world tt

get_run-create_run_example :
    (run : RecomputeRun) × ((create_run up
        (request_for (codes "day") 885547 885547)
        run_status_pending
        world).0
      ≡ ok run)
    × (run.id ≡ codes "uuid")
    × (run.status ≡ run_status_pending)
    × ((get_run up run.id
          (create_run up (request_for (codes "day") 885547 885547) run_status_pending world).1).0
        ≡ ok run)
unfolding any
get_run-create_run_example =
    get_run-create_run up (λ n. refl) (request_for (codes "day") 885547 885547) run_status_pending
      world refl

-- A server that takes no text for a UUID.
abbrev strict : Driver
strict = record up { read_uuid = λ id. err (plain (codes "invalid input syntax for type uuid")) }

get_run-strict :
    (get_run strict (codes "42") world).0 ≡ err (plain (codes "invalid input syntax for type uuid"))
unfolding get_run statement
get_run-strict = refl

-- `de`, the long s, `c`.
equal_fold-long_s : equal_fold (codes "DE" ++ 197 ∷ 191 ∷ codes "C") (codes "desc") ≡ true
unfolding equal_fold ◌=ₜ◌ codes
equal_fold-long_s = refl
