-- ===== src/Tests/Auditing.antt =====
-- The audit entry of a run that stands in the table of the process of `Process`.
use pg_analytics_service.Prelude.{◌≡◌, refl, some, [], ◌∷◌, codes, ◌=ₜ◌, ℕ}
use pg_analytics_service.Domain.Models.{run_status_pending}
use pg_analytics_service.Application.RecomputeService.{RecomputeJob, process_job}
use pg_analytics_service.Postgres.Database.{RunRow}
use pg_analytics_service.Postgres.Recompute.{recompute_report}
use pg_analytics_service.Postgres.Runs.{new_run_row, find_run, mark_run_running}
use pg_analytics_service.Api.{Servers, recompute_service}
use pg_analytics_service.Api.Auditing.{Recorded, process_job_audits}
use pg_analytics_service.Tests.Databases.{up, utc, world, request_for}
use pg_analytics_service.Tests.Process.{server, machine, settings, idle}
use pg_analytics_service.Tests.Stores.{Store, client}

abbrev pending : RunRow
pending =
    new_run_row (codes "uuid") 885560 (request_for (codes "day") 885547 885548) run_status_pending

abbrev job : RecomputeJob
job = record {
  run_id = codes "uuid";
  request = request_for (codes "day") 885547 885548;
  lock_key = codes "recompute:lock:";
  lock_token = codes "0";
}

abbrev with_run : Servers Store ℕ
with_run = record idle.world {
  postgres = record world { db = record world.db { runs = pending ∷ [] } };
}

pending_found : find_run job.run_id with_run.postgres.db.runs ≡ some pending
unfolding find_run new_run_row codes ◌=ₜ◌
pending_found = refl

process_job_audits_example :
    Recorded server
      (λ n. refl)
      client
      machine
      settings
      job
      (recompute_report up utc job.request job.run_id
        (mark_run_running up job.run_id with_run.postgres).1).0
      with_run
      (process_job (recompute_service server client machine settings) job with_run).1
process_job_audits_example =
    process_job_audits server (λ n. refl) client machine settings job with_run pending pending_found
