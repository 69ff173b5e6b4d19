-- ===== src/Api/Progress.antt =====
-- What a worker of the process that `main` builds makes of a job's run, while Postgres answers.
use pg_analytics_service.Prelude.{
  suc, ◌≡◌, refl, ap, ◌∙◌, ◌⊎◌, inl, inr, true, false, some, List, Text, ◌=ₜ◌, eq_of_=ₜ,
}
use pg_analytics_service.Domain.Errors.{error_text}
use pg_analytics_service.Domain.Models.{
  Time, RunStatus, run_status_completed, run_status_failed, RecomputeSummary, AuditEntry,
}
use pg_analytics_service.Effects.{Result, ok, err}
use pg_analytics_service.Application.RecomputeService.{
  RecomputeService, RecomputeJob, failed_entry, completed_entry, bump_cache, finish, run_job,
  process_job,
}
use pg_analytics_service.Postgres.Audits.{create_entry, insert_audit}
use pg_analytics_service.Postgres.Database.{RunRow, World, Driver, statement}
use pg_analytics_service.Postgres.Recompute.Frame.{statement-Keeps, recompute_report-runs}
use pg_analytics_service.Postgres.Recompute.Rebuild.{IsUp, statement_runs}
use pg_analytics_service.Postgres.Runs.{
  find_run, set_running, set_completed, set_failed, update_rows, update_run, mark_run_running,
  mark_run_completed, mark_run_failed,
}
use pg_analytics_service.Postgres.Runs.Rows.{find_run-update_rows, find_run-update_others}
use pg_analytics_service.Redis.Client.{RedisClient}
use pg_analytics_service.Api.{Servers, PostgresServer, Machine, Settings, recompute_service}

-- A run that has come to its end.
abbrev pub IsFinal : RunStatus → Type 0
IsFinal status = (status ≡ run_status_completed) ⊎ (status ≡ run_status_failed)

-- The table has a row with the id; and one whose run has ended.
abbrev pub HasRun : Text → List RunRow → Type 0
HasRun id rows = (row : RunRow) × (find_run id rows ≡ some row)

abbrev pub HasEnded : Text → List RunRow → Type 0
HasEnded id rows = (row : RunRow) × (find_run id rows ≡ some row) × IsFinal row.status

-- A change of a row that keeps its id and ends its run.
abbrev pub Ends : (RunRow → RunRow) → Type 0
Ends f = ((r : RunRow) → (f r).id ≡ r.id) × ((r : RunRow) → IsFinal (f r).status)

set_completed-Ends : (now : Time) (summary : RecomputeSummary) → Ends (set_completed now summary)
unfolding set_completed
set_completed-Ends now summary = (λ r. refl, λ r. inl refl)

set_failed-Ends : (now : Time) (message : Text) → Ends (set_failed now message)
unfolding set_failed
set_failed-Ends now message = (λ r. refl, λ r. inr refl)

pub set_running-id : (now : Time) (r : RunRow) → (set_running now r).id ≡ r.id
unfolding set_running
set_running-id now r = refl

-- The rows are those before, the job's run started and then ended.
abbrev pub Processed : Text → List RunRow → List RunRow → Type 0
Processed id before after =
    (now : Time) × (f : RunRow → RunRow) × Ends f
    × (after ≡ update_rows id f (update_rows id (set_running now) before))

pub Processed-HasEnded :
    (id other : Text) (before after : List RunRow)
    → (id =ₜ other) ≡ true
    → Processed id before after
    → HasRun other before
    → HasEnded other after
Processed-HasEnded id other before after same (now, f, ends, e) (row, found) = (
  f (set_running now row),
  rw (e, ← eq_of_=ₜ id other same)
      (find_run-update_rows id f ends.0 _ _ (
        find_run-update_rows id (set_running now) (set_running-id now) before row
          (rw (eq_of_=ₜ id other same) found))),
  ends.1 (set_running now row),
)

pub Processed-others :
    (id other : Text) (before after : List RunRow)
    → Processed id before after
    → (id =ₜ other) ≡ false
    → find_run other after ≡ find_run other before
Processed-others id other before after (now, f, ends, e) differs = rw e (
    find_run-update_others id other f ends.0 differs _
    ∙ find_run-update_others id other (set_running now) (set_running-id now) differs before)

pub create_entry-runs :
    (driver : Driver) (entry : AuditEntry) (w : World)
    → (create_entry driver entry w).1.db.runs ≡ w.db.runs
unfolding create_entry insert_audit
create_entry-runs driver entry w = statement-Keeps (λ db. db.runs) driver _ (λ db. refl) w

-- An `UPDATE` of the table while the server answers.
pub marked :
    (driver : Driver) (up : IsUp driver) (id : Text) (f : RunRow → RunRow) (w : World)
    → statement driver (update_run id f) w ≡ (
      ok tt,
      record w { db = record w.db { runs = update_rows id f w.db.runs }; calls = suc w.calls },
    )
unfolding update_run
marked driver up id f w = statement_runs driver up _ w _ _ refl

module _ {R E : Type 0} (server : PostgresServer) (up : IsUp server.driver) (client : RedisClient R)
    (machine : Machine E) (settings : Settings) where
  abbrev pub runs_of : Servers R E → List RunRow
  runs_of s = s.postgres.db.runs

  abbrev service : RecomputeService (Servers R E)
  service = recompute_service server client machine settings

  -- The end of a job changes the job's row only, and ends its run.
  finish-runs :
      (job : RecomputeJob) (r : Result RecomputeSummary) (s : Servers R E)
      → (f : RunRow → RunRow) × Ends f
        × (runs_of (finish service job r s).1 ≡ update_rows job.run_id f (runs_of s))
  unfolding finish bump_cache mark_run_failed mark_run_completed
  finish-runs job (err e) s = (
    set_failed s.postgres.now (error_text e),
    set_failed-Ends s.postgres.now (error_text e),
    create_entry-runs server.driver (failed_entry job e) _
        ∙ ap (λ x. x.1.db.runs) (marked server.driver up job.run_id _ s.postgres),
  )
  finish-runs job (ok summary) s = (
    set_completed s.postgres.now summary,
    set_completed-Ends s.postgres.now summary,
    create_entry-runs server.driver (completed_entry job summary) _
        ∙ ap (λ x. x.1.db.runs) (marked server.driver up job.run_id _ s.postgres),
  )

  run_job-Processed :
      (job : RecomputeJob) (s : Servers R E)
      → (f : RunRow → RunRow) × Ends f
        × (runs_of (run_job service job (ok tt) s).1 ≡ update_rows job.run_id f (runs_of s))
  unfolding run_job
  run_job-Processed job s =
      let done = service.reports.recompute_report job.request job.run_id s in
      let (f, ends, e) = finish-runs job done.0 done.1 in
      (
        f,
        ends,
        e
            ∙ ap (update_rows job.run_id f) (
                recompute_report-runs server.driver server.trunc job.request job.run_id s.postgres),
      )

  pub process_job-Processed :
      (job : RecomputeJob) (s : Servers R E)
      → Processed job.run_id (runs_of s) (runs_of (process_job service job s).1)
  unfolding process_job mark_run_running
  process_job-Processed job s =
      let now = s.postgres.now in
      let s1 = record s {
        postgres = record s.postgres {
          db = record s.postgres.db { runs = update_rows job.run_id (set_running now) (runs_of s) };
          calls = suc s.postgres.calls;
        };
      } in
      let (f, ends, e) = run_job-Processed job s1 in
      (now, f, ends, rw (marked server.driver up job.run_id (set_running now) s.postgres) e)
