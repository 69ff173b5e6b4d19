-- ===== src/Api/Auditing.antt =====
-- What a worker of the process that `main` builds writes into the audit table, while Postgres answers.
use pg_analytics_service.Prelude.{suc, ◌≡◌, refl, ap, ◌∙◌, some, [], ◌∷◌, ◌++◌, Text, codes}
use pg_analytics_service.Domain.Errors.{error_text}
use pg_analytics_service.Domain.Models.{
  run_status_completed, run_status_failed, RecomputeSummary, AuditEntry,
}
use pg_analytics_service.Effects.{Result, ok, err}
use pg_analytics_service.Application.RecomputeService.{
  RecomputeService, RecomputeJob, run_entry, failed_entry, completed_entry, bump_cache, finish,
  run_job, process_job,
}
use pg_analytics_service.Postgres.Audits.{new_audit_row, create_entry, insert_audit}
use pg_analytics_service.Postgres.Database.{RunRow, AuditRow, Database, World, Driver, statement}
use pg_analytics_service.Postgres.Recompute.{recompute_report}
use pg_analytics_service.Postgres.Recompute.Frame.{recompute_report-others}
use pg_analytics_service.Postgres.Recompute.Rebuild.{IsUp, statement_runs}
use pg_analytics_service.Postgres.Runs.{
  find_run, set_running, set_completed, set_failed, update_rows, update_run, mark_run_running,
  mark_run_completed, mark_run_failed,
}
use pg_analytics_service.Postgres.Runs.Rows.{find_run-update_rows}
use pg_analytics_service.Redis.Client.{RedisClient}
use pg_analytics_service.Api.Progress.{marked, set_running-id}
use pg_analytics_service.Api.{Servers, PostgresServer, Machine, Settings, recompute_service}

-- How a run ends, and with what action, by the result of its recomputation.
abbrev pub EndsWith : Result RecomputeSummary → RunRow → Text → Type 0
EndsWith (ok summary) run action =
    (run.status ≡ run_status_completed)
    × (run.summary ≡ some summary)
    × (action ≡ codes "recompute.completed")
EndsWith (err e) run action =
    (run.status ≡ run_status_failed)
    × (run.error_message ≡ some (error_text e))
    × (action ≡ codes "recompute.failed")

-- The tables after an `UPDATE` of a run and an audit entry.
abbrev closed : Text → (RunRow → RunRow) → AuditEntry → World → Database
closed id f entry w = record w.db {
  runs = update_rows id f w.db.runs;
  audits = w.db.audits ++ new_audit_row (suc w.db.audit_seq) w.now entry ∷ [];
  audit_seq = suc w.db.audit_seq;
}

closes :
    (driver : Driver) (up : IsUp driver) (id : Text) (f : RunRow → RunRow) (entry : AuditEntry)
    (w : World)
    → (create_entry driver entry (statement driver (update_run id f) w).1).1.db
      ≡ closed id f entry w
unfolding create_entry insert_audit
closes driver up id f entry w = rw (marked driver up id f w) (
    ap (λ r. r.1.db)
      (statement_runs driver up (insert_audit w.now entry)
        (record w { db = record w.db { runs = update_rows id f w.db.runs }; calls = suc w.calls })
        tt (closed id f entry w) refl))

module _ {R E : Type 0} (server : PostgresServer) (up : IsUp server.driver) (client : RedisClient R)
    (machine : Machine E) (settings : Settings) where
  abbrev service : RecomputeService (Servers R E)
  service = recompute_service server client machine settings

  -- The run of the job has ended with the result, and one audit row, the last, tells how.
  abbrev pub Recorded : RecomputeJob → Result RecomputeSummary → Servers R E → Servers R E → Type 0
  Recorded job result s t =
      (run : RunRow) × (row : AuditRow) × (find_run job.run_id t.postgres.db.runs ≡ some run)
      × (t.postgres.db.audits ≡ s.postgres.db.audits ++ row ∷ [])
      × (row.resource_type ≡ codes "recompute_run")
      × (row.resource_id ≡ job.run_id)
      × (row.actor ≡ codes "recompute-worker")
      × EndsWith result run row.action

  finish-Recorded :
      (job : RecomputeJob) (r : Result RecomputeSummary) (s : Servers R E) (run : RunRow)
      → find_run job.run_id s.postgres.db.runs ≡ some run
      → Recorded job r s (finish service job r s).1
  unfolding finish bump_cache mark_run_failed mark_run_completed set_failed set_completed
      failed_entry completed_entry run_entry new_audit_row
  finish-Recorded job (err e) s run found =
      let w = s.postgres in
      let done =
        closes server.driver up job.run_id (set_failed w.now (error_text e)) (failed_entry job e)
          w in
      (
        set_failed w.now (error_text e) run,
        new_audit_row (suc w.db.audit_seq) w.now (failed_entry job e),
        ap (λ db. find_run job.run_id db.runs) done
            ∙ find_run-update_rows job.run_id _ (λ r. refl) w.db.runs run found,
        ap (λ db. db.audits) done,
        refl,
        refl,
        refl,
        (refl, refl, refl),
      )
  finish-Recorded job (ok summary) s run found =
      let w = s.postgres in
      let done =
        closes server.driver up job.run_id (set_completed w.now summary)
          (completed_entry job summary) w in
      (
        set_completed w.now summary run,
        new_audit_row (suc w.db.audit_seq) w.now (completed_entry job summary),
        ap (λ db. find_run job.run_id db.runs) done
            ∙ find_run-update_rows job.run_id _ (λ r. refl) w.db.runs run found,
        ap (λ db. db.audits) done,
        refl,
        refl,
        refl,
        (refl, refl, refl),
      )

  -- In the process that `main` builds, while Postgres answers and whatever Redis does: when a worker is
  -- done with a job whose run is in the table, the run is completed with the summary of `RecomputeReport`,
  -- or failed with its error, and the worker has added one entry to the audit table, which is about this
  -- run and whose action says the same.
  pub process_job_audits :
      (job : RecomputeJob) (s : Servers R E) (run : RunRow)
      → find_run job.run_id s.postgres.db.runs ≡ some run
      → let marked_world = (mark_run_running server.driver job.run_id s.postgres).1 in
        Recorded job
          (recompute_report server.driver server.trunc job.request job.run_id marked_world).0
          s
          (process_job service job s).1
  unfolding process_job run_job mark_run_running
  process_job_audits job s run found =
      let w = s.postgres in
      let started = record w {
        db = record w.db { runs = update_rows job.run_id (set_running w.now) w.db.runs };
        calls = suc w.calls;
      } in
      let s1 = record s { postgres = started } in
      let rebuilt = service.reports.recompute_report job.request job.run_id s1 in
      let same =
        recompute_report-others server.driver server.trunc job.request job.run_id started in
      let (ended, row, at, audits, type, id, actor, ends) =
        finish-Recorded job rebuilt.0 rebuilt.1 (set_running w.now run) (
          ap (λ db. find_run job.run_id db.runs) same
          ∙ find_run-update_rows job.run_id (set_running w.now) (set_running-id w.now) w.db.runs run
              found) in
      rw (marked server.driver up job.run_id (set_running w.now) w)
        (ended, row, at, audits ∙ ap (λ db. db.audits ++ row ∷ []) same, type, id, actor, ends)
