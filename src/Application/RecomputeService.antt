-- ===== src/Application/RecomputeService.antt =====
-- internal/application/recompute_service.go. The queue is Go's buffered channel, a bounded list
-- that `Trigger` and the workers share; the logger is left out.
pub mod Locks
pub mod Accounting
pub mod Trigger
pub mod System
pub mod Accepted
pub mod Threads
use pg_analytics_service.Prelude.{
  ℕ, Bool, true, false, not, Option, none, some, List, [], ◌∷◌, ◌++◌, ltb, length, if◌then◌else◌,
  Text, codes, ◌=ₜ◌, ℤ, pos,
}
use pg_analytics_service.Domain.Errors.{
  Error, err_code_internal, err_code_conflict, err_code_unavailable, new_app_error, wrap_app_error,
  error_text,
}
use pg_analytics_service.Domain.Models.{
  Time, RunStatus, run_status_pending, RecomputeRequest, RecomputeRun, RecomputeSummary, AuditEntry,
  Row, Value, text, number,
}
use pg_analytics_service.Domain.Calendar.{format_date, format_compact}
use pg_analytics_service.Effects.{
  Result, ok, err, Action, pure, raise, ◌>>=◌, ◌>>◌, attempt, rethrow,
}
use pg_analytics_service.Application.Ports.{
  ReportRepository, RecomputeRunRepository, AuditRepository, RecomputeLock, ReportCache, Host,
}
use pg_analytics_service.Application.Validation.{validate_trigger}

pub record RecomputeJob : Type 0 where
  pub run_id : Text
  pub request : RecomputeRequest
  pub lock_key : Text
  pub lock_token : Text

pub record RecomputeService (S : Type 0) : Type 0 where
  pub reports : ReportRepository S
  pub runs : RecomputeRunRepository S
  pub audits : AuditRepository S
  pub locks : RecomputeLock S
  pub cache : Option (ReportCache S)
  pub host : Host S
  pub max_range_days : ℤ
  pub lock_ttl : ℕ
  pub queue_size : ℕ

-- The servers' state, and the jobs in the channel, the oldest first.
pub record Process (S : Type 0) : Type 0 where
  pub world : S
  pub queue : List RecomputeJob

-- `fmt.Sprintf("recompute:lock:%s:%s:%s:%s", …)`.
unfoldable pub lock_key_of : RecomputeRequest → Text
lock_key_of request =
    codes "recompute:lock:"
    ++ (request.report_slug
        ++ (b':'
            ∷ (request.window
                ++ (b':'
                    ∷ (format_compact request.date_from
                        ++ (b':' ∷ format_compact request.date_to))))))

unfoldable pub with_defaults : RecomputeRequest → RecomputeRequest
with_defaults request = record request {
  requested_by =
      if request.requested_by =ₜ [] then codes "management-api" else request.requested_by;
  requested_via = if request.requested_via =ₜ [] then codes "http" else request.requested_via;
}

-- The entries that the service writes; the database gives the id and the time.
unfoldable pub run_entry : Text → Text → Text → Row → AuditEntry
run_entry actor action run_id metadata = record {
  id = 0;
  actor = actor;
  action = action;
  resource_type = codes "recompute_run";
  resource_id = run_id;
  metadata = metadata;
  created_at = 0;
}

unfoldable pub triggered_entry : RecomputeRequest → Text → AuditEntry
unfolding run_entry
triggered_entry request run_id =
    run_entry request.requested_by (codes "recompute.triggered") run_id (
      (codes "report_slug", text request.report_slug)
      ∷ (codes "window", text request.window)
      ∷ (codes "date_from", text (format_date request.date_from))
      ∷ (codes "date_to", text (format_date request.date_to))
      ∷ (codes "requested_via", text request.requested_via)
      ∷ [])

unfoldable pub failed_entry : RecomputeJob → Error → AuditEntry
unfolding run_entry
failed_entry job e = run_entry (codes "recompute-worker") (codes "recompute.failed") job.run_id (
    (codes "report_slug", text job.request.report_slug)
    ∷ (codes "window", text job.request.window)
    ∷ (codes "error", text (error_text e))
    ∷ [])

unfoldable pub completed_entry : RecomputeJob → RecomputeSummary → AuditEntry
unfolding run_entry
completed_entry job summary =
    run_entry (codes "recompute-worker") (codes "recompute.completed") job.run_id (
      (codes "report_slug", text job.request.report_slug)
      ∷ (codes "window", text job.request.window)
      ∷ (codes "rows_deleted", number (pos summary.rows_deleted))
      ∷ (codes "rows_inserted", number (pos summary.rows_inserted))
      ∷ (codes "bucket_count", number (pos summary.bucket_count))
      ∷ [])

module _ {S : Type 0} where
  -- A call of a port, from the process.
  abbrev pub on_world {ℓ} : {A : Type ℓ} → Action S A → Action (Process S) A
  on_world m p = ((m p.world).0, record p { world = (m p.world).1 })

  abbrev pub uuid : Host S → Action S Text
  uuid host s = (ok (host.new_uuid s).0, (host.new_uuid s).1)

  module _ (service : RecomputeService S) where
    open service use {
      reports, runs, audits, locks, cache, host, max_range_days, lock_ttl, queue_size,
    }

    -- `select { case s.queue <- job: … default: … }`.
    unfoldable pub enqueue : RecomputeJob → RecomputeRun → Action (Process S) RecomputeRun
    enqueue job run p =
        if ltb (length p.queue) queue_size
        then (ok run, record p { queue = p.queue ++ job ∷ [] })
        else (do
          attempt (on_world (runs.mark_run_failed run.id (codes "worker queue is full")))
          attempt (on_world (locks.release job.lock_key job.lock_token))
          raise (new_app_error err_code_unavailable (codes "recompute queue is full")))
            p

    -- The part of `Trigger` behind the lock.
    unfoldable pub create_and_enqueue :
        RecomputeRequest → Text → Text → Result RecomputeRun → Action (Process S) RecomputeRun
    unfolding enqueue
    create_and_enqueue request key token (err e) = do
      attempt (on_world (locks.release key token))
      raise (wrap_app_error err_code_internal (codes "failed to create recompute run") e)
    create_and_enqueue request key token (ok run) = do
      attempt (on_world (audits.create_entry (triggered_entry request run.id)))
      enqueue (record { run_id = run.id; request = request; lock_key = key; lock_token = token })
          run

    unfoldable pub with_lock :
        RecomputeRequest → Text → Text → Bool → Action (Process S) RecomputeRun
    unfolding create_and_enqueue
    with_lock request key token false = raise (
        new_app_error err_code_conflict
          (codes "a recompute run for this scope is already in progress"))
    with_lock request key token true = do
      created ← attempt (on_world (runs.create_run request run_status_pending))
      create_and_enqueue request key token created

    unfoldable pub lock_and_create : RecomputeRequest → Action (Process S) RecomputeRun
    unfolding with_lock lock_key_of
    lock_and_create request = do
      let key = lock_key_of request
      token ← on_world (uuid host)
      acquired ←
          rethrow (wrap_app_error err_code_internal (codes "failed to acquire recompute lock"))
            (on_world (locks.try_acquire key token lock_ttl))
      with_lock request key token acquired

    unfoldable pub trigger : RecomputeRequest → Action (Process S) RecomputeRun
    unfolding lock_and_create with_defaults
    trigger request = do
      λ p. (validate_trigger max_range_days request.window request.date_from request.date_to, p)
      on_world (reports.get_report_definition request.report_slug)
      lock_and_create (with_defaults request)

    unfoldable pub get_run : Text → Action S RecomputeRun
    get_run run_id = runs.get_run run_id

    -- `if s.cache != nil { s.cache.BumpVersion(…) }`, its error only logged.
    unfoldable pub bump_cache : Option (ReportCache S) → Text → Action S (Unit {0})
    bump_cache none slug = pure tt
    bump_cache (some c) slug = attempt (c.bump_version slug) >> pure tt

    -- The three ends of `processJob`.
    unfoldable pub finish : RecomputeJob → Result RecomputeSummary → Action S (Unit {0})
    unfolding bump_cache
    finish job (err e) = do
      attempt (runs.mark_run_failed job.run_id (error_text e))
      attempt (audits.create_entry (failed_entry job e))
      attempt (locks.release job.lock_key job.lock_token)
      pure tt
    finish job (ok summary) = do
      attempt (runs.mark_run_completed job.run_id summary)
      attempt (bump_cache cache job.request.report_slug)
      attempt (audits.create_entry (completed_entry job summary))
      attempt (locks.release job.lock_key job.lock_token)
      pure tt

    unfoldable pub run_job : RecomputeJob → Result (Unit {0}) → Action S (Unit {0})
    unfolding finish
    run_job job (err e) = do attempt (locks.release job.lock_key job.lock_token); pure tt
    run_job job (ok u) = do
      summary ← attempt (reports.recompute_report job.request job.run_id)
      finish job summary

    unfoldable pub process_job : RecomputeJob → Action S (Unit {0})
    unfolding run_job
    process_job job = do marked ← attempt (runs.mark_run_running job.run_id); run_job job marked

    -- One round of a worker's loop: it takes the oldest job, if there is one.
    unfoldable pub work : List RecomputeJob → S → Process S
    unfolding process_job
    work [] s = record { world = s; queue = [] }
    work (job ∷ rest) s = record { world = (process_job job s).1; queue = rest }

    unfoldable pub worker_step : Process S → Process S
    unfolding work
    worker_step p = work p.queue p.world
