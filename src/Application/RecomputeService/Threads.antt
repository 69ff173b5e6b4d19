-- ===== src/Application/RecomputeService/Threads.antt =====
-- internal/application/recompute_service.go, call by call: the workers that `Start` launches and the
-- requests that run `Trigger`, each between two of its calls to a server, and any order of these calls.
pub mod Agreement
pub mod Claims
pub mod Transfers
pub mod Moves
pub mod Exclusion
pub mod Keys
pub mod Scopes
pub mod Replicas
use pg_analytics_service.Prelude.{
  ℕ, zero, suc, ◌≡◌, Bool, true, false, Option, List, [], ◌∷◌, ◌++◌, ltb, length, if◌then◌else◌,
  Text, codes, ℤ, pos, negsuc,
}
use pg_analytics_service.Domain.Errors.{
  Error, err_code_internal, err_code_conflict, err_code_unavailable, new_app_error, wrap_app_error,
  error_text,
}
use pg_analytics_service.Domain.Models.{
  run_status_pending, RecomputeRequest, RecomputeRun, RecomputeSummary,
}
use pg_analytics_service.Effects.{Result, ok, err}
use pg_analytics_service.Application.Validation.{validate_trigger}
use pg_analytics_service.Application.RecomputeService.{
  RecomputeJob, RecomputeService, Process, lock_key_of, with_defaults, triggered_entry,
  failed_entry, completed_entry, bump_cache,
}

-- A worker before its next call. `waiting` is its `select`; `stopped` is its return.
pub data Worker : Type 0 where
  waiting stopped : Worker
  marking rebuilding releasing : RecomputeJob → Worker
  failing auditing_failure : RecomputeJob → Error → Worker
  completing bumping auditing : RecomputeJob → RecomputeSummary → Worker

-- A call of `Trigger` before its next step, with the key and the token of the lock that it holds.
pub data Caller : Type 0 where
  validating looking_up : RecomputeRequest → Caller
  locking : RecomputeRequest → Text → Caller
  creating : RecomputeRequest → Text → Text → Caller
  recording queueing : RecomputeRequest → Text → Text → RecomputeRun → Caller
  refusing : Text → Text → RecomputeRun → Caller
  giving_up : Text → Text → Error → Caller
  answered : Result RecomputeRun → Caller

pub data Thread : Type 0 where
  worker : Worker → Thread
  caller : Caller → Thread

abbrev pub job_of : RecomputeRequest → Text → Text → RecomputeRun → RecomputeJob
job_of request key token run = record {
  run_id = run.id;
  request = request;
  lock_key = key;
  lock_token = token;
}

-- What a worker does with the reply to `MarkRunRunning`, and to `RecomputeReport`.
unfoldable pub after_mark : RecomputeJob → Result (Unit {0}) → Worker
after_mark job (ok u) = rebuilding job
after_mark job (err e) = releasing job

unfoldable pub after_rebuild : RecomputeJob → Result RecomputeSummary → Worker
after_rebuild job (ok summary) = completing job summary
after_rebuild job (err e) = failing job e

-- What a call of `Trigger` does with the replies to its calls.
unfoldable pub after_validation : RecomputeRequest → Result (Unit {0}) → Caller
after_validation request (ok u) = looking_up request
after_validation request (err e) = answered (err e)

unfoldable pub after_lock : RecomputeRequest → Text → Text → Result Bool → Caller
after_lock request key token (ok true) = creating request key token
after_lock request key token (ok false) = answered (
    err (
      new_app_error err_code_conflict
        (codes "a recompute run for this scope is already in progress")))
after_lock request key token (err e) =
    answered (err (wrap_app_error err_code_internal (codes "failed to acquire recompute lock") e))

unfoldable pub after_create : RecomputeRequest → Text → Text → Result RecomputeRun → Caller
after_create request key token (ok run) = recording request key token run
after_create request key token (err e) =
    giving_up key token
      (wrap_app_error err_code_internal (codes "failed to create recompute run") e)

-- `Start`.
unfoldable pub workers : ℕ → List Thread
workers zero = []
workers (suc n) = worker waiting ∷ workers n

unfoldable pub start_workers : ℤ → List Thread
unfolding workers
start_workers (pos n) = if ltb n 1 then workers 1 else workers n
start_workers (negsuc n) = workers 1

module _ {S : Type 0} (service : RecomputeService S) where
  open service use {reports, runs, audits, locks, cache, host, max_range_days, lock_ttl, queue_size}

  -- The next call of `processJob`.
  unfoldable pub advance : Worker → S → Worker × S
  unfolding after_mark after_rebuild
  advance waiting s = (waiting, s)
  advance stopped s = (stopped, s)
  advance (marking job) s = let r = runs.mark_run_running job.run_id s in (after_mark job r.0, r.1)
  advance (rebuilding job) s =
      let r = reports.recompute_report job.request job.run_id s in (after_rebuild job r.0, r.1)
  advance (failing job e) s =
      (auditing_failure job e, (runs.mark_run_failed job.run_id (error_text e) s).1)
  advance (auditing_failure job e) s =
      (releasing job, (audits.create_entry (failed_entry job e) s).1)
  advance (completing job summary) s =
      (bumping job summary, (runs.mark_run_completed job.run_id summary s).1)
  advance (bumping job summary) s =
      (auditing job summary, (bump_cache service cache job.request.report_slug s).1)
  advance (auditing job summary) s =
      (releasing job, (audits.create_entry (completed_entry job summary) s).1)
  advance (releasing job) s = (waiting, (locks.release job.lock_key job.lock_token s).1)

  -- The `select` takes the oldest job, if there is one.
  unfoldable pub take_job : List RecomputeJob → Process S → Worker × Process S
  take_job [] p = (waiting, p)
  take_job (job ∷ rest) p = (marking job, record p { queue = rest })

  unfoldable pub step_worker : Worker → Process S → Worker × Process S
  unfolding take_job advance
  step_worker waiting p = take_job p.queue p
  step_worker w p = ((advance w p.world).0, record p { world = (advance w p.world).1 })

  -- What follows the look-up of the report, up to the lock: the new UUID is no call to a server.
  unfoldable pub after_lookup : {A : Type 0} → RecomputeRequest → Result A → S → Caller × S
  unfolding with_defaults
  after_lookup request (ok report) s =
      (locking (with_defaults request) (host.new_uuid s).0, (host.new_uuid s).1)
  after_lookup request (err e) s = (answered (err e), s)

  -- `select { case s.queue <- job: … default: … }`.
  unfoldable pub put_job :
      RecomputeRequest → Text → Text → RecomputeRun → Process S → Caller × Process S
  put_job request key token run p =
      if ltb (length p.queue) queue_size
      then (answered (ok run), record p { queue = p.queue ++ job_of request key token run ∷ [] })
      else (refusing key token run, p)

  abbrev pub calls : Process S → Caller × S → Caller × Process S
  calls p r = (r.0, record p { world = r.1 })

  -- The next step of `Trigger`.
  unfoldable pub step_caller : Caller → Process S → Caller × Process S
  unfolding after_validation after_lookup after_lock after_create put_job lock_key_of
  step_caller (validating request) p = (
    after_validation request
        (validate_trigger max_range_days request.window request.date_from request.date_to),
    p,
  )
  step_caller (looking_up request) p =
      let r = reports.get_report_definition request.report_slug p.world in
      calls p (after_lookup request r.0 r.1)
  step_caller (locking request token) p =
      let r = locks.try_acquire (lock_key_of request) token lock_ttl p.world in
      calls p (after_lock request (lock_key_of request) token r.0, r.1)
  step_caller (creating request key token) p =
      let r = runs.create_run request run_status_pending p.world in
      calls p (after_create request key token r.0, r.1)
  step_caller (recording request key token run) p = calls p (
    queueing request key token run,
    (audits.create_entry (triggered_entry request run.id) p.world).1,
  )
  step_caller (queueing request key token run) p = put_job request key token run p
  step_caller (refusing key token run) p = calls p (
    giving_up key token (new_app_error err_code_unavailable (codes "recompute queue is full")),
    (runs.mark_run_failed run.id (codes "worker queue is full") p.world).1,
  )
  step_caller (giving_up key token e) p =
      calls p (answered (err e), (locks.release key token p.world).1)
  step_caller (answered r) p = (answered r, p)

  unfoldable pub step_thread : Thread → Process S → Thread × Process S
  unfolding step_worker step_caller
  step_thread (worker w) p = (worker (step_worker w p).0, (step_worker w p).1)
  step_thread (caller c) p = (caller (step_caller c p).0, (step_caller c p).1)
