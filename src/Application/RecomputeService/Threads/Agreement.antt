-- ===== src/Application/RecomputeService/Threads/Agreement.antt =====
-- A worker, and a call of `Trigger`, that no other thread interrupts does what the whole function does.
use pg_analytics_service.Prelude.{
  ℕ, zero, suc, ◌≡◌, refl, inl, inr, Bool, Bool-cases, true, false, ltb, length, Text, codes,
}
use pg_analytics_service.Domain.Errors.{err_code_internal, wrap_app_error}
use pg_analytics_service.Domain.Models.{
  RecomputeRequest, RecomputeRun, RecomputeSummary, ReportDefinition,
}
use pg_analytics_service.Effects.{Result, ok, err, ◌>>=◌, continue, with_error}
use pg_analytics_service.Application.Validation.{validate_trigger}
use pg_analytics_service.Application.RecomputeService.{
  RecomputeJob, RecomputeService, Process, on_world, finish, run_job, process_job, enqueue,
  create_and_enqueue, with_lock, lock_and_create, lock_key_of, with_defaults, trigger,
}
use pg_analytics_service.Application.RecomputeService.Threads.{
  Worker, waiting, marking, advance, after_mark, after_rebuild, Caller, validating, queueing,
  answered, job_of, after_validation, after_lookup, after_lock, after_create, step_caller,
}

module _ {S : Type 0} (service : RecomputeService S) where
  abbrev pub advance_times : ℕ → Worker × S → Worker × S
  advance_times zero r = r
  advance_times (suc n) r = advance_times n (advance service r.0 r.1)

  abbrev pub step_times : ℕ → Caller × Process S → Caller × Process S
  step_times zero r = r
  step_times (suc n) r = step_times n (step_caller service r.0 r.1)

  finish_alone :
      (job : RecomputeJob) (r : Result RecomputeSummary) (s : S)
      → advance_times 4 (after_rebuild job r, s) ≡ (waiting, (finish service job r s).1)
  unfolding advance finish
  finish_alone job (ok summary) s = refl
  finish_alone job (err e) s = refl

  run_job_alone :
      (job : RecomputeJob) (r : Result (Unit {0})) (s : S)
      → advance_times 5 (after_mark job r, s) ≡ (waiting, (run_job service job r s).1)
  unfolding advance run_job
  run_job_alone job (ok u) s = finish_alone job _ _
  run_job_alone job (err e) s = refl

  -- The calls of a worker from a job to its next `select`, with no other thread between them, are
  -- `processJob`, on every path: at most six calls.
  process_job_alone :
      (job : RecomputeJob) (s : S)
      → advance_times 6 (marking job, s) ≡ (waiting, (process_job service job s).1)
  unfolding advance process_job
  process_job_alone job s = run_job_alone job _ _

  -- The answer of a call, and what it leaves.
  abbrev pub reply : Result RecomputeRun × Process S → Caller × Process S
  reply r = (answered r.0, r.1)

  enqueue_alone :
      (request : RecomputeRequest) (key token : Text) (run : RecomputeRun) (p : Process S)
      → step_times 3 (queueing request key token run, p)
        ≡ reply (enqueue service (job_of request key token run) run p)
  unfolding step_caller enqueue
  enqueue_alone request key token run p =
      elim (Bool-cases (ltb (length p.queue) service.queue_size)) [
        | inl room ↦ rw room refl
        | inr full ↦ rw full refl
      ]

  create_alone :
      (request : RecomputeRequest) (key token : Text) (r : Result RecomputeRun) (p : Process S)
      → step_times 4 (after_create request key token r, p)
        ≡ reply (create_and_enqueue service request key token r p)
  unfolding step_caller create_and_enqueue
  create_alone request key token (ok run) p = enqueue_alone request key token run _
  create_alone request key token (err e) p = refl

  lock_alone :
      (request : RecomputeRequest) (key token : Text) (b : Bool) (p : Process S)
      → step_times 5 (after_lock request key token (ok b), p)
        ≡ reply (with_lock service request key token b p)
  unfolding step_caller with_lock
  lock_alone request key token true p = create_alone request key token _ _
  lock_alone request key token false p = refl

  acquire_alone :
      (request : RecomputeRequest) (token : Text) (p : Process S) (r : Result Bool × S)
      → step_times 5 (after_lock request (lock_key_of request) token r.0, record p { world = r.1 })
        ≡ reply (
            continue
              (λ acquired. with_lock service request (lock_key_of request) token acquired)
              (with_error
                (wrap_app_error err_code_internal (codes "failed to acquire recompute lock"))
                (r.0, record p { world = r.1 })))
  unfolding step_caller
  acquire_alone request token p (ok b, s) = lock_alone request (lock_key_of request) token b _
  acquire_alone request token p (err e, s) = refl

  lookup_alone :
      (request : RecomputeRequest) (p : Process S) (r : Result ReportDefinition × S)
      → step_times 6 (
        (after_lookup service request r.0 r.1).0,
        record p { world = (after_lookup service request r.0 r.1).1 },
      )
        ≡ reply (
            continue
              (λ report. lock_and_create service (with_defaults request))
              (r.0, record p { world = r.1 }))
  unfolding step_caller lock_and_create
  lookup_alone request p (ok report, s) =
      acquire_alone (with_defaults request) (service.host.new_uuid s).0
        (record p { world = (service.host.new_uuid s).1 })
        (service.locks.try_acquire (lock_key_of (with_defaults request)) (service.host.new_uuid s).0
          service.lock_ttl (service.host.new_uuid s).1)
  lookup_alone request p (err e, s) = refl

  -- The steps of a call of `Trigger`, with no other thread between them, are `Trigger`, on every path:
  -- at most eight steps to its answer.
  trigger_alone :
      (request : RecomputeRequest) (p : Process S)
      → step_times 8 (validating request, p) ≡ reply (trigger service request p)
  unfolding step_caller trigger
  trigger_alone request p =
      validate_alone
        (validate_trigger service.max_range_days request.window request.date_from request.date_to)
    where
      validate_alone :
          (r : Result (Unit {0}))
          → step_times 7 (after_validation request r, p)
            ≡ reply (
                continue
                  (λ u.
                    on_world (service.reports.get_report_definition request.report_slug)
                    >>= λ report. lock_and_create service (with_defaults request))
                  (r, p))
      validate_alone (ok u) = lookup_alone request p _
      validate_alone (err e) = refl
