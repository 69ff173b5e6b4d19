-- ===== src/Application/RecomputeService/Threads/Moves.antt =====
-- What each step of a thread does to the locks and to the claims for them.
use pg_analytics_service.Prelude.{
  ◌≡◌, refl, ◌∙◌, ◌⊎◌, inl, inr, Bool, Bool-cases, true, false, Option, none, some, List, [], ◌∷◌,
  ◌++◌, ltb, length, if◌then◌else◌, Text, codes, ◌=ₜ◌,
}
use pg_analytics_service.Domain.Errors.{error_text}
use pg_analytics_service.Domain.Models.{
  run_status_pending, RecomputeRequest, RecomputeRun, ReportDefinition,
}
use pg_analytics_service.Effects.{Result, ok, err}
use pg_analytics_service.Application.LockLaws.{LockSafety}
use pg_analytics_service.Application.RecomputeService.{
  RecomputeJob, RecomputeService, Process, lock_key_of, triggered_entry, failed_entry,
  completed_entry,
}
use pg_analytics_service.Application.RecomputeService.Accounting.{is_lock_key-lock_key_of}
use pg_analytics_service.Application.RecomputeService.Locks.{Frames, bump-LeavesLocks}
use pg_analytics_service.Application.RecomputeService.Threads.{
  Worker, waiting, stopped, marking, rebuilding, releasing, failing, auditing_failure, completing,
  bumping, auditing, Caller, validating, looking_up, locking, creating, recording, queueing,
  refusing, giving_up, answered, Thread, worker, caller, after_lookup, after_lock, advance,
  take_job, step_worker, put_job, step_caller, step_thread,
}
use pg_analytics_service.Application.RecomputeService.Threads.Claims.{
  Claim, caller_claims, claims_of, queue_claims, Move, loses,
}
use pg_analytics_service.Application.RecomputeService.Threads.Transfers.{
  after_create-claims, after_mark-claims, after_rebuild-claims, after_validation-claims,
  giving_back, moved_back, moving, queue_claims-append, stays, taking,
}

module _ {S : Type 0} (service : RecomputeService S) {holder : S → Text → Option Text}
    (safety : LockSafety service.locks holder) (frames : Frames service holder) where
  -- A step, seen from the locks and the claims.
  abbrev pub Moves : Thread → Process S → Thread × Process S → Type 0
  Moves t p (t', p') =
      Move (holder p.world) (holder p'.world) (queue_claims p.queue ++ claims_of t)
        (queue_claims p'.queue ++ claims_of t')

  take_job-Moves :
      (jobs : List RecomputeJob) (p : Process S)
      → p.queue ≡ jobs
      → Moves (worker waiting) p (worker (take_job service jobs p).0, (take_job service jobs p).1)
  unfolding take_job
  take_job-Moves [] p e =
      stays (holder p.world) (holder p.world) (queue_claims p.queue ++ []) (λ k. refl)
  take_job-Moves (job ∷ rest) p e = rw e (
      moving (holder p.world) (holder p.world) (queue_claims rest) job.lock_key job.lock_token
        (λ k. refl))

  -- The steps of a worker that holds a lock.
  step_worker-Moves :
      (w : Worker) (p : Process S)
      → Moves (worker w) p (worker (step_worker service w p).0, (step_worker service w p).1)
  unfolding step_worker advance
  step_worker-Moves waiting p = take_job-Moves p.queue p refl
  step_worker-Moves stopped p = stays _ _ _ (λ k. refl)
  step_worker-Moves (marking job) p =
      rw (after_mark-claims job) (stays _ _ _ (frames.mark_run_running job.run_id p.world))
  step_worker-Moves (rebuilding job) p =
      rw (after_rebuild-claims job)
        (stays _ _ _ (frames.recompute_report job.request job.run_id p.world))
  step_worker-Moves (failing job e) p =
      stays _ _ _ (frames.mark_run_failed job.run_id (error_text e) p.world)
  step_worker-Moves (auditing_failure job e) p =
      stays _ _ _ (frames.create_entry (failed_entry job e) p.world)
  step_worker-Moves (completing job summary) p =
      stays _ _ _ (frames.mark_run_completed job.run_id summary p.world)
  step_worker-Moves (bumping job summary) p =
      stays _ _ _ (bump-LeavesLocks service frames job.request.report_slug p.world)
  step_worker-Moves (auditing job summary) p =
      stays _ _ _ (frames.create_entry (completed_entry job summary) p.world)
  step_worker-Moves (releasing job) p =
      giving_back _ _ (queue_claims p.queue) job.lock_key job.lock_token
        (safety.releasing job.lock_key job.lock_token p.world)

  -- The UUID and the look-up hold no lock.
  after_lookup-Moves :
      (request : RecomputeRequest) (r : Result ReportDefinition) (s : S) (p : Process S)
      → ((k : Text) → holder s k ≡ holder p.world k)
      → Move
          (holder p.world)
          (holder (after_lookup service request r s).1)
          (queue_claims p.queue ++ [])
          (queue_claims p.queue ++ caller_claims (after_lookup service request r s).0)
  unfolding after_lookup
  after_lookup-Moves request (ok report) s p same = stays _ _ _ (λ k. frames.new_uuid s k ∙ same k)
  after_lookup-Moves request (err e) s p same = stays _ _ _ same

  -- The reply to `TryAcquire` and what the call did.
  after_lock-Moves :
      (request : RecomputeRequest) (key token : Text) (r : Result Bool) (h h' : Text → Option Text)
      (cs : List Claim)
      → (r ≡ ok true
          → (h key ≡ none) × ((k : Text) → h' k ≡ (if key =ₜ k then some token else h k)))
      → ((k : Text) → h' k ≡ h k)
        ⊎ ((h key ≡ none) × ((k : Text) → h' k ≡ (if key =ₜ k then some token else h k)))
      → Move h h' (cs ++ []) (cs ++ caller_claims (after_lock request key token r))
  unfolding after_lock
  after_lock-Moves request key token (ok true) h h' cs taken _ =
      taking h h' cs key token (taken refl).0 (taken refl).1
  after_lock-Moves request key token (ok false) h h' cs _ (inl same) = stays h h' (cs ++ []) same
  after_lock-Moves request key token (ok false) h h' cs _ (inr (free, now)) =
      loses key token free now refl
  after_lock-Moves request key token (err e) h h' cs _ (inl same) = stays h h' (cs ++ []) same
  after_lock-Moves request key token (err e) h h' cs _ (inr (free, now)) =
      loses key token free now refl

  locking-Moves :
      (request : RecomputeRequest) (token : Text) (p : Process S)
      → Moves (caller (locking request token)) p (
        caller (step_caller service (locking request token) p).0,
        (step_caller service (locking request token) p).1,
      )
  unfolding step_caller
  locking-Moves request token p =
      let is_key = is_lock_key-lock_key_of request in
      after_lock-Moves request (lock_key_of request) token _ _ _ (queue_claims p.queue)
        (safety.acquired (lock_key_of request) token service.lock_ttl p.world is_key)
        (safety.acquiring (lock_key_of request) token service.lock_ttl p.world is_key)

  put_job-Moves :
      (request : RecomputeRequest) (key token : Text) (run : RecomputeRun) (p : Process S)
      → Moves (caller (queueing request key token run)) p (
        caller (put_job service request key token run p).0,
        (put_job service request key token run p).1,
      )
  unfolding put_job
  put_job-Moves request key token run p =
      elim (Bool-cases (ltb (length p.queue) service.queue_size)) [
        | inl room ↦ rw room (
            rw (queue_claims-append p.queue)
              (moved_back (holder p.world) (queue_claims p.queue) (key, token)))
        | inr full ↦ rw full (stays _ _ _ (λ k. refl))
      ]

  -- The steps of a call of `Trigger`.
  step_caller-Moves :
      (c : Caller) (p : Process S)
      → Moves (caller c) p (caller (step_caller service c p).0, (step_caller service c p).1)
  unfolding step_caller
  step_caller-Moves (validating request) p =
      rw (after_validation-claims request) (stays _ _ _ (λ k. refl))
  step_caller-Moves (looking_up request) p =
      after_lookup-Moves request _ _ p (frames.get_report_definition request.report_slug p.world)
  step_caller-Moves (locking request token) p = locking-Moves request token p
  step_caller-Moves (creating request key token) p =
      rw (after_create-claims request key token)
        (stays _ _ _ (frames.create_run request run_status_pending p.world))
  step_caller-Moves (recording request key token run) p =
      stays _ _ _ (frames.create_entry (triggered_entry request run.id) p.world)
  step_caller-Moves (queueing request key token run) p = put_job-Moves request key token run p
  step_caller-Moves (refusing key token run) p =
      stays _ _ _ (frames.mark_run_failed run.id (codes "worker queue is full") p.world)
  step_caller-Moves (giving_up key token e) p =
      giving_back _ _ (queue_claims p.queue) key token (safety.releasing key token p.world)
  step_caller-Moves (answered r) p = stays _ _ _ (λ k. refl)

  pub step_thread-Moves : (t : Thread) (p : Process S) → Moves t p (step_thread service t p)
  unfolding step_thread
  step_thread-Moves (worker w) p = step_worker-Moves w p
  step_thread-Moves (caller c) p = step_caller-Moves c p
