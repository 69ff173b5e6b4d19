-- ===== src/Application/RecomputeService/Threads/Keys.antt =====
-- The keys of the jobs, from `lockKey` in `Trigger` to the workers.
use pg_analytics_service.Prelude.{
  ◌≡◌, refl, inl, inr, List, [], ◌∷◌, All, All-append, Bool, true, false, Bool-cases, ltb, length,
  Text,
}
use pg_analytics_service.Effects.{Result, ok, err}
use pg_analytics_service.Domain.Models.{
  RecomputeRequest, RecomputeRun, RecomputeSummary, ReportDefinition,
}
use pg_analytics_service.Application.RecomputeService.{
  RecomputeService, RecomputeJob, Process, lock_key_of,
}
use pg_analytics_service.Application.RecomputeService.Threads.{
  waiting, stopped, marking, rebuilding, releasing, failing, auditing_failure, completing, bumping,
  auditing, validating, looking_up, locking, creating, recording, queueing, refusing, giving_up,
  answered, Thread, worker, caller, after_mark, after_rebuild, after_validation, after_lookup,
  after_lock, after_create, job_of, advance, take_job, step_worker, put_job, step_caller,
  step_thread,
}

-- The key of a job is that of its request.
abbrev pub IsKeyed : RecomputeJob → Type 0
IsKeyed job = job.lock_key ≡ lock_key_of job.request

abbrev pub HasKey : Thread → Type 0
HasKey (worker waiting) = Unit
HasKey (worker stopped) = Unit
HasKey (worker (marking job)) = IsKeyed job
HasKey (worker (rebuilding job)) = IsKeyed job
HasKey (worker (releasing job)) = IsKeyed job
HasKey (worker (failing job e)) = IsKeyed job
HasKey (worker (auditing_failure job e)) = IsKeyed job
HasKey (worker (completing job summary)) = IsKeyed job
HasKey (worker (bumping job summary)) = IsKeyed job
HasKey (worker (auditing job summary)) = IsKeyed job
HasKey (caller (creating request key token)) = key ≡ lock_key_of request
HasKey (caller (recording request key token run)) = key ≡ lock_key_of request
HasKey (caller (queueing request key token run)) = key ≡ lock_key_of request
HasKey (caller (validating request)) = Unit
HasKey (caller (looking_up request)) = Unit
HasKey (caller (locking request token)) = Unit
HasKey (caller (refusing key token run)) = Unit
HasKey (caller (giving_up key token e)) = Unit
HasKey (caller (answered r)) = Unit

after_mark-HasKey :
    (job : RecomputeJob) (r : Result (Unit {0})) → IsKeyed job → HasKey (worker (after_mark job r))
unfolding after_mark
after_mark-HasKey job (ok u) keyed = keyed
after_mark-HasKey job (err e) keyed = keyed

after_rebuild-HasKey :
    (job : RecomputeJob) (r : Result RecomputeSummary)
    → IsKeyed job
    → HasKey (worker (after_rebuild job r))
unfolding after_rebuild
after_rebuild-HasKey job (ok summary) keyed = keyed
after_rebuild-HasKey job (err e) keyed = keyed

after_validation-HasKey :
    (request : RecomputeRequest) (r : Result (Unit {0}))
    → HasKey (caller (after_validation request r))
unfolding after_validation
after_validation-HasKey request (ok u) = tt
after_validation-HasKey request (err e) = tt

after_lock-HasKey :
    (request : RecomputeRequest) (token : Text) (r : Result Bool)
    → HasKey (caller (after_lock request (lock_key_of request) token r))
unfolding after_lock
after_lock-HasKey request token (ok true) = refl
after_lock-HasKey request token (ok false) = tt
after_lock-HasKey request token (err e) = tt

after_create-HasKey :
    (request : RecomputeRequest) (key token : Text) (r : Result RecomputeRun)
    → key ≡ lock_key_of request
    → HasKey (caller (after_create request key token r))
unfolding after_create
after_create-HasKey request key token (ok run) keyed = keyed
after_create-HasKey request key token (err e) keyed = tt

module _ {S : Type 0} (service : RecomputeService S) where
  -- The keys of a thread and of the queue.
  abbrev pub HaveKeys : Thread × Process S → Type 0
  HaveKeys r = HasKey r.0 × All IsKeyed r.1.queue

  after_lookup-HasKey :
      (request : RecomputeRequest) (r : Result ReportDefinition) (s : S)
      → HasKey (caller (after_lookup service request r s).0)
  unfolding after_lookup
  after_lookup-HasKey request (ok report) s = tt
  after_lookup-HasKey request (err e) s = tt

  take_job-HaveKeys :
      (jobs : List RecomputeJob) (p : Process S)
      → p.queue ≡ jobs
      → All IsKeyed jobs
      → HaveKeys (worker (take_job service jobs p).0, (take_job service jobs p).1)
  unfolding take_job
  take_job-HaveKeys [] p e keyed = (tt, rw e tt)
  take_job-HaveKeys (job ∷ rest) p e keyed = (keyed.0, keyed.1)

  put_job-HaveKeys :
      (request : RecomputeRequest) (key token : Text) (run : RecomputeRun) (p : Process S)
      → key ≡ lock_key_of request
      → All IsKeyed p.queue
      → HaveKeys (
        caller (put_job service request key token run p).0,
        (put_job service request key token run p).1,
      )
  unfolding put_job
  put_job-HaveKeys request key token run p keyed q =
      elim (Bool-cases (ltb (length p.queue) service.queue_size)) [
        | inl room ↦
            rw room
              (tt, All-append IsKeyed p.queue (job_of request key token run ∷ []) q (keyed, tt))
        | inr full ↦ rw full (tt, q)
      ]

  pub step_thread-HaveKeys :
      (t : Thread) (p : Process S) → HaveKeys (t, p) → HaveKeys (step_thread service t p)
  unfolding step_thread step_worker step_caller advance
  step_thread-HaveKeys (worker waiting) p (k, q) = take_job-HaveKeys p.queue p refl q
  step_thread-HaveKeys (worker stopped) p (k, q) = (tt, q)
  step_thread-HaveKeys (worker (marking job)) p (k, q) = (after_mark-HasKey job _ k, q)
  step_thread-HaveKeys (worker (rebuilding job)) p (k, q) = (after_rebuild-HasKey job _ k, q)
  step_thread-HaveKeys (worker (releasing job)) p (k, q) = (tt, q)
  step_thread-HaveKeys (worker (failing job e)) p (k, q) = (k, q)
  step_thread-HaveKeys (worker (auditing_failure job e)) p (k, q) = (k, q)
  step_thread-HaveKeys (worker (completing job summary)) p (k, q) = (k, q)
  step_thread-HaveKeys (worker (bumping job summary)) p (k, q) = (k, q)
  step_thread-HaveKeys (worker (auditing job summary)) p (k, q) = (k, q)
  step_thread-HaveKeys (caller (validating request)) p (k, q) =
      (after_validation-HasKey request _, q)
  step_thread-HaveKeys (caller (looking_up request)) p (k, q) = (after_lookup-HasKey request _ _, q)
  step_thread-HaveKeys (caller (locking request token)) p (k, q) =
      (after_lock-HasKey request token _, q)
  step_thread-HaveKeys (caller (creating request key token)) p (k, q) =
      (after_create-HasKey request key token _ k, q)
  step_thread-HaveKeys (caller (recording request key token run)) p (k, q) = (k, q)
  step_thread-HaveKeys (caller (queueing request key token run)) p (k, q) =
      put_job-HaveKeys request key token run p k q
  step_thread-HaveKeys (caller (refusing key token run)) p (k, q) = (tt, q)
  step_thread-HaveKeys (caller (giving_up key token e)) p (k, q) = (tt, q)
  step_thread-HaveKeys (caller (answered r)) p (k, q) = (tt, q)
