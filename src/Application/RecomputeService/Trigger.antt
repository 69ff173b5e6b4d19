-- ===== src/Application/RecomputeService/Trigger.antt =====
-- `Trigger` on each of its paths: what it returns, the queue, and the lock that it leaves.
use pg_analytics_service.Prelude.{
  ◌≡◌, ◌≤◌, refl, ap, ◌∙◌, Option, none, some, [], ◌∷◌, length, length-append, Text, codes, arith,
}
use pg_analytics_service.Domain.Errors.{Error, err_code_conflict, new_app_error}
use pg_analytics_service.Domain.Models.{RecomputeRequest, RecomputeRun, ReportDefinition}
use pg_analytics_service.Effects.{ok, err, settled}
use pg_analytics_service.Application.Validation.{validate_trigger}
use pg_analytics_service.Application.LockLaws.{LockLaws}
use pg_analytics_service.Application.RecomputeService.{
  RecomputeService, RecomputeJob, Process, lock_key_of, with_defaults, enqueue, with_lock,
  lock_and_create, trigger,
}
use pg_analytics_service.Application.RecomputeService.Locks.{Frames}
use pg_analytics_service.Application.RecomputeService.Accounting.{
  Accounts, Accounts-before, is_lock_key-lock_key_of, with_lock-Accounts,
}

module _ {S : Type 0} (service : RecomputeService S) (request : RecomputeRequest) where
  -- A request that the validation refuses changes nothing and asks no server.
  pub trigger_invalid :
      (p : Process S) (e : Error)
      → validate_trigger service.max_range_days request.window request.date_from request.date_to
        ≡ err e
      → trigger service request p ≡ (err e, p)
  unfolding trigger
  trigger_invalid p e refused = rw refused

  -- The channel takes no job beyond its size.
  enqueue-bounded :
      (job : RecomputeJob) (run : RecomputeRun) (p : Process S)
      → length p.queue ≤ service.queue_size
      → length (enqueue service job run p).1.queue ≤ service.queue_size
  unfolding enqueue
  enqueue-bounded job run p h = ground (arith, length-append p.queue (job ∷ []))

module _ {S : Type 0} (service : RecomputeService S) {holder : S → Text → Option Text}
    (laws : LockLaws service.locks holder) (frames : Frames service holder) where
  -- The process after `uuid.NewString()` and the attempt at the lock.
  abbrev locked : RecomputeRequest → Process S → Process S
  locked request p = record p {
    world =
        (service.locks.try_acquire (lock_key_of request) (service.host.new_uuid p.world).0
          service.lock_ttl (service.host.new_uuid p.world).1).1;
  }

  -- A scope whose lock is held is a conflict: no run is created, no job is queued.
  lock_and_create-conflict :
      (request : RecomputeRequest) (p : Process S) (owner : Text)
      → holder p.world (lock_key_of request) ≡ some owner
      → lock_and_create service request p ≡ (
        err (
            new_app_error err_code_conflict
              (codes "a recompute run for this scope is already in progress")),
        locked request p,
      )
  unfolding lock_and_create with_lock
  lock_and_create-conflict request p owner held = rw (
      settled
        (service.locks.try_acquire (lock_key_of request) (service.host.new_uuid p.world).0
          service.lock_ttl (service.host.new_uuid p.world).1)
        (laws.acquire_held _ _ service.lock_ttl (service.host.new_uuid p.world).1 owner
          (frames.new_uuid p.world (lock_key_of request) ∙ held)))

  lock_and_create-Accounts :
      (request : RecomputeRequest) (p : Process S)
      → holder p.world (lock_key_of request) ≡ none
      → Accounts service laws frames
          (lock_key_of request)
          (service.host.new_uuid p.world).0
          p
          (holder p.world)
          (lock_and_create service request p)
  unfolding lock_and_create
  lock_and_create-Accounts request p free =
      rw
        (settled
          (service.locks.try_acquire (lock_key_of request) (service.host.new_uuid p.world).0
            service.lock_ttl (service.host.new_uuid p.world).1)
          (laws.acquire_free _ _ service.lock_ttl (service.host.new_uuid p.world).1
            (is_lock_key-lock_key_of request) still_free))
        (with_lock-Accounts service laws frames request (lock_key_of request)
          (service.host.new_uuid p.world).0 (locked request p) (holder p.world)
          (
            free,
            λ k.
                laws.acquire_takes _ _ service.lock_ttl (service.host.new_uuid p.world).1 k
                  (is_lock_key-lock_key_of request) still_free
                ∙ rw (frames.new_uuid p.world k),
          ))
    where
      still_free : holder (service.host.new_uuid p.world).1 (lock_key_of request) ≡ none
      still_free = frames.new_uuid p.world (lock_key_of request) ∙ free

  module _ (request : RecomputeRequest) (p : Process S) (report : ReportDefinition)
      (valid : validate_trigger service.max_range_days request.window request.date_from
          request.date_to
        ≡ ok tt)
      (found : (service.reports.get_report_definition request.report_slug p.world).0
        ≡ ok report) where
    -- The process after the report was found.
    abbrev pub looked_up : Process S
    looked_up = record p {
      world = (service.reports.get_report_definition request.report_slug p.world).1;
    }

    trigger_lem :
        trigger service request p ≡ lock_and_create service (with_defaults request) looked_up
    unfolding trigger
    trigger_lem =
        rw valid
          (rw (settled (service.reports.get_report_definition request.report_slug p.world) found))

    lock_key_of-with_defaults : lock_key_of (with_defaults request) ≡ lock_key_of request
    unfolding lock_key_of with_defaults
    lock_key_of-with_defaults = refl

    same_holder : (k : Text) → holder looked_up.world k ≡ holder p.world k
    same_holder = frames.get_report_definition request.report_slug p.world

    -- For a valid request whose report is found, and locks that do not expire: while a token holds the
    -- lock of the request's scope, `Trigger` returns the conflict error, queues nothing and leaves
    -- every lock alone.
    pub trigger_conflict :
        (owner : Text)
        → holder p.world (lock_key_of request) ≡ some owner
        → ((trigger service request p).0
            ≡ err (
                new_app_error err_code_conflict
                  (codes "a recompute run for this scope is already in progress")))
          × ((trigger service request p).1.queue ≡ p.queue)
          × ((k : Text) → holder (trigger service request p).1.world k ≡ holder p.world k)
    unfolding lock_key_of with_defaults
    trigger_conflict owner held = (
      ap (λ q. q.0) outcome,
      ap (λ q. q.1.queue) outcome,
      λ k.
          ap (λ q. holder q.1.world k) outcome
          ∙ (laws.acquire_held_keeps _ _ service.lock_ttl _ owner k held_then
              ∙ (frames.new_uuid looked_up.world k ∙ same_holder k)),
    )
      where
        held_now : holder looked_up.world (lock_key_of (with_defaults request)) ≡ some owner
        held_now = same_holder (lock_key_of request) ∙ held

        held_then :
            holder (service.host.new_uuid looked_up.world).1 (lock_key_of (with_defaults request))
            ≡ some owner
        held_then = frames.new_uuid looked_up.world (lock_key_of request) ∙ held_now

        outcome : trigger service request p ≡ (
          err (
              new_app_error err_code_conflict
                (codes "a recompute run for this scope is already in progress")),
          locked (with_defaults request) looked_up,
        )
        outcome =
            trigger_lem ∙ lock_and_create-conflict (with_defaults request) looked_up owner held_now

    pub trigger-Accounts :
        holder p.world (lock_key_of request) ≡ none
        → Accounts service laws frames
            (lock_key_of request)
            (service.host.new_uuid looked_up.world).0
            p
            (holder p.world)
            (trigger service request p)
    unfolding lock_key_of with_defaults
    trigger-Accounts free = rw trigger_lem (
        Accounts-before service laws frames (lock_key_of request) _ p same_holder
          (lock_and_create service (with_defaults request) looked_up)
          (lock_and_create-Accounts (with_defaults request) looked_up
            (same_holder (lock_key_of request) ∙ free)))
