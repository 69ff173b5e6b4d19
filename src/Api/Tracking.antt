-- ===== src/Api/Tracking.antt =====
-- Every queued job of the process that `main` builds has its row in `recompute_runs`.
use pg_analytics_service.Prelude.{
  ◌≡◌, inl, inr, Bool, Bool-cases, true, false, List, [], ◌∷◌, ◌++◌, All, ltb, length, Text, codes,
}
use pg_analytics_service.Domain.Errors.{Error}
use pg_analytics_service.Domain.Models.{run_status_pending, RecomputeRequest, RecomputeRun}
use pg_analytics_service.Effects.{Result, ok, err, Action, continue, with_error}
use pg_analytics_service.Application.RecomputeService.{
  RecomputeService, RecomputeJob, Process, on_world, lock_key_of, triggered_entry, with_defaults,
  enqueue, create_and_enqueue, with_lock, lock_and_create, trigger,
}
use pg_analytics_service.Application.Validation.{validate_trigger}
use pg_analytics_service.Postgres.Database.{RunRow, World}
use pg_analytics_service.Postgres.Recompute.Rebuild.{IsUp}
use pg_analytics_service.Redis.{try_acquire}
use pg_analytics_service.Redis.Client.{RedisClient}
use pg_analytics_service.Api.{
  on_redis, Servers, PostgresServer, Machine, Settings, recompute_service,
}
use pg_analytics_service.Api.Progress.{HasRun, create_entry-runs}
use pg_analytics_service.Api.Rows.{
  KeepsRows, Created, create_run-Created, mark_run_failed-KeepsRows, get_report_definition-runs,
}

module _ {R E : Type 0} (server : PostgresServer) (up : IsUp server.driver) (client : RedisClient R)
    (machine : Machine E) (settings : Settings) where
  abbrev service : RecomputeService (Servers R E)
  service = recompute_service server client machine settings

  abbrev table : Servers R E → List RunRow
  table s = s.postgres.db.runs

  -- The row of every queued job is there.
  abbrev pub Tracked : Process (Servers R E) → Type 0
  Tracked p = All (λ j. HasRun j.run_id (table p.world)) p.queue

  pub KeepsRows-All :
      (before after : List RunRow) (jobs : List RecomputeJob)
      → KeepsRows before after
      → All (λ j. HasRun j.run_id before) jobs
      → All (λ j. HasRun j.run_id after) jobs
  KeepsRows-All before after [] k h = tt
  KeepsRows-All before after (j ∷ jobs) k h =
      (k j.run_id h.0, KeepsRows-All before after jobs k h.1)

  All-queued :
      (rows : List RunRow) (jobs : List RecomputeJob) (job : RecomputeJob)
      → All (λ j. HasRun j.run_id rows) jobs
      → HasRun job.run_id rows
      → All (λ j. HasRun j.run_id rows) (jobs ++ job ∷ [])
  All-queued rows [] job h r = (r, tt)
  All-queued rows (j ∷ jobs) job h r = (h.0, All-queued rows jobs job h.1 r)

  same-Tracked :
      (p : Process (Servers R E)) (s : Servers R E)
      → table s ≡ table p.world
      → Tracked p
      → Tracked (record p { world = s })
  same-Tracked p s e h = rw e h

  enqueue-Tracked :
      (job : RecomputeJob) (run : RecomputeRun) (p : Process (Servers R E))
      → HasRun job.run_id (table p.world)
      → Tracked p
      → Tracked (enqueue service job run p).1
  unfolding enqueue
  enqueue-Tracked job run p r h =
      elim (Bool-cases (ltb (length p.queue) settings.recompute_queue_size)) [
        | inl room ↦ rw room (All-queued (table p.world) p.queue job h r)
        | inr full ↦ rw full (
            KeepsRows-All (table p.world) _ p.queue
              (mark_run_failed-KeepsRows server.driver up run.id (codes "worker queue is full")
                p.world.postgres)
              h)
      ]

  create_and_enqueue-Tracked :
      (request : RecomputeRequest) (key token : Text) (before : World) (r : Result RecomputeRun)
      (p : Process (Servers R E))
      → Created before (r, p.world.postgres)
      → All (λ j. HasRun j.run_id before.db.runs) p.queue
      → Tracked (create_and_enqueue service request key token r p).1
  unfolding create_and_enqueue
  create_and_enqueue-Tracked request key token before (err e) p c h =
      KeepsRows-All before.db.runs _ p.queue c h
  create_and_enqueue-Tracked request key token before (ok run) p c h =
      enqueue-Tracked _ run _
        (rw (create_entry-runs server.driver (triggered_entry request run.id) p.world.postgres) c.0)
        (rw (create_entry-runs server.driver (triggered_entry request run.id) p.world.postgres)
          (KeepsRows-All before.db.runs _ p.queue c.1 h))

  with_lock-Tracked :
      (request : RecomputeRequest) (key token : Text) (b : Bool) (p : Process (Servers R E))
      → Tracked p
      → Tracked (with_lock service request key token b p).1
  unfolding with_lock
  with_lock-Tracked request key token false p h = h
  with_lock-Tracked request key token true p h =
      create_and_enqueue-Tracked request key token p.world.postgres _ _
        (create_run-Created server.driver up request run_status_pending p.world.postgres) h

  continue-Tracked :
      {A B : Type 0} (k : A → Action (Process (Servers R E)) B)
      (r : Result A × Process (Servers R E))
      → ((a : A) (q : Process (Servers R E)) → Tracked q → Tracked (k a q).1)
      → Tracked r.1
      → Tracked (continue k r).1
  continue-Tracked k (ok a, q) step h = step a q h
  continue-Tracked k (err e, q) step h = h

  with_error-Tracked :
      {A : Type 0} (f : Error → Error) (r : Result A × Process (Servers R E))
      → Tracked r.1
      → Tracked (with_error f r).1
  with_error-Tracked f (ok a, q) h = h
  with_error-Tracked f (err e, q) h = h

  lock_and_create-Tracked :
      (request : RecomputeRequest) (p : Process (Servers R E))
      → Tracked p
      → Tracked (lock_and_create service request p).1
  unfolding lock_and_create
  lock_and_create-Tracked request p h =
      continue-Tracked
        (with_lock service request (lock_key_of request) (service.host.new_uuid p.world).0) _
        (with_lock-Tracked request (lock_key_of request) (service.host.new_uuid p.world).0)
        (with_error-Tracked _
          (on_world
            (on_redis (
              try_acquire client (lock_key_of request) (machine.new_uuid p.world.entropy).0
                settings.recompute_lock_ttl))
            (record p { world = (service.host.new_uuid p.world).1 }))
          h)

  -- `Trigger` queues only runs that it has created, and loses none.
  pub trigger-Tracked :
      (request : RecomputeRequest) (p : Process (Servers R E))
      → Tracked p
      → Tracked (trigger service request p).1
  unfolding trigger
  trigger-Tracked request p h =
      continue-Tracked _
        (
          validate_trigger settings.max_report_range_days request.window request.date_from
              request.date_to,
          p,
        )
        (λ u q t.
          continue-Tracked _
            (on_world (service.reports.get_report_definition request.report_slug) q)
            (λ report. lock_and_create-Tracked (with_defaults request))
            (rw (get_report_definition-runs server.driver up request.report_slug q.world.postgres)
              t))
        h
