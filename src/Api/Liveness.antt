-- ===== src/Api/Liveness.antt =====
-- Every recomputation that the process accepts comes to its end.
use pg_analytics_service.Prelude.{◌≡◌, ap, Option, none, List, [], ◌∷◌, ◌++◌, All, length, Text}
use pg_analytics_service.Domain.Models.{RecomputeRequest, RecomputeRun}
use pg_analytics_service.Effects.{ok}
use pg_analytics_service.Application.RecomputeService.{
  RecomputeService, RecomputeJob, Process, lock_key_of, trigger, work, worker_step,
}
use pg_analytics_service.Application.RecomputeService.Accepted.{accepted-Queued}
use pg_analytics_service.Application.RecomputeService.System.{
  Step, Reach, triggers, works, elsewhere, here, next, Inv, reach-Inv,
}
use pg_analytics_service.Postgres.Recompute.Rebuild.{IsUp}
use pg_analytics_service.Postgres.Runs.{to_run, get_run}
use pg_analytics_service.Postgres.Runs.Rows.{get_run-found}
use pg_analytics_service.Redis.Client.{RedisClient, ClientLaws}
use pg_analytics_service.Api.{Servers, PostgresServer, Machine, Settings, recompute_service}
use pg_analytics_service.Api.Drain.{rounds, drains, step-HasRun}
use pg_analytics_service.Api.Locks.{holder_in, lock_of-LockLaws, recompute_service-Frames}
use pg_analytics_service.Api.Progress.{IsFinal, HasRun, HasEnded}
use pg_analytics_service.Api.Rows.{KeepsRows}
use pg_analytics_service.Api.Tracking.{Tracked, trigger-Tracked, KeepsRows-All}

module _ {R E : Type 0} (server : PostgresServer) (up : IsUp server.driver) (client : RedisClient R)
    (laws : ClientLaws client) (machine : Machine E) (settings : Settings) where
  abbrev service : RecomputeService (Servers R E)
  service = recompute_service server client machine settings

  abbrev held : Servers R E → Text → Option Text
  held s k = holder_in client laws s k

  -- What can happen: a request for a recomputation, a round of a worker, and all else, which touches
  -- no lock and deletes no run.
  pub data Happens : Process (Servers R E) → Process (Servers R E) → Type 0 where
    requests :
        (request : RecomputeRequest) (p : Process (Servers R E))
        → Happens p (trigger service request p).1
    rounds_of : (p : Process (Servers R E)) → Happens p (worker_step service p)
    other :
        (p : Process (Servers R E)) (world : Servers R E)
        → ((k : Text) → held world k ≡ held p.world k)
        → KeepsRows p.world.postgres.db.runs world.postgres.db.runs
        → Happens p (record p { world = world })

  pub data History (p : Process (Servers R E)) : Process (Servers R E) → Type 0 where
    start : History p p
    more : {q r : Process (Servers R E)} → History p q → Happens q r → History p r

  Happens-Step :
      {p q : Process (Servers R E)} → Happens p q → Step service (lock_of-LockLaws client laws) p q
  Happens-Step (requests request p) = triggers request p
  Happens-Step (rounds_of p) = works p
  Happens-Step (other p world same keeps) = elsewhere p world same

  History-Reach :
      {p q : Process (Servers R E)} → History p q → Reach service (lock_of-LockLaws client laws) p q
  History-Reach start = here
  History-Reach (more h s) = next (History-Reach h) (Happens-Step s)

  work-Tracked :
      (jobs : List RecomputeJob) (s : Servers R E)
      → All (λ j. HasRun j.run_id s.postgres.db.runs) jobs
      → Tracked server up client machine settings (work service jobs s)
  unfolding work
  work-Tracked [] s h = tt
  work-Tracked (job ∷ jobs) s h =
      KeepsRows-All server up client machine settings s.postgres.db.runs _ jobs
        (λ id. step-HasRun server up client laws machine settings job id s) h.1

  Happens-Tracked :
      {p q : Process (Servers R E)}
      → Happens p q
      → Tracked server up client machine settings p
      → Tracked server up client machine settings q
  unfolding worker_step
  Happens-Tracked (requests request p) t =
      trigger-Tracked server up client machine settings request p t
  Happens-Tracked (rounds_of p) t = work-Tracked p.queue p.world t
  Happens-Tracked (other p world same keeps) t =
      KeepsRows-All server up client machine settings p.world.postgres.db.runs _ p.queue keeps t

  History-Tracked :
      {p q : Process (Servers R E)}
      → History p q
      → p.queue ≡ []
      → Tracked server up client machine settings q
  History-Tracked {p} start e = rw e tt
  History-Tracked (more h s) e = Happens-Tracked s (History-Tracked h e)

  All-last :
      (P : RecomputeJob → Type 0) (jobs : List RecomputeJob) (job : RecomputeJob)
      → All P (jobs ++ job ∷ [])
      → P job
  All-last P [] job h = h.0
  All-last P (j ∷ jobs) job h = All-last P jobs job h.1

  All-queued :
      (P : RecomputeJob → Type 0) (jobs after : List RecomputeJob) (job : RecomputeJob)
      → after ≡ jobs ++ job ∷ []
      → All P after
      → P job
  All-queued P jobs after job e h = All-last P jobs job (rw e at h)

  -- In the process that `main` builds, started with an empty queue, with Postgres and Redis answering
  -- and no lock expiring: after any requests, worker rounds and other traffic that touches no lock and
  -- deletes no run, when `Trigger` returns a run, then after as many worker rounds as jobs are queued
  -- the queue is empty, `GetRun` of its id gives a run that is completed or failed, and the lock of its
  -- scope is free, so that the scope can be recomputed again.
  pub accepted_run_ends :
      (request : RecomputeRequest) (started p q : Process (Servers R E)) (run : RecomputeRun)
      → started.queue ≡ []
      → History started p
      → trigger service request p ≡ (ok run, q)
      → let after = rounds service (length q.queue) q in
        (after.queue ≡ [])
        × ((done : RecomputeRun) × ((get_run server.driver run.id after.world.postgres).0 ≡ ok done)
            × IsFinal done.status)
        × (held after.world (lock_key_of request) ≡ none)
  unfolding to_run
  accepted_run_ends request started p q run e history accepted =
      let (job, queued, same_key, same_id) =
        accepted-Queued service (lock_of-LockLaws client laws)
          (recompute_service-Frames client laws server machine settings) request p q run accepted in
      let (empty, ended, free) = drains server up client laws machine settings q inv tracked in
      let (row, found, final) =
        All-queued (λ j. HasEnded j.run_id after_q.postgres.db.runs) p.queue q.queue job queued
          ended in
      (
        empty,
        (
          to_run row,
          ap (λ r. r.0) (get_run-found server.driver up run.id _ row (rw same_id at found)),
          final,
        ),
        rw same_key at
            (All-queued (λ j. held after_q j.lock_key ≡ none) p.queue q.queue job queued free),
      )
    where
      after_q : Servers R E
      after_q = (rounds service (length q.queue) q).world

      moved : (trigger service request p).1 ≡ q
      moved = ap (λ r. r.1) accepted

      inv : Inv service (lock_of-LockLaws client laws) q
      inv = rw (← moved) (
          reach-Inv service (lock_of-LockLaws client laws)
            (recompute_service-Frames client laws server machine settings)
            (History-Reach (more history (requests request p))) e)

      tracked : Tracked server up client machine settings q
      tracked = rw (← moved) (History-Tracked (more history (requests request p)) e)
