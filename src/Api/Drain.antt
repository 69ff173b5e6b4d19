-- ===== src/Api/Drain.antt =====
-- The workers empty the queue: what becomes of the jobs that wait in it.
use pg_analytics_service.Prelude.{
  ℕ, zero, suc, Option, ◌≡◌, refl, ◌∙◌, inl, inr, Bool-cases, none, List, [], ◌∷◌, All, length,
  Text, ◌=ₜ◌, =ₜ_refl, =ₜ_sym,
}
use pg_analytics_service.Application.RecomputeService.{
  RecomputeService, RecomputeJob, Process, process_job, work, worker_step,
}
use pg_analytics_service.Application.RecomputeService.Locks.{process_job_releases}
use pg_analytics_service.Application.RecomputeService.System.{
  NotQueued, HaveDistinctScopes, HoldLocks, Inv,
}
use pg_analytics_service.Postgres.Database.{RunRow}
use pg_analytics_service.Postgres.Recompute.Rebuild.{IsUp}
use pg_analytics_service.Redis.Client.{RedisClient, ClientLaws}
use pg_analytics_service.Api.{Servers, PostgresServer, Machine, Settings, recompute_service}
use pg_analytics_service.Api.Locks.{holder_in, lock_of-LockLaws, recompute_service-Frames}
use pg_analytics_service.Api.Progress.{
  HasRun, HasEnded, Processed-HasEnded, Processed-others, runs_of, process_job-Processed,
}

-- Rounds of the workers, one after the other.
abbrev pub rounds : {S : Type 0} → RecomputeService S → ℕ → Process S → Process S
rounds service zero p = p
rounds service (suc n) p = rounds service n (worker_step service p)

module _ {R E : Type 0} (server : PostgresServer) (up : IsUp server.driver) (client : RedisClient R)
    (laws : ClientLaws client) (machine : Machine E) (settings : Settings) where
  abbrev service : RecomputeService (Servers R E)
  service = recompute_service server client machine settings

  abbrev table : Servers R E → List RunRow
  table s = runs_of server up client machine settings s

  abbrev held : Servers R E → Text → Option Text
  held s k = holder_in client laws s k

  -- The servers after the jobs of a queue.
  abbrev after : List RecomputeJob → Servers R E → Servers R E
  after [] s = s
  after (job ∷ jobs) s = after jobs (process_job service job s).1

  rounds-after :
      (jobs : List RecomputeJob) (s : Servers R E)
      → rounds service (length jobs) (record { world = s; queue = jobs })
        ≡ record { world = after jobs s; queue = [] }
  unfolding worker_step work
  rounds-after [] s = refl
  rounds-after (job ∷ jobs) s = rounds-after jobs (process_job service job s).1

  step-HasEnded :
      (job : RecomputeJob) (id : Text) (s : Servers R E)
      → HasEnded id (table s)
      → HasEnded id (table (process_job service job s).1)
  step-HasEnded job id s (row, found, final) =
      let done = process_job-Processed server up client machine settings job s in
      elim (Bool-cases (job.run_id =ₜ id)) [
        | inl same ↦ Processed-HasEnded job.run_id id (table s) _ same done (row, found)
        | inr other ↦ (row, Processed-others job.run_id id (table s) _ done other ∙ found, final)
      ]

  pub step-HasRun :
      (job : RecomputeJob) (id : Text) (s : Servers R E)
      → HasRun id (table s)
      → HasRun id (table (process_job service job s).1)
  step-HasRun job id s (row, found) =
      let done = process_job-Processed server up client machine settings job s in
      elim (Bool-cases (job.run_id =ₜ id)) [
        | inl same ↦
            let (r, e, final) =
              Processed-HasEnded job.run_id id (table s) _ same done (row, found) in
            (r, e)
        | inr other ↦ (row, Processed-others job.run_id id (table s) _ done other ∙ found)
      ]

  after-HasEnded :
      (jobs : List RecomputeJob) (id : Text) (s : Servers R E)
      → HasEnded id (table s)
      → HasEnded id (table (after jobs s))
  after-HasEnded [] id s h = h
  after-HasEnded (job ∷ jobs) id s h = after-HasEnded jobs id _ (step-HasEnded job id s h)

  All-step :
      (job : RecomputeJob) (s : Servers R E) (jobs : List RecomputeJob)
      → All (λ j. HasRun j.run_id (table s)) jobs
      → All (λ j. HasRun j.run_id (table (process_job service job s).1)) jobs
  All-step job s [] h = tt
  All-step job s (j ∷ jobs) h = (step-HasRun job j.run_id s h.0, All-step job s jobs h.1)

  after-All :
      (jobs : List RecomputeJob) (s : Servers R E)
      → All (λ j. HasRun j.run_id (table s)) jobs
      → All (λ j. HasEnded j.run_id (table (after jobs s))) jobs
  after-All [] s h = tt
  after-All (job ∷ jobs) s h = (
    after-HasEnded jobs job.run_id _ (
        Processed-HasEnded job.run_id job.run_id (table s) _ (=ₜ_refl job.run_id)
          (process_job-Processed server up client machine settings job s) h.0),
    after-All jobs _ (All-step job s jobs h.1),
  )

  after-held :
      (jobs : List RecomputeJob) (key : Text) (s : Servers R E)
      → NotQueued service (lock_of-LockLaws client laws) key jobs
      → held (after jobs s) key ≡ held s key
  after-held [] key s n = refl
  after-held (job ∷ jobs) key s n =
      after-held jobs key _ n.1
      ∙ process_job_releases service (lock_of-LockLaws client laws)
          (recompute_service-Frames client laws server machine settings) job s key
      ∙ rw n.0

  HoldLocks-step :
      (job : RecomputeJob) (jobs : List RecomputeJob) (s : Servers R E)
      → NotQueued service (lock_of-LockLaws client laws) job.lock_key jobs
      → HoldLocks service (lock_of-LockLaws client laws) s jobs
      → HoldLocks service (lock_of-LockLaws client laws) (process_job service job s).1 jobs
  HoldLocks-step job [] s n h = tt
  HoldLocks-step job (j ∷ jobs) s n h = (
    process_job_releases service (lock_of-LockLaws client laws)
          (recompute_service-Frames client laws server machine settings) job s j.lock_key
        ∙ rw (=ₜ_sym job.lock_key j.lock_key, n.0) h.0,
    HoldLocks-step job jobs s n.1 h.1,
  )

  after-free :
      (jobs : List RecomputeJob) (s : Servers R E)
      → HaveDistinctScopes service (lock_of-LockLaws client laws) jobs
      → HoldLocks service (lock_of-LockLaws client laws) s jobs
      → All (λ j. held (after jobs s) j.lock_key ≡ none) jobs
  after-free [] s d h = tt
  after-free (job ∷ jobs) s d h = (
    after-held jobs job.lock_key _ d.0
        ∙ process_job_releases service (lock_of-LockLaws client laws)
            (recompute_service-Frames client laws server machine settings) job s job.lock_key
        ∙ rw (=ₜ_refl job.lock_key, h.0, =ₜ_refl job.lock_token),
    after-free jobs _ d.1 (HoldLocks-step job jobs s d.0 h.1),
  )

  -- In the process that `main` builds, with Postgres and Redis answering: when the queued jobs
  -- have distinct scopes and hold their locks, and each one's run is in the table, then after as many
  -- rounds of the workers as jobs are queued the queue is empty, the run of every one of these jobs
  -- is completed or failed, and the lock of every one of their scopes is free, whatever the reports,
  -- the windows and the contents of the tables.
  pub drains :
      (p : Process (Servers R E))
      → Inv service (lock_of-LockLaws client laws) p
      → All (λ j. HasRun j.run_id p.world.postgres.db.runs) p.queue
      → let q = rounds service (length p.queue) p in
        (q.queue ≡ [])
        × All (λ j. HasEnded j.run_id q.world.postgres.db.runs) p.queue
        × All (λ j. held q.world j.lock_key ≡ none) p.queue
  drains p v h =
      rw (rounds-after p.queue p.world)
        (refl, after-All p.queue p.world h, after-free p.queue p.world v.distinct v.hold)
