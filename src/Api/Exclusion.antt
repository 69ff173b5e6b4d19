-- ===== src/Api/Exclusion.antt =====
-- The process that `main` builds, with its workers and its calls of `Trigger` step by step.
use pg_analytics_service.Prelude.{◌≡◌, ◌≢◌, List, ◌∷◌, ◌++◌, ℤ}
use pg_analytics_service.Application.LockLaws.{LockSafety}
use pg_analytics_service.Application.RecomputeService.{RecomputeJob, lock_key_of}
use pg_analytics_service.Application.RecomputeService.Locks.{Frames}
use pg_analytics_service.Application.RecomputeService.Threads.{rebuilding, Thread, worker}
use pg_analytics_service.Application.RecomputeService.Threads.Exclusion.{System, Reach}
use pg_analytics_service.Application.RecomputeService.Threads.Scopes.{IsStarted, rebuilds_differ}
use pg_analytics_service.Application.RecomputeService.Threads.Replicas.{
  Replica, Cluster, AreStarted, ClusterReach, replicas_rebuild_apart,
}
use pg_analytics_service.Redis.Client.{RedisClient, ClientSafety}
use pg_analytics_service.Redis.Safety.{recompute_lock-LockSafety}
use pg_analytics_service.Api.{
  Servers, PostgresServer, Machine, Settings, lock_of, recompute_service,
}
use pg_analytics_service.Api.Locks.{holder_by, Frames_by}

module _ {R E : Type 0} (server : PostgresServer) (client : RedisClient R)
    (safety : ClientSafety client) (machine : Machine E) (settings : Settings) where
  pub lock_of-LockSafety :
      LockSafety (lock_of {R = R} {E = E} client) (holder_by client safety.value)
  lock_of-LockSafety =
      let redis = recompute_lock-LockSafety client safety in
      record {
        acquired = λ k token ttl s. redis.acquired k token ttl s.redis;
        acquiring = λ k token ttl s. redis.acquiring k token ttl s.redis;
        releasing = λ k token s. redis.releasing k token s.redis;
      }

  pub service-Frames :
      Frames (recompute_service server client machine settings) (holder_by client safety.value)
  service-Frames = Frames_by client safety.value safety.incr_others server machine settings

  -- In the process that `main` builds, with any number of workers and calls of `Trigger` whose single
  -- steps come in any order, and though calls to Postgres and Redis fail before or after their effect:
  -- two workers that run `RecomputeReport` at one time have requests with different lock keys. No key
  -- of Redis expires or is lost.
  pub api_rebuilds_differ :
      (n : ℤ) (s t : System (Servers R E)) (before middle after : List Thread)
      (job other : RecomputeJob)
      → IsStarted
          (recompute_service server client machine settings)
          lock_of-LockSafety
          service-Frames
          n
          s
      → Reach
          (recompute_service server client machine settings)
          lock_of-LockSafety
          service-Frames
          s
          t
      → t.threads
        ≡ before ++ worker (rebuilding job) ∷ (middle ++ worker (rebuilding other) ∷ after)
      → lock_key_of job.request ≢ lock_key_of other.request
  api_rebuilds_differ n s t before middle after job other started r threads =
      rebuilds_differ _ lock_of-LockSafety service-Frames n s t before middle after job other
        started r threads

  -- Several processes that `main` builds over one Postgres and one Redis, each with any number of workers
  -- and its own queue, whose single steps come in any order, and though calls to Postgres and Redis
  -- fail before or after their effect: two workers of different processes that run `RecomputeReport` at
  -- one time have requests with different lock keys. No key of Redis expires or is lost.
  pub api_replicas_rebuild_apart :
      (c d : Cluster (Servers R E)) (rs0 rs1 rs2 : List Replica) (r q : Replica)
      (before after before' after' : List Thread) (job other : RecomputeJob)
      → AreStarted
          (recompute_service server client machine settings)
          lock_of-LockSafety
          service-Frames
          c.replicas
      → ClusterReach
          (recompute_service server client machine settings)
          lock_of-LockSafety
          service-Frames
          c
          d
      → d.replicas ≡ rs0 ++ r ∷ (rs1 ++ q ∷ rs2)
      → r.threads ≡ before ++ worker (rebuilding job) ∷ after
      → q.threads ≡ before' ++ worker (rebuilding other) ∷ after'
      → lock_key_of job.request ≢ lock_key_of other.request
  api_replicas_rebuild_apart c d rs0 rs1 rs2 r q before after before' after' job other started reach
        replicas threads threads' =
      replicas_rebuild_apart _ lock_of-LockSafety service-Frames c d rs0 rs1 rs2 r q before after
        before' after' job other started reach replicas threads threads'
