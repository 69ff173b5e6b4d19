-- ===== src/Api/Locks.antt =====
-- In the process that `main` builds, only the lock's own calls touch the locks.
use pg_analytics_service.Prelude.{
  ◌≡◌, refl, sym, ap, ◌∙◌, false, if◌then◌else◌, Bool-cases, inl, inr, Option, none, some, Text,
  codes, ◌=ₜ◌, eq_of_=ₜ,
}
use pg_analytics_service.Strings.{has_prefix}
use pg_analytics_service.Application.LockLaws.{LockLaws, is_lock_key}
use pg_analytics_service.Application.Ports.{ReportCache}
use pg_analytics_service.Application.RecomputeService.Locks.{Frames}
use pg_analytics_service.Redis.{version_key, bump_version}
use pg_analytics_service.Redis.Client.{RedisClient, ClientLaws}
use pg_analytics_service.Redis.Laws.{lock_holder, recompute_lock-LockLaws}
use pg_analytics_service.Api.{
  Servers, PostgresServer, Machine, Settings, cache_of, lock_of, recompute_service,
}

pub version_key-is_lock_key : (slug : Text) → is_lock_key (version_key slug) ≡ false
unfolding is_lock_key version_key has_prefix codes
version_key-is_lock_key slug = refl

module _ {R E : Type 0} (client : RedisClient R) (value : R → Text → Option Text) where
  -- The token under a key of a lock.
  abbrev pub holder_by : Servers R E → Text → Option Text
  holder_by s k = if is_lock_key k then value s.redis k else none

  abbrev bumped_holder :
      Text → Servers R E → Text → Option (ReportCache (Servers R E)) → Option Text
  bumped_holder slug s k none = none
  bumped_holder slug s k (some c) = holder_by (c.bump_version slug s).1 k

  module _
      (incr_others : (k : Text) (s : R) (j : Text)
        → (k =ₜ j) ≡ false
        → value (client.incr k s).1 j ≡ value s j) where
    bump_version-keeps :
        (slug : Text) (s : Servers R E) (k : Text)
        → holder_by ((cache_of client).bump_version slug s).1 k ≡ holder_by s k
    unfolding bump_version
    bump_version-keeps slug s k = elim (Bool-cases (version_key slug =ₜ k)) [
      | inl same ↦ rw (← eq_of_=ₜ (version_key slug) k same) (rw (version_key-is_lock_key slug))
      | inr other ↦ rw (incr_others (version_key slug) s.redis k other)
    ]

    pub Frames_by :
        (server : PostgresServer) (machine : Machine E) (settings : Settings)
        → Frames (recompute_service server client machine settings) holder_by
    Frames_by server machine settings = record {
      get_report_definition = λ slug s k. refl;
      recompute_report = λ request run_id s k. refl;
      create_run = λ request status s k. refl;
      mark_run_running = λ run_id s k. refl;
      mark_run_completed = λ run_id summary s k. refl;
      mark_run_failed = λ run_id message s k. refl;
      create_entry = λ entry s k. refl;
      bump_version =
          λ c slug same s k. ap (bumped_holder slug s k) (sym same) ∙ bump_version-keeps slug s k;
      new_uuid = λ s k. refl;
    }

module _ {R E : Type 0} (client : RedisClient R) (laws : ClientLaws client) where
  -- The token of a lock, in Redis.
  abbrev pub holder_in : Servers R E → Text → Option Text
  holder_in s k = lock_holder client laws s.redis k

  -- The lock in Redis, seen from the process.
  pub lock_of-LockLaws : LockLaws (lock_of {R = R} {E = E} client) holder_in
  lock_of-LockLaws =
      let redis = recompute_lock-LockLaws client laws in
      record {
        acquire_free = λ k token ttl s. redis.acquire_free k token ttl s.redis;
        acquire_takes = λ k token ttl s. redis.acquire_takes k token ttl s.redis;
        acquire_held = λ k token ttl s. redis.acquire_held k token ttl s.redis;
        acquire_held_keeps = λ k token ttl s. redis.acquire_held_keeps k token ttl s.redis;
        release_frees = λ k token s. redis.release_frees k token s.redis;
      }

  -- Whatever Postgres makes of its calls, and though the versions of the cache and the locks share one
  -- key space: in the process that `main` builds, neither a call to Postgres nor a new UUID nor a
  -- `BumpVersion` changes who holds a lock.
  pub recompute_service-Frames :
      (server : PostgresServer) (machine : Machine E) (settings : Settings)
      → Frames (recompute_service server client machine settings) holder_in
  recompute_service-Frames server machine settings =
      Frames_by client laws.value laws.incr_others server machine settings
