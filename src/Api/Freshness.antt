-- ===== src/Api/Freshness.antt =====
-- The reports of the process that `main` builds, after a recomputation moved the version.
use pg_analytics_service.Prelude.{
  ℕ, ◌≡◌, ◌<◌, ◌∙◌, refl, sym, ap, true, Bool-cases, inl, inr, [], ◌∷◌, Text, codes, ◌=ₜ◌, eq_of_=ₜ,
  length, pos, arith,
}
use pg_analytics_service.Domain.Models.{ReportRunParams}
use pg_analytics_service.Domain.Numbers.{max_int64}
use pg_analytics_service.Domain.Models.{RecomputeSummary}
use pg_analytics_service.Strings.{has_prefix}
use pg_analytics_service.Application.LockLaws.{lock_prefix, is_lock_key}
use pg_analytics_service.Application.RecomputeService.{
  RecomputeJob, process_job, run_job, finish, bump_cache,
}
use pg_analytics_service.Redis.Laws.{release_frees}
use pg_analytics_service.Redis.{release}
use pg_analytics_service.Effects.{Result, Action, ok}
use pg_analytics_service.Application.ReportService.{run_report, key_text}
use pg_analytics_service.Application.ReportService.Reads.{without}
use pg_analytics_service.Application.ReportService.Misses.{run_report-misses}
use pg_analytics_service.Redis.{get, get_version, bump_version}
use pg_analytics_service.Redis.Client.{RedisClient, ClientLaws}
use pg_analytics_service.Redis.Versions.{is_plain, System, Reach, At}
use pg_analytics_service.Redis.Freshness.{IsFresh, bump_version_hides}
use pg_analytics_service.Api.{
  Servers, on_redis, PostgresServer, Machine, Settings, cache_of, report_service, recompute_service,
}

both_prefixes : (k : Text) → is_lock_key k ≡ true → has_prefix k (codes "report:") ≡ true → ⊥
unfolding is_lock_key lock_prefix has_prefix codes
both_prefixes [] is_key is_report = cc is_key
both_prefixes (a ∷ []) is_key is_report = ground arith
both_prefixes (a ∷ b ∷ []) is_key is_report = ground arith
both_prefixes (a ∷ b ∷ c ∷ k) is_key is_report = ground arith

-- A call to Redis that changes nothing there changes nothing.
on_redis-same :
    {R E A : Type 0} (m : Action R A) (r : Result A) (s : Servers R E)
    → m s.redis ≡ (r, s.redis)
    → on_redis {R = R} {E = E} m s ≡ (r, s)
on_redis-same m r s e = ap (λ p. (p.0, record s { redis = p.1 })) e

-- A Redis server that answers and lets no key expire, and a report whose slug is neither `version` nor
-- begins with `version:`. From a Redis without report keys and after any order of the calls to the
-- cache: after a `BumpVersion` of the report, as long as no key that begins with `report:` is touched,
-- and whatever Postgres holds and answers, `RunReport` returns what it would return without a cache.
-- SHA-256 digests have 64 characters, and the counter is below the largest `int64`.
pub bumped_report_rereads :
    {R E : Type 0} (server : PostgresServer) (client : RedisClient R) (laws : ClientLaws client)
    (machine : Machine E) (settings : Settings) (slug : Text) (plain : is_plain slug ≡ true)
    (params : ReportRunParams) (before after : System R) (s : Servers R E)
    → ((blob : Text) → length (machine.sha256_hex blob) ≡ 64)
    → IsFresh client laws before
    → Reach client laws before after
    → ((n : ℕ) → At client laws after.redis slug n → n < max_int64)
    → ((k : Text)
        → has_prefix k (codes "report:") ≡ true
        → laws.value s.redis k ≡ laws.value (bump_version client slug after.redis).1 k)
    → (run_report (report_service server client machine settings) slug params s).0
      ≡ (run_report
          (without (report_service server client machine settings) slug params)
          slug
          params
          s).0
bumped_report_rereads server client laws machine settings slug plain params before after s long
      fresh reach small same =
    let (v, version, misses) =
      bump_version_hides client laws slug plain before after s.redis fresh reach small same in
    let looked_up =
      ((report_service server client machine settings).repo.get_report_definition slug s).1 in
    run_report-misses (report_service server client machine settings) (cache_of client) refl slug
      params long v s
      (
        on_redis-same (get_version client slug) _ looked_up version,
        λ digest l.
            on_redis-same (get client (key_text slug (pos v) digest)) _ looked_up (misses digest l),
      )

module _ {R E : Type 0} (server : PostgresServer) (client : RedisClient R)
    (laws : ClientLaws client) (machine : Machine E) (settings : Settings) where
  -- A release touches no key of a report.
  release_apart :
      (key token : Text) (s : R) (k : Text)
      → is_lock_key key ≡ true
      → has_prefix k (codes "report:") ≡ true
      → laws.value (release client key token s).1 k ≡ laws.value s k
  release_apart key token s k is_key is_report = elim (Bool-cases (key =ₜ k)) [
    | inl same ↦ absurd (both_prefixes key is_key (rw (eq_of_=ₜ key k same) is_report))
    | inr other ↦ release_frees client laws key token s k ∙ rw other
  ]

  -- What Redis holds after a job that was rebuilt.
  process_job-redis :
      (job : RecomputeJob) (summary : RecomputeSummary) (s s1 s2 : Servers R E)
      → (recompute_service server client machine settings).runs.mark_run_running job.run_id s
        ≡ (ok tt, s1)
      → (recompute_service server client machine settings).reports.recompute_report job.request
          job.run_id s1
        ≡ (ok summary, s2)
      → (process_job (recompute_service server client machine settings) job s).1.redis
        ≡ (release client job.lock_key job.lock_token
            (bump_version client job.request.report_slug s.redis).1).1
  unfolding process_job run_job finish bump_cache
  process_job-redis job summary s s1 s2 marked rebuilt =
      let service = recompute_service server client machine settings in
      let same : s2.redis ≡ s.redis =
        sym (ap (λ r. r.1.redis) marked ∙ ap (λ r. r.1.redis) rebuilt) in
      ap (λ r. (run_job service job r.0 r.1).1.redis) marked
      ∙ (ap (λ r. (finish service job r.0 r.1).1.redis) rebuilt
          ∙ ap
              (λ r.
                (release client job.lock_key job.lock_token
                  (bump_version client job.request.report_slug r).1).1)
              same)

  -- A Redis server that answers and lets no key expire, a job whose slug is neither `version` nor begins
  -- with `version:`, and a Redis that any order of the calls to the cache has led to from no report
  -- keys: once a worker has rebuilt the report, and though it failed to mark the run as completed or to
  -- write its audit entry, the next `RunReport` of the report, with any parameters, returns what it
  -- would return without a cache. SHA-256 digests have 64 characters, and the counter is below the
  -- largest `int64`.
  pub rebuilt_report_rereads :
      (job : RecomputeJob) (summary : RecomputeSummary) (params : ReportRunParams)
      (before after : System R) (s s1 s2 : Servers R E)
      (plain : is_plain job.request.report_slug ≡ true)
      → ((blob : Text) → length (machine.sha256_hex blob) ≡ 64)
      → IsFresh client laws before
      → Reach client laws before after
      → ((n : ℕ) → At client laws after.redis job.request.report_slug n → n < max_int64)
      → s.redis ≡ after.redis
      → is_lock_key job.lock_key ≡ true
      → (recompute_service server client machine settings).runs.mark_run_running job.run_id s
        ≡ (ok tt, s1)
      → (recompute_service server client machine settings).reports.recompute_report job.request
          job.run_id s1
        ≡ (ok summary, s2)
      → (run_report
          (report_service server client machine settings)
          job.request.report_slug
          params
          (process_job (recompute_service server client machine settings) job s).1).0
        ≡ (run_report
            (without (report_service server client machine settings) job.request.report_slug params)
            job.request.report_slug
            params
            (process_job (recompute_service server client machine settings) job s).1).0
  rebuilt_report_rereads job summary params before after s s1 s2 plain long fresh reach small
        same_redis is_key marked rebuilt =
      bumped_report_rereads server client laws machine settings job.request.report_slug plain params
        before after _ long fresh reach small
        (λ k is_report.
          ap (λ r. laws.value r k) (process_job-redis job summary s s1 s2 marked rebuilt)
          ∙ (release_apart job.lock_key job.lock_token
                (bump_version client job.request.report_slug s.redis).1 k is_key is_report
              ∙ ap (λ r. laws.value (bump_version client job.request.report_slug r).1 k)
                  same_redis))
