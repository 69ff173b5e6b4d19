-- ===== src/Api/ReportLocks.antt =====
-- A run of a report in the process that `main` builds touches no lock.
use pg_analytics_service.Prelude.{
  ℕ, ◌≡◌, refl, ◌∙◌, inl, inr, false, Bool-cases, some, Text, codes, ◌=ₜ◌, eq_of_=ₜ, ℤ, arith,
}
use pg_analytics_service.Domain.Models.{ReportRunParams, ReportResult}
use pg_analytics_service.Strings.{has_prefix}
use pg_analytics_service.Effects.{settled}
use pg_analytics_service.Application.LockLaws.{is_lock_key}
use pg_analytics_service.Application.ReportService.{
  run_report, store_cached_result, cache_key, normalized, key_text,
}
use pg_analytics_service.Application.ReportService.Calls.{run_report-Along}
use pg_analytics_service.Application.RecomputeService.System.{Result-cases}
use pg_analytics_service.Redis.{version_key, set, get_version}
use pg_analytics_service.Redis.Client.{RedisClient, ClientLaws}
use pg_analytics_service.Redis.Laws.{get_entry}
use pg_analytics_service.Redis.Advances.{get_version_others}
use pg_analytics_service.Api.{Servers, PostgresServer, Machine, Settings, cache_of, report_service}
use pg_analytics_service.Api.Locks.{holder_by, version_key-is_lock_key}

key_text-is_lock_key : (slug digest : Text) (v : ℤ) → is_lock_key (key_text slug v digest) ≡ false
unfolding is_lock_key key_text has_prefix codes
key_text-is_lock_key slug digest v = refl

module _ {R E : Type 0} (server : PostgresServer) (client : RedisClient R)
    (laws : ClientLaws client) (machine : Machine E) (settings : Settings) (slug : Text)
    (params : ReportRunParams) where
  -- The holders of the locks are the same.
  abbrev SameLocks : Servers R E → Servers R E → Type 0
  SameLocks s t = (k : Text) → holder_by client laws.value t k ≡ holder_by client laws.value s k

  version-SameLocks : (s : Servers R E) → SameLocks s ((cache_of client).get_version slug s).1
  version-SameLocks s k = elim (Bool-cases (version_key slug =ₜ k)) [
    | inl same ↦ rw (← eq_of_=ₜ (version_key slug) k same) (rw (version_key-is_lock_key slug))
    | inr other ↦ rw (get_version_others client laws slug s.redis k other)
  ]

  set-SameLocks :
      (key value : Text) (ttl : ℕ) (s : Servers R E)
      → is_lock_key key ≡ false
      → SameLocks s ((cache_of client).set key value ttl s).1
  unfolding set
  set-SameLocks key value ttl s other k =
      ground (arith, laws.set_value key value ttl s.redis k, eq_of_=ₜ key k)

  get-SameLocks : (key : Text) (s : Servers R E) → SameLocks s ((cache_of client).get key s).1
  get-SameLocks key s k = rw (get_entry client laws key s.redis)

  store-SameLocks :
      (result : ReportResult) (ttl : ℕ) (s : Servers R E)
      → SameLocks s
          (store_cached_result
            (report_service server client machine settings)
            (some (cache_of client))
            slug
            params
            result
            ttl
            s).1
  unfolding store_cached_result cache_key
  store-SameLocks result ttl s k = elim (Result-cases (get_version client slug s.redis).0) [
    | inr (x, e) ↦ rw (settled (get_version client slug s.redis) e) (version-SameLocks s k)
    | inl (v, e) ↦ elim (Result-cases (machine.marshal_params (normalized params))) [
      | inr (x, f) ↦ rw (settled (get_version client slug s.redis) e) (rw f (version-SameLocks s k))
      | inl (blob, f) ↦ elim (Result-cases (machine.marshal_result result)) [
        | inr (x, g) ↦
            rw (settled (get_version client slug s.redis) e) (rw f (rw g (version-SameLocks s k)))
        | inl (payload, g) ↦ rw (settled (get_version client slug s.redis) e) (
            rw f (
              rw g (
                set-SameLocks (key_text slug v (machine.sha256_hex blob)) payload ttl
                  ((cache_of client).get_version slug s).1
                  (key_text-is_lock_key slug (machine.sha256_hex blob) v) k
                ∙ version-SameLocks s k)))
      ]
    ]
  ]

  -- A Redis server that answers and lets no key expire: a run of any report, whatever Postgres answers,
  -- leaves every lock with its holder, though cache entries and locks share one key space.
  pub run_report-holder_by :
      (s : Servers R E) (k : Text)
      → holder_by client laws.value
          (run_report (report_service server client machine settings) slug params s).1
          k
        ≡ holder_by client laws.value s k
  run_report-holder_by =
      run_report-Along SameLocks (λ s k. refl) (λ s t u f g k. g k ∙ f k)
        (report_service server client machine settings) (cache_of client) refl slug params
        (record {
          definition = λ s k. refl;
          volume = λ s k. refl;
          status_counts = λ s k. refl;
          top_entities = λ s k. refl;
          now = λ s k. refl;
          version = version-SameLocks;
          get = get-SameLocks;
          store = store-SameLocks;
        })
