-- ===== src/Api/Traffic.antt =====
-- The calls to the cache of a run of a report in the process that `main` builds.
use pg_analytics_service.Prelude.{
  ℕ, ◌≡◌, refl, ap, ◌∙◌, inl, inr, ◌∷◌, ◌++◌, true, false, Bool-cases, List, [], some, length, Text,
  ◌=ₜ◌, eq_of_=ₜ, pos,
}
use pg_analytics_service.Domain.Models.{ReportRunParams, ReportResult}
use pg_analytics_service.Effects.{ok, settled}
use pg_analytics_service.Application.ReportService.{
  run_report, store_cached_result, cache_key, normalized, key_text,
}
use pg_analytics_service.Application.ReportService.Calls.{run_report-Along}
use pg_analytics_service.Application.RecomputeService.System.{Result-cases}
use pg_analytics_service.Redis.{version_key, set, get_version}
use pg_analytics_service.Redis.Client.{RedisClient, ClientLaws}
use pg_analytics_service.Redis.Laws.{get_entry}
use pg_analytics_service.Redis.Versions.{
  is_plain, key_text-version_key, System, Reach, here, next, reads, stores, noted, At, At-same,
}
use pg_analytics_service.Redis.Advances.{get_version_At}
use pg_analytics_service.Api.{Servers, PostgresServer, Machine, Settings, cache_of, report_service}

-- The calls to the cache that a run of a report may make for its slug: `GetVersion`, whose result it
-- notes, `Get`, which changes nothing and is left out, and `Set` of an entry under a noted version.
pub data CacheCalls {R : Type 0} (client : RedisClient R) (slug : Text) (s : System R)
    : System R → Type 0 where
  none_yet : CacheCalls client slug s s
  then_reads :
      {t : System R}
      → CacheCalls client slug s t
      → CacheCalls client slug s (record {
        redis = (get_version client slug t.redis).1;
        read = noted slug (get_version client slug t.redis).0 t.read;
      })
  then_stores :
      {t : System R} (m : ℕ) (digest payload : Text) (ttl : ℕ) (before after : List (Text × ℕ))
      → CacheCalls client slug s t
      → length digest ≡ 64
      → t.read ≡ before ++ (slug, m) ∷ after
      → CacheCalls client slug s
          (record t { redis = (set client (key_text slug (pos m) digest) payload ttl t.redis).1 })

CacheCalls-append :
    {R : Type 0} (client : RedisClient R) (slug : Text) {s t u : System R}
    → CacheCalls client slug s t
    → CacheCalls client slug t u
    → CacheCalls client slug s u
CacheCalls-append client slug r none_yet = r
CacheCalls-append client slug r (then_reads q) = then_reads (CacheCalls-append client slug r q)
CacheCalls-append client slug r (then_stores m digest payload ttl before after q long known) =
    then_stores m digest payload ttl before after (CacheCalls-append client slug r q) long known

-- They are among the calls that `Freshness` allows.
pub CacheCalls-Reach :
    {R : Type 0} (client : RedisClient R) (laws : ClientLaws client) (slug : Text)
    → is_plain slug ≡ true
    → {s t : System R} → CacheCalls client slug s t
    → Reach client laws s t
CacheCalls-Reach client laws slug plain none_yet = here
CacheCalls-Reach client laws slug plain (then_reads {t} q) =
    next (CacheCalls-Reach client laws slug plain q) (reads slug t)
CacheCalls-Reach client laws slug plain
      (then_stores {t} m digest payload ttl before after q long known) =
    next (CacheCalls-Reach client laws slug plain q)
      (stores slug m digest payload ttl before after t plain long known)

module _ {R E : Type 0} (server : PostgresServer) (client : RedisClient R)
    (laws : ClientLaws client) (machine : Machine E) (settings : Settings) (slug : Text)
    (plain : is_plain slug ≡ true) (params : ReportRunParams)
    (long : (blob : Text) → length (machine.sha256_hex blob) ≡ 64) where
  -- From one state of the servers to another by calls to the cache, whose versions the caller notes.
  abbrev Went : List (Text × ℕ) → Servers R E → Servers R E → Type 0
  Went read s t =
      (more : List (Text × ℕ)) × (k : ℕ) × CacheCalls client slug
        (record { redis = s.redis; read = read }) (record { redis = t.redis; read = more })
      × At client laws t.redis slug k

  abbrev Calls : Servers R E → Servers R E → Type 0
  Calls s t = (read : List (Text × ℕ)) (n : ℕ) → At client laws s.redis slug n → Went read s t

  stay : (s : Servers R E) → Calls s s
  stay s read n at = (read, n, none_yet, at)

  then_go : (s t u : Servers R E) → Calls s t → Calls t u → Calls s u
  then_go s t u f g read n at =
      let (more, k, r, at1) = f read n at in
      let (rest, j, q, at2) = g more k at1 in (rest, j, CacheCalls-append client slug r q, at2)

  version-Calls : (s : Servers R E) → Calls s ((cache_of client).get_version slug s).1
  version-Calls s read n at =
      let (k, le, at1, result) = get_version_At client laws slug s.redis n at in
      (_, k, then_reads none_yet, at1)

  get-Calls : (key : Text) (s : Servers R E) → Calls s ((cache_of client).get key s).1
  get-Calls key s read n at = rw (get_entry client laws key s.redis) (read, n, none_yet, at)

  -- The write under the version that was just read.
  stored :
      (s : Servers R E) (read : List (Text × ℕ)) (k : ℕ) (blob payload : Text) (ttl : ℕ)
      → (get_version client slug s.redis).0 ≡ ok (pos k)
      → At client laws (get_version client slug s.redis).1 slug k
      → let key : Text = key_text slug (pos k) (machine.sha256_hex blob) in
        (more : List (Text × ℕ)) × (j : ℕ) × CacheCalls client slug
          (record { redis = s.redis; read = read })
          (record {
            redis = (set client key payload ttl (get_version client slug s.redis).1).1;
            read = more;
          })
        × At client laws (set client key payload ttl (get_version client slug s.redis).1).1 slug j
  unfolding set
  stored s read k blob payload ttl result at = (
    _,
    k,
    then_stores k (machine.sha256_hex blob) payload ttl [] read (then_reads none_yet) (long blob)
        (ap (λ r. noted slug r read) result),
    At-same client laws _ _ slug k
        (laws.set_value (key_text slug (pos k) (machine.sha256_hex blob)) payload ttl _
            (version_key slug)
          ∙ rw not_version)
        at,
  )
    where
      not_version : (key_text slug (pos k) (machine.sha256_hex blob) =ₜ version_key slug) ≡ false
      not_version =
          elim (Bool-cases (key_text slug (pos k) (machine.sha256_hex blob) =ₜ version_key slug)) [
            | inl same ↦ absurd (
                key_text-version_key slug slug (machine.sha256_hex blob) k plain
                  (eq_of_=ₜ _ _ same))
            | inr other ↦ other
          ]

  store-Calls :
      (result : ReportResult) (ttl : ℕ) (s : Servers R E)
      → Calls s
          (store_cached_result
            (report_service server client machine settings)
            (some (cache_of client))
            slug
            params
            result
            ttl
            s).1
  unfolding store_cached_result cache_key
  store-Calls result ttl s read n at =
      let (k, le, at1, version) = get_version_At client laws slug s.redis n at in
      elim (Result-cases (machine.marshal_params (normalized params))) [
        | inr (x, e) ↦
            rw (settled (get_version client slug s.redis) version)
              (rw e (version-Calls s read n at))
        | inl (blob, e) ↦ elim (Result-cases (machine.marshal_result result)) [
          | inr (x, f) ↦
              rw (settled (get_version client slug s.redis) version)
                (rw e (rw f (version-Calls s read n at)))
          | inl (payload, f) ↦
              rw (settled (get_version client slug s.redis) version)
                (rw e (rw f (stored s read k blob payload ttl version at1)))
        ]
      ]

  run_report-Calls :
      (s : Servers R E)
      → Calls s (run_report (report_service server client machine settings) slug params s).1
  run_report-Calls =
      run_report-Along Calls stay then_go (report_service server client machine settings)
        (cache_of client) refl slug params
        (record {
          definition = λ s. stay s;
          volume = λ s. stay s;
          status_counts = λ s. stay s;
          top_entities = λ s. stay s;
          now = λ s. stay s;
          version = version-Calls;
          get = get-Calls;
          store = store-Calls;
        })

  -- A Redis server that answers and lets no key expire, and a report whose slug is neither `version`
  -- nor begins with `version:`: whatever Postgres answers, what `RunReport` makes of Redis is what
  -- `GetVersion` calls for its slug make of it, and `Set` calls for entries of its slug under a version
  -- that it read itself in this run; there are no other changes. SHA-256 digests have 64 characters, and
  -- the counter is missing or a number.
  pub run_report-CacheCalls :
      (s : Servers R E) (n : ℕ)
      → At client laws s.redis slug n
      → (more : List (Text × ℕ)) × CacheCalls client slug
          (record { redis = s.redis; read = [] })
          (record {
            redis =
                (run_report (report_service server client machine settings) slug params s).1.redis;
            read = more;
          })
  run_report-CacheCalls s n at =
      let (more, k, calls, later) = run_report-Calls s [] n at in (more, calls)
