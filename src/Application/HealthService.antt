-- ===== src/Application/HealthService.antt =====
-- internal/application/health_service.go. The time limit of a second on each ping is one of the
-- errors that the ping may return.
use pg_analytics_service.Prelude.{[], ◌∷◌, Text, codes}
use pg_analytics_service.Domain.Models.{HealthStatus}
use pg_analytics_service.Effects.{Result, ok, err}
use pg_analytics_service.Application.Ports.{HealthStore, Host}

abbrev pub dependency : Result (Unit {0}) → Text
dependency (ok u) = codes "ok"
dependency (err e) = codes "unavailable"

abbrev pub overall : Result (Unit {0}) → Result (Unit {0}) → Text
overall (ok u) (ok v) = codes "ok"
overall (ok u) (err e) = codes "degraded"
overall (err e) r = codes "degraded"

module _ {S : Type 0} (store : HealthStore S) (host : Host S) (version : Text) where
  unfoldable pub check : S → HealthStatus × S
  check s =
      let db = store.ping_db s in
      let cache = store.ping_cache db.1 in
      let clock = host.now cache.1 in
      (
        record {
          status = overall db.0 cache.0;
          service = codes "pg-analytics-service";
          version = version;
          timestamp = clock.0;
          dependencies =
              (codes "postgres", dependency db.0) ∷ (codes "redis", dependency cache.0) ∷ [];
        },
        clock.1,
      )
