-- ===== src/Api.antt =====
-- cmd/api/main.go: the services over one Postgres and one Redis. The state of the two servers stands
-- side by side, with a source of randomness and the clock of the process.
pub mod Locks
pub mod Exclusion
pub mod Freshness
pub mod Traffic
pub mod ReportLocks
pub mod Rows
pub mod Tracking
pub mod Progress
pub mod Auditing
pub mod Drain
pub mod Liveness
use pg_analytics_service.Prelude.{ℕ, ◌≡◌, Bool, Option, none, some, if◌then◌else◌, Text, ℤ}
use pg_analytics_service.Domain.Models.{Time, ReportResult}
use pg_analytics_service.Effects.{Result, Action}
use pg_analytics_service.Application.Ports.{
  ReportRepository, RecomputeRunRepository, AuditRepository, ReportCache, RecomputeLock,
  CacheParams, HealthStore, Host,
}
use pg_analytics_service.Application.ReportService.{ReportService}
use pg_analytics_service.Application.RecomputeService.{RecomputeService}
use pg_analytics_service.Postgres.Database.{World, Driver, ping_db}
use pg_analytics_service.Postgres.Snapshots.{DateTrunc}
use pg_analytics_service.Postgres.Recompute
use pg_analytics_service.Postgres.Runs
use pg_analytics_service.Postgres.Reports
use pg_analytics_service.Postgres.Definitions
use pg_analytics_service.Postgres.Audits
use pg_analytics_service.Redis
use pg_analytics_service.Redis.Client.{RedisClient}

pub record Servers (R E : Type 0) : Type 0 where
  pub postgres : World
  pub redis : R
  pub entropy : E

-- What the Postgres server computes with: its calls' verdicts, `date_trunc`, its order of texts, `ILIKE`.
pub record PostgresServer : Type 0 where
  pub driver : Driver
  pub trunc : DateTrunc
  pub collate : Text → Text → Bool
  pub ilike : Text → Text → Bool

-- The process: the clock and the random UUIDs of the machine, JSON and SHA-256.
pub record Machine (E : Type 0) : Type 0 where
  pub now : E → Time × E
  pub new_uuid : E → Text × E
  pub marshal_params : CacheParams → Result Text
  pub marshal_result : ReportResult → Result Text
  pub unmarshal_result : Text → Result ReportResult
  pub sha256_hex : Text → Text

-- What `main` takes from the configuration for the services.
pub record Settings : Type 0 where
  pub max_report_range_days : ℤ
  pub recompute_lock_ttl : ℕ
  pub recompute_queue_size : ℕ

module _ {R E : Type 0} where
  abbrev pub on_postgres {ℓ} : {A : Type ℓ} → Action World A → Action (Servers R E) A
  on_postgres m s = ((m s.postgres).0, record s { postgres = (m s.postgres).1 })

  abbrev pub on_redis {ℓ} : {A : Type ℓ} → Action R A → Action (Servers R E) A
  on_redis m s = ((m s.redis).0, record s { redis = (m s.redis).1 })

  abbrev pub host_of : Machine E → Host (Servers R E)
  host_of machine = record {
    now = λ s. ((machine.now s.entropy).0, record s { entropy = (machine.now s.entropy).1 });
    new_uuid = λ s.
        ((machine.new_uuid s.entropy).0, record s { entropy = (machine.new_uuid s.entropy).1 });
    marshal_params = machine.marshal_params;
    marshal_result = machine.marshal_result;
    unmarshal_result = machine.unmarshal_result;
    sha256_hex = machine.sha256_hex;
  }

  -- `store`, as the three interfaces that it implements.
  module _ (server : PostgresServer) where
    open server use {driver, trunc, collate, ilike}

    abbrev pub report_repository : ReportRepository (Servers R E)
    report_repository = record {
      list_report_definitions =
          λ filter. on_postgres (Definitions.list_report_definitions driver collate ilike filter);
      get_report_definition = λ slug. on_postgres (Definitions.get_report_definition driver slug);
      run_volume_report = λ params. on_postgres (Reports.run_volume_report driver collate params);
      run_status_counts_report =
          λ params. on_postgres (Reports.run_status_counts_report driver collate params);
      run_top_entities_report =
          λ params. on_postgres (Reports.run_top_entities_report driver collate params);
      recompute_report =
          λ request run_id. on_postgres (Recompute.recompute_report driver trunc request run_id);
    }

    abbrev pub run_repository : RecomputeRunRepository (Servers R E)
    run_repository = record {
      create_run = λ request status. on_postgres (Runs.create_run driver request status);
      get_run = λ id. on_postgres (Runs.get_run driver id);
      mark_run_running = λ id. on_postgres (Runs.mark_run_running driver id);
      mark_run_completed = λ id summary. on_postgres (Runs.mark_run_completed driver id summary);
      mark_run_failed = λ id message. on_postgres (Runs.mark_run_failed driver id message);
    }

    abbrev pub audit_repository : AuditRepository (Servers R E)
    audit_repository = record {
      create_entry = λ entry. on_postgres (Audits.create_entry driver entry);
      list_entries = λ filter. on_postgres (Audits.select_entries driver filter);
    }

  -- `redis`, as the two interfaces that it implements.
  module _ (client : RedisClient R) where
    abbrev pub cache_of : ReportCache (Servers R E)
    cache_of = record {
      get = λ key. on_redis (Redis.get client key);
      set = λ key value ttl. on_redis (Redis.set client key value ttl);
      get_version = λ slug. on_redis (Redis.get_version client slug);
      bump_version = λ slug. on_redis (Redis.bump_version client slug);
    }

    abbrev pub lock_of : RecomputeLock (Servers R E)
    lock_of = record {
      try_acquire = λ key token ttl. on_redis (Redis.try_acquire client key token ttl);
      release = λ key token. on_redis (Redis.release client key token);
    }

  -- `healthDependencies`.
  abbrev pub health_store : PostgresServer → RedisClient R → HealthStore (Servers R E)
  health_store server client = record {
    ping_db = on_postgres (ping_db server.driver);
    ping_cache = on_redis (Redis.ping_cache client);
  }

  module _ (server : PostgresServer) (client : RedisClient R) (machine : Machine E)
      (settings : Settings) where
    -- `application.NewReportService(store, redis, …)`.
    abbrev pub report_service : ReportService (Servers R E)
    report_service = record {
      repo = report_repository server;
      cache = some (cache_of client);
      host = host_of machine;
      max_range_days = settings.max_report_range_days;
    }

    -- `application.NewRecomputeService(store, store, store, redis, redis, …)`.
    abbrev pub recompute_service : RecomputeService (Servers R E)
    recompute_service = record {
      reports = report_repository server;
      runs = run_repository server;
      audits = audit_repository server;
      locks = lock_of client;
      cache = some (cache_of client);
      host = host_of machine;
      max_range_days = settings.max_report_range_days;
      lock_ttl = settings.recompute_lock_ttl;
      queue_size = settings.recompute_queue_size;
    }
