-- ===== src/Commands.antt =====
-- The three commands up to the point where they are done or serve requests: cmd/migrate/main.go,
-- cmd/seed/main.go, and the start of cmd/api/main.go. An error is what `main` logs before it exits
-- with status 1. Signals, the HTTP server and its shutdown are left out.
pub mod Startup
use pg_analytics_service.Prelude.{Bool, false, true, List, [], if◌then◌else◌, Text, codes, ◌=ₜ◌}
use pg_analytics_service.Domain.Models.{Time}
use pg_analytics_service.Effects.{Result, ok, err, Action, pure, ◌>>=◌, ◌>>◌}
use pg_analytics_service.Config.{Config, Parsers, parsed_or, load}
use pg_analytics_service.Postgres.Database.{Database, World, Driver}
use pg_analytics_service.Postgres.Migrator.{Schema, Connection, Migrations, migrate_up}
use pg_analytics_service.Postgres.Seeder.{seed}
use pg_analytics_service.Postgres.Snapshots.{DateTrunc}
use pg_analytics_service.Redis.{new_store}

-- The Postgres server, with `schema_migrations`.
pub record Server : Type 0 where
  pub world : World
  pub versions : List Text

abbrev pub connection_of : Server → Connection Database
connection_of s = record {
  schema = record { tables = s.world.db; versions = s.versions };
  calls = s.world.calls;
}

abbrev pub after_migrations : Server → Connection Database → Server
after_migrations s c = record {
  world = record s.world { db = c.schema.tables; calls = c.calls };
  versions = c.schema.versions;
}

abbrev pub on_connection : {A : Type 0} → Action (Connection Database) A → Action Server A
on_connection m s = ((m (connection_of s)).0, after_migrations s (m (connection_of s)).1)

abbrev pub on_server : {A : Type 0} → Action World A → Action Server A
on_server m s = ((m s.world).0, record s { world = (m s.world).1 })

-- `parseBool` of cmd/seed/main.go.
unfoldable pub parse_bool : Parsers → Text → Bool
parse_bool parsers raw = if raw =ₜ [] then false else parsed_or false (parsers.parse_bool raw)

-- The environment, `pgxpool.New` and the Postgres server that the pool reaches.
module _ (parsers : Parsers) (getenv : Text → Text) (new_pool : Text → Result (Unit {0}))
    (driver : Driver) where
  -- `config.Load` and `pgxpool.New`.
  unfoldable pub connect : Action Server Config
  connect = do cfg ← λ s. (load parsers getenv, s); λ s. (new_pool cfg.database_url, s); pure cfg

  module _ (migrations : Migrations Database) where
    unfoldable pub migrate_main : Action Server (Unit {0})
    unfolding connect
    migrate_main = connect >> on_connection (migrate_up driver migrations)

  module _ (trunc : DateTrunc) (from_now to_now : Time) where
    unfoldable pub seed_main : Action Server (Unit {0})
    unfolding connect parse_bool
    seed_main =
        connect
        >> on_server (
            seed driver trunc (parse_bool parsers (getenv (codes "SEED_FORCE_RESET"))) from_now
              to_now)

    -- `if cfg.AutoMigrate { … }` and `if cfg.AutoSeed { … }`.
    unfoldable pub prepare : Migrations Database → Config → Action Server (Unit {0})
    prepare migrations cfg =
        (if cfg.auto_migrate then on_connection (migrate_up driver migrations) else pure tt)
        >> (if cfg.auto_seed then on_server (seed driver trunc false from_now to_now) else pure tt)

    -- What runs before the services are built and started; `O` is what `goredis.ParseURL` yields.
    unfoldable pub start_api :
        {O : Type 0} → (Text → Result O) → Migrations Database → Action Server (Config × O)
    unfolding connect prepare
    start_api parse_url migrations = do
      cfg ← connect
      redis ← λ s. (new_store parse_url cfg.redis_url, s)
      prepare migrations cfg
      pure (cfg, redis)
