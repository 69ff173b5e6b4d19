-- ===== src/Tests/Seeds.antt =====
-- `Seed`, and the start of the API, on tables without events.
use pg_analytics_service.Prelude.{
  none, ◌%◌, ◌≡◌, refl, false, List, [], ◌∷◌, ◌++◌, map, length, ◌==◌, if◌then◌else◌, Text, codes,
  arith, keep, any, eq_of_=ₜ, ◌=ₜ◌,
}
use pg_analytics_service.Domain.Errors.{plain}
use pg_analytics_service.Domain.Models.{window_day, run_status_completed}
use pg_analytics_service.Domain.Numbers.{decimal, decimal-injective}
use pg_analytics_service.Effects.{Result, ok, err}
use pg_analytics_service.Config.{Config, Parsers, IsUsable, read_config, load}
use pg_analytics_service.Commands.{Server, start_api}
use pg_analytics_service.Commands.Startup.{AreMigrated, start_api-ready}
use pg_analytics_service.Postgres.Migrator.{DirEntry, Migrations, migrate_up}
use pg_analytics_service.Redis.{new_store}
use pg_analytics_service.Postgres.Database.{RunRow, Database, World, Driver, runs, refused}
use pg_analytics_service.Postgres.Seeder.{
  max_id, id_of_slug, source_map, source_id_of, demo_size, seed_error, seed_scopes, seed,
}
use pg_analytics_service.Postgres.Seeder.Complete.{run_scope, seed-completes}
use pg_analytics_service.Postgres.Seeder.Skip.{HasSources, seed_after_failure}
use pg_analytics_service.Tests.Databases.{up, utc, utc-TruncLaws, tables, noon}

-- Every id is new.
abbrev counting : Driver
counting = record { verdict = λ n. runs; random_uuid = decimal; read_uuid = ok }

-- The third call is refused.
abbrev third : Driver
third = record {
  verdict = λ n. if n == 2 then refused (plain (codes "timeout")) else runs;
  random_uuid = decimal;
  read_uuid = ok;
}

abbrev fresh : World
fresh = record {
  db = record tables {
    sources =
        record { id = 1; slug = codes "stripe" }
        ∷ record { id = 2; slug = codes "adyen" }
        ∷ record { id = 3; slug = codes "paypal" }
        ∷ [];
    events = [];
  };
  now = noon 885560;
  calls = 0;
}

fresh-HasSources : (driver : Driver) → HasSources driver utc (source_map fresh.db.sources)
unfolding source_map source_id_of codes ◌=ₜ◌ keep max_id id_of_slug
fresh-HasSources driver gs = (if gs % 3 == 0 then 1 else if gs % 3 == 1 then 2 else 3, ground arith)

abbrev failed : Result (Unit {0}) × World
failed = seed third utc false (noon 885560) (noon 885560) fresh

abbrev retried : Result (Unit {0}) × World
retried = seed third utc false (noon 885561) (noon 885561) failed.1

seed_after_failure_example :
    (failed.0
      ≡ err (
          seed_error
            (codes "failed to create seed run for ")
            (codes "volume-by-period")
            window_day
            (plain (codes "timeout"))))
    × (length failed.1.db.events ≡ demo_size)
    × (retried.0 ≡ ok tt)
    × (retried.1.db ≡ failed.1.db)
    × (retried.1.db.snapshots ≡ fresh.db.snapshots)
    × (retried.1.db.runs ≡ fresh.db.runs)
seed_after_failure_example =
    seed_after_failure third utc (noon 885560) (noon 885560) (noon 885561) (noon 885561) fresh
      (plain (codes "timeout")) (fresh-HasSources third) refl refl refl refl refl

seed-completes_example :
    ((seed counting utc false (noon 885560) (noon 885560) fresh).0 ≡ ok tt)
    × ((rows : List RunRow) × ((seed counting utc false (noon 885560) (noon 885560) fresh).1.db.runs
          ≡ [] ++ rows)
        × (map (run_scope counting utc (λ n. refl) utc-TruncLaws) rows
            ≡ map (λ s. (s.0, s.1, run_status_completed)) seed_scopes))
unfolding any
seed-completes_example =
    seed-completes counting utc (λ n. refl) utc-TruncLaws (noon 885560) (noon 885560) fresh
      (λ m n e. decimal-injective m n (eq_of_=ₜ (decimal m) (decimal n) e)) (λ n le. refl)
      (fresh-HasSources counting) refl

abbrev parsers : Parsers
parsers = record { parse_bool = λ value. none; parse_duration = λ value. none }

abbrev getenv : Text → Text
getenv key =
    if key =ₜ codes "DATABASE_URL"
    then codes "postgres://db"
    else if key =ₜ codes "REDIS_URL"
    then codes "redis://cache"
    else []

abbrev listing : List DirEntry
listing =
    record { name = codes "2.sql"; is_dir = false }
    ∷ record { name = codes "1.sql"; is_dir = false }
    ∷ []

abbrev migrations : Migrations Database
migrations = record { read_dir = ok listing; read_file = λ name. ok name; exec = λ sql db. ok db }

abbrev started : Result (Config × Text) × Server
started =
    start_api parsers getenv (λ url. ok tt) up utc (noon 885560) (noon 885560) (λ url. ok url)
      migrations (record { world = fresh; versions = [] })

is_ready : started ≡ (ok (read_config parsers getenv, codes "redis://cache"), started.1)
unfolding start_api load ◌=ₜ◌ codes new_store migrate_up keep any
is_ready = refl

start_api-ready_example :
    (read_config parsers getenv ≡ read_config parsers getenv)
    × IsUsable (read_config parsers getenv)
    × AreMigrated migrations (read_config parsers getenv) [] started.1.versions
start_api-ready_example =
    start_api-ready parsers getenv (λ url. ok tt) up utc (noon 885560) (noon 885560) migrations
      (λ url. ok url) (codes "redis://cache") (read_config parsers getenv)
      (record { world = fresh; versions = [] }) started.1 is_ready
