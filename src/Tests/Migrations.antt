-- ===== src/Tests/Migrations.antt =====
-- Two migrations that add their numbers, in a directory that lists the second first.
use pg_analytics_service.Prelude.{
  ℕ, ◌≡◌, refl, ◌+◌, true, false, List, [], ◌∷◌, codes, ◌=ₜ◌, any, keep,
}
use pg_analytics_service.Effects.{ok}
use pg_analytics_service.Postgres.Migrator.{
  Connection, DirEntry, Migrations, leb_text, insert_sorted, sort_names, has_sql_ext,
  migration_names, is_applied, call, ensure_migrations_table, query_applied, commit_migration,
  record_version, run_transaction, with_file, apply_unless, apply_file, apply_files,
  list_migration_files, migrate_up,
}
use pg_analytics_service.Postgres.Migrator.Prefix.{Outcome, migrate_up-Outcome, migrate_up_again}
use pg_analytics_service.Tests.Databases.{up, refusing}

abbrev listing : List DirEntry
listing =
    record { name = codes "2.sql"; is_dir = false }
    ∷ record { name = codes "1.sql"; is_dir = false }
    ∷ record { name = codes "old"; is_dir = true }
    ∷ []

abbrev migrations : Migrations ℕ
migrations = record {
  read_dir = ok listing;
  read_file = λ name. ok name;
  exec = λ sql tables. ok (tables + 1);
}

abbrev start : Connection ℕ
start = record { schema = record { tables = 0; versions = [] }; calls = 0 }

migrate_up-Outcome_example :
    Outcome migrations
      (sort_names (migration_names listing))
      start.schema
      (migrate_up refusing migrations start)
migrate_up-Outcome_example = migrate_up-Outcome migrations refusing listing start refl

migrate_up_again_example :
    ((migrate_up up migrations (migrate_up up migrations start).1).0 ≡ ok tt)
    × ((migrate_up up migrations (migrate_up up migrations start).1).1.schema
        ≡ (migrate_up up migrations start).1.schema)
unfolding migrate_up ensure_migrations_table call list_migration_files migration_names keep
    has_sql_ext sort_names insert_sorted leb_text codes ◌=ₜ◌ apply_files apply_file query_applied
    is_applied any apply_unless with_file run_transaction record_version commit_migration
migrate_up_again_example = migrate_up_again migrations up (λ n. refl) listing start refl refl
