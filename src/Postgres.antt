-- ===== src/Postgres.antt =====
-- internal/infrastructure/postgres: the tables, the SQL of the store, the migrator and the seeder.
pub mod Database
pub mod Snapshots
pub mod Buckets
pub mod Recompute
pub mod Runs
pub mod Reports
pub mod Definitions
pub mod Audits
pub mod Migrator
pub mod Seeder
