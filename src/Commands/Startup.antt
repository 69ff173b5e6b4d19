-- ===== src/Commands/Startup.antt =====
-- What holds once the API is up.
use pg_analytics_service.Prelude.{
  ◌≡◌, refl, ap, sym, ◌∙◌, inl, inr, ◌⊎◌, Bool-cases, Bool, false, true, List, All, if◌then◌else◌,
  Text,
}
use pg_analytics_service.Domain.Models.{Time}
use pg_analytics_service.Effects.{Result, ok, err, Action, pure, continue, settled}
use pg_analytics_service.Config.{Config, Parsers, IsUsable, read_config, load, load_lem}
use pg_analytics_service.Commands.{
  Server, connection_of, on_connection, on_server, connect, prepare, start_api,
}
use pg_analytics_service.Postgres.Database.{Database, Driver}
use pg_analytics_service.Postgres.Migrator.{
  DirEntry, Connection, Migrations, ensure_migrations_table, list_migration_files, is_applied,
  sort_names, migration_names, migrate_up,
}
use pg_analytics_service.Postgres.Migrator.Prefix.{Outcome-Applied, Applied-All, migrate_up-Outcome}
use pg_analytics_service.Postgres.Seeder.{seed}
use pg_analytics_service.Postgres.Snapshots.{DateTrunc}
use pg_analytics_service.Redis.{new_store}

-- A sequence that succeeded: so did its first step.
continue-ok :
    {S A B : Type 0} (f : A → Action S B) (r : Result A × S) (b : B) (s' : S)
    → continue f r ≡ (ok b, s')
    → (a : A) × (s : S) × (r ≡ (ok a, s)) × (f a s ≡ (ok b, s'))
continue-ok f (ok a, s) b s' e = (a, s, refl, e)
continue-ok f (err x, s) b s' e = cc (ap (λ r. r.0) e)

-- What becomes of the migrations before the services start, from the versions recorded before.
abbrev pub AreMigrated : Migrations Database → Config → List Text → List Text → Type 0
AreMigrated migrations cfg before versions =
    ((cfg.auto_migrate ≡ true)
      × ((entries : List DirEntry) × (migrations.read_dir ≡ ok entries)
          × All (λ file. is_applied file versions ≡ true) (sort_names (migration_names entries))))
    ⊎ ((cfg.auto_migrate ≡ false) × (versions ≡ before))

module _ (parsers : Parsers) (getenv : Text → Text) (new_pool : Text → Result (Unit {0}))
    (driver : Driver) (trunc : DateTrunc) (from_now to_now : Time)
    (migrations : Migrations Database) where
  connect-ok :
      (s s' : Server) (cfg : Config)
      → connect parsers getenv new_pool driver s ≡ (ok cfg, s')
      → (load parsers getenv ≡ ok cfg) × (s ≡ s')
  unfolding connect
  connect-ok s s' cfg e =
      let (loaded, s1, e1, e2) = continue-ok _ (load parsers getenv, s) cfg s' e in
      let (u, s2, e3, e4) = continue-ok _ (new_pool loaded.database_url, s1) cfg s' e2 in
      (
        ap (λ r. r.0) e1 ∙ ap (λ r. r.0) e4,
        ap (λ r. r.1) e1 ∙ (ap (λ r. r.1) e3 ∙ ap (λ r. r.1) e4),
      )

  load-IsUsable :
      (cfg : Config)
      → load parsers getenv ≡ ok cfg
      → (cfg ≡ read_config parsers getenv) × IsUsable cfg
  load-IsUsable cfg e = elim (load_lem parsers getenv) [
    | inl (loaded, usable) ↦
        let same : cfg ≡ read_config parsers getenv = cc (e, loaded) in (same, rw same usable)
    | inr (x, refused, u) ↦ cc (e, refused)
  ]

  seeded_versions :
      (b : Bool) (s s' : Server) (u : Unit {0})
      → (if b then on_server (seed driver trunc false from_now to_now) else pure tt) s ≡ (ok u, s')
      → s'.versions ≡ s.versions
  seeded_versions true s s' u e = sym (ap (λ r. r.1.versions) e)
  seeded_versions false s s' u e = sym (ap (λ r. r.1.versions) e)

  migrated :
      (entries : List DirEntry) (s s1 : Server) (u : Unit {0})
      → migrations.read_dir ≡ ok entries
      → on_connection (migrate_up driver migrations) s ≡ (ok u, s1)
      → All (λ file. is_applied file s1.versions ≡ true) (sort_names (migration_names entries))
  migrated entries s s1 u listed e = rw (← ap (λ r. r.1.versions) e) (
      Applied-All migrations (
        Outcome-Applied migrations (migrate_up driver migrations (connection_of s))
          (ap (λ r. r.0) e)
          (migrate_up-Outcome migrations driver entries (connection_of s) listed)))

  listed-files :
      (r : Result (List DirEntry)) (files : List Text)
      → list_migration_files driver migrations r ≡ ok files
      → (entries : List DirEntry) × (r ≡ ok entries)
  unfolding list_migration_files
  listed-files (ok entries) files e = (entries, refl)
  listed-files (err x) files e = cc e

  -- A run of the migrator that succeeded has read its directory.
  migrate_up-listed :
      (c : Connection Database) (u : Unit {0})
      → (migrate_up driver migrations c).0 ≡ ok u
      → (entries : List DirEntry) × (migrations.read_dir ≡ ok entries)
  unfolding migrate_up
  migrate_up-listed c u e =
      let (v, s1, e1, e2) =
        continue-ok _ (ensure_migrations_table driver migrations c) u _
          (settled (migrate_up driver migrations c) e) in
      let (files, s2, e3, e4) =
        continue-ok _ (list_migration_files driver migrations migrations.read_dir, s1) u _ e2 in
      listed-files migrations.read_dir files (ap (λ r. r.0) e3)

  recorded :
      (entries : List DirEntry) (s s1 s' : Server) (u : Unit {0})
      → migrations.read_dir ≡ ok entries
      → on_connection (migrate_up driver migrations) s ≡ (ok u, s1)
      → s'.versions ≡ s1.versions
      → All (λ file. is_applied file s'.versions ≡ true) (sort_names (migration_names entries))
  recorded entries s s1 s' u listed e same = rw same (migrated entries s s1 u listed e)

  prepare-AreMigrated :
      (cfg : Config) (s s' : Server) (u : Unit {0})
      → prepare parsers getenv new_pool driver trunc from_now to_now migrations cfg s ≡ (ok u, s')
      → AreMigrated migrations cfg s.versions s'.versions
  unfolding prepare
  prepare-AreMigrated cfg s s' u e = elim (Bool-cases cfg.auto_migrate) [
    | inl auto ↦
        let (v, s1, e1, e2) =
          continue-ok _ (on_connection (migrate_up driver migrations) s) u s' (rw auto at e) in
        let (entries, listed) = migrate_up-listed (connection_of s) v (ap (λ r. r.0) e1) in
        inl (
          auto,
          (
            entries,
            listed,
            recorded entries s s1 s' v listed e1 (seeded_versions cfg.auto_seed s1 s' u e2),
          ),
        )
    | inr manual ↦ inr (manual, seeded_versions cfg.auto_seed s s' u (rw manual at e))
  ]

  abbrev settings_or : {O : Type 0} → Config → Result (Config × O) → Config
  settings_or cfg (ok r) = r.0
  settings_or cfg (err e) = cfg

  AreMigrated-same :
      (c cfg : Config) (s s2 s3 s' : Server)
      → c ≡ cfg
      → s ≡ s2
      → s3 ≡ s'
      → AreMigrated migrations c s2.versions s3.versions
      → AreMigrated migrations cfg s.versions s'.versions
  AreMigrated-same c cfg s s2 s3 s' same before after h = rw (same, ← before, after) at h

  -- Whatever the servers answer: once `main` of the API has come as far as its services, its settings
  -- are those of the environment and are usable. If they ask for migrations, every migration of the
  -- directory is recorded, also after the demo data; if not, the recorded versions are as before.
  pub start_api-ready :
      {O : Type 0} (parse_url : Text → Result O) (options : O) (cfg : Config) (s s' : Server)
      → start_api parsers getenv new_pool driver trunc from_now to_now parse_url migrations s
        ≡ (ok (cfg, options), s')
      → (cfg ≡ read_config parsers getenv)
        × IsUsable cfg
        × AreMigrated migrations cfg s.versions s'.versions
  unfolding start_api
  start_api-ready parse_url options cfg s s' e =
      let (c, s1, e1, e2) =
        continue-ok _ (connect parsers getenv new_pool driver s) (cfg, options) s' e in
      let (o, s2, e3, e4) =
        continue-ok _ (new_store parse_url c.redis_url, s1) (cfg, options) s' e2 in
      let (u, s3, e5, e6) =
        continue-ok _ (prepare parsers getenv new_pool driver trunc from_now to_now migrations c s2)
          (cfg, options) s' e4 in
      let same : c ≡ cfg = ap (λ r. settings_or cfg r.0) e6 in
      let connected = connect-ok s s1 c e1 in
      let usable = load-IsUsable cfg (connected.0 ∙ ap ok same) in
      (
        usable.0,
        usable.1,
        AreMigrated-same c cfg s s2 s3 s' same (connected.1 ∙ ap (λ r. r.1) e3) (ap (λ r. r.1) e6)
            (prepare-AreMigrated c s2 s3 u e5),
      )
