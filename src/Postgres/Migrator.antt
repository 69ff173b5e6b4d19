-- ===== src/Postgres/Migrator.antt =====
-- internal/infrastructure/postgres/migrator.go. `D` is whatever a migration's SQL changes; what the
-- server makes of a text of SQL, and the directory, are parameters. The logger is left out.
pub mod Steps
pub mod Prefix
use pg_analytics_service.Prelude.{
  ℕ, suc, ◌≡◌, Bool, true, false, not, ◌&&◌, ◌||◌, Option, none, some, List, [], ◌∷◌, ◌++◌, map,
  any, keep, ltb, leb, ◌==◌, if◌then◌else◌, Text, codes, ◌=ₜ◌,
}
use pg_analytics_service.Domain.Errors.{Error, plain, wrapped}
use pg_analytics_service.Effects.{Result, ok, err, Action, pure, raise, ◌>>=◌, ◌>>◌, rethrow}
use pg_analytics_service.Postgres.Database.{Driver, Verdict, runs, refused, lost}

-- The schema, and `schema_migrations.version`, the oldest first.
pub record Schema (D : Type 0) : Type 0 where
  pub tables : D
  pub versions : List Text

pub record Connection (D : Type 0) : Type 0 where
  pub schema : Schema D
  pub calls : ℕ

pub record DirEntry : Type 0 where
  pub name : Text
  pub is_dir : Bool

-- `os.ReadDir`, `os.ReadFile`, and the server's execution of SQL.
pub record Migrations (D : Type 0) : Type 0 where
  pub read_dir : Result (List DirEntry)
  pub read_file : Text → Result Text
  pub exec : Text → D → Result D

-- `strings.Compare(a, b) <= 0`.
unfoldable pub leb_text : Text → Text → Bool
leb_text [] b = true
leb_text (x ∷ a) [] = false
leb_text (x ∷ a) (y ∷ b) = ltb x y || ((x == y) && leb_text a b)

unfoldable pub insert_sorted : Text → List Text → List Text
unfolding leb_text
insert_sorted x [] = x ∷ []
insert_sorted x (y ∷ ys) = if leb_text x y then x ∷ y ∷ ys else y ∷ insert_sorted x ys

unfoldable pub sort_names : List Text → List Text
unfolding insert_sorted
sort_names [] = []
sort_names (x ∷ xs) = insert_sorted x (sort_names xs)

-- `filepath.Ext(name) == ".sql"`: the name ends so.
unfoldable pub has_sql_ext : Text → Bool
unfolding ◌=ₜ◌
has_sql_ext [] = false
has_sql_ext (c ∷ s) = ((c ∷ s) =ₜ codes ".sql") || has_sql_ext s

unfoldable pub migration_names : List DirEntry → List Text
unfolding has_sql_ext
migration_names entries =
    map (λ e. e.name) (keep (λ (e : DirEntry). not e.is_dir && has_sql_ext e.name) entries)

unfoldable pub is_applied : Text → List Text → Bool
is_applied version versions = any (λ v. v =ₜ version) versions

module _ {D : Type 0} (driver : Driver) (migrations : Migrations D) where
  -- One call to the server: an answer and a new schema.
  abbrev pub with_schema : {A : Type 0} → Connection D → A × Schema D → Result A × Connection D
  with_schema c (a, s) = (ok a, record c { schema = s })

  unfoldable pub call : {A : Type 0} → (Schema D → A × Schema D) → Action (Connection D) A
  call f c =
      let c' = record c { calls = suc c.calls } in
      elim (driver.verdict c.calls) [
        | runs ↦ with_schema c' (f c.schema)
        | refused e ↦ (err e, c')
        | lost e ↦ (err e, (with_schema c' (f c.schema)).1)
      ]

  -- A call whose error Go wraps with a prefix, outside of a transaction and inside it.
  abbrev pub try_call : {A : Type 0} → Text → (Schema D → A × Schema D) → Action (Connection D) A
  try_call message f = rethrow (wrapped message) (call f)

  -- `CREATE TABLE IF NOT EXISTS` adds no version.
  unfoldable pub ensure_migrations_table : Action (Connection D) (Unit {0})
  unfolding call
  ensure_migrations_table =
      try_call (codes "failed to ensure schema_migrations table") (λ s. (tt, s))

  unfoldable pub query_applied : Text → Action (Connection D) Bool
  unfolding call is_applied
  query_applied version =
      try_call (codes "failed to query migration version " ++ version)
        (λ s. (is_applied version s.versions, s))

  -- `tx.Commit` of the schema that the transaction made.
  unfoldable pub commit_migration : Text → D → Action (Connection D) (Unit {0})
  unfolding call
  commit_migration file tables =
      try_call (codes "failed to commit migration " ++ file)
        (λ s. (tt, record { tables = tables; versions = s.versions ++ file ∷ [] }))

  -- `tx.Exec` of the file, then of the `INSERT`, which finds no such version. Before the commit only the
  -- transaction sees what they did, and an error rolls it back.
  unfoldable pub record_version : Text → Result D → Action (Connection D) (Unit {0})
  unfolding call commit_migration
  record_version file (err e) = raise (wrapped (codes "failed to execute migration " ++ file) e)
  record_version file (ok tables) =
      try_call (codes "failed to record migration " ++ file) (λ s. (tt, s))
      >> commit_migration file tables

  unfoldable pub run_transaction : Text → Text → Action (Connection D) (Unit {0})
  unfolding call record_version
  run_transaction file sql = do
    try_call (codes "failed to begin migration transaction") (λ s. (tt, s))
    result ←
        try_call (codes "failed to execute migration " ++ file)
          (λ s. (migrations.exec sql s.tables, s))
    record_version file result

  unfoldable pub with_file : Text → Result Text → Action (Connection D) (Unit {0})
  unfolding run_transaction
  with_file file (err e) = raise (wrapped (codes "failed to read migration " ++ file) e)
  with_file file (ok sql) = run_transaction file sql

  unfoldable pub apply_unless : Text → Bool → Action (Connection D) (Unit {0})
  unfolding with_file
  apply_unless file true = pure tt
  apply_unless file false = with_file file (migrations.read_file file)

  unfoldable pub apply_file : Text → Action (Connection D) (Unit {0})
  unfolding query_applied apply_unless
  apply_file file = do applied ← query_applied file; apply_unless file applied

  -- The loop over the files.
  unfoldable pub apply_files : List Text → Action (Connection D) (Unit {0})
  unfolding apply_file
  apply_files [] = pure tt
  apply_files (file ∷ files) = apply_file file >> apply_files files

  unfoldable pub list_migration_files : Result (List DirEntry) → Result (List Text)
  unfolding migration_names sort_names
  list_migration_files (ok entries) = ok (sort_names (migration_names entries))
  list_migration_files (err e) = err (wrapped (codes "failed to read migration directory") e)

  unfoldable pub migrate_up : Action (Connection D) (Unit {0})
  unfolding ensure_migrations_table list_migration_files apply_files
  migrate_up = do
    ensure_migrations_table
    files ← λ c. (list_migration_files migrations.read_dir, c)
    apply_files files
