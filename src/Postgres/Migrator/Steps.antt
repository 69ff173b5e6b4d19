-- ===== src/Postgres/Migrator/Steps.antt =====
-- What one migration file leaves, whatever the server makes of each call.
use pg_analytics_service.Prelude.{
  ℕ, suc, ◌≡◌, refl, ◌⊎◌, inl, inr, Bool, true, false, List, [], ◌∷◌, ◌++◌, Text,
}
use pg_analytics_service.Effects.{Result, ok, err, Action, ◌>>=◌}
use pg_analytics_service.Postgres.Database.{Driver, Verdict, runs, refused, lost}
use pg_analytics_service.Postgres.Migrator.{
  Schema, Connection, Migrations, is_applied, call, try_call, query_applied, commit_migration,
  record_version, run_transaction, with_file, apply_unless, apply_file,
}

module _ {D : Type 0} (migrations : Migrations D) where
  -- The files were gone through in order: each that was recorded is passed over, each other one is
  -- executed and recorded. With `stops` the rest is left.
  pub data Applied (stops : Bool) : List Text → Schema D → Schema D → Type 0 where
    rest : (files : List Text) (s : Schema D) → stops ≡ true → Applied stops files s s
    done : (s : Schema D) → Applied stops [] s s
    passes :
        {file : Text} {files : List Text} {s t : Schema D}
        → is_applied file s.versions ≡ true
        → Applied stops files s t
        → Applied stops (file ∷ files) s t
    executes :
        {file : Text} {files : List Text} {s t : Schema D} (sql : Text) (tables : D)
        → is_applied file s.versions ≡ false
        → migrations.read_file file ≡ ok sql
        → migrations.exec sql s.tables ≡ ok tables
        → Applied stops files (record { tables = tables; versions = s.versions ++ file ∷ [] }) t
        → Applied stops (file ∷ files) s t

  abbrev pub conn : Schema D → ℕ → Connection D
  conn s n = record { schema = s; calls = n }

  abbrev pub next : Text → D → Schema D → Schema D
  next file tables s = record { tables = tables; versions = s.versions ++ file ∷ [] }

  -- What one file makes of the schema.
  pub data Stepped (file : Text) (s : Schema D) : Schema D → Type 0 where
    passed : is_applied file s.versions ≡ true → Stepped file s s
    executed :
        (sql : Text) (tables : D)
        → is_applied file s.versions ≡ false
        → migrations.read_file file ≡ ok sql
        → migrations.exec sql s.tables ≡ ok tables
        → Stepped file s (next file tables s)

  -- A success leaves a schema with the property; a failure leaves such a one or the old one.
  abbrev pub OkOrSame :
      {A : Type 0} → (Schema D → Type 0) → Schema D → Result A × Connection D → Type 0
  OkOrSame P s (ok a, c) = P c.schema
  OkOrSame P s (err e, c) = (c.schema ≡ s) ⊎ P c.schema

  module _ (driver : Driver) (P : Schema D → Type 0) (s : Schema D) where
    -- A call that only reads, and what follows it.
    keeps :
        {A B : Type 0} (message : Text) (g : Schema D → A) (k : A → Action (Connection D) B) (n : ℕ)
        → ((n' : ℕ) → OkOrSame P s (k (g s) (conn s n')))
        → OkOrSame P s ((try_call driver migrations message (λ t. (g t, t)) >>= k) (conn s n))
    unfolding call
    keeps message g k n h = go (driver.verdict n) refl
      where
        go :
            (v : Verdict)
            → driver.verdict n ≡ v
            → OkOrSame P s ((try_call driver migrations message (λ t. (g t, t)) >>= k) (conn s n))
        go runs e = rw (e, call) (h (suc n))
        go (refused x) e = rw (e, call) (inl refl)
        go (lost x) e = rw (e, call) (inl refl)

    commit_migration-Stepped :
        (file : Text) (tables : D) (n : ℕ)
        → P (next file tables s)
        → OkOrSame P s (commit_migration driver migrations file tables (conn s n))
    unfolding commit_migration call
    commit_migration-Stepped file tables n p = go (driver.verdict n) refl
      where
        go :
            (v : Verdict)
            → driver.verdict n ≡ v
            → OkOrSame P s (commit_migration driver migrations file tables (conn s n))
        go runs e = rw (e, commit_migration, call) p
        go (refused x) e = rw (e, commit_migration, call) (inl refl)
        go (lost x) e = rw (e, commit_migration, call) (inr p)

  module _ (driver : Driver) (file : Text) (s : Schema D) where
    record_version-Stepped :
        (sql : Text) (r : Result D) (n : ℕ)
        → is_applied file s.versions ≡ false
        → migrations.read_file file ≡ ok sql
        → migrations.exec sql s.tables ≡ r
        → OkOrSame (Stepped file s) s (record_version driver migrations file r (conn s n))
    unfolding record_version
    record_version-Stepped sql (err x) n new file_read ran = inl refl
    record_version-Stepped sql (ok tables) n new file_read ran =
        keeps driver (Stepped file s) s _ (λ _. tt) _ n
          (λ n'.
            commit_migration-Stepped driver (Stepped file s) s file tables n'
              (executed sql tables new file_read ran))

    with_file-Stepped :
        (r : Result Text) (n : ℕ)
        → is_applied file s.versions ≡ false
        → migrations.read_file file ≡ r
        → OkOrSame (Stepped file s) s (with_file driver migrations file r (conn s n))
    unfolding with_file run_transaction
    with_file-Stepped (err x) n new file_read = inl refl
    with_file-Stepped (ok sql) n new file_read =
        keeps driver (Stepped file s) s _ (λ _. tt) _ n
          λ n'.
            keeps driver (Stepped file s) s _ (λ t. migrations.exec sql t.tables) _ n'
              λ n2. record_version-Stepped sql (migrations.exec sql s.tables) n2 new file_read refl

    apply_unless-Stepped :
        (b : Bool) (n : ℕ)
        → is_applied file s.versions ≡ b
        → OkOrSame (Stepped file s) s (apply_unless driver migrations file b (conn s n))
    unfolding apply_unless
    apply_unless-Stepped true n e = passed e
    apply_unless-Stepped false n e = with_file-Stepped (migrations.read_file file) n e refl

    pub apply_file-Stepped :
        (n : ℕ) → OkOrSame (Stepped file s) s (apply_file driver migrations file (conn s n))
    unfolding apply_file query_applied
    apply_file-Stepped n =
        keeps driver (Stepped file s) s _ (λ t. is_applied file t.versions) _ n
          λ n'. apply_unless-Stepped (is_applied file s.versions) n' refl
