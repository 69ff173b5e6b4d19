-- ===== src/Postgres/Migrator/Prefix.antt =====
-- What a run of the migrator leaves, however it ends.
use pg_analytics_service.Prelude.{
  ℕ, suc, ◌≡◌, refl, ap, inl, inr, Bool, true, false, List, [], ◌∷◌, ◌++◌, any, All, =ₜ_refl, Text,
  arith,
}
use pg_analytics_service.Effects.{Result, ok, err, continue}
use pg_analytics_service.Postgres.Database.{Driver, Verdict, runs, refused, lost}
use pg_analytics_service.Postgres.Migrator.{
  Schema, Connection, DirEntry, Migrations, is_applied, call, ensure_migrations_table,
  query_applied, apply_unless, apply_file, apply_files, list_migration_files, migrate_up,
  sort_names, migration_names,
}
use pg_analytics_service.Postgres.Migrator.Steps.{
  Applied, rest, done, passes, executes, conn, Stepped, passed, executed, OkOrSame,
  apply_file-Stepped,
}

module _ {D : Type 0} (migrations : Migrations D) where
  -- The outcome of the loop: all of the files, or an error after some of them.
  abbrev pub Outcome : {A : Type 0} → List Text → Schema D → Result A × Connection D → Type 0
  Outcome files s (ok a, c) = Applied migrations false files s c.schema
  Outcome files s (err e, c) = Applied migrations true files s c.schema

  pub Outcome-Applied :
      {files : List Text} {s : Schema D} (r : Result (Unit {0}) × Connection D)
      → r.0 ≡ ok tt
      → Outcome files s r
      → Applied migrations false files s r.1.schema
  Outcome-Applied (ok a, c) e o = o
  Outcome-Applied (err x, c) e o = cc e

  Applied-Stepped :
      (stops : Bool) (file : Text) (files : List Text) {s t u : Schema D}
      → Stepped migrations file s t
      → Applied migrations stops files t u
      → Applied migrations stops (file ∷ files) s u
  Applied-Stepped stops file files (passed e) a = passes e a
  Applied-Stepped stops file files (executed sql tables new file_read ran) a =
      executes sql tables new file_read ran a

  module _ (driver : Driver) where
    Outcome-Stepped :
        (file : Text) (files : List Text) (s t : Schema D) (r : Result (Unit {0}) × Connection D)
        → Stepped migrations file s t
        → Outcome files t r
        → Outcome (file ∷ files) s r
    Outcome-Stepped file files s t (ok a, c) step o = Applied-Stepped false file files step o
    Outcome-Stepped file files s t (err e, c) step o = Applied-Stepped true file files step o

    after_file :
        (file : Text) (files : List Text) (s : Schema D) (r : Result (Unit {0}) × Connection D)
        → ((c : Connection D) → Outcome files c.schema (apply_files driver migrations files c))
        → OkOrSame migrations (Stepped migrations file s) s r
        → Outcome (file ∷ files) s (continue (λ _. apply_files driver migrations files) r)
    after_file file files s (ok a, c) h step = Outcome-Stepped file files s c.schema _ step (h c)
    after_file file files s (err e, c) h (inl same) = rw same (rest (file ∷ files) s refl)
    after_file file files s (err e, c) h (inr step) =
        Applied-Stepped true file files step (rest files c.schema refl)

    apply_files-Outcome :
        (files : List Text) (c : Connection D)
        → Outcome files c.schema (apply_files driver migrations files c)
    unfolding apply_files
    apply_files-Outcome [] c = done c.schema
    apply_files-Outcome (file ∷ files) c =
        after_file file files c.schema (apply_file driver migrations file c)
          (apply_files-Outcome files) (apply_file-Stepped migrations driver file c.schema c.calls)

    -- Once the table is there and the directory was read.
    migrate_up_listed :
        (entries : List DirEntry) (c : Connection D)
        → driver.verdict c.calls ≡ runs
        → migrations.read_dir ≡ ok entries
        → migrate_up driver migrations c
          ≡ apply_files driver migrations
              (sort_names (migration_names entries))
              (conn migrations c.schema (suc c.calls))
    unfolding migrate_up ensure_migrations_table call list_migration_files
    migrate_up_listed entries c answered listed =
        rw (answered, migrate_up, ensure_migrations_table, call)
          (ap
            (λ r.
              continue (apply_files driver migrations)
                (list_migration_files driver migrations r, conn migrations c.schema (suc c.calls)))
            listed)

    -- However a run of the migrator ends, and whatever the server makes of each call: it went through
    -- the files in the order of their names, to the end if it succeeded, and the schema is what the
    -- files that were executed make of it, each recorded exactly if it was executed.
    pub migrate_up-Outcome :
        (entries : List DirEntry) (c : Connection D)
        → migrations.read_dir ≡ ok entries
        → Outcome (sort_names (migration_names entries)) c.schema (migrate_up driver migrations c)
    unfolding migrate_up ensure_migrations_table call list_migration_files
    migrate_up-Outcome entries c listed = go (driver.verdict c.calls) refl
      where
        go :
            (v : Verdict)
            → driver.verdict c.calls ≡ v
            → Outcome
                (sort_names (migration_names entries))
                c.schema
                (migrate_up driver migrations c)
        go runs e = rw (migrate_up_listed entries c e listed) (
            apply_files-Outcome (sort_names (migration_names entries))
              (conn migrations c.schema (suc c.calls)))
        go (refused x) e = rw (e, migrate_up, ensure_migrations_table, call) (rest _ c.schema refl)
        go (lost x) e = rw (e, migrate_up, ensure_migrations_table, call) (rest _ c.schema refl)

  is_applied-snoc :
      (file new : Text) (versions : List Text)
      → is_applied file versions ≡ true
      → is_applied file (versions ++ new ∷ []) ≡ true
  unfolding is_applied any
  is_applied-snoc file new [] h = cc h
  is_applied-snoc file new (v ∷ vs) h = ground (arith, is_applied-snoc file new vs)

  is_applied_new :
      (file : Text) (versions : List Text) → is_applied file (versions ++ file ∷ []) ≡ true
  unfolding is_applied any
  is_applied_new file [] = rw (=ₜ_refl file)
  is_applied_new file (v ∷ vs) = ground (arith, is_applied_new file vs)

  Applied-keeps :
      {stops : Bool} {files : List Text} {s t : Schema D}
      → Applied migrations stops files s t
      → (file : Text) → is_applied file s.versions ≡ true
      → is_applied file t.versions ≡ true
  Applied-keeps (rest files s e) file h = h
  Applied-keeps (done s) file h = h
  Applied-keeps (passes e a) file h = Applied-keeps a file h
  Applied-keeps (executes {file = new} {s = s} sql tables e e' e'' a) file h =
      Applied-keeps a file (is_applied-snoc file new s.versions h)

  pub Applied-All :
      {files : List Text} {s t : Schema D}
      → Applied migrations false files s t
      → All (λ file. is_applied file t.versions ≡ true) files
  Applied-All (rest files s e) = cc e
  Applied-All (done s) = tt
  Applied-All (passes {file = file} e a) = (Applied-keeps a file e, Applied-All a)
  Applied-All (executes {file = file} {s = s} sql tables e e' e'' a) =
      (Applied-keeps a file (is_applied_new file s.versions), Applied-All a)

  module _ (driver : Driver) (up : (n : ℕ) → driver.verdict n ≡ runs) where
    apply_file-applied :
        (file : Text) (c : Connection D)
        → is_applied file c.schema.versions ≡ true
        → apply_file driver migrations file c ≡ (ok tt, conn migrations c.schema (suc c.calls))
    unfolding apply_file query_applied call apply_unless
    apply_file-applied file c h = rw (up c.calls, apply_file, query_applied, call) (rw h)

    apply_files-applied :
        (files : List Text) (c : Connection D)
        → All (λ file. is_applied file c.schema.versions ≡ true) files
        → ((apply_files driver migrations files c).0 ≡ ok tt)
          × ((apply_files driver migrations files c).1.schema ≡ c.schema)
    unfolding apply_files
    apply_files-applied [] c a = (refl, refl)
    apply_files-applied (file ∷ files) c a =
        rw (apply_file-applied file c a.0)
          (apply_files-applied files (conn migrations c.schema (suc c.calls)) a.1)

    -- After a run that succeeded, while the files stay the same and the server answers, a second run
    -- succeeds and changes nothing.
    pub migrate_up_again :
        (entries : List DirEntry) (c : Connection D)
        → migrations.read_dir ≡ ok entries
        → (migrate_up driver migrations c).0 ≡ ok tt
        → ((migrate_up driver migrations (migrate_up driver migrations c).1).0 ≡ ok tt)
          × ((migrate_up driver migrations (migrate_up driver migrations c).1).1.schema
              ≡ (migrate_up driver migrations c).1.schema)
    migrate_up_again entries c listed first =
        rw (migrate_up_listed driver entries after (up after.calls) listed) (
          apply_files-applied (sort_names (migration_names entries))
            (conn migrations after.schema (suc after.calls))
            (Applied-All (
              Outcome-Applied (migrate_up driver migrations c) first
                (migrate_up-Outcome driver entries c listed))))
      where
        after : Connection D
        after = (migrate_up driver migrations c).1
