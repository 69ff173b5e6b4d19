-- ===== src/Postgres/Seeder/Complete.antt =====
-- `Seed` while the server answers: every scope is recomputed and its run completed.
use pg_analytics_service.Prelude.{
  ℕ, suc, ◌-◌, ◌*◌, ◌≤◌, ◌<◌, ◌≡◌, refl, ap, ◌∙◌, inl, inr, Bool-cases, true, false, List, [], ◌∷◌,
  ◌++◌, map, any, length, All, ltb, Text, ◌=ₜ◌, arith,
}
use mathlib.Core.List.{append_assoc, append-nil}
use pg_analytics_service.Domain.Models.{Time, day_ns, RunStatus, run_status_completed}
use pg_analytics_service.Effects.{ok}
use pg_analytics_service.Postgres.Buckets.{TruncLaws, IsWindow}
use pg_analytics_service.Postgres.Database.{RunRow, World, Driver}
use pg_analytics_service.Postgres.Recompute.Rebuild.{IsUp}
use pg_analytics_service.Postgres.Seeder.{
  demo_size, source_map, seed_scopes, seed_all, seed_tables, seed_if_empty, seed,
}
use pg_analytics_service.Postgres.Seeder.Skip.{
  HasSources, demo_events-some, with_events, count_answered, insert_answered,
}
use pg_analytics_service.Postgres.Snapshots.{
  DateTrunc, Report, volume_by_period, status_counts, top_entities, report_slug_text,
}
use pg_analytics_service.Postgres.Seeder.Scope.{any-snoc, seed_snapshots_step}

module _ (driver : Driver) (trunc : DateTrunc) (up : IsUp driver) (laws : TruncLaws trunc) where
  -- No row has an id that the server has still to draw.
  abbrev pub AreOld : List RunRow → ℕ → Type 0
  AreOld rows calls =
      (n : ℕ) → calls ≤ n → any (λ (row : RunRow). row.id =ₜ driver.random_uuid n) rows ≡ false

  abbrev pub Draws : Type 0
  Draws = (m n : ℕ) → (driver.random_uuid m =ₜ driver.random_uuid n) ≡ true → m ≡ n

  AreOld-snoc :
      (rows : List RunRow) (row : RunRow) (calls later : ℕ)
      → Draws
      → row.id ≡ driver.random_uuid calls
      → calls < later
      → AreOld rows calls
      → AreOld (rows ++ row ∷ []) later
  AreOld-snoc rows row calls later draws e lt old n le =
      any-snoc (driver.random_uuid n) rows row (old n (omega arith))
        (elim (Bool-cases (row.id =ₜ driver.random_uuid n)) [
          | inl same ↦ absurd (earlier (draws calls n (rw e at same)))
          | inr other ↦ other
        ])
    where
      earlier : calls ≡ n → ⊥
      earlier h = omega arith

  abbrev pub IsKnown : Text × Text → Type 0
  IsKnown scope = (r : Report) × (scope.0 ≡ report_slug_text r) × IsWindow scope.1

  abbrev pub run_scope : RunRow → Text × Text × RunStatus
  run_scope row = (row.report_slug, row.window_name, row.status)

  seed_all_runs :
      (scopes : List (Text × Text)) (from to : Time) (w : World)
      → Draws
      → All IsKnown scopes
      → AreOld w.db.runs w.calls
      → (rows : List RunRow) × (w' : World) × (seed_all driver trunc scopes from to w ≡ (ok tt, w'))
        × (w'.db.runs ≡ w.db.runs ++ rows)
        × (map run_scope rows ≡ map (λ s. (s.0, s.1, run_status_completed)) scopes)
  unfolding seed_all
  seed_all_runs [] from to w draws known old = ([], w, refl, rw append-nil, refl)
  seed_all_runs ((slug, window) ∷ scopes) from to w draws ((r, e, is_window), known) old =
      let (row, w1, seeded, rows1, later, id, scope) =
        seed_snapshots_step driver trunc up laws r window from to w is_window
          (old w.calls (omega arith)) in
      let (rows, w2, rest, rows2, scopes2) =
        seed_all_runs scopes from to w1 draws known
          (rw rows1 (AreOld-snoc w.db.runs row w.calls w1.calls draws id later old)) in
      (
        row ∷ rows,
        w2,
        rw (e, seeded) rest,
        rows2 ∙ (ap (λ l. l ++ rows) rows1 ∙ append_assoc w.db.runs (row ∷ []) rows),
        rw (e, scope.0, scope.1, scope.2, scopes2) refl,
      )

  seed_scopes-IsKnown : All IsKnown seed_scopes
  unfolding seed_scopes report_slug_text
  seed_scopes-IsKnown = (
    (volume_by_period, refl, inl refl),
    (
      (volume_by_period, refl, inr refl),
      (
        (status_counts, refl, inl refl),
        (
          (status_counts, refl, inr refl),
          ((top_entities, refl, inl refl), ((top_entities, refl, inr refl), tt)),
        ),
      ),
    ),
  )

  -- With the server up, `date_trunc` as in UTC and fresh UUIDs: on an empty table of events with the
  -- three sources, `Seed` without force succeeds and adds one run for each report and window, in the order of
  -- its loops, each of them completed.
  pub seed-completes :
      (from_now to_now : Time) (w : World)
      → Draws
      → AreOld w.db.runs w.calls
      → HasSources driver trunc (source_map w.db.sources)
      → w.db.events ≡ []
      → let done = seed driver trunc false from_now to_now w in
        (done.0 ≡ ok tt)
        × ((rows : List RunRow) × (done.1.db.runs ≡ w.db.runs ++ rows)
            × (map run_scope rows ≡ map (λ s. (s.0, s.1, run_status_completed)) seed_scopes))
  unfolding seed seed_if_empty seed_tables
  seed-completes from_now to_now w draws old h empty =
      let (events, es, len) =
        demo_events-some driver trunc w.now (source_map w.db.sources) h 1 demo_size in
      let (rows, w', all, rows_of, scopes) =
        seed_all_runs seed_scopes (from_now - 90 * day_ns) to_now
          (with_events driver trunc w events) draws seed_scopes-IsKnown
          (λ n le. old n (omega arith)) in
      let answered : seed driver trunc false from_now to_now w ≡ (ok tt, w') =
        rw (count_answered driver trunc w (up w.calls)) (
          rw no_events
            (rw (insert_answered driver trunc w events (up (suc w.calls)) es) (rw all refl))) in
      (ap (λ r. r.0) answered, (rows, ap (λ r. r.1.db.runs) answered ∙ rows_of, scopes))
    where
      no_events : ltb 0 (length w.db.events) ≡ false
      no_events = rw empty refl
