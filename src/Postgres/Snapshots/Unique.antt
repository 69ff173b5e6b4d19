-- ===== src/Postgres/Snapshots/Unique.antt =====
-- The `UNIQUE` constraint of the snapshot table under the `DELETE` and the `INSERT`.
use pg_analytics_service.Prelude.{
  ℕ, ◌≡◌, refl, ap, ◌∙◌, Bool, true, false, ◌||◌, List, [], ◌∷◌, ◌++◌, map, Text, =ₜ_sym, arith,
  keep, any, any-append, All,
}
use mathlib.Core.List.{append_assoc, append-nil}
use pg_analytics_service.Effects.{ok}
use pg_analytics_service.Postgres.Database.{Snapshot}
use pg_analytics_service.Postgres.Snapshots.{
  Report, Key, same_key, to_snapshot, insert_snapshots, conflicts, tally, group,
}
use pg_analytics_service.Postgres.Snapshots.Grouping.{has_key, eq_of_same_key}

-- No two rows agree on the columns of the constraint.
abbrev pub IsUnique : List Snapshot → Type 0
IsUnique [] = Unit {0}
IsUnique (s ∷ ss) = (any (conflicts s) ss ≡ false) × IsUnique ss

-- None of the rows `ss` agrees with a row of the table.
abbrev pub AreFresh : List Snapshot → List Snapshot → Type 0
AreFresh rows = All (λ s. any (conflicts s) rows ≡ false)

conflicts_sym : (s t : Snapshot) → conflicts s t ≡ conflicts t s
unfolding conflicts
conflicts_sym s t = ground (
  arith,
  =ₜ_sym s.report_slug t.report_slug,
  =ₜ_sym s.window_name t.window_name,
  =ₜ_sym s.dimension_key t.dimension_key,
  =ₜ_sym s.dimension_value t.dimension_value,
  =ₜ_sym s.metric_name t.metric_name,
)

any-keep :
    (q p : Snapshot → Bool) (rows : List Snapshot)
    → any q rows ≡ false
    → any q (keep p rows) ≡ false
unfolding keep any
any-keep q p [] h = refl
any-keep q p (s ∷ rows) h = ground (arith, any-keep q p rows)

pub keep-IsUnique :
    (p : Snapshot → Bool) (rows : List Snapshot) → IsUnique rows → IsUnique (keep p rows)
unfolding keep any
keep-IsUnique p [] u = tt
keep-IsUnique p (s ∷ rows) u =
    ground (arith, keep-IsUnique p rows u.1, any-keep (conflicts s) p rows u.0)

AreFresh-snoc :
    (s : Snapshot) (rows ss : List Snapshot)
    → AreFresh rows ss
    → any (conflicts s) ss ≡ false
    → AreFresh (rows ++ s ∷ []) ss
unfolding any
AreFresh-snoc s rows [] f h = tt
AreFresh-snoc s rows (t ∷ ss) f h =
    ground (
      arith,
      any-append (conflicts t) rows (s ∷ []),
      conflicts_sym s t,
      AreFresh-snoc s rows ss f.1,
    )

-- Fresh rows that do not agree with one another are all inserted.
pub insert_snapshots_fresh :
    (ss rows : List Snapshot)
    → AreFresh rows ss
    → IsUnique ss
    → insert_snapshots ss rows ≡ ok (rows ++ ss)
unfolding insert_snapshots
insert_snapshots_fresh [] rows f u = rw append-nil
insert_snapshots_fresh (s ∷ ss) rows f u = rw f.0 (
    insert_snapshots_fresh ss (rows ++ s ∷ []) (AreFresh-snoc s rows ss f.1 u.0) u.1
    ∙ ap ok (append_assoc rows (s ∷ []) ss))

AreFresh-cons :
    (s : Snapshot) (rows ss : List Snapshot)
    → AreFresh (s ∷ rows) ss
    → (any (conflicts s) ss ≡ false) × AreFresh rows ss
unfolding any
AreFresh-cons s rows [] f = (refl, tt)
AreFresh-cons s rows (t ∷ ss) f = ground (arith, conflicts_sym s t, AreFresh-cons s rows ss f.1)

pub append-IsUnique :
    (rows ss : List Snapshot)
    → IsUnique rows
    → IsUnique ss
    → AreFresh rows ss
    → IsUnique (rows ++ ss)
append-IsUnique [] ss u v f = v
append-IsUnique (s ∷ rows) ss u v f = ground (
  arith,
  AreFresh-cons s rows ss f,
  any-append (conflicts s) rows ss,
  append-IsUnique rows ss u.1 v,
)

HasKey-tally :
    (k j : Key) (gs : List (Key × ℕ)) → has_key k (tally j gs) ≡ (same_key k j || has_key k gs)
unfolding any tally
HasKey-tally k j [] = refl
HasKey-tally k j ((i, n) ∷ gs) = ground (arith, HasKey-tally k j gs, eq_of_same_key j i)

-- The keys of the groups are distinct.
abbrev HasDistinctKeys : List (Key × ℕ) → Type 0
HasDistinctKeys [] = Unit {0}
HasDistinctKeys (g ∷ gs) = (has_key g.0 gs ≡ false) × HasDistinctKeys gs

same_key_sym : (j k : Key) → same_key j k ≡ same_key k j
unfolding same_key
same_key_sym j k = ground (arith, =ₜ_sym j.1 k.1)

tally-HasDistinctKeys :
    (k : Key) (gs : List (Key × ℕ)) → HasDistinctKeys gs → HasDistinctKeys (tally k gs)
unfolding tally any
tally-HasDistinctKeys k [] d = (refl, tt)
tally-HasDistinctKeys k ((j, n) ∷ gs) d =
    ground (arith, tally-HasDistinctKeys k gs d.1, HasKey-tally j k gs, same_key_sym k j)

group-HasDistinctKeys : (ks : List Key) → HasDistinctKeys (group ks)
unfolding group
group-HasDistinctKeys [] = tt
group-HasDistinctKeys (k ∷ ks) = tally-HasDistinctKeys k (group ks) (group-HasDistinctKeys ks)

module _ (report : Report) (window run_id : Text) where
  conflicts-to_snapshot :
      (g h : Key × ℕ)
      → conflicts (to_snapshot report window run_id g) (to_snapshot report window run_id h) ≡ true
      → same_key g.0 h.0 ≡ true
  unfolding conflicts to_snapshot same_key
  conflicts-to_snapshot g h c = ground arith

  any-to_snapshot :
      (g : Key × ℕ) (gs : List (Key × ℕ))
      → has_key g.0 gs ≡ false
      → any
          (conflicts (to_snapshot report window run_id g))
          (map (to_snapshot report window run_id) gs)
        ≡ false
  unfolding any
  any-to_snapshot g [] h = refl
  any-to_snapshot g (i ∷ gs) h = ground (arith, conflicts-to_snapshot g i, any-to_snapshot g gs)

  map-IsUnique :
      (gs : List (Key × ℕ))
      → HasDistinctKeys gs
      → IsUnique (map (to_snapshot report window run_id) gs)
  map-IsUnique [] d = tt
  map-IsUnique (g ∷ gs) d = (any-to_snapshot g gs d.0, map-IsUnique gs d.1)

  -- One row for each group: the rows of an `INSERT … GROUP BY` never clash with one another.
  pub grouped-IsUnique :
      (ks : List Key) → IsUnique (map (to_snapshot report window run_id) (group ks))
  grouped-IsUnique ks = map-IsUnique (group ks) (group-HasDistinctKeys ks)
