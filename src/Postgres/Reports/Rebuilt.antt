-- ===== src/Postgres/Reports/Rebuilt.antt =====
-- What the sums of a report come to in the tables that a recomputation leaves.
use pg_analytics_service.Prelude.{
  ℕ, ◌+◌, ◌≡◌, refl, ap, ◌∙◌, inl, inr, Bool, true, not, ◌&&◌, ◌||◌, List, [], ◌∷◌, map, keep,
  count_if, count_if-append, leb, ltb, if◌then◌else◌, Bool-cases, Text, ◌=ₜ◌, =ₜ_refl, arith,
}
use pg_analytics_service.Domain.Models.{Time, day_ns, ReportRunParams}
use pg_analytics_service.Postgres.Database.{Source, Event, Snapshot, World}
use pg_analytics_service.Postgres.Snapshots.{
  DateTrunc, width, Report, Key, same_key, in_range, report_slug_text, dimension_key_of,
  event_count, dimension_values, selected, tally, group, to_snapshot, new_rows,
}
use pg_analytics_service.Postgres.Snapshots.Grouping.{eq_of_same_key}
use pg_analytics_service.Postgres.Snapshots.Metrics.{sum_if, sum_if-append}
use pg_analytics_service.Postgres.Buckets.{TruncLaws, IsWindow}
use pg_analytics_service.Postgres.Recompute.{midnight}
use pg_analytics_service.Postgres.Recompute.Rebuild.{rebuilt}
use pg_analytics_service.Postgres.Reports.{Sum, Grouping, group_key, selects}
use pg_analytics_service.Postgres.Reports.Sums.{key_of}

-- The sum of the counts of the keys that pass a test.
unfoldable weigh : (Key → Bool) → List Sum → ℕ
weigh q [] = 0
weigh q ((k, n) ∷ gs) = (if q k then n else 0) + weigh q gs

weigh-tally :
    (q : Key → Bool) (k : Key) (gs : List Sum)
    → weigh q (tally k gs) ≡ (if q k then 1 else 0) + weigh q gs
unfolding weigh tally
weigh-tally q k [] = refl
weigh-tally q k ((j, n) ∷ gs) = elim (Bool-cases (same_key k j)) [
  | inl same ↦ rw (same) (rw (eq_of_same_key k j same) (ground arith))
  | inr other ↦ rw other (omega (arith, weigh-tally q k gs))
]

weigh-group : (q : Key → Bool) (ks : List Key) → weigh q (group ks) ≡ count_if q ks
unfolding weigh group count_if
weigh-group q [] = refl
weigh-group q (k ∷ ks) = omega (arith, weigh-tally q k (group ks), weigh-group q ks)

sum_if-keep-not :
    (p q : Snapshot → Bool) (rows : List Snapshot)
    → ((s : Snapshot) → p s ≡ true → q s ≡ true)
    → sum_if p (keep (λ s. not (q s)) rows) ≡ 0
unfolding sum_if keep
sum_if-keep-not p q [] h = refl
sum_if-keep-not p q (s ∷ rows) h = ground (arith, h s, sum_if-keep-not p q rows h)

module _ (report : Report) (by : Grouping) (params : ReportRunParams) (value : Text) (k : Key) where
  -- A bucket and dimension value that the query puts into the row of `k`.
  abbrev pub goes_to : Key → Bool
  goes_to j =
      leb (midnight params.date_from) j.0
      && ltb j.0 (midnight params.date_to + day_ns)
      && ((value =ₜ []) || (j.1 =ₜ value))
      && same_key (group_key by j.0 j.1) k

  -- The events from `date_from` to `date_to`, each as often as it has a dimension value that goes to
  -- the row.
  unfoldable pub events_of_row : DateTrunc → List Source → List Event → ℕ
  events_of_row trunc sources [] = 0
  events_of_row trunc sources (e ∷ es) =
      (if leb (midnight params.date_from) e.occurred_at
          && ltb e.occurred_at (midnight params.date_to + day_ns)
        then count_if (λ v. goes_to (trunc params.window e.occurred_at, v))
            (dimension_values report sources e)
        else 0)
      + events_of_row trunc sources es

  abbrev pub row_test : Snapshot → Bool
  row_test s = selects report params value s && same_key (key_of by s) k

  sum_if-new_rows :
      (run_id : Text) (gs : List Sum)
      → sum_if row_test (map (to_snapshot report params.window run_id) gs) ≡ weigh goes_to gs
  unfolding sum_if weigh to_snapshot selects
  sum_if-new_rows run_id [] = refl
  sum_if-new_rows run_id ((j, n) ∷ gs) = ground (
    arith,
    =ₜ_refl (report_slug_text report),
    =ₜ_refl params.window,
    =ₜ_refl (dimension_key_of report),
    =ₜ_refl event_count,
    sum_if-new_rows run_id gs,
  )

  count-pairs :
      (b : Time) (vs : List Text)
      → count_if goes_to (map (λ v. (b, v)) vs) ≡ count_if (λ v. goes_to (b, v)) vs
  unfolding count_if
  count-pairs b [] = refl
  count-pairs b (v ∷ vs) = ap (λ n. (if goes_to (b, v) then 1 else 0) + n) (count-pairs b vs)

  count-selected :
      (trunc : DateTrunc) (sources : List Source) (es : List Event)
      → count_if goes_to (
          selected trunc report params.window
            (midnight params.date_from)
            (midnight params.date_to + day_ns)
            sources
            es)
        ≡ events_of_row trunc sources es
  unfolding selected events_of_row
  count-selected trunc sources [] = unfold count_if in refl
  count-selected trunc sources (e ∷ es) =
      elim (Bool-cases (
        leb (midnight params.date_from) e.occurred_at
        && ltb e.occurred_at (midnight params.date_to + day_ns))) [
          | inl h ↦ rw h (
              count_if-append goes_to
                (map (λ v. (trunc params.window e.occurred_at, v))
                  (dimension_values report sources e))
                _
              ∙ omega (
                arith,
                count-pairs (trunc params.window e.occurred_at) (dimension_values report sources e),
                count-selected trunc sources es,
              ))
          | inr h ↦ rw h (omega (arith, count-selected trunc sources es))
        ]

  row_test-in_range :
      (trunc : DateTrunc) (laws : TruncLaws trunc) (is_window : IsWindow params.window)
      (s : Snapshot)
      → row_test s ≡ true
      → in_range
          (report_slug_text report)
          params.window
          (trunc params.window (midnight params.date_from))
          (trunc params.window (midnight params.date_to + day_ns) + width params.window)
          s
        ≡ true
  unfolding selects in_range
  row_test-in_range trunc laws is_window s h = ground (
    arith,
    laws.trunc_le params.window (midnight params.date_from) is_window,
    laws.lt_trunc_add params.window (midnight params.date_to + day_ns) is_window,
  )

  -- The row's sum over the table that a recomputation of the same dates leaves.
  pub sum_if-rebuilt :
      (trunc : DateTrunc) (laws : TruncLaws trunc) (is_window : IsWindow params.window)
      (run_id : Text) (w : World)
      → sum_if row_test (
          rebuilt trunc report params.window
            (midnight params.date_from)
            (midnight params.date_to + day_ns)
            run_id
            w.db)
        ≡ events_of_row trunc w.db.sources w.db.events
  unfolding new_rows
  sum_if-rebuilt trunc laws is_window run_id w =
      sum_if-append row_test
        (keep
          (λ s. not (
            in_range (report_slug_text report) params.window
              (trunc params.window (midnight params.date_from))
              (trunc params.window (midnight params.date_to + day_ns) + width params.window) s))
          w.db.snapshots)
        (new_rows trunc report params.window (midnight params.date_from)
          (midnight params.date_to + day_ns) run_id w.db)
      ∙ omega (
        arith,
        sum_if-keep-not row_test
            (in_range (report_slug_text report) params.window
              (trunc params.window (midnight params.date_from))
              (trunc params.window (midnight params.date_to + day_ns) + width params.window))
            w.db.snapshots (row_test-in_range trunc laws is_window),
        sum_if-new_rows run_id (
            group (
              selected trunc report params.window (midnight params.date_from)
                (midnight params.date_to + day_ns) w.db.sources w.db.events)),
        weigh-group goes_to (
            selected trunc report params.window (midnight params.date_from)
              (midnight params.date_to + day_ns) w.db.sources w.db.events),
        count-selected trunc w.db.sources w.db.events,
      )
