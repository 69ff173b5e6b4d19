-- ===== src/Postgres/Recompute/Metrics.antt =====
-- What a recomputation makes of the metrics, against the events themselves.
use pg_analytics_service.Prelude.{
  ℕ, ◌+◌, ◌≤◌, ◌<◌, ◌≡◌, refl, inl, inr, ◌⊎◌, ◌≢◌, ◌&&◌, List, [], ◌∷◌, map, not, keep, count_if,
  count_if-append, leb, ltb, ◌==◌, if◌then◌else◌, Bool-cases, Text, ◌=ₜ◌, arith,
}
use pg_analytics_service.Domain.Models.{Time}
use pg_analytics_service.Postgres.Database.{Source, Event, Snapshot, Database}
use pg_analytics_service.Postgres.Snapshots.{
  DateTrunc, width, Report, Key, same_key, report_slug_text, dimension_key_of, dimension_values,
  selected, group, to_snapshot, new_rows, in_range,
}
use pg_analytics_service.Postgres.Snapshots.Grouping.{grouped-group}
use pg_analytics_service.Postgres.Snapshots.Metrics.{
  metric, at_key, sum_if-append, metric_deleted, metric_kept, metric_inserted,
  metric_inserted_other,
}
use pg_analytics_service.Postgres.Buckets.{TruncLaws, IsWindow, width_pos}
use pg_analytics_service.Postgres.Recompute.Rebuild.{lo, hi, rebuilt}

module _ (trunc : DateTrunc) (report : Report) (window : Text) (sources : List Source)
    (k : Key) where
  -- How often an event counts for a bucket and dimension value: by its own time and values.
  abbrev pub weight : Event → ℕ
  weight e =
      if trunc window e.occurred_at == k.0
      then count_if (λ v. v =ₜ k.1) (dimension_values report sources e)
      else 0

  -- All the events of the bucket.
  unfoldable pub bucket_total : List Event → ℕ
  bucket_total [] = 0
  bucket_total (e ∷ es) = weight e + bucket_total es

  -- Those of them with `from <= occurred_at < to`.
  unfoldable pub dated_total : Time → Time → List Event → ℕ
  dated_total from to [] = 0
  dated_total from to (e ∷ es) =
      (if leb from e.occurred_at && ltb e.occurred_at to then weight e else 0)
      + dated_total from to es

  count-pairs :
      (b : Time) (vs : List Text)
      → count_if (λ j. same_key j k) (map (λ v. (b, v)) vs)
        ≡ (if b == k.0 then count_if (λ v. v =ₜ k.1) vs else 0)
  unfolding count_if same_key
  count-pairs b [] = ground arith
  count-pairs b (v ∷ vs) = ground (arith, count-pairs b vs)

  count-selected :
      (from to : Time) (es : List Event)
      → count_if (λ j. same_key j k) (selected trunc report window from to sources es)
        ≡ dated_total from to es
  unfolding selected dated_total
  count-selected from to [] = unfold count_if in refl
  count-selected from to (e ∷ es) =
      elim (Bool-cases (leb from e.occurred_at && ltb e.occurred_at to)) [
        | inl h ↦
            rw
              (
                h,
                count_if-append (λ j. same_key j k)
                    (map (λ v. (trunc window e.occurred_at, v)) (dimension_values report sources e))
                    (selected trunc report window from to sources es),
                count-pairs (trunc window e.occurred_at) (dimension_values report sources e),
                count-selected from to es,
              )
              refl
        | inr h ↦ rw h (omega (arith, count-selected from to es))
      ]

module _ (trunc : DateTrunc) (laws : TruncLaws trunc) (r : Report) (window : Text)
    (is_window : IsWindow window) (sources : List Source) (from to : Time) (k : Key) where
  -- No event of the dates falls into a bucket outside of the deleted range.
  dated_total_outside :
      (k.0 < trunc window from) ⊎ (trunc window to + width window ≤ k.0)
      → (es : List Event) → dated_total trunc r window sources k from to es ≡ 0
  unfolding dated_total
  dated_total_outside h [] = refl
  dated_total_outside h (e ∷ es) = ground (
    arith,
    dated_total_outside h es,
    laws.trunc_mono window from e.occurred_at is_window,
    laws.trunc_mono window e.occurred_at to is_window,
    width_pos window,
  )

module _ (trunc : DateTrunc) (r : Report) (window : Text) (from to : Time) (run_id : Text)
    (db : Database) (k : Key) where
  abbrev low : Time
  low = lo trunc r window from to run_id

  abbrev high : Time
  high = hi trunc r window from to run_id

  abbrev keys : List Key
  keys = selected trunc r window from to db.sources db.events

  abbrev kept : List Snapshot
  kept = keep (λ s. not (in_range (report_slug_text r) window low high s)) db.snapshots

  abbrev added : List Snapshot
  added = map (to_snapshot r window run_id) (group keys)

  -- A bucket of the deleted range holds the events of the dates, whatever it held before.
  pub metric-rebuilt :
      lo trunc r window from to run_id ≤ k.0
      → k.0 < hi trunc r window from to run_id
      → metric
          (report_slug_text r)
          window
          (dimension_key_of r)
          k
          (rebuilt trunc r window from to run_id db)
        ≡ dated_total trunc r window db.sources k from to db.events
  unfolding metric new_rows
  metric-rebuilt h h' = omega (
    arith,
    sum_if-append (at_key (report_slug_text r) window (dimension_key_of r) k) kept added,
    metric_deleted (report_slug_text r) window (dimension_key_of r) low high k db.snapshots h h',
    metric_inserted r window run_id k (group keys),
    grouped-group k keys,
    count-selected trunc r window db.sources k from to db.events,
  )

  -- Any other bucket, and any other report or window, holds what it held before.
  pub metric-rebuilt_other :
      (slug window' dimension : Text)
      → (slug ≢ report_slug_text r) ⊎ (window' ≢ window)
      → metric slug window' dimension k (rebuilt trunc r window from to run_id db)
        ≡ metric slug window' dimension k db.snapshots
  unfolding metric new_rows
  metric-rebuilt_other slug window' dimension h = omega (
    arith,
    sum_if-append (at_key slug window' dimension k) kept added,
    metric_kept (report_slug_text r) window slug window' dimension low high k db.snapshots
        (elim h [ inl a ↦ inr (inr (inl a)) | inr b ↦ inr (inr (inr b)) ]),
    metric_inserted_other r slug window window' dimension run_id k (group keys) h,
  )

  -- So does a bucket outside of the deleted range.
  pub metric-rebuilt_outside :
      TruncLaws trunc
      → IsWindow window
      → (k.0 < low) ⊎ (high ≤ k.0)
      → metric
          (report_slug_text r)
          window
          (dimension_key_of r)
          k
          (rebuilt trunc r window from to run_id db)
        ≡ metric (report_slug_text r) window (dimension_key_of r) k db.snapshots
  unfolding metric new_rows
  metric-rebuilt_outside laws is_window h = omega (
    arith,
    sum_if-append (at_key (report_slug_text r) window (dimension_key_of r) k) kept added,
    metric_kept (report_slug_text r) window (report_slug_text r) window (dimension_key_of r) low
        high k db.snapshots (elim h [ inl a ↦ inl a | inr b ↦ inr (inl b) ]),
    metric_inserted r window run_id k (group keys),
    grouped-group k keys,
    count-selected trunc r window db.sources k from to db.events,
    dated_total_outside trunc laws r window is_window db.sources from to k h db.events,
  )
