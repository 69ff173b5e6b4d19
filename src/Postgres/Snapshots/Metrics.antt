-- ===== src/Postgres/Snapshots/Metrics.antt =====
-- What the snapshot table says of one bucket and dimension value, and how the `DELETE` and the
-- `INSERT` of a recomputation change it.
use pg_analytics_service.Prelude.{
  ℕ, ◌+◌, ◌≤◌, ◌<◌, ◌≡◌, refl, ◌⊎◌, ◌≢◌, Bool, true, false, not, ◌&&◌, List, [], ◌∷◌, ◌++◌, map,
  if◌then◌else◌, Text, ◌=ₜ◌, eq_of_=ₜ, =ₜ_refl, arith, keep,
}
use pg_analytics_service.Domain.Models.{Time}
use pg_analytics_service.Postgres.Database.{Snapshot}
use pg_analytics_service.Postgres.Snapshots.{
  Report, Key, same_key, in_range, report_slug_text, dimension_key_of, event_count, to_snapshot,
}
use pg_analytics_service.Postgres.Snapshots.Grouping.{grouped}

-- The rows of a report and window that hold the event count of a bucket and dimension value.
unfoldable pub at_key : Text → Text → Text → Key → Snapshot → Bool
at_key slug window dimension k s =
    (s.report_slug =ₜ slug)
    && (s.window_name =ₜ window)
    && (s.dimension_key =ₜ dimension)
    && (s.metric_name =ₜ event_count)
    && same_key (s.bucket_start, s.dimension_value) k

-- `SUM(metric_value)` over the rows that pass a test.
unfoldable pub sum_if : (Snapshot → Bool) → List Snapshot → ℕ
sum_if p [] = 0
sum_if p (s ∷ ss) = (if p s then s.metric_value else 0) + sum_if p ss

unfoldable pub metric : Text → Text → Text → Key → List Snapshot → ℕ
metric slug window dimension k = sum_if (at_key slug window dimension k)

pub sum_if-append :
    (p : Snapshot → Bool) (xs ys : List Snapshot) → sum_if p (xs ++ ys) ≡ sum_if p xs + sum_if p ys
unfolding sum_if
sum_if-append p [] ys = omega arith
sum_if-append p (x ∷ xs) ys = omega (arith, sum_if-append p xs ys)

-- A row of a bucket in the range of the `DELETE` lies in that range.
in_range_of_at_key :
    (slug window dimension : Text) (lo hi : Time) (k : Key) (s : Snapshot)
    → lo ≤ k.0
    → k.0 < hi
    → at_key slug window dimension k s ≡ true
    → in_range slug window lo hi s ≡ true
unfolding at_key in_range same_key
in_range_of_at_key slug window dimension lo hi k s h h' e = ground arith

-- A row of another bucket, or of another report or window, does not.
not-in_range_of_at_key :
    (slug window slug' window' dimension : Text) (lo hi : Time) (k : Key) (s : Snapshot)
    → (k.0 < lo) ⊎ (hi ≤ k.0) ⊎ (slug' ≢ slug) ⊎ (window' ≢ window)
    → at_key slug' window' dimension k s ≡ true
    → in_range slug window lo hi s ≡ false
unfolding at_key in_range same_key
not-in_range_of_at_key slug window slug' window' dimension lo hi k s h e = ground (
  arith,
  eq_of_=ₜ s.report_slug slug,
  eq_of_=ₜ s.report_slug slug',
  eq_of_=ₜ s.window_name window,
  eq_of_=ₜ s.window_name window',
)

pub metric_deleted :
    (slug window dimension : Text) (lo hi : Time) (k : Key) (rows : List Snapshot)
    → lo ≤ k.0
    → k.0 < hi
    → metric slug window dimension k (keep (λ s. not (in_range slug window lo hi s)) rows) ≡ 0
unfolding metric sum_if keep
metric_deleted slug window dimension lo hi k [] h h' = refl
metric_deleted slug window dimension lo hi k (s ∷ rows) h h' = ground (
  arith,
  in_range_of_at_key slug window dimension lo hi k s h h',
  metric_deleted slug window dimension lo hi k rows h h',
)

pub metric_kept :
    (slug window slug' window' dimension : Text) (lo hi : Time) (k : Key) (rows : List Snapshot)
    → (k.0 < lo) ⊎ (hi ≤ k.0) ⊎ (slug' ≢ slug) ⊎ (window' ≢ window)
    → metric slug' window' dimension k (keep (λ s. not (in_range slug window lo hi s)) rows)
      ≡ metric slug' window' dimension k rows
unfolding metric sum_if keep
metric_kept slug window slug' window' dimension lo hi k [] h = refl
metric_kept slug window slug' window' dimension lo hi k (s ∷ rows) h = ground (
  arith,
  not-in_range_of_at_key slug window slug' window' dimension lo hi k s h,
  metric_kept slug window slug' window' dimension lo hi k rows h,
)

-- The new rows of a report hold the counts of their groups.
pub metric_inserted :
    (report : Report) (window run_id : Text) (k : Key) (gs : List (Key × ℕ))
    → metric
        (report_slug_text report)
        window
        (dimension_key_of report)
        k
        (map (to_snapshot report window run_id) gs)
      ≡ grouped k gs
unfolding metric sum_if grouped to_snapshot at_key
metric_inserted report window run_id k [] = refl
metric_inserted report window run_id k (g ∷ gs) = ground (
  arith,
  =ₜ_refl (report_slug_text report),
  =ₜ_refl window,
  =ₜ_refl (dimension_key_of report),
  =ₜ_refl event_count,
  metric_inserted report window run_id k gs,
)

-- They say nothing of other reports and windows.
pub metric_inserted_other :
    (report : Report) (slug window window' dimension run_id : Text) (k : Key) (gs : List (Key × ℕ))
    → (slug ≢ report_slug_text report) ⊎ (window' ≢ window)
    → metric slug window' dimension k (map (to_snapshot report window run_id) gs) ≡ 0
unfolding metric sum_if to_snapshot at_key
metric_inserted_other report slug window window' dimension run_id k [] h = refl
metric_inserted_other report slug window window' dimension run_id k (g ∷ gs) h = ground (
  arith,
  eq_of_=ₜ (report_slug_text report) slug,
  eq_of_=ₜ window window',
  metric_inserted_other report slug window window' dimension run_id k gs h,
)
