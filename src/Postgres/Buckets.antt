-- ===== src/Postgres/Buckets.antt =====
-- `date_trunc` and the ranges that a recomputation deletes and rebuilds.
use pg_analytics_service.Prelude.{
  ℕ, ◌+◌, ◌-◌, ◌%◌, ◌≤◌, ◌<◌, ◌≡◌, refl, ◌⊎◌, inl, inr, true, false, not, ◌&&◌, List, [], ◌∷◌, ◌++◌,
  map, leb, ltb, if◌then◌else◌, Bool-cases, Text, eq_of_=ₜ, =ₜ_refl, arith, keep, any, All,
}
use pg_analytics_service.Domain.Models.{Time, day_ns, window_day, window_week}
use pg_analytics_service.Postgres.Database.{Source, Event, Snapshot}
use pg_analytics_service.Postgres.Snapshots.{
  DateTrunc, width, Report, Key, in_range, report_slug_text, dimension_values, selected,
  to_snapshot, conflicts, tally, group,
}
use pg_analytics_service.Postgres.Snapshots.Unique.{AreFresh}

-- What the documentation of Postgres says of `date_trunc('day' | 'week', …)` in a session whose
-- time zone is UTC.
pub record TruncLaws (trunc : DateTrunc) : Type 0 where
  pub trunc_le : (w : Text) (t : Time) → (w ≡ window_day) ⊎ (w ≡ window_week) → trunc w t ≤ t
  pub lt_trunc_add :
      (w : Text) (t : Time) → (w ≡ window_day) ⊎ (w ≡ window_week) → t < trunc w t + width w
  pub trunc_mono :
      (w : Text) (s t : Time) → (w ≡ window_day) ⊎ (w ≡ window_week) → s ≤ t → trunc w s ≤ trunc w t
  pub trunc_day : (t : Time) → trunc window_day t ≡ t - t % day_ns

abbrev pub IsWindow : Text → Type 0
IsWindow w = (w ≡ window_day) ⊎ (w ≡ window_week)

pub width_pos : (w : Text) → 0 < width w
unfolding width
width_pos w = ground arith

-- A key of a bucket between two instants.
abbrev pub InBuckets : Time → Time → Key → Type 0
InBuckets lo hi k = (lo ≤ k.0) × (k.0 < hi)

pub All-append : (P : Key → Type 0) (xs ys : List Key) → All P xs → All P ys → All P (xs ++ ys)
All-append P [] ys p q = q
All-append P (x ∷ xs) ys p q = (p.0, All-append P xs ys p.1 q)

All-map_pair :
    (P : Key → Type 0) (b : Time) (vs : List Text)
    → ((v : Text) → P (b, v))
    → All P (map (λ v. (b, v)) vs)
All-map_pair P b [] h = tt
All-map_pair P b (v ∷ vs) h = (h v, All-map_pair P b vs h)

module _ (trunc : DateTrunc) (laws : TruncLaws trunc) (window : Text)
    (is_window : IsWindow window) where
  bounds :
      (from to : Time) (e : Event)
      → (leb from e.occurred_at && ltb e.occurred_at to) ≡ true
      → (trunc window from ≤ trunc window e.occurred_at)
        × (trunc window e.occurred_at < trunc window to + width window)
  bounds from to e h = ground (
    arith,
    laws.trunc_mono window from e.occurred_at is_window,
    laws.trunc_mono window e.occurred_at to is_window,
    width_pos window,
  )

  event_key :
      (report : Report) (from to : Time) (sources : List Source) (e : Event)
      → All (InBuckets (trunc window from) (trunc window to + width window)) (
          if leb from e.occurred_at && ltb e.occurred_at to
          then map (λ v. (trunc window e.occurred_at, v)) (dimension_values report sources e)
          else [])
  event_key report from to sources e =
      elim (Bool-cases (leb from e.occurred_at && ltb e.occurred_at to)) [
        | inl h ↦
            rw h (All-map_pair _ _ (dimension_values report sources e) λ v. bounds from to e h)
        | inr h ↦ rw h tt
      ]

  pub selected-InBuckets :
      (report : Report) (from to : Time) (sources : List Source) (es : List Event)
      → All
          (InBuckets (trunc window from) (trunc window to + width window))
          (selected trunc report window from to sources es)
  unfolding selected
  selected-InBuckets report from to sources [] = tt
  selected-InBuckets report from to sources (e ∷ es) =
      All-append _ _ _ (event_key report from to sources e)
        (selected-InBuckets report from to sources es)

tally-InBuckets :
    (lo hi : Time) (k : Key) (gs : List (Key × ℕ))
    → InBuckets lo hi k
    → All (λ (g : Key × ℕ). InBuckets lo hi g.0) gs
    → All (λ (g : Key × ℕ). InBuckets lo hi g.0) (tally k gs)
unfolding tally
tally-InBuckets lo hi k [] h a = (h, tt)
tally-InBuckets lo hi k ((j, n) ∷ gs) h a = ground (arith, tally-InBuckets lo hi k gs h a.1)

pub group-InBuckets :
    (lo hi : Time) (ks : List Key)
    → All (InBuckets lo hi) ks
    → All (λ (g : Key × ℕ). InBuckets lo hi g.0) (group ks)
unfolding group
group-InBuckets lo hi [] a = tt
group-InBuckets lo hi (k ∷ ks) a =
    tally-InBuckets lo hi k (group ks) a.0 (group-InBuckets lo hi ks a.1)

module _ (report : Report) (window run_id : Text) (lo hi : Time) where
  fresh_one :
      (g : Key × ℕ) (rows : List Snapshot)
      → InBuckets lo hi g.0
      → any
          (conflicts (to_snapshot report window run_id g))
          (keep (λ s. not (in_range (report_slug_text report) window lo hi s)) rows)
        ≡ false
  unfolding any keep conflicts to_snapshot in_range
  fresh_one g [] h = refl
  fresh_one g (s ∷ rows) h = ground (
    arith,
    fresh_one g rows h,
    eq_of_=ₜ (report_slug_text report) s.report_slug,
    eq_of_=ₜ window s.window_name,
    =ₜ_refl (report_slug_text report),
    =ₜ_refl window,
  )

  -- Rows of buckets in the deleted range clash with no row that the `DELETE` left.
  pub AreFresh-deleted :
      (gs : List (Key × ℕ)) (rows : List Snapshot)
      → All (λ (g : Key × ℕ). InBuckets lo hi g.0) gs
      → AreFresh
          (keep (λ s. not (in_range (report_slug_text report) window lo hi s)) rows)
          (map (to_snapshot report window run_id) gs)
  AreFresh-deleted [] rows a = tt
  AreFresh-deleted (g ∷ gs) rows a = (fresh_one g rows a.0, AreFresh-deleted gs rows a.1)
