-- ===== src/Postgres/Reports/Sums.antt =====
-- The sums of a report query against the table: one row for each key, its sum, in order.
use pg_analytics_service.Prelude.{
  ℕ, ◌+◌, ◌≡◌, refl, ◌∙◌, Bool, true, false, ◌&&◌, ◌||◌, List, [], ◌∷◌, keep, any, if◌then◌else◌,
  Text, IsTotal, insert_row, sort_rows, IsSortedBy, sort_rows-IsSortedBy, arith,
}
use pg_analytics_service.Domain.Models.{ReportRunParams}
use pg_analytics_service.Postgres.Database.{Snapshot}
use pg_analytics_service.Postgres.Snapshots.{Report, Key, same_key}
use pg_analytics_service.Postgres.Snapshots.Grouping.{
  grouped, eq_of_same_key, same_key_refl, has_key,
}
use pg_analytics_service.Postgres.Snapshots.Metrics.{sum_if}
use pg_analytics_service.Postgres.Reports.{
  Sum, Grouping, by_day_and_value, by_day, by_value, group_key, add_to, sum_groups, selects,
  report_sums, order_of, by_key_order, by_count_order,
}

-- No key has two rows.
abbrev pub HaveDistinctKeys : List Sum → Type 0
HaveDistinctKeys [] = Unit {0}
HaveDistinctKeys (g ∷ gs) = (has_key g.0 gs ≡ false) × HaveDistinctKeys gs

-- The key of a row of the table.
abbrev pub key_of : Grouping → Snapshot → Key
key_of by s = group_key by s.bucket_start s.dimension_value

grouped-add_to :
    (k j : Key) (n : ℕ) (gs : List Sum)
    → grouped k (add_to j n gs) ≡ (if same_key j k then n else 0) + grouped k gs
unfolding grouped add_to
grouped-add_to k j n [] = refl
grouped-add_to k j n ((i, m) ∷ gs) =
    ground
      (arith, grouped-add_to k j n gs, eq_of_same_key j i, eq_of_same_key i k, eq_of_same_key j k)

pub grouped-sum_groups :
    (by : Grouping) (k : Key) (p : Snapshot → Bool) (ss : List Snapshot)
    → grouped k (sum_groups by (keep p ss)) ≡ sum_if (λ s. p s && same_key (key_of by s) k) ss
unfolding sum_groups grouped sum_if keep
grouped-sum_groups by k p [] = refl
grouped-sum_groups by k p (s ∷ ss) = ground (
  arith,
  grouped-add_to k (key_of by s) s.metric_value (sum_groups by (keep p ss)),
  grouped-sum_groups by k p ss,
)

grouped-insert_row :
    (le : Sum → Sum → Bool) (k : Key) (g : Sum) (gs : List Sum)
    → grouped k (insert_row le g gs) ≡ grouped k (g ∷ gs)
unfolding grouped insert_row
grouped-insert_row le k (j, n) [] = refl
grouped-insert_row le k (j, n) ((i, m) ∷ gs) = ground (arith, grouped-insert_row le k (j, n) gs)

pub grouped-sort_rows :
    (le : Sum → Sum → Bool) (k : Key) (gs : List Sum) → grouped k (sort_rows le gs) ≡ grouped k gs
unfolding grouped sort_rows
grouped-sort_rows le k [] = refl
grouped-sort_rows le k ((j, n) ∷ gs) =
    ground (arith, grouped-insert_row le k (j, n) (sort_rows le gs), grouped-sort_rows le k gs)

has_key-add_to :
    (k j : Key) (n : ℕ) (gs : List Sum) → has_key k (add_to j n gs) ≡ (same_key k j || has_key k gs)
unfolding any add_to
has_key-add_to k j n [] = refl
has_key-add_to k j n ((i, m) ∷ gs) = ground (arith, has_key-add_to k j n gs, eq_of_same_key j i)

add_to-HaveDistinctKeys :
    (j : Key) (n : ℕ) (gs : List Sum) → HaveDistinctKeys gs → HaveDistinctKeys (add_to j n gs)
unfolding add_to any
add_to-HaveDistinctKeys j n [] h = (refl, tt)
add_to-HaveDistinctKeys j n ((i, m) ∷ gs) h = ground (
  arith,
  has_key-add_to i j n gs,
  eq_of_same_key i j,
  same_key_refl i,
  add_to-HaveDistinctKeys j n gs h.1,
)

sum_groups-HaveDistinctKeys :
    (by : Grouping) (ss : List Snapshot) → HaveDistinctKeys (sum_groups by ss)
unfolding sum_groups
sum_groups-HaveDistinctKeys by [] = tt
sum_groups-HaveDistinctKeys by (s ∷ ss) =
    add_to-HaveDistinctKeys (key_of by s) s.metric_value (sum_groups by ss)
      (sum_groups-HaveDistinctKeys by ss)

has_key-insert_row :
    (le : Sum → Sum → Bool) (k : Key) (g : Sum) (gs : List Sum)
    → has_key k (insert_row le g gs) ≡ has_key k (g ∷ gs)
unfolding any insert_row
has_key-insert_row le k g [] = refl
has_key-insert_row le k g (h ∷ gs) = ground (arith, has_key-insert_row le k g gs)

same_key_sym : (a b : Key) → same_key a b ≡ true → same_key b a ≡ true
same_key_sym a b h = rw (eq_of_same_key a b h) (same_key_refl b)

insert_row-HaveDistinctKeys :
    (le : Sum → Sum → Bool) (g : Sum) (gs : List Sum)
    → HaveDistinctKeys (g ∷ gs)
    → HaveDistinctKeys (insert_row le g gs)
unfolding insert_row any
insert_row-HaveDistinctKeys le g [] h = h
insert_row-HaveDistinctKeys le g (x ∷ gs) h = ground (
  arith,
  has_key-insert_row le x.0 g gs,
  same_key_sym x.0 g.0,
  insert_row-HaveDistinctKeys le g gs,
)

has_key-sort_rows :
    (le : Sum → Sum → Bool) (k : Key) (gs : List Sum) → has_key k (sort_rows le gs) ≡ has_key k gs
unfolding any sort_rows
has_key-sort_rows le k [] = refl
has_key-sort_rows le k (g ∷ gs) =
    ground (arith, has_key-insert_row le k g (sort_rows le gs), has_key-sort_rows le k gs)

sort_rows-HaveDistinctKeys :
    (le : Sum → Sum → Bool) (gs : List Sum)
    → HaveDistinctKeys gs
    → HaveDistinctKeys (sort_rows le gs)
unfolding sort_rows
sort_rows-HaveDistinctKeys le [] h = tt
sort_rows-HaveDistinctKeys le (g ∷ gs) h =
    insert_row-HaveDistinctKeys le g (sort_rows le gs)
      (has_key-sort_rows le g.0 gs ∙ h.0, sort_rows-HaveDistinctKeys le gs h.1)

by_key_order-IsTotal :
    (collate : Text → Text → Bool) → IsTotal collate → IsTotal (by_key_order collate)
unfolding by_key_order
by_key_order-IsTotal collate total a b h = ground (arith, total a.0.1 b.0.1)

by_count_order-IsTotal :
    (collate : Text → Text → Bool) → IsTotal collate → IsTotal (by_count_order collate)
unfolding by_count_order
by_count_order-IsTotal collate total a b h = ground (arith, total a.0.1 b.0.1)

order_of-IsTotal :
    (collate : Text → Text → Bool)
    → IsTotal collate
    → (by : Grouping) → IsTotal (order_of collate by)
unfolding order_of
order_of-IsTotal collate total by_day_and_value = by_key_order-IsTotal collate total
order_of-IsTotal collate total by_day = by_key_order-IsTotal collate total
order_of-IsTotal collate total by_value = by_count_order-IsTotal collate total

module _ (collate : Text → Text → Bool) (report : Report) (by : Grouping) (params : ReportRunParams)
    (value : Text) (ss : List Snapshot) where
  pub report_sums-HaveDistinctKeys :
      HaveDistinctKeys (report_sums collate report by params value ss)
  unfolding report_sums
  report_sums-HaveDistinctKeys =
      sort_rows-HaveDistinctKeys (order_of collate by)
        (sum_groups by (keep (selects report params value) ss))
        (sum_groups-HaveDistinctKeys by (keep (selects report params value) ss))

  pub report_sums-IsSortedBy :
      IsTotal collate
      → IsSortedBy (order_of collate by) (report_sums collate report by params value ss)
  unfolding report_sums
  report_sums-IsSortedBy total =
      sort_rows-IsSortedBy (order_of collate by) _ (order_of-IsTotal collate total by)

  pub grouped-report_sums :
      (k : Key)
      → grouped k (report_sums collate report by params value ss)
        ≡ sum_if (λ s. selects report params value s && same_key (key_of by s) k) ss
  unfolding report_sums
  grouped-report_sums k =
      grouped-sort_rows (order_of collate by) k _
      ∙ grouped-sum_groups by k (selects report params value) ss
