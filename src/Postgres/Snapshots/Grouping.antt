-- ===== src/Postgres/Snapshots/Grouping.antt =====
-- `GROUP BY` counts each key as often as it stands in the selected rows, in one group for each.
use pg_analytics_service.Prelude.{
  ℕ, ◌+◌, ◌≡◌, refl, Bool, true, List, [], ◌∷◌, if◌then◌else◌, eq_of_=ₜ, =ₜ_refl, arith, count_if,
  any,
}
use pg_analytics_service.Postgres.Snapshots.{Key, same_key, tally, group}

pub eq_of_same_key : (a b : Key) → same_key a b ≡ true → a ≡ b
unfolding same_key
eq_of_same_key a b h = ground (arith, eq_of_=ₜ a.1 b.1)

pub same_key_refl : (a : Key) → same_key a a ≡ true
unfolding same_key
same_key_refl a = ground (arith, =ₜ_refl a.1)

-- The count that a list of groups holds for a key.
unfoldable pub grouped : Key → List (Key × ℕ) → ℕ
grouped k [] = 0
grouped k ((j, n) ∷ gs) = (if same_key j k then n else 0) + grouped k gs

grouped-tally :
    (k j : Key) (gs : List (Key × ℕ))
    → grouped k (tally j gs) ≡ (if same_key j k then 1 else 0) + grouped k gs
unfolding grouped tally
grouped-tally k j [] = refl
grouped-tally k j ((i, n) ∷ gs) =
    ground (arith, grouped-tally k j gs, eq_of_same_key j i, eq_of_same_key i k, eq_of_same_key j k)

pub grouped-group :
    (k : Key) (ks : List Key) → grouped k (group ks) ≡ count_if (λ j. same_key j k) ks
unfolding group grouped count_if
grouped-group k [] = refl
grouped-group k (j ∷ ks) = ground (arith, grouped-tally k j (group ks), grouped-group k ks)

-- No key has two groups.
abbrev pub has_key : Key → List (Key × ℕ) → Bool
has_key k gs = any (λ g. same_key k g.0) gs
