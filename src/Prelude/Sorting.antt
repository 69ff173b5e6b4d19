-- ===== src/Prelude/Sorting.antt =====
-- Sorting by a Boolean order, as `ORDER BY` does: equal rows stay in the order of the table.
use Prim.Native.Nat.{ℕ, zero, suc, ◌≤◌}
use mathlib.Core.Path.{◌≡◌, refl}
use mathlib.Core.Bool.{Bool, true, false}
use mathlib.Core.List.{List, [], ◌∷◌}
use native.Mathlib.Omega.{arith}
use pg_analytics_service.Prelude.Tests.{if◌then◌else◌}
use pg_analytics_service.Prelude.Lists.{length, count_if, take, drop, All}

module _ {A : Type 0} where
  -- Before or level with, whichever way a pair stands.
  abbrev pub IsTotal : (A → A → Bool) → Type 0
  IsTotal le = (x y : A) → le x y ≡ false → le y x ≡ true

  -- No element stands after its successor.
  abbrev pub IsSortedBy : (A → A → Bool) → List A → Type 0
  IsSortedBy le [] = Unit {0}
  IsSortedBy le (x ∷ []) = Unit {0}
  IsSortedBy le (x ∷ y ∷ ys) = (le x y ≡ true) × IsSortedBy le (y ∷ ys)

  unfoldable pub insert_row : (A → A → Bool) → A → List A → List A
  insert_row le x [] = x ∷ []
  insert_row le x (y ∷ ys) = if le x y then x ∷ y ∷ ys else y ∷ insert_row le x ys

  unfoldable pub sort_rows : (A → A → Bool) → List A → List A
  unfolding insert_row
  sort_rows le [] = []
  sort_rows le (x ∷ xs) = insert_row le x (sort_rows le xs)

  -- What stands before `x ∷ ys` stands before the list with the row inserted.
  insert_row_after :
      (le : A → A → Bool) (x z : A) (ys : List A)
      → le z x ≡ true
      → IsSortedBy le (z ∷ ys)
      → IsTotal le
      → IsSortedBy le (z ∷ insert_row le x ys)
  unfolding insert_row
  insert_row_after le x z [] h s total = (h, tt)
  insert_row_after le x z (y ∷ ys) h s total = ground (arith, total x y, insert_row_after le x y ys)

  insert_row-IsSortedBy :
      (le : A → A → Bool) (x : A) (ys : List A)
      → IsTotal le
      → IsSortedBy le ys
      → IsSortedBy le (insert_row le x ys)
  unfolding insert_row
  insert_row-IsSortedBy le x [] total s = tt
  insert_row-IsSortedBy le x (y ∷ ys) total s =
      ground (arith, total x y, insert_row_after le x y ys)

  pub sort_rows-IsSortedBy :
      (le : A → A → Bool) (xs : List A) → IsTotal le → IsSortedBy le (sort_rows le xs)
  unfolding sort_rows
  sort_rows-IsSortedBy le [] total = tt
  sort_rows-IsSortedBy le (x ∷ xs) total =
      insert_row-IsSortedBy le x (sort_rows le xs) total (sort_rows-IsSortedBy le xs total)

  count_if-insert_row :
      (le : A → A → Bool) (p : A → Bool) (x : A) (ys : List A)
      → count_if p (insert_row le x ys) ≡ count_if p (x ∷ ys)
  unfolding insert_row count_if
  count_if-insert_row le p x [] = refl
  count_if-insert_row le p x (y ∷ ys) = ground (arith, count_if-insert_row le p x ys)

  -- Sorting loses and invents nothing, counted by any test.
  pub count_if-sort_rows :
      (le : A → A → Bool) (p : A → Bool) (xs : List A)
      → count_if p (sort_rows le xs) ≡ count_if p xs
  unfolding sort_rows count_if
  count_if-sort_rows le p [] = refl
  count_if-sort_rows le p (x ∷ xs) =
      omega (arith, count_if-insert_row le p x (sort_rows le xs), count_if-sort_rows le p xs)

  insert_row-All :
      (P : A → Type 0) (le : A → A → Bool) (x : A) (ys : List A)
      → P x
      → All P ys
      → All P (insert_row le x ys)
  unfolding insert_row
  insert_row-All P le x [] p a = (p, tt)
  insert_row-All P le x (y ∷ ys) p a = ground (arith, insert_row-All P le x ys p a.1)

  pub sort_rows-All :
      (P : A → Type 0) (le : A → A → Bool) (xs : List A) → All P xs → All P (sort_rows le xs)
  unfolding sort_rows
  sort_rows-All P le [] a = tt
  sort_rows-All P le (x ∷ xs) a =
      insert_row-All P le x (sort_rows le xs) a.0 (sort_rows-All P le xs a.1)

  pub take-All : (P : A → Type 0) (n : ℕ) (xs : List A) → All P xs → All P (take n xs)
  take-All P zero xs a = tt
  take-All P (suc n) [] a = tt
  take-All P (suc n) (x ∷ xs) a = (a.0, take-All P n xs a.1)

  pub drop-All : (P : A → Type 0) (n : ℕ) (xs : List A) → All P xs → All P (drop n xs)
  drop-All P zero xs a = a
  drop-All P (suc n) [] a = tt
  drop-All P (suc n) (x ∷ xs) a = drop-All P n xs a.1

  pub length-take : (n : ℕ) (xs : List A) → length (take n xs) ≤ n
  length-take zero xs = omega arith
  length-take (suc n) [] = omega arith
  length-take (suc n) (x ∷ xs) = omega (arith, length-take n xs)
