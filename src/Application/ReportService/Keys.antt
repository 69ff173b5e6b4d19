-- ===== src/Application/ReportService/Keys.antt =====
-- The keys of the cache: what two of them have in common when they are equal.
use pg_analytics_service.Prelude.{
  ℕ, zero, suc, ◌/◌, ◌<◌, ◌≡◌, refl, inl, inr, Bool-cases, ltb, All, All-append, ap, sym, ◌∙◌, [],
  ◌∷◌, ◌++◌, length, length-append, Text, codes, pos, arith,
}
use mathlib.Core.List.{append_assoc}
use pg_analytics_service.Domain.Numbers.{digit, decimal_fuel, decimal, decimal_ℤ, decimal-injective}
use pg_analytics_service.Application.ReportService.{key_text}

pub append-cancel : (a : Text) {b c : Text} → a ++ b ≡ a ++ c → b ≡ c
append-cancel [] h = h
append-cancel (x ∷ a) h = append-cancel a (cc h)

-- Lists that end in tails of one length fall into equal parts.
append-injective :
    (a b : Text) {c d : Text} → length c ≡ length d → a ++ c ≡ b ++ d → (a ≡ b) × (c ≡ d)
append-injective [] [] e h = (refl, h)
append-injective [] (y ∷ b) {c} {d} e h = absurd (omega (arith, e, ap length h, length-append b d))
append-injective (x ∷ a) [] {c} {d} e h = absurd (omega (arith, e, ap length h, length-append a c))
append-injective (x ∷ a) (y ∷ b) {c} {d} e h = (
  cc (h, (append-injective a b {c = c} {d = d} e (cc h)).0),
  (append-injective a b {c = c} {d = d} e (cc h)).1,
)

-- Two cache keys of one report, with digests of one length, as those of SHA-256 are, are equal only
-- for the same version and the same digest: after `BumpVersion` no entry of an earlier version is found.
pub key_text-injective :
    (slug : Text) (m n : ℕ) (c d : Text)
    → length c ≡ length d
    → key_text slug (pos m) c ≡ key_text slug (pos n) d
    → (m ≡ n) × (c ≡ d)
unfolding key_text decimal_ℤ
key_text-injective slug m n c d e h =
    (decimal-injective m n parts.0, append-cancel (codes ":") parts.1)
  where
    numbers : decimal m ++ (codes ":" ++ c) ≡ decimal n ++ (codes ":" ++ d)
    numbers = append-cancel (codes ":v") (append-cancel slug (append-cancel (codes "report:") h))

    parts : (decimal m ≡ decimal n) × (codes ":" ++ c ≡ codes ":" ++ d)
    parts =
        append-injective (decimal m) (decimal n)
          (length-append (codes ":") c ∙ (rw e (sym (length-append (codes ":") d)))) numbers

no_mark : (mark : ℕ) (b p q : Text) → All (λ c. c < mark) p → p ≡ b ++ mark ∷ q → ⊥
no_mark mark [] [] q h e = cc e
no_mark mark [] (x ∷ p) q h e = let same : x ≡ mark = cc e in omega (arith, same, h.0)
no_mark mark (y ∷ b) [] q h e = cc e
no_mark mark (y ∷ b) (x ∷ p) q h e = no_mark mark b p q h.1 (cc e)

-- A mark that neither tail has splits two equal texts alike.
last_mark :
    (mark : ℕ) (a b p q : Text)
    → All (λ c. c < mark) p
    → All (λ c. c < mark) q
    → a ++ mark ∷ p ≡ b ++ mark ∷ q
    → (a ≡ b) × (p ≡ q)
last_mark mark [] [] p q hp hq e = (refl, cc e)
last_mark mark [] (y ∷ b) p q hp hq e = absurd (no_mark mark b p q hp (cc e))
last_mark mark (x ∷ a) [] p q hp hq e = absurd (no_mark mark a q p hq (cc e))
last_mark mark (x ∷ a) (y ∷ b) p q hp hq e =
    let r = last_mark mark a b p q hp hq (cc e) in (cc (e, r.0), r.1)

-- The digits stand before `v` in ASCII.
decimal_fuel-digits : (f n : ℕ) → All (λ c. c < b'v') (decimal_fuel f n)
unfolding decimal_fuel digit
decimal_fuel-digits zero n = tt
decimal_fuel-digits (suc f) n = elim (Bool-cases (ltb n 10)) [
  | inl small ↦ rw small (omega arith, tt)
  | inr large ↦ rw large (
      All-append (λ c. c < b'v') (decimal_fuel f (n / 10)) (digit n ∷ [])
        (decimal_fuel-digits f (n / 10)) (omega arith, tt))
]

-- Two cache keys with digests of one length, as those of SHA-256 are, are equal only for one report, one
-- version and one digest.
pub key_text-determines :
    (slug other : Text) (m n : ℕ) (c d : Text)
    → length c ≡ length d
    → key_text slug (pos m) c ≡ key_text other (pos n) d
    → (slug ≡ other) × (m ≡ n) × (c ≡ d)
unfolding key_text decimal_ℤ codes decimal
key_text-determines slug other m n c d e h =
    let ends =
      append-injective (front slug m) (front other n) {c = b':' ∷ c} {d = b':' ∷ d} (ap suc e)
        (regrouped slug m c ∙ (append-cancel (codes "report:") h ∙ sym (regrouped other n d))) in
    let split =
      last_mark b'v' (slug ++ b':' ∷ []) (other ++ b':' ∷ []) (decimal m) (decimal n)
        (decimal_fuel-digits (suc m) m) (decimal_fuel-digits (suc n) n)
        (append_assoc slug (b':' ∷ []) (b'v' ∷ decimal m)
          ∙ (ends.0 ∙ sym (append_assoc other (b':' ∷ []) (b'v' ∷ decimal n)))) in
    (
      (append-injective slug other {c = b':' ∷ []} {d = b':' ∷ []} refl split.0).0,
      decimal-injective m n split.1,
      cc ends.1,
    )
  where
    front : Text → ℕ → Text
    front slug m = slug ++ b':' ∷ b'v' ∷ decimal m

    regrouped :
        (slug : Text) (m : ℕ) (c : Text)
        → front slug m ++ b':' ∷ c ≡ slug ++ (b':' ∷ b'v' ∷ (decimal m ++ b':' ∷ c))
    regrouped slug m c = append_assoc slug (b':' ∷ b'v' ∷ decimal m) (b':' ∷ c)
