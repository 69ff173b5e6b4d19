-- ===== src/Prelude/Texts.antt =====
-- Go strings as lists of bytes. `codes` writes a literal (ASCII only), and stays shut, so that a
-- goal shows the literal.
use Prim.Native.Nat.{ℕ}
use Prim.Native.Char.{code}
use Prim.Native.String.{String}
use mathlib.Core.Path.{◌≡◌, refl}
use mathlib.Core.Logic.{◌↔◌}
use mathlib.Core.Bool.{Bool, true, false, ◌&&◌}
use mathlib.Core.List.{List, [], ◌∷◌}
use native.Mathlib.Omega.{arith}
use pg_analytics_service.Prelude.Tests.{◌==◌}

abbrev pub Text : Type 0
Text = List ℕ

unfoldable pub codes : String → Text
codes String.[] = []
codes (String.◌∷◌ c s) = code c ∷ codes s

-- `s == t` on strings.
infix 50 ◌=ₜ◌
unfoldable pub ◌=ₜ◌ : Text → Text → Bool
◌=ₜ◌ [] [] = true
◌=ₜ◌ (x ∷ xs) (y ∷ ys) = (x == y) && (xs =ₜ ys)
◌=ₜ◌ _ _ = false

pub eq_of_=ₜ : (s t : Text) → (s =ₜ t) ≡ true → s ≡ t
unfolding ◌=ₜ◌
eq_of_=ₜ [] [] h = refl
eq_of_=ₜ [] (y ∷ ys) h = cc
eq_of_=ₜ (x ∷ xs) [] h = cc
eq_of_=ₜ (x ∷ xs) (y ∷ ys) h = ground (arith, eq_of_=ₜ xs ys)

pub =ₜ_refl : (s : Text) → (s =ₜ s) ≡ true
unfolding ◌=ₜ◌
=ₜ_refl [] = refl
=ₜ_refl (x ∷ xs) = ground (arith, =ₜ_refl xs)

pub =ₜ_iff : (s t : Text) → ((s =ₜ t) ≡ true) ↔ (s ≡ t)
=ₜ_iff s t = (eq_of_=ₜ s t, λ e. rw e (=ₜ_refl t))

pub =ₜ_sym : (s t : Text) → (s =ₜ t) ≡ (t =ₜ s)
unfolding ◌=ₜ◌
=ₜ_sym [] [] = refl
=ₜ_sym [] (y ∷ ys) = refl
=ₜ_sym (x ∷ xs) [] = refl
=ₜ_sym (x ∷ xs) (y ∷ ys) = ground (arith, =ₜ_sym xs ys)
