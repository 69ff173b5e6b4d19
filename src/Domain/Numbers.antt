-- ===== src/Domain/Numbers.antt =====
-- Decimal numbers: `%d` of Go's fmt, and `strconv.Atoi` and `strconv.ParseInt(s, 10, 64)`, which accept
-- the same texts on a 64-bit machine.
use pg_analytics_service.Prelude.{
  ◌≢◌, ℕ, zero, suc, ◌+◌, ◌-◌, ◌*◌, ◌/◌, ◌%◌, ◌^◌, ◌≤◌, ◌<◌, ◌≡◌, refl, ap, ◌∙◌, Bool-cases, inl,
  inr, ◌&&◌, Option, none, some, [], ◌∷◌, ◌++◌, ltb, leb, ◌==◌, if◌then◌else◌, arith, Text, ℤ, pos,
  negsuc,
}

unfoldable pub digit : ℕ → ℕ
digit n = b'0' + n % 10

-- `%d` of a number, with fuel for its digits.
unfoldable pub decimal_fuel : ℕ → ℕ → Text
unfolding digit
decimal_fuel zero n = []
decimal_fuel (suc f) n =
    let rest = decimal_fuel f (n / 10) ++ digit n ∷ [] in if ltb n 10 then digit n ∷ [] else rest

unfoldable pub decimal : ℕ → Text
unfolding decimal_fuel
decimal n = decimal_fuel (suc n) n

unfoldable pub decimal_ℤ : ℤ → Text
unfolding decimal
decimal_ℤ (pos n) = decimal n
decimal_ℤ (negsuc n) = b'-' ∷ decimal (suc n)

-- The largest `int64`.
abbrev pub max_int64 : ℕ
max_int64 = 2 ^ 63 - 1

-- The loop over the digits.
unfoldable pub scan_digits : Text → ℕ → Option ℕ
scan_digits [] n = some n
scan_digits (c ∷ s) n =
    let rest = scan_digits s (n * 10 + (c - b'0')) in
    if leb b'0' c && leb c b'9' then rest else none

unfoldable pub scan_number : Text → Option ℕ
unfolding scan_digits
scan_number [] = none
scan_number (c ∷ s) = scan_digits (c ∷ s) 0

abbrev in_range_pos : Option ℕ → Option ℤ
in_range_pos none = none
in_range_pos (some n) = if leb n max_int64 then some (pos n) else none

abbrev in_range_neg : Option ℕ → Option ℤ
in_range_neg none = none
in_range_neg (some zero) = some (pos 0)
in_range_neg (some (suc n)) = if leb n max_int64 then some (negsuc n) else none

-- `none` is any error.
unfoldable pub parse_int : Text → Option ℤ
unfolding scan_number
parse_int [] = none
parse_int (c ∷ s) =
    if c == b'-'
    then in_range_neg (scan_number s)
    else if c == b'+'
    then in_range_pos (scan_number s)
    else in_range_pos (scan_number (c ∷ s))

scan_digits-snoc :
    (s : Text) (n m d : ℕ)
    → scan_digits s n ≡ some m
    → d < 10
    → scan_digits (s ++ (b'0' + d) ∷ []) n ≡ some (m * 10 + d)
unfolding scan_digits
scan_digits-snoc [] n m d e h = ground arith
scan_digits-snoc (c ∷ s) n m d e h = ground (arith, scan_digits-snoc s (n * 10 + (c - b'0')) m d)

snoc_ne_nil : (s : Text) (d : ℕ) → s ++ d ∷ [] ≢ []
snoc_ne_nil [] d e = cc
snoc_ne_nil (c ∷ s) d e = cc

scan-decimal_fuel : (f n : ℕ) → n < f → scan_digits (decimal_fuel f n) 0 ≡ some n
unfolding decimal_fuel digit scan_digits
scan-decimal_fuel zero n h = absurd (omega arith)
scan-decimal_fuel (suc f) n h = elim (Bool-cases (ltb n 10)) [
  | inl small ↦
      rw small (scan_digits-snoc [] 0 0 (n % 10) refl (omega arith) ∙ ap some (ground arith))
  | inr large ↦ rw large (
      scan_digits-snoc (decimal_fuel f (n / 10)) 0 (n / 10) (n % 10)
        (scan-decimal_fuel f (n / 10) (ground arith)) (omega arith)
      ∙ ap some (omega arith))
]

decimal-ne-nil : (n : ℕ) → decimal n ≢ []
unfolding decimal decimal_fuel
decimal-ne-nil n e = elim (Bool-cases (ltb n 10)) [
  | inl small ↦ cc (rw small at e)
  | inr large ↦ snoc_ne_nil (decimal_fuel n (n / 10)) (digit n) (rw large at e)
]

parse_int-scan :
    (s : Text) (n : ℕ)
    → s ≢ []
    → scan_digits s 0 ≡ some n
    → n ≤ max_int64
    → parse_int s ≡ some (pos n)
unfolding parse_int scan_digits
parse_int-scan [] n h e b = absurd (h refl)
parse_int-scan (c ∷ s) n h e b = ground arith

-- A number that `%d` prints is read back.
pub parse_int-decimal : (n : ℕ) → n ≤ max_int64 → parse_int (decimal n) ≡ some (pos n)
unfolding decimal
parse_int-decimal n b =
    parse_int-scan (decimal n) n (decimal-ne-nil n) (scan-decimal_fuel (suc n) n (omega arith)) b

-- So numbers with one text are equal.
pub decimal-injective : (m n : ℕ) → decimal m ≡ decimal n → m ≡ n
unfolding decimal
decimal-injective m n e =
    cc (scan-decimal_fuel (suc m) m (omega arith), scan-decimal_fuel (suc n) n (omega arith))
