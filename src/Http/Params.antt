-- ===== src/Http/Params.antt =====
-- `parseIntWithDefault`, `normalizeWindow` and `parseDateRangeWithValues` of internal/http/handlers.go.
use pg_analytics_service.Prelude.{
  ℕ, ◌-◌, ◌*◌, ◌%◌, ◌≤◌, ◌<◌, ◌≡◌, ◌⊎◌, inl, inr, Option, none, some, Option-cases, [], ltb,
  if◌then◌else◌, Text, codes, ◌=ₜ◌, =ₜ_iff, ℤ, arith,
}
use pg_analytics_service.Domain.Errors.{err_code_invalid, new_app_error}
use pg_analytics_service.Domain.Models.{Time, day_ns, window_day}
use pg_analytics_service.Domain.Numbers.{parse_int}
use pg_analytics_service.Domain.Calendar.{parse_date}
use pg_analytics_service.Effects.{Result, ok, err}
use pg_analytics_service.Strings.{trim_space, to_lower}

abbrev int_or : ℤ → Option ℤ → ℤ
int_or fallback none = fallback
int_or fallback (some n) = n

unfoldable pub parse_int_with_default : Text → ℤ → ℤ
parse_int_with_default raw fallback =
    if trim_space raw =ₜ [] then fallback else int_or fallback (parse_int raw)

unfoldable pub normalize_window : Text → Text
normalize_window raw =
    let window = trim_space (to_lower raw) in if window =ₜ [] then window_day else window

abbrev date_error : Text → Result (Time × Time)
date_error message = err (new_app_error err_code_invalid message)

-- `t.AddDate(0, 0, -(days - 1))` in UTC.
unfoldable pub days_before : ℕ → Time → Time
days_before days t = t - (days - 1) * day_ns

unfoldable pub check_order : Time → Time → Result (Time × Time)
check_order from to =
    if ltb to from
    then date_error (codes "date_from must be on or before date_to")
    else ok (from, to)

-- The range once both texts are read: an empty `from` counts back from `to`.
unfoldable pub date_from_or : ℕ → Text → Time → Result (Time × Time)
unfolding check_order days_before
date_from_or days raw_from to =
    if trim_space raw_from =ₜ []
    then check_order (days_before days to) to
    else elim (parse_date raw_from) [
      | none ↦ date_error (codes "date_from must use YYYY-MM-DD format")
      | some from ↦ check_order from to
    ]

-- `now` is `time.Now().UTC()`. With an empty `rawTo` the range ends today.
unfoldable pub parse_date_range_with_values : ℕ → Time → Text → Text → Result (Time × Time)
unfolding date_from_or
parse_date_range_with_values days now raw_from raw_to =
    if trim_space raw_to =ₜ []
    then date_from_or days raw_from (now - now % day_ns)
    else elim (parse_date raw_to) [
      | none ↦ date_error (codes "date_to must use YYYY-MM-DD format")
      | some to ↦ date_from_or days raw_from to
    ]

-- What a text stands for in an accepted range: an instant that it parses to, or nothing.
abbrev pub Given : Text → Time → Type 0
Given raw t = (trim_space raw ≡ []) ⊎ (parse_date raw ≡ some t)

date_from_or-ordered :
    (days : ℕ) (raw_from : Text) (end from to : Time)
    → date_from_or days raw_from end ≡ ok (from, to)
    → (from ≤ to) × (to ≡ end) × Given raw_from from
unfolding date_from_or check_order
date_from_or-ordered days raw_from end from to h = ground (arith, =ₜ_iff (trim_space raw_from) [])

-- An accepted range is in order, and each end that the request names is the date that it names.
pub parse_date_range-ordered :
    (days : ℕ) (now : Time) (raw_from raw_to : Text) (from to : Time)
    → parse_date_range_with_values days now raw_from raw_to ≡ ok (from, to)
    → (from ≤ to) × Given raw_from from × Given raw_to to
unfolding parse_date_range_with_values
parse_date_range-ordered days now raw_from raw_to from to h =
    elim (Option-cases (parse_date raw_to)) [
      | inl none_parsed ↦ ground (
        arith,
        =ₜ_iff (trim_space raw_to) [],
        date_from_or-ordered days raw_from (now - now % day_ns) from to,
      )
      | inr (end, parsed) ↦ ground (
        arith,
        =ₜ_iff (trim_space raw_to) [],
        date_from_or-ordered days raw_from (now - now % day_ns) from to,
        date_from_or-ordered days raw_from end from to,
      )
    ]

-- Without dates, a request is for the last `defaultDays` days, today included.
pub parse_date_range-default :
    (days : ℕ) (now : Time)
    → 0 < days
    → parse_date_range_with_values days now [] []
      ≡ ok (now - now % day_ns - (days - 1) * day_ns, now - now % day_ns)
unfolding parse_date_range_with_values date_from_or check_order days_before trim_space ◌=ₜ◌
parse_date_range-default days now h = ground arith
