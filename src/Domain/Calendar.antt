-- ===== src/Domain/Calendar.antt =====
-- Go's `time` as far as the program uses it: `Format` with the two layouts of the source, and the
-- whole days of a duration. Times are in UTC.
use pg_analytics_service.Prelude.{
  Option, none, some, not, map, ◌&&◌, ◌||◌, ◌==◌, ℕ, ◌+◌, ◌-◌, ◌*◌, ◌/◌, ◌%◌, ◌^◌, min, ◌≡◌, refl,
  Bool, List, [], ◌∷◌, ◌++◌, ltb, leb, if◌then◌else◌, Text, codes,
}
use pg_analytics_service.Domain.Models.{Time, day_ns}
use pg_analytics_service.Domain.Numbers.{digit, decimal}

pub record Civil : Type 0 where
  pub year : ℕ
  pub month : ℕ
  pub day : ℕ

-- The date of a day number; `year` counts from the year -400.
unfoldable pub civil : ℕ → Civil
civil z =
    let era = z / 146097 in
    let doe = z % 146097 in
    let yoe = (doe + doe / 36524 - doe / 1460 - doe / 146096) / 365 in
    let doy = doe + yoe / 100 - (365 * yoe + yoe / 4) in
    let mp = (5 * doy + 2) / 153 in
    let m = if ltb mp 10 then mp + 3 else mp - 9 in
    record {
      year = yoe + era * 400 + (if leb m 2 then 1 else 0);
      month = m;
      day = doy - (153 * mp + 2) / 5 + 1;
    }

unfoldable pub pad2 : ℕ → Text
unfolding digit
pad2 n = digit (n / 10) ∷ digit n ∷ []

unfoldable pub pad4 : ℕ → Text
unfolding digit
pad4 n = digit (n / 1000) ∷ digit (n / 100) ∷ digit (n / 10) ∷ digit n ∷ []

-- The year, with at least four digits and the sign of a year before 0.
unfoldable pub year_text : ℕ → Text
unfolding pad4 decimal
year_text y =
    if ltb y 400
    then b'-' ∷ pad4 (400 - y)
    else if ltb y 10400
    then pad4 (y - 400)
    else decimal (y - 400)

-- `t.Format("2006-01-02")`.
unfoldable pub format_date : Time → Text
unfolding year_text pad2 civil
format_date t =
    let c = civil (t / day_ns) in year_text c.year ++ (b'-' ∷ (pad2 c.month ++ (b'-' ∷ pad2 c.day)))

-- `t.Format("20060102")`.
unfoldable pub format_compact : Time → Text
unfolding year_text pad2 civil
format_compact t = let c = civil (t / day_ns) in year_text c.year ++ (pad2 c.month ++ pad2 c.day)

-- The largest `time.Duration`; `Sub` stops there.
abbrev pub max_duration : ℕ
max_duration = 2 ^ 63 - 1

-- `int(to.Sub(from).Hours()/24)` for `from` not after `to`. The float64 of `Hours` is exact on whole
-- days, which are all that the handlers build.
unfoldable pub whole_days : Time → Time → ℕ
whole_days from to = min (to - from) max_duration / day_ns

-- The day number of a date; `year` counts from the year 0.
unfoldable pub day_number : ℕ → ℕ → ℕ → ℕ
day_number year month day =
    let y = (if leb month 2 then year + 399 else year + 400) in
    let mp = (if leb month 2 then month + 9 else month - 3) in
    (y / 400) * 146097
    + (y % 400) * 365
    + (y % 400) / 4
    - (y % 400) / 100
    + (153 * mp + 2) / 5
    + day
    - 1

unfoldable pub is_leap : ℕ → Bool
is_leap year = (year % 4 == 0) && (not (year % 100 == 0) || (year % 400 == 0))

unfoldable pub days_in : ℕ → ℕ → ℕ
unfolding is_leap
days_in year month =
    if month == 2
    then if is_leap year then 29 else 28
    else if (month == 4) || (month == 6) || (month == 9) || (month == 11)
    then 30
    else 31

unfoldable pub is_digit : ℕ → Bool
is_digit c = leb b'0' c && leb c b'9'

-- The range checks of `time.Parse` on the month and the day.
unfoldable pub date_of : ℕ → ℕ → ℕ → Option Time
unfolding days_in day_number
date_of year month day =
    if leb 1 month && leb month 12 && leb 1 day && leb day (days_in year month)
    then some (day_number year month day * day_ns)
    else none

-- `time.Parse("2006-01-02", s)`: four, two and two digits with dashes between.
unfoldable pub parse_date : Text → Option Time
unfolding is_digit date_of
parse_date (a ∷ b ∷ c ∷ d ∷ x ∷ e ∷ f ∷ y ∷ g ∷ h ∷ []) =
    if is_digit a
      && is_digit b
      && is_digit c
      && is_digit d
      && (x == b'-')
      && is_digit e
      && is_digit f
      && (y == b'-')
      && is_digit g
      && is_digit h
    then date_of ((a - b'0') * 1000 + (b - b'0') * 100 + (c - b'0') * 10 + (d - b'0'))
        ((e - b'0') * 10 + (f - b'0')) ((g - b'0') * 10 + (h - b'0'))
    else none
parse_date _ = none

abbrev accepted : List Text → List Time
accepted [] = []
accepted (s ∷ ss) = elim (parse_date s) [ none ↦ accepted ss | some t ↦ t ∷ accepted ss ]

-- Day numbers of a plain day, a leap day and the last day of a century.
format_date_tests :
    (format_date (886028 * day_ns) ≡ codes "2026-01-10")
    × (format_date (885347 * day_ns) ≡ codes "2024-02-29")
    × (format_compact (876521 * day_ns) ≡ codes "19991231")
unfolding format_date format_compact codes
format_date_tests = (refl, refl, refl)

-- Parsing, on dates that exist and on some that do not.
parse_date_tests :
    (map format_date (accepted (codes "2026-01-10" ∷ codes "2024-02-29" ∷ codes "0000-01-01" ∷ []))
      ≡ codes "2026-01-10" ∷ codes "2024-02-29" ∷ codes "0000-01-01" ∷ [])
    × (accepted (
          codes "2026-02-29"
          ∷ codes "2026-13-01"
          ∷ codes "2026-1-01"
          ∷ codes "2026-01-10 "
          ∷ codes ""
          ∷ [])
        ≡ [])
unfolding format_date parse_date codes
parse_date_tests = (refl, refl)
