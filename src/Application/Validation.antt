-- ===== src/Application/Validation.antt =====
-- `validateRunParams` of internal/application/report_service.go, and the checks with which `Trigger`
-- of recompute_service.go begins.
pub mod Accepted
use pg_analytics_service.Prelude.{
  ℕ, suc, ◌+◌, ◌-◌, ◌/◌, ◌≤◌, ◌<◌, ◌≡◌, refl, ◌↔◌, ◌⊎◌, inl, inr, Bool, true, false, not, ◌&&◌,
  ◌||◌, [], ◌++◌, Bool-cases, ltb, if◌then◌else◌, Text, codes, ◌=ₜ◌, =ₜ_iff, ℤ, pos, ◌≤ℤ◌, ltb_ℤ,
  arith,
}
use pg_analytics_service.Domain.Errors.{
  Error, ErrorCode, err_code_invalid, app_error, new_app_error,
}
use pg_analytics_service.Domain.Models.{Time, ReportRunParams, window_day, window_week}
use pg_analytics_service.Domain.Calendar.{whole_days}
use pg_analytics_service.Domain.Numbers.{decimal_ℤ}
use pg_analytics_service.Effects.{Result, ok, err}

abbrev invalid : Text → Result (Unit {0})
invalid message = err (app_error err_code_invalid message)

-- One check of a series: an error, or the checks after it.
infixr 4 ◌otherwise◌
abbrev pub ◌otherwise◌ : Result (Unit {0}) → Result (Unit {0}) → Result (Unit {0})
ok u otherwise rest = rest
err e otherwise rest = err e

abbrev pub refuse_if : Bool → Text → Result (Unit {0})
refuse_if b message = if b then invalid message else ok tt

unfoldable pub range_message : ℤ → Text
range_message max_days = codes "date range exceeds " ++ (decimal_ℤ max_days ++ codes " days")

-- `rangeDays > s.maxRangeDays`.
unfoldable pub range_exceeds : Time → Time → ℤ → Bool
range_exceeds from to max_days = ltb_ℤ max_days (pos (whole_days from to + 1))

unfoldable pub validate_run_params : ℤ → ReportRunParams → Result (Unit {0})
unfolding range_exceeds
validate_run_params max_days params =
    refuse_if (not (params.window =ₜ window_day) && not (params.window =ₜ window_week))
      (codes "window must be either day or week")
    otherwise refuse_if (ltb params.date_to params.date_from)
        (codes "date_from must be on or before date_to")
    otherwise refuse_if (range_exceeds params.date_from params.date_to max_days)
        (range_message max_days)
    otherwise refuse_if
        (not (params.breakdown =ₜ [])
          && not (params.breakdown =ₜ codes "source")
          && not (params.breakdown =ₜ codes "status")
          && not (params.breakdown =ₜ codes "period"))
        (codes "breakdown must be one of source, status, period")
    otherwise refuse_if (ltb_ℤ params.limit (pos 1) || ltb_ℤ (pos 100) params.limit)
        (codes "limit must be between 1 and 100")
    otherwise refuse_if (ltb_ℤ params.offset (pos 0)) (codes "offset must be non-negative")

-- The first three checks of `Trigger`.
unfoldable pub validate_trigger : ℤ → Text → Time → Time → Result (Unit {0})
unfolding range_exceeds
validate_trigger max_days window from to =
    refuse_if (not (window =ₜ window_day) && not (window =ₜ window_week))
      (codes "window must be day or week")
    otherwise refuse_if (ltb to from) (codes "date_from must be on or before date_to")
    otherwise refuse_if (range_exceeds from to max_days) (range_message max_days)

-- What the parameters of a report run have to be.
pub record IsValidParams (max_days : ℤ) (params : ReportRunParams) : Type 0 where
  pub window_known : (params.window ≡ window_day) ⊎ (params.window ≡ window_week)
  pub ordered : params.date_from ≤ params.date_to
  pub short : pos (whole_days params.date_from params.date_to + 1) ≤ℤ max_days
  pub breakdown_known :
      (params.breakdown ≡ [])
      ⊎ (params.breakdown ≡ codes "source")
      ⊎ (params.breakdown ≡ codes "status")
      ⊎ (params.breakdown ≡ codes "period")
  pub limit_low : pos 1 ≤ℤ params.limit
  pub limit_high : params.limit ≤ℤ pos 100
  pub offset_low : pos 0 ≤ℤ params.offset
