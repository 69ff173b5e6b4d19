-- ===== src/Application/Validation/Accepted.antt =====
-- Exactly which parameters the validations accept.
use pg_analytics_service.Prelude.{
  ℕ, ◌+◌, ◌*◌, ◌≤◌, ◌<◌, ◌≡◌, ◌↔◌, ◌⊎◌, [], Text, codes, =ₜ_iff, ℤ, pos, arith,
}
use pg_analytics_service.Domain.Models.{Time, ReportRunParams, window_day, window_week, day_ns}
use pg_analytics_service.Domain.Calendar.{whole_days}
use pg_analytics_service.Effects.{ok}
use pg_analytics_service.Application.Validation.{
  validate_run_params, validate_trigger, IsValidParams,
}

validate_sound :
    (max_days : ℤ) (params : ReportRunParams)
    → validate_run_params max_days params ≡ ok tt
    → IsValidParams max_days params
unfolding validate_run_params
validate_sound max_days params h = ground (
  arith,
  =ₜ_iff params.window window_day,
  =ₜ_iff params.window window_week,
  =ₜ_iff params.breakdown [],
  =ₜ_iff params.breakdown (codes "source"),
  =ₜ_iff params.breakdown (codes "status"),
  =ₜ_iff params.breakdown (codes "period"),
)

validate_complete :
    (max_days : ℤ) (params : ReportRunParams)
    → IsValidParams max_days params
    → validate_run_params max_days params ≡ ok tt
unfolding validate_run_params
validate_complete max_days params v = ground (
  arith,
  =ₜ_iff params.window window_day,
  =ₜ_iff params.window window_week,
  =ₜ_iff params.breakdown [],
  =ₜ_iff params.breakdown (codes "source"),
  =ₜ_iff params.breakdown (codes "status"),
  =ₜ_iff params.breakdown (codes "period"),
)

-- `validateRunParams` returns no error exactly for a known window, dates in order and within the
-- limit of days, a known or empty breakdown, a limit from 1 to 100 and an offset of 0 or more.
pub validate_run_params_iff :
    (max_days : ℤ) (params : ReportRunParams)
    → (validate_run_params max_days params ≡ ok tt) ↔ IsValidParams max_days params
validate_run_params_iff max_days params =
    (validate_sound max_days params, validate_complete max_days params)

-- The days of an accepted range are at most the limit, whatever the time of day, if the limit is
-- less than the 106752 days at which `Sub` saturates.
pub validate_trigger_bounds :
    (max_days : ℕ) (window : Text) (from to : Time)
    → max_days < 106752
    → validate_trigger (pos max_days) window from to ≡ ok tt
    → ((window ≡ window_day) ⊎ (window ≡ window_week))
      × (from ≤ to)
      × (to < from + max_days * day_ns)
unfolding validate_trigger whole_days
validate_trigger_bounds max_days window from to small h =
    ground (arith, =ₜ_iff window window_day, =ₜ_iff window window_week)
