-- ===== src/Http/Handlers/Requests.antt =====
-- What the handlers ask the services for, and when they do not ask at all.
use pg_analytics_service.Prelude.{
  ℕ, ◌-◌, ◌*◌, ◌%◌, ◌≤◌, ◌<◌, ◌≡◌, refl, sym, ap, ◌∙◌, ◌⊎◌, inl, inr, true, false, Bool-cases, [],
  Text, codes, ◌=ₜ◌, pos, arith,
}
use pg_analytics_service.Domain.Errors.{Error, new_app_error, as_app_error}
use pg_analytics_service.Domain.Models.{Time, day_ns}
use pg_analytics_service.Domain.Calendar.{whole_days}
use pg_analytics_service.Effects.{Result, ok, err}
use pg_analytics_service.Application.Validation.{validate_run_params}
use pg_analytics_service.Application.Validation.Accepted.{validate_run_params_iff}
use pg_analytics_service.Application.RecomputeService.{Process}
use pg_analytics_service.Strings.{trim_space, to_lower}
use pg_analytics_service.Http.Params.{
  parse_int_with_default, normalize_window, parse_date_range_with_values, parse_date_range-default,
}
use pg_analytics_service.Http.Auth.{Headers, is_authorized}
use pg_analytics_service.Http.Respond.{write_error, handle_error, app_error_reply}
use pg_analytics_service.Http.Handlers.{
  Reply, error_reply, Handler, RecomputeRequestBody, reply_with, run_params, checked_body,
  trigger_recompute, with_management_auth,
}

-- Without the key a management route replies 401 and its handler does not run; with the key the reply
-- is the handler's.
pub with_management_auth_lem :
    {A T : Type 0} (api_key : Text) (headers : Headers) (next : T → Reply A × T) (t : T)
    → ((is_authorized api_key headers ≡ true)
        × (with_management_auth api_key headers next t ≡ next t))
      ⊎ ((is_authorized api_key headers ≡ false)
          × (with_management_auth api_key headers next t ≡ (
            error_reply
                (write_error 401 (codes "unauthorized") (codes "management authentication failed")),
            t,
          )))
unfolding with_management_auth
with_management_auth_lem api_key headers next t =
    elim (Bool-cases (is_authorized api_key headers)) [
      | inl e ↦ inl (e, rw e)
      | inr e ↦ inr (e, rw e)
    ]

abbrev status_of : {A : Type 0} → Result A → ℕ
status_of (ok a) = 200
status_of (err e) = (handle_error e).status

checked_body-invalid :
    (decoded : Result RecomputeRequestBody) (e : Error)
    → checked_body decoded ≡ err e
    → (handle_error e).status ≡ 400
unfolding checked_body handle_error app_error_reply write_error new_app_error as_app_error
checked_body-invalid (err x) e refused = sym (ap status_of refused)
checked_body-invalid (ok body) e refused = elim (Bool-cases (trim_space body.report_slug =ₜ [])) [
  | inl blank ↦ sym (ap status_of (rw blank at refused))
  | inr given ↦ cc (rw given at refused)
]

-- A body that is no JSON, or whose slug is blank, is answered with an error of the request, before
-- the clock, the locks, the databases or the queue are touched.
pub trigger_recompute_refuses :
    {S : Type 0} (h : Handler S) (headers : Headers) (decoded : Result RecomputeRequestBody)
    (e : Error) (p : Process S)
    → checked_body decoded ≡ err e
    → (trigger_recompute h headers decoded p ≡ (error_reply (handle_error e), p))
      × ((handle_error e).status ≡ 400)
unfolding trigger_recompute reply_with
trigger_recompute_refuses h headers decoded e p refused =
    (rw refused, checked_body-invalid decoded e refused)

abbrev range_of : Result (Time × Time) → Time × Time
range_of (ok range) = range
range_of (err e) = (0, 0)

-- A run without a query, for the last `defaultDays` days, passes the validation of the service, if
-- these are no more than its limit of days.
pub run_params-valid :
    (days : ℕ) (now : Time) (max_days : ℕ)
    → 0 < days
    → days ≤ max_days
    → (from to : Time) → parse_date_range_with_values days now [] [] ≡ ok (from, to)
    → validate_run_params (pos max_days) (run_params (λ name. []) from to) ≡ ok tt
unfolding run_params normalize_window parse_int_with_default trim_space to_lower ◌=ₜ◌ whole_days
run_params-valid days now max_days positive small from to parsed =
    (validate_run_params_iff (pos max_days) (run_params (λ name. []) from to)).1 (record {
      window_known = inl refl;
      ordered = omega (arith, from_is, to_is);
      short = omega (arith, from_is, to_is);
      breakdown_known = inl refl;
      limit_low = omega arith;
      limit_high = omega arith;
      offset_low = omega arith;
    })
  where
    parse_default : Result (Time × Time)
    parse_default = ok (now - now % day_ns - (days - 1) * day_ns, now - now % day_ns)

    default_range : parse_default ≡ ok (from, to)
    default_range = sym (parse_date_range-default days now positive) ∙ parsed

    from_is : now - now % day_ns - (days - 1) * day_ns ≡ from
    from_is = ap (λ r. (range_of r).0) default_range

    to_is : now - now % day_ns ≡ to
    to_is = ap (λ r. (range_of r).1) default_range
