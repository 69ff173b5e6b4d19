-- ===== src/Tests/Services.antt =====
-- The services on the stores of `Stores`.
use pg_analytics_service.Prelude.{
  ◌≡◌, refl, ◌↔◌, ◌≤◌, ◌<◌, ◌+◌, ◌*◌, ◌⊎◌, ◌≢◌, true, none, some, [], Text, codes, ◌=ₜ◌, pos, arith,
}
use pg_analytics_service.Domain.Errors.{plain, err_code_conflict, new_app_error}
use pg_analytics_service.Domain.Models.{
  RecomputeRequest, ReportRunParams, day_ns, window_day, window_week,
}
use pg_analytics_service.Domain.Calendar.{whole_days}
use pg_analytics_service.Effects.{ok, err}
use pg_analytics_service.Application.Ports.{ReportCache}
use pg_analytics_service.Application.Validation.{
  validate_run_params, validate_trigger, IsValidParams, range_exceeds,
}
use pg_analytics_service.Application.Validation.Accepted.{
  validate_run_params_iff, validate_trigger_bounds,
}
use pg_analytics_service.Application.ReportService.{
  run_report, read_cache, fresh_result, normalized, key_text, get_cached_result, cache_key,
  decode_found, execute_report_query, answer, write_cache, store_cached_result,
}
use pg_analytics_service.Application.ReportService.Caching.{run_report_twice, written}
use pg_analytics_service.Application.ReportService.Reads.{run_report-without_cache}
use pg_analytics_service.Application.RecomputeService.{
  RecomputeJob, Process, lock_key_of, trigger, worker_step,
}
use pg_analytics_service.Application.RecomputeService.Trigger.{trigger_conflict}
use pg_analytics_service.Application.RecomputeService.System.{
  Inv, Reach, here, next, triggers, works, reach-Inv,
}
use pg_analytics_service.Redis.{version_key}
use pg_analytics_service.Tests.Databases.{request_for}
use pg_analytics_service.Tests.Stores.{
  Store, cache, cache-CacheLaws, reports, recomputes, lock-LockLaws, recomputes-Frames, definition,
  empty_result,
}

abbrev monday : RecomputeRequest
monday = request_for (codes "day") 885547 885547

abbrev idle : Process Store
idle = record { world = λ k. none; queue = [] }

-- Somebody holds the lock of the request.
abbrev taken : Process Store
taken = record { world = λ k. some (codes "token-0"); queue = [] }

monday_valid : validate_trigger (pos 90) (codes "day") (885547 * day_ns) (885547 * day_ns) ≡ ok tt
unfolding validate_trigger range_exceeds whole_days window_day codes ◌=ₜ◌
monday_valid = refl

validate_trigger_bounds_example :
    ((codes "day" ≡ window_day) ⊎ (codes "day" ≡ window_week))
    × (885547 * day_ns ≤ 885547 * day_ns)
    × (885547 * day_ns < 885547 * day_ns + 90 * day_ns)
validate_trigger_bounds_example =
    validate_trigger_bounds 90 (codes "day") (885547 * day_ns) (885547 * day_ns) (omega arith)
      monday_valid

trigger_conflict_example :
    ((trigger recomputes monday taken).0
      ≡ err (
          new_app_error err_code_conflict
            (codes "a recompute run for this scope is already in progress")))
    × ((trigger recomputes monday taken).1.queue ≡ [])
    × ((k : Text) → (trigger recomputes monday taken).1.world k ≡ some (codes "token-0"))
trigger_conflict_example =
    trigger_conflict recomputes lock-LockLaws recomputes-Frames monday taken definition monday_valid
      refl (codes "token-0") refl

abbrev job : RecomputeJob
job = record {
  run_id = codes "run-1";
  request = monday;
  lock_key = lock_key_of monday;
  lock_token = codes "token-0";
}

-- Two triggers of one scope, a worker between them.
abbrev once : Process Store
once = (trigger recomputes monday idle).1

abbrev history :
    Reach recomputes lock-LockLaws idle (trigger recomputes monday (worker_step recomputes once)).1
history =
    next (next (next here (triggers monday idle)) (works once))
      (triggers monday (worker_step recomputes once))

reach-Inv_example :
    Inv recomputes lock-LockLaws (trigger recomputes monday (worker_step recomputes once)).1
reach-Inv_example = reach-Inv recomputes lock-LockLaws recomputes-Frames history refl

abbrev pub params : ReportRunParams
params = record {
  window = codes "day";
  date_from = 885547 * day_ns;
  date_to = 885547 * day_ns;
  breakdown = [];
  limit = pos 20;
  offset = pos 0;
  source = [];
  status = [];
}

validate_run_params_iff_example :
    (validate_run_params (pos 90) params ≡ ok tt) ↔ IsValidParams (pos 90) params
validate_run_params_iff_example = validate_run_params_iff (pos 90) params

params_valid : validate_run_params (pos 90) params ≡ ok tt
unfolding validate_run_params range_exceeds whole_days window_day codes ◌=ₜ◌
params_valid = refl

abbrev empty : Store
empty k = none

abbrev key : Text
key = key_text (codes "status-counts") (pos 1) (codes "digest")

abbrev payload : Text
payload = codes "payload"

abbrev filled : Store
filled =
    written reports cache cache-CacheLaws refl (codes "status-counts") params (codes "params") refl
      60000000000 payload empty

data_key : (j : Text) → key ≢ version_key j
unfolding key_text version_key codes
data_key j e = ground (arith, e)

run_report_twice_example :
    (run_report reports (codes "status-counts") params empty ≡ (ok empty_result, filled))
    × (run_report reports (codes "status-counts") params filled
        ≡ (ok (record empty_result { cache_hit = true; source_system = codes "redis" }), filled))
unfolding read_cache get_cached_result cache_key decode_found fresh_result execute_report_query
    run_report answer write_cache store_cached_result key_text codes normalized ◌=ₜ◌
    validate_run_params range_exceeds whole_days window_day
run_report_twice_example =
    run_report_twice reports cache cache-CacheLaws refl (codes "status-counts") params
      (codes "params") refl definition empty empty empty empty filled filled empty_result payload
      refl params_valid (omega arith) refl refl refl refl data_key refl refl refl

abbrev broken : ReportCache Store
broken = record cache { get_version = λ slug s. (err (plain (codes "connection refused")), s) }

run_report-without_cache_example :
    run_report (record reports { cache = some broken }) (codes "status-counts") params empty
    ≡ run_report (record reports { cache = none }) (codes "status-counts") params empty
run_report-without_cache_example =
    run_report-without_cache reports (codes "status-counts") params broken
      (plain (codes "connection refused")) (λ t. refl) empty
