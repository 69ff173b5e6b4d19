-- ===== src/Tests/Process.antt =====
-- The process of cmd/api/main.go on the tables of `Databases` and the Redis of `Stores`.
use pg_analytics_service.Prelude.{
  ℕ, suc, ◌*◌, ◌≡◌, refl, true, none, [], length, codes, ◌=ₜ◌, any, pos,
}
use pg_analytics_service.Domain.Errors.{plain}
use pg_analytics_service.Domain.Models.{day_ns, window_day, run_status_pending, RecomputeRun}
use pg_analytics_service.Domain.Calendar.{whole_days}
use pg_analytics_service.Application.Validation.{validate_trigger}
use pg_analytics_service.Domain.Numbers.{decimal}
use pg_analytics_service.Effects.{Result, ok, err}
use pg_analytics_service.Application.RecomputeService.{Process, lock_key_of, trigger}
use pg_analytics_service.Postgres.Database.{statement}
use pg_analytics_service.Postgres.Definitions.{get_report_definition}
use pg_analytics_service.Postgres.Runs.{create_run, get_run}
use pg_analytics_service.Redis.{try_acquire}
use pg_analytics_service.Api.{Servers, PostgresServer, Machine, Settings, recompute_service}
use pg_analytics_service.Api.Drain.{rounds}
use pg_analytics_service.Api.Liveness.{start, accepted_run_ends}
use pg_analytics_service.Api.Locks.{holder_in}
use pg_analytics_service.Api.Progress.{IsFinal}
use pg_analytics_service.Tests.Databases.{up, utc, world, request_for}
use pg_analytics_service.Tests.Stores.{Store, client, client-ClientLaws}

abbrev pub server : PostgresServer
server = record { driver = up; trunc = utc; collate = λ a b. true; ilike = λ a b. true }

-- The randomness is a counter.
abbrev pub machine : Machine ℕ
machine = record {
  now = λ n. (885560 * day_ns, n);
  new_uuid = λ n. (decimal n, suc n);
  marshal_params = λ params. err (plain []);
  marshal_result = λ result. err (plain []);
  unmarshal_result = λ value. err (plain []);
  sha256_hex = λ value. value;
}

abbrev pub settings : Settings
settings = record {
  max_report_range_days = pos 90;
  recompute_lock_ttl = 900000000000;
  recompute_queue_size = 4;
}

abbrev pub idle : Process (Servers Store ℕ)
idle = record { world = record { postgres = world; redis = λ k. none; entropy = 0 }; queue = [] }

abbrev accepted : Result RecomputeRun × Process (Servers Store ℕ)
accepted =
    trigger (recompute_service server client machine settings)
      (request_for (codes "day") 885547 885548) idle

abbrev run_of : Result RecomputeRun → RecomputeRun
run_of (ok run) = run
run_of (err e) = record {
  id = [];
  report_slug = [];
  window = [];
  date_from = [];
  date_to = [];
  requested_by = [];
  status = run_status_pending;
  requested_at = 0;
  started_at = none;
  finished_at = none;
  error_message = [];
  summary = none;
}

abbrev run : RecomputeRun
run = run_of accepted.0

is_accepted : accepted ≡ (ok run, accepted.1)
unfolding trigger validate_trigger ◌=ₜ◌ codes window_day whole_days get_report_definition statement
    try_acquire create_run any
is_accepted = refl

abbrev later : Process (Servers Store ℕ)
later =
    rounds (recompute_service server client machine settings) (length accepted.1.queue) accepted.1

accepted_run_ends_example :
    (later.queue ≡ [])
    × ((done : RecomputeRun) × ((get_run up run.id later.world.postgres).0 ≡ ok done)
        × IsFinal done.status)
    × (holder_in client client-ClientLaws later.world
          (lock_key_of (request_for (codes "day") 885547 885548))
        ≡ none)
accepted_run_ends_example =
    accepted_run_ends server (λ n. refl) client client-ClientLaws machine settings
      (request_for (codes "day") 885547 885548) idle idle accepted.1 run refl start is_accepted
