-- ===== src/Config.antt =====
-- internal/infrastructure/config/config.go. The environment is a function, as `os.Getenv` is, with the
-- empty string for an unset variable; `strconv.ParseBool` and `time.ParseDuration` are parameters.
use pg_analytics_service.Prelude.{
  ◌*◌, ◌≡◌, ◌≢◌, ◌⊎◌, Bool, true, false, Option, none, some, [], if◌then◌else◌, Text, codes, ◌=ₜ◌,
  =ₜ_iff, ℤ, pos, ◌≤ℤ◌, ltb_ℤ, arith,
}
use pg_analytics_service.Domain.Errors.{Error, plain}
use pg_analytics_service.Domain.Models.{second}
use pg_analytics_service.Domain.Numbers.{parse_int}
use pg_analytics_service.Effects.{Result, ok, err}

-- A duration in nanoseconds.
pub record Config : Type 0 where
  pub env : Text
  pub port : Text
  pub version : Text
  pub database_url : Text
  pub redis_url : Text
  pub management_api_key : Text
  pub auto_migrate : Bool
  pub auto_seed : Bool
  pub max_report_range_days : ℤ
  pub recompute_lock_ttl : ℤ
  pub recompute_workers : ℤ
  pub recompute_queue_size : ℤ
  pub http_read_timeout : ℤ
  pub http_write_timeout : ℤ
  pub http_shutdown_timeout : ℤ

pub record Parsers : Type 0 where
  pub parse_bool : Text → Option Bool
  pub parse_duration : Text → Option ℤ

abbrev pub parsed_or : {A : Type 0} → A → Option A → A
parsed_or fallback none = fallback
parsed_or fallback (some a) = a

module _ (parsers : Parsers) (getenv : Text → Text) where
  unfoldable pub get_string : Text → Text → Text
  get_string key fallback = if getenv key =ₜ [] then fallback else getenv key

  unfoldable pub get_bool : Text → Bool → Bool
  get_bool key fallback =
      if getenv key =ₜ [] then fallback else parsed_or fallback (parsers.parse_bool (getenv key))

  unfoldable pub get_int : Text → ℤ → ℤ
  get_int key fallback =
      if getenv key =ₜ [] then fallback else parsed_or fallback (parse_int (getenv key))

  unfoldable pub get_duration : Text → ℤ → ℤ
  get_duration key fallback =
      if getenv key =ₜ []
      then fallback
      else parsed_or fallback (parsers.parse_duration (getenv key))

  unfoldable pub read_config : Config
  unfolding get_string get_bool get_int get_duration
  read_config = record {
    env = get_string (codes "APP_ENV") (codes "development");
    port = get_string (codes "APP_PORT") (codes "3004");
    version = get_string (codes "APP_VERSION") (codes "dev");
    database_url = get_string (codes "DATABASE_URL") [];
    redis_url = get_string (codes "REDIS_URL") [];
    management_api_key = get_string (codes "MANAGEMENT_API_KEY") (codes "change-me");
    auto_migrate = get_bool (codes "APP_AUTO_MIGRATE") true;
    auto_seed = get_bool (codes "APP_AUTO_SEED") false;
    max_report_range_days = get_int (codes "MAX_REPORT_RANGE_DAYS") (pos 366);
    recompute_lock_ttl = get_duration (codes "RECOMPUTE_LOCK_TTL") (pos (900 * second));
    recompute_workers = get_int (codes "RECOMPUTE_WORKERS") (pos 1);
    recompute_queue_size = get_int (codes "RECOMPUTE_QUEUE_SIZE") (pos 64);
    http_read_timeout = get_duration (codes "HTTP_READ_TIMEOUT") (pos (10 * second));
    http_write_timeout = get_duration (codes "HTTP_WRITE_TIMEOUT") (pos (20 * second));
    http_shutdown_timeout = get_duration (codes "HTTP_SHUTDOWN_TIMEOUT") (pos (15 * second));
  }

-- The checks of `Load`, in their order.
unfoldable pub checked_config : Config → Result Config
checked_config cfg =
    if cfg.database_url =ₜ []
    then err (plain (codes "DATABASE_URL is required"))
    else if cfg.redis_url =ₜ []
    then err (plain (codes "REDIS_URL is required"))
    else if ltb_ℤ cfg.max_report_range_days (pos 1)
    then err (plain (codes "MAX_REPORT_RANGE_DAYS must be positive"))
    else if ltb_ℤ cfg.recompute_workers (pos 1)
    then err (plain (codes "RECOMPUTE_WORKERS must be at least 1"))
    else if ltb_ℤ cfg.recompute_queue_size (pos 1)
    then err (plain (codes "RECOMPUTE_QUEUE_SIZE must be at least 1"))
    else ok cfg

unfoldable pub load : Parsers → (Text → Text) → Result Config
unfolding read_config checked_config
load parsers getenv = checked_config (read_config parsers getenv)

-- What the commands may rely on.
pub record IsUsable (cfg : Config) : Type 0 where
  pub database_given : cfg.database_url ≢ []
  pub redis_given : cfg.redis_url ≢ []
  pub days_positive : pos 1 ≤ℤ cfg.max_report_range_days
  pub workers_positive : pos 1 ≤ℤ cfg.recompute_workers
  pub queue_positive : pos 1 ≤ℤ cfg.recompute_queue_size

checked_config_lem :
    (cfg : Config)
    → ((checked_config cfg ≡ ok cfg) × IsUsable cfg)
      ⊎ ((e : Error) × (checked_config cfg ≡ err e) × (IsUsable cfg → ⊥))
unfolding checked_config
checked_config_lem cfg = ground (arith, =ₜ_iff cfg.database_url [], =ₜ_iff cfg.redis_url [])

-- `Load` returns the settings of the environment exactly if they name both servers and have a
-- positive limit of days, number of workers and size of the queue; otherwise it returns an error.
pub load_lem :
    (parsers : Parsers) (getenv : Text → Text)
    → ((load parsers getenv ≡ ok (read_config parsers getenv))
        × IsUsable (read_config parsers getenv))
      ⊎ ((e : Error) × (load parsers getenv ≡ err e) × (IsUsable (read_config parsers getenv) → ⊥))
unfolding load
load_lem parsers getenv = checked_config_lem (read_config parsers getenv)
