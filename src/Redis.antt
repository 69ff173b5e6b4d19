-- ===== src/Redis.antt =====
-- internal/infrastructure/redis/store.go, over a client of the Redis server.
pub mod Client
pub mod Laws
pub mod Safety
pub mod Versions
pub mod Advances
pub mod Freshness
use pg_analytics_service.Prelude.{
  ℕ, Bool, true, false, Option, none, some, ◌++◌, if◌then◌else◌, Text, codes, ◌=ₜ◌, ℤ, pos,
}
use pg_analytics_service.Domain.Errors.{
  Error, app_error, app_error_with, plain, wrapped, err_no_rows, redis_nil,
}
use pg_analytics_service.Domain.Numbers.{parse_int}
use pg_analytics_service.Effects.{Result, ok, err, Action, pure, raise, ◌>>=◌, ◌>>◌, attempt}
use pg_analytics_service.Application.Ports.{ReportCache, RecomputeLock}
use Client.{RedisClient}

-- `fmt.Errorf("…: %w", err)`.
abbrev with_prefix : {A : Type 0} → Text → Result A → Result A
with_prefix message (ok a) = ok a
with_prefix message (err e) = err (wrapped message e)

unfoldable pub version_key : Text → Text
version_key slug = codes "report:version:" ++ slug

abbrev or_parse_error : Option ℤ → Result ℤ
or_parse_error none = err (plain (codes "strconv.ParseInt: invalid syntax"))
or_parse_error (some n) = ok n

-- `NewStore`: the options that `goredis.ParseURL` reads, which no command of the server needs yet.
unfoldable pub new_store : {O : Type 0} → (Text → Result O) → Text → Result O
new_store parse_url url = with_prefix (codes "failed to parse redis url") (parse_url url)

module _ {S : Type 0} (client : RedisClient S) where
  unfoldable pub ping_cache : Action S (Unit {0})
  ping_cache = client.ping

  -- `Get`: a missing key is no error.
  unfoldable pub found : Result Text → Action S (Option Text)
  found (ok value) = pure (some value)
  found (err redis_nil) = pure none
  found (err e) = raise e

  unfoldable pub get : Text → Action S (Option Text)
  unfolding found
  get key = do value ← attempt (client.get key); found value

  unfoldable pub set : Text → Text → ℕ → Action S (Unit {0})
  set key value ttl = client.set key value ttl

  -- `GetVersion`: a missing counter starts at 1.
  unfoldable pub version_of : Text → Result Text → Action S ℤ
  version_of key (ok value) = λ s. (or_parse_error (parse_int value), s)
  version_of key (err redis_nil) = client.set key (codes "1") 0 >> pure (pos 1)
  version_of key (err e) = raise e

  unfoldable pub get_version : Text → Action S ℤ
  unfolding version_of version_key
  get_version slug = do
    value ← attempt (client.get (version_key slug))
    version_of (version_key slug) value

  unfoldable pub bump_version : Text → Action S ℤ
  unfolding version_key
  bump_version slug = client.incr (version_key slug)

  unfoldable pub try_acquire : Text → Text → ℕ → Action S Bool
  try_acquire key token ttl = client.set_nx key token ttl

  -- `releaseLockScript`, which the server runs as one command. In Lua a missing key reads as false,
  -- which equals no token.
  unfoldable pub delete_if : Text → Text → Result Text → Action S ℕ
  delete_if key token (ok value) = if value =ₜ token then client.del key else pure 0
  delete_if key token (err redis_nil) = pure 0
  delete_if key token (err e) = raise e

  unfoldable pub release_lock_script : Text → Text → Action S ℕ
  unfolding delete_if
  release_lock_script key token = do value ← attempt (client.get key); delete_if key token value

  unfoldable pub released : Result ℕ → Action S (Unit {0})
  released (ok n) = pure tt
  released (err redis_nil) = pure tt
  released (err e) = raise e

  unfoldable pub release : Text → Text → Action S (Unit {0})
  unfolding released release_lock_script
  release key token = do result ← attempt (release_lock_script key token); released result

  -- The store as the two interfaces of the application.
  abbrev pub report_cache : ReportCache S
  report_cache = record {
    get = get;
    set = set;
    get_version = get_version;
    bump_version = bump_version;
  }

  abbrev pub recompute_lock : RecomputeLock S
  recompute_lock = record { try_acquire = try_acquire; release = release }
