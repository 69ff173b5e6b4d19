-- ===== src/Application/ReportService.antt =====
-- internal/application/report_service.go. The logger only prints, and is left out. `json.Marshal`
-- and SHA-256 are the host's.
pub mod Reads
pub mod Caching
pub mod Keys
pub mod Misses
pub mod Calls
use pg_analytics_service.Prelude.{
  ℕ, ◌+◌, ◌-◌, ◌*◌, ◌/◌, ◌≡◌, Bool, true, false, Option, none, some, List, [], ◌∷◌, ◌++◌, ltb,
  length, if◌then◌else◌, Text, codes, ◌=ₜ◌, ℤ,
}
use pg_analytics_service.Domain.Errors.{
  Error, err_code_internal, err_code_not_found, new_app_error, wrap_app_error,
}
use pg_analytics_service.Domain.Models.{
  Time, ReportDefinition, ReportListFilter, ReportRunParams, ReportResult, Row, Pagination, second,
}
use pg_analytics_service.Domain.Calendar.{format_date}
use pg_analytics_service.Domain.Numbers.{decimal_ℤ}
use pg_analytics_service.Effects.{
  Result, ok, err, Action, pure, raise, ◌>>=◌, ◌>>◌, attempt, rethrow,
}
use pg_analytics_service.Application.Ports.{ReportRepository, ReportCache, CacheParams, Host}
use pg_analytics_service.Application.Validation.{validate_run_params}

-- `cache` may be nil.
pub record ReportService (S : Type 0) : Type 0 where
  pub repo : ReportRepository S
  pub cache : Option (ReportCache S)
  pub host : Host S
  pub max_range_days : ℤ

unfoldable pub normalized : ReportRunParams → CacheParams
normalized params = record {
  window = params.window;
  date_from = format_date params.date_from;
  date_to = format_date params.date_to;
  breakdown = params.breakdown;
  limit = params.limit;
  offset = params.offset;
  source = params.source;
  status = params.status;
}

-- `fmt.Sprintf("report:%s:v%d:%s", …)`.
unfoldable pub key_text : Text → ℤ → Text → Text
key_text slug version digest =
    codes "report:" ++ (slug ++ (codes ":v" ++ (decimal_ℤ version ++ (codes ":" ++ digest))))

abbrev pub new_result : Text → ReportRunParams → List Row → Time → Time → Time → ReportResult
new_result slug params rows started generated ended = record {
  report_slug = slug;
  window = params.window;
  date_from = format_date params.date_from;
  date_to = format_date params.date_to;
  generated_at = generated;
  rows = rows;
  cache_hit = false;
  row_count = length rows;
  execution_ms = (ended - started) / 1000000;
  source_system = codes "postgres";
}

module _ {S : Type 0} where
  -- A pure result as an action, and `time.Now()`.
  abbrev pub lift {ℓ} : {A : Type ℓ} → Result A → Action S A
  lift r s = (r, s)

  abbrev pub time_now : Host S → Action S Time
  time_now host s = (ok (host.now s).0, (host.now s).1)

  module _ (service : ReportService S) where
    open service use {repo, cache, host, max_range_days}

    unfoldable pub list_reports : ReportListFilter → Action S (List ReportDefinition × Pagination)
    list_reports filter = do
      found ←
          rethrow (wrap_app_error err_code_internal (codes "failed to list reports"))
            (repo.list_report_definitions filter)
      pure (found.0, record { limit = filter.limit; offset = filter.offset; total = found.1 })

    unfoldable pub get_report : Text → Action S ReportDefinition
    get_report slug = repo.get_report_definition slug

    unfoldable pub execute_report_query : Text → ReportRunParams → Action S (List Row)
    execute_report_query slug params =
        if slug =ₜ codes "volume-by-period"
        then rethrow (wrap_app_error err_code_internal (codes "failed to run volume report"))
            (repo.run_volume_report params)
        else if slug =ₜ codes "status-counts"
        then rethrow (wrap_app_error err_code_internal (codes "failed to run status report"))
            (repo.run_status_counts_report params)
        else if slug =ₜ codes "top-entities"
        then rethrow (wrap_app_error err_code_internal (codes "failed to run top entities report"))
            (repo.run_top_entities_report params)
        else raise (new_app_error err_code_not_found (codes "report was not found"))

    -- `cacheKey` once the cache is known not to be nil.
    unfoldable pub cache_key : ReportCache S → Text → ReportRunParams → Action S Text
    unfolding normalized key_text
    cache_key c slug params = do
      version ← c.get_version slug
      blob ← lift (host.marshal_params (normalized params))
      pure (key_text slug version (host.sha256_hex blob))

    unfoldable pub decode_found : Option Text → Action S (Option ReportResult)
    decode_found none = pure none
    decode_found (some payload) = do
      result ← lift (host.unmarshal_result payload)
      pure (some result)

    unfoldable pub get_cached_result :
        Option (ReportCache S) → Text → ReportRunParams → Action S (Option ReportResult)
    unfolding cache_key decode_found
    get_cached_result none slug params = pure none
    get_cached_result (some c) slug params = do
      key ← cache_key c slug params
      found ← c.get key
      decode_found found

    unfoldable pub store_cached_result :
        Option (ReportCache S) → Text → ReportRunParams → ReportResult → ℕ → Action S (Unit {0})
    unfolding cache_key
    store_cached_result none slug params result ttl = pure tt
    store_cached_result (some c) slug params result ttl = do
      key ← cache_key c slug params
      payload ← lift (host.marshal_result result)
      c.set key payload ttl

    -- The read of the cache, whose errors are only logged.
    unfoldable pub read_cache : ℕ → Text → ReportRunParams → Action S (Option ReportResult)
    unfolding get_cached_result
    read_cache ttl slug params =
        if ltb 0 ttl
        then (do
          found ← attempt (get_cached_result cache slug params)
          pure (elim found [ ok r ↦ r | err e ↦ none ]))
        else pure none

    -- The write, whose errors are only logged too.
    unfoldable pub write_cache : ℕ → Text → ReportRunParams → ReportResult → Action S (Unit {0})
    unfolding store_cached_result
    write_cache ttl slug params result =
        if ltb 0 ttl
        then attempt (store_cached_result cache slug params result ttl) >> pure tt
        else pure tt

    unfoldable pub fresh_result : Text → ReportRunParams → Action S ReportResult
    unfolding execute_report_query
    fresh_result slug params = do
      started ← time_now host
      rows ← execute_report_query slug params
      generated ← time_now host
      ended ← time_now host
      pure (new_result slug params rows started generated ended)

    unfoldable pub answer : ℕ → Text → ReportRunParams → Option ReportResult → Action S ReportResult
    unfolding fresh_result write_cache
    answer ttl slug params (some hit) =
        pure (record hit { cache_hit = true; source_system = codes "redis" })
    answer ttl slug params none = do
      result ← fresh_result slug params
      write_cache ttl slug params result
      pure result

    unfoldable pub run_report : Text → ReportRunParams → Action S ReportResult
    unfolding read_cache answer
    run_report slug params = do
      report ← repo.get_report_definition slug
      lift (validate_run_params max_range_days params)
      let ttl = report.cache_ttl_seconds * second
      hit ← read_cache ttl slug params
      answer ttl slug params hit
