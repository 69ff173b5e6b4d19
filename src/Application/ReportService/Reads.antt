-- ===== src/Application/ReportService/Reads.antt =====
-- What a run of a report does on the paths before and without the cache.
use pg_analytics_service.Prelude.{
  ℕ, ◌≡◌, refl, none, some, Text, ltb, Bool-cases, inl, inr, ◌*◌, arith,
}
use pg_analytics_service.Domain.Errors.{Error}
use pg_analytics_service.Domain.Models.{ReportDefinition, ReportRunParams, ReportResult, second}
use pg_analytics_service.Effects.{Result, ok, err, ◌>>=◌, ◌>>◌, continue, pure}
use pg_analytics_service.Application.Ports.{ReportCache}
use pg_analytics_service.Application.Validation.{validate_run_params}
use pg_analytics_service.Application.ReportService.{
  ReportService, run_report, read_cache, write_cache, answer, get_cached_result,
  store_cached_result, cache_key, fresh_result, lift,
}

module _ {S : Type 0} (service : ReportService S) (slug : Text) (params : ReportRunParams) where
  -- Refused parameters end the run after the report was found: no cache and no query is asked, and
  -- the error is that of the validation.
  pub run_report_invalid :
      (s s' : S) (report : ReportDefinition) (e : Error)
      → service.repo.get_report_definition slug s ≡ (ok report, s')
      → validate_run_params service.max_range_days params ≡ err e
      → run_report service slug params s ≡ (err e, s')
  unfolding run_report
  run_report_invalid s s' report e found refused = rw (found, refused)

  abbrev pub without : ReportService S
  without = record service { cache = none }

  pub read_cache-none : (ttl : ℕ) (t : S) → read_cache without ttl slug params t ≡ (ok none, t)
  unfolding read_cache get_cached_result
  read_cache-none ttl t = ground arith

  pub write_cache-none :
      (ttl : ℕ) (r : ReportResult) (t : S) → write_cache without ttl slug params r t ≡ (ok tt, t)
  unfolding write_cache store_cached_result
  write_cache-none ttl r t = ground arith

  module _ (c : ReportCache S) (e : Error)
      (down : (t : S) → c.get_version slug t ≡ (err e, t)) where
    abbrev with_cache : ReportService S
    with_cache = record service { cache = some c }

    read_cache-down : (ttl : ℕ) (t : S) → read_cache with_cache ttl slug params t ≡ (ok none, t)
    unfolding read_cache get_cached_result cache_key
    read_cache-down ttl t = elim (Bool-cases (ltb 0 ttl)) [
      | inl h ↦ rw h (rw (down t))
      | inr h ↦ rw h
    ]

    write_cache-down :
        (ttl : ℕ) (r : ReportResult) (t : S)
        → write_cache with_cache ttl slug params r t ≡ (ok tt, t)
    unfolding write_cache store_cached_result cache_key
    write_cache-down ttl r t = elim (Bool-cases (ltb 0 ttl)) [
      | inl h ↦ rw h (rw (down t))
      | inr h ↦ rw h
    ]

    after_fresh :
        (ttl : ℕ) (p : Result ReportResult × S)
        → continue (λ r. write_cache with_cache ttl slug params r >> pure r) p
          ≡ continue (λ r. write_cache without ttl slug params r >> pure r) p
    after_fresh ttl (ok r, t) = rw (write_cache-down ttl r t, write_cache-none ttl r t)
    after_fresh ttl (err x, t) = refl

    after_validation :
        (ttl : ℕ) (p : Result (Unit {0}) × S)
        → continue
            (λ _. read_cache with_cache ttl slug params >>= answer with_cache ttl slug params)
            p
          ≡ continue (λ _. read_cache without ttl slug params >>= answer without ttl slug params) p
    unfolding answer
    after_validation ttl (ok u, t) =
        rw (read_cache-down ttl t, read_cache-none ttl t)
          (after_fresh ttl (fresh_result service slug params t))
    after_validation ttl (err x, t) = refl

    after_lookup :
        (p : Result ReportDefinition × S)
        → continue
            (λ report.
              lift (validate_run_params service.max_range_days params)
              >> (read_cache with_cache (report.cache_ttl_seconds * second) slug params
                  >>= answer with_cache (report.cache_ttl_seconds * second) slug params))
            p
          ≡ continue
              (λ report.
                lift (validate_run_params service.max_range_days params)
                >> (read_cache without (report.cache_ttl_seconds * second) slug params
                    >>= answer without (report.cache_ttl_seconds * second) slug params))
              p
    after_lookup (ok report, t) =
        after_validation (report.cache_ttl_seconds * second)
          (validate_run_params service.max_range_days params, t)
    after_lookup (err x, t) = refl

    -- A cache of which no version can be read is no cache: the run returns what it returns without
    -- one, error or result, and leaves the same state.
    pub run_report-without_cache :
        (s : S) → run_report with_cache slug params s ≡ run_report without slug params s
    unfolding run_report
    run_report-without_cache s = after_lookup (service.repo.get_report_definition slug s)
