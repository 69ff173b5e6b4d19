-- ===== src/Application/ReportService/Misses.antt =====
-- A run of a report whose version has no entries.
use pg_analytics_service.Prelude.{
  ℕ, ◌≡◌, refl, none, some, Text, ltb, length, Bool-cases, inl, inr, ◌*◌, pos,
}
use pg_analytics_service.Domain.Models.{ReportDefinition, ReportRunParams, ReportResult, second}
use pg_analytics_service.Effects.{Result, ok, err, ◌>>=◌, ◌>>◌, continue, pure}
use pg_analytics_service.Application.Ports.{ReportCache}
use pg_analytics_service.Application.Validation.{validate_run_params}
use pg_analytics_service.Application.ReportService.{
  ReportService, run_report, read_cache, write_cache, answer, get_cached_result, cache_key,
  decode_found, fresh_result, lift, key_text, normalized,
}
use pg_analytics_service.Application.ReportService.Reads.{
  without, read_cache-none, write_cache-none,
}

module _ {S : Type 0} (service : ReportService S) (c : ReportCache S)
    (cached : service.cache ≡ some c) (slug : Text) (params : ReportRunParams) where
  -- Digests are 64 characters long.
  abbrev pub HasNoEntries : ℕ → S → Type 0
  HasNoEntries v t =
      (c.get_version slug t ≡ (ok (pos v), t))
      × ((digest : Text)
          → length digest ≡ 64
          → c.get (key_text slug (pos v) digest) t ≡ (ok none, t))

  module _ (long : (blob : Text) → length (service.host.sha256_hex blob) ≡ 64) where
    get_cached_result-misses :
        (r : Result Text) (v : ℕ) (t : S)
        → service.host.marshal_params (normalized params) ≡ r
        → HasNoEntries v t
        → read_cache service 1 slug params t ≡ (ok none, t)
    unfolding read_cache get_cached_result cache_key decode_found
    get_cached_result-misses (ok blob) v t e h =
        rw cached (rw h.0 (rw e (rw (h.1 (service.host.sha256_hex blob) (long blob)))))
    get_cached_result-misses (err x) v t e h = rw cached (rw h.0 (rw e))

    read_cache-misses :
        (ttl v : ℕ) (t : S) → HasNoEntries v t → read_cache service ttl slug params t ≡ (ok none, t)
    unfolding read_cache
    read_cache-misses ttl v t h = elim (Bool-cases (ltb 0 ttl)) [
      | inl positive ↦ rw positive (get_cached_result-misses _ v t refl h)
      | inr zero_ttl ↦ rw zero_ttl
    ]

    write_cache-result :
        (ttl : ℕ) (r : ReportResult) (t : S) → (write_cache service ttl slug params r t).0 ≡ ok tt
    unfolding write_cache
    write_cache-result ttl r t = elim (Bool-cases (ltb 0 ttl)) [
      | inl positive ↦ rw positive
      | inr zero_ttl ↦ rw zero_ttl
    ]

    after_write :
        (r : ReportResult) (p : Result (Unit {0}) × S)
        → p.0 ≡ ok tt
        → (continue (λ _. pure r) p).0 ≡ ok r
    after_write r (ok u, t) e = refl
    after_write r (err x, t) e = cc e

    after_fresh :
        (ttl : ℕ) (p : Result ReportResult × S)
        → (continue (λ r. write_cache service ttl slug params r >> pure r) p).0
          ≡ (continue
              (λ r. write_cache (without service slug params) ttl slug params r >> pure r)
              p).0
    after_fresh ttl (ok r, t) =
        rw (write_cache-none service slug params ttl r t)
          (after_write r _ (write_cache-result ttl r t))
    after_fresh ttl (err x, t) = refl

    after_validation :
        (ttl v : ℕ) (r : Result (Unit {0})) (t : S)
        → HasNoEntries v t
        → (continue
            (λ _. read_cache service ttl slug params >>= answer service ttl slug params)
            (r, t)).0
          ≡ (continue
              (λ _.
                read_cache (without service slug params) ttl slug params
                >>= answer (without service slug params) ttl slug params)
              (r, t)).0
    unfolding answer
    after_validation ttl v (ok u) t h =
        rw (read_cache-misses ttl v t h, read_cache-none service slug params ttl t)
          (after_fresh ttl (fresh_result service slug params t))
    after_validation ttl v (err x) t h = refl

    after_lookup :
        (p : Result ReportDefinition × S) (v : ℕ)
        → HasNoEntries v p.1
        → (continue
            (λ report.
              lift (validate_run_params service.max_range_days params)
              >> (read_cache service (report.cache_ttl_seconds * second) slug params
                  >>= answer service (report.cache_ttl_seconds * second) slug params))
            p).0
          ≡ (continue
              (λ report.
                lift (validate_run_params service.max_range_days params)
                >> (read_cache
                      (without service slug params)
                      (report.cache_ttl_seconds * second)
                      slug
                      params
                    >>= answer
                        (without service slug params)
                        (report.cache_ttl_seconds * second)
                        slug
                        params))
              p).0
    after_lookup (ok report, t) v h =
        after_validation (report.cache_ttl_seconds * second) v
          (validate_run_params service.max_range_days params) t h
    after_lookup (err x, t) v h = refl

    -- When the version of a report has no entry once its definition is looked up, a run returns what it
    -- would return without a cache.
    pub run_report-misses :
        (v : ℕ) (s : S)
        → HasNoEntries v (service.repo.get_report_definition slug s).1
        → (run_report service slug params s).0
          ≡ (run_report (without service slug params) slug params s).0
    unfolding run_report
    run_report-misses v s h = after_lookup (service.repo.get_report_definition slug s) v h
