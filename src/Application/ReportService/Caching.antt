-- ===== src/Application/ReportService/Caching.antt =====
-- A stored result is what later runs return.
use pg_analytics_service.Prelude.{
  ℕ, ◌≡◌, ◌≢◌, ◌<◌, ◌*◌, ap, ◌∙◌, true, none, some, Text, codes, =ₜ_refl, ℤ, lt→ltb, arith,
}
use pg_analytics_service.Domain.Models.{ReportDefinition, ReportRunParams, ReportResult, second}
use pg_analytics_service.Effects.{ok, settled}
use pg_analytics_service.Application.Ports.{ReportCache}
use pg_analytics_service.Application.CacheLaws.{CacheLaws}
use pg_analytics_service.Application.Validation.{validate_run_params}
use pg_analytics_service.Application.ReportService.{
  ReportService, run_report, read_cache, write_cache, answer, get_cached_result,
  store_cached_result, cache_key, decode_found, fresh_result, normalized, key_text,
}

module _ {S : Type 0} (service : ReportService S) (c : ReportCache S) (laws : CacheLaws c)
    (cached : service.cache ≡ some c) (slug : Text) (params : ReportRunParams) (blob : Text)
    (encoded : service.host.marshal_params (normalized params) ≡ ok blob) where
  -- The key of a run at a version.
  abbrev pub key_at : ℤ → Text
  key_at version = key_text slug version (service.host.sha256_hex blob)

  cache_key_lem :
      (s : S)
      → cache_key service c slug params s
        ≡ (ok (key_at (laws.version s slug)), (c.get_version slug s).1)
  unfolding cache_key
  cache_key_lem s = rw (settled (c.get_version slug s) (laws.version_read slug s)) (rw encoded)

  read_cache-some :
      (ttl : ℕ) (s : S) (payload : Text) (r : ReportResult)
      → 0 < ttl
      → ((j : Text) → key_at (laws.version s slug) ≢ laws.version_key j)
      → laws.entry s (key_at (laws.version s slug)) ≡ some payload
      → service.host.unmarshal_result payload ≡ ok r
      → read_cache service ttl slug params s ≡ (ok (some r), (c.get_version slug s).1)
  unfolding read_cache get_cached_result decode_found
  read_cache-some ttl s payload r positive data_key held decoded =
      rw (lt→ltb 0 ttl positive, cached, cache_key_lem s)
        (rw (laws.get_entry (key_at (laws.version s slug)) (c.get_version slug s).1) (
          rw (laws.version_read_keeps_entry slug (key_at (laws.version s slug)) s data_key)
            (rw held (rw decoded))))

  -- The state that the write of the cache leaves.
  abbrev pub written : ℕ → Text → S → S
  written ttl payload s =
      (c.set (key_at (laws.version s slug)) payload ttl (c.get_version slug s).1).1

  write_cache_lem :
      (ttl : ℕ) (s : S) (payload : Text) (r : ReportResult)
      → 0 < ttl
      → service.host.marshal_result r ≡ ok payload
      → write_cache service ttl slug params r s ≡ (ok tt, written ttl payload s)
  unfolding write_cache store_cached_result
  write_cache_lem ttl s payload r positive marshalled =
      rw (lt→ltb 0 ttl positive, cached, cache_key_lem s) (rw marshalled)

  entry-written :
      (ttl : ℕ) (s : S) (payload : Text)
      → 0 < ttl
      → laws.entry (written ttl payload s) (key_at (laws.version s slug)) ≡ some payload
  entry-written ttl s payload positive =
      rw
        (laws.set_entry (key_at (laws.version s slug)) payload ttl (c.get_version slug s).1
          (key_at (laws.version s slug)) positive)
        (rw (=ₜ_refl (key_at (laws.version s slug))))

  -- For a cache with the laws of `CacheLaws`: a run of a found report with valid parameters and a TTL,
  -- which misses the cache and whose query and encoding succeed, stores its result under the version
  -- that it reads after its query. A later run with the same parameters, as long as that version and
  -- that entry stand, returns the stored result marked as a hit, and asks nothing but the definition
  -- and the cache. The entry's key is none of a version, and the decoding inverts the encoding.
  pub run_report_twice :
      (report : ReportDefinition) (s s1 s2 s3 t t1 : S) (r : ReportResult) (payload : Text)
      → service.repo.get_report_definition slug s ≡ (ok report, s1)
      → validate_run_params service.max_range_days params ≡ ok tt
      → 0 < report.cache_ttl_seconds
      → read_cache service (report.cache_ttl_seconds * second) slug params s1 ≡ (ok none, s2)
      → fresh_result service slug params s2 ≡ (ok r, s3)
      → service.host.marshal_result r ≡ ok payload
      → service.host.unmarshal_result payload ≡ ok r
      → ((j : Text) → key_at (laws.version s3 slug) ≢ laws.version_key j)
      → service.repo.get_report_definition slug t ≡ (ok report, t1)
      → laws.version t1 slug ≡ laws.version s3 slug
      → laws.entry t1 (key_at (laws.version s3 slug))
        ≡ laws.entry (run_report service slug params s).1 (key_at (laws.version s3 slug))
      → (run_report service slug params s
          ≡ (ok r, written (report.cache_ttl_seconds * second) payload s3))
        × (run_report service slug params t ≡ (
          ok (record r { cache_hit = true; source_system = codes "redis" }),
          (c.get_version slug t1).1,
        ))
  unfolding run_report answer
  run_report_twice report s s1 s2 s3 t t1 r payload found valid positive missed fresh marshalled
        decoded data_key found' same_version same_entry =
      (first, second_run)
    where
      ttl : ℕ
      ttl = report.cache_ttl_seconds * second

      ttl_positive : 0 < ttl
      ttl_positive = omega arith

      first : run_report service slug params s ≡ (ok r, written ttl payload s3)
      first =
          rw (found, valid)
            (rw missed (rw fresh (rw (write_cache_lem ttl s3 payload r ttl_positive marshalled))))

      held : laws.entry t1 (key_at (laws.version t1 slug)) ≡ some payload
      held = rw same_version (
          same_entry
          ∙ (ap (λ p. laws.entry p.1 (key_at (laws.version s3 slug))) first
              ∙ entry-written ttl s3 payload ttl_positive))

      second_run : run_report service slug params t ≡ (
        ok (record r { cache_hit = true; source_system = codes "redis" }),
        (c.get_version slug t1).1,
      )
      second_run =
          rw (found', valid)
            (rw (
              read_cache-some ttl t1 payload r ttl_positive (rw same_version data_key) held
                decoded))
