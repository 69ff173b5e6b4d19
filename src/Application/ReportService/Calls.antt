-- ===== src/Application/ReportService/Calls.antt =====
-- What a run of a report does to the state, from what its calls do.
use pg_analytics_service.Prelude.{
  ℕ, ◌≡◌, ◌*◌, Option, none, some, List, Text, codes, ◌=ₜ◌, ltb, inl, inr, Bool-cases,
}
use pg_analytics_service.Domain.Errors.{Error}
use pg_analytics_service.Domain.Models.{ReportRunParams, ReportResult, Row, Time, second}
use pg_analytics_service.Effects.{Result, ok, err, Action, ◌>>=◌, continue, pure, with_error}
use pg_analytics_service.Application.Ports.{ReportCache}
use pg_analytics_service.Application.ReportService.{
  ReportService, run_report, read_cache, write_cache, answer, get_cached_result,
  store_cached_result, cache_key, decode_found, fresh_result, new_result, lift, time_now,
  execute_report_query,
}

-- A relation of the states before and after, for calls one after the other.
module _ {S : Type 0} (Goes : S → S → Type 0) (stay : (s : S) → Goes s s)
    (then_go : (s t u : S) → Goes s t → Goes t u → Goes s u) where
  abbrev pub Along {ℓ} : {A : Type ℓ} → Action S A → Type 0
  Along m = (s : S) → Goes s (m s).1

  continue-Along :
      {A B : Type 0} (f : A → Action S B) (s : S) (p : Result A × S)
      → Goes s p.1
      → ((a : A) → Along (f a))
      → Goes s (continue f p).1
  continue-Along f s (ok a, t) h after = then_go s t (f a t).1 h (after a t)
  continue-Along f s (err e, t) h after = h

  pub bind-Along :
      {A B : Type 0} (m : Action S A) (f : A → Action S B)
      → Along m
      → ((a : A) → Along (f a))
      → Along (m >>= f)
  bind-Along m f h after s = continue-Along f s (m s) (h s) after

  with_error-Along :
      {A : Type 0} (f : Error → Error) (s : S) (p : Result A × S)
      → Goes s p.1
      → Goes s (with_error f p).1
  with_error-Along f s (ok a, t) h = h
  with_error-Along f s (err e, t) h = h

  -- What the calls of a run do.
  pub record AreAlong (service : ReportService S) (c : ReportCache S) (slug : Text)
      (params : ReportRunParams) : Type 0 where
    pub definition : Along (service.repo.get_report_definition slug)
    pub volume : Along (service.repo.run_volume_report params)
    pub status_counts : Along (service.repo.run_status_counts_report params)
    pub top_entities : Along (service.repo.run_top_entities_report params)
    pub now : (s : S) → Goes s (service.host.now s).1
    pub version : Along (c.get_version slug)
    pub get : (key : Text) → Along (c.get key)
    pub store :
        (result : ReportResult) (ttl : ℕ)
        → Along (store_cached_result service (some c) slug params result ttl)

  module _ (service : ReportService S) (c : ReportCache S) (cached : service.cache ≡ some c)
      (slug : Text) (params : ReportRunParams) (calls : AreAlong service c slug params) where
    execute_report_query-Along : Along (execute_report_query service slug params)
    unfolding execute_report_query
    execute_report_query-Along s = elim (Bool-cases (slug =ₜ codes "volume-by-period")) [
      | inl e ↦ rw e (with_error-Along _ s _ (calls.volume s))
      | inr e ↦ rw e (elim (Bool-cases (slug =ₜ codes "status-counts")) [
        | inl f ↦ rw f (with_error-Along _ s _ (calls.status_counts s))
        | inr f ↦ rw f (elim (Bool-cases (slug =ₜ codes "top-entities")) [
          | inl g ↦ rw g (with_error-Along _ s _ (calls.top_entities s))
          | inr g ↦ rw g (stay s)
        ])
      ])
    ]

    -- The two readings of the clock after the query.
    timed-Along :
        (f : List Row → Time → Time → ReportResult) (s : S) (p : Result (List Row) × S)
        → Goes s p.1
        → Goes s
            (continue
              (λ rows. time_now service.host >>= λ generated.
                time_now service.host >>= λ ended. pure (f rows generated ended))
              p).1
    timed-Along f s (ok rows, t) h =
        then_go s t _ h (then_go t _ _ (calls.now t) (calls.now (service.host.now t).1))
    timed-Along f s (err e, t) h = h

    fresh_result-Along : Along (fresh_result service slug params)
    unfolding fresh_result
    fresh_result-Along s = then_go s _ _ (calls.now s) (
        timed-Along (λ rows. new_result slug params rows (service.host.now s).0)
          (service.host.now s).1 _ (execute_report_query-Along (service.host.now s).1))

    decode_found-Along : (o : Option Text) → Along (decode_found service o)
    unfolding decode_found
    decode_found-Along none = stay
    decode_found-Along (some payload) =
        bind-Along (lift (service.host.unmarshal_result payload)) _ stay (λ r. stay)

    cache_key-Along : Along (cache_key service c slug params)
    unfolding cache_key
    cache_key-Along =
        bind-Along (c.get_version slug) _ calls.version
          (λ v. bind-Along (lift (service.host.marshal_params _)) _ stay (λ blob. stay))

    get_cached_result-Along : Along (get_cached_result service (some c) slug params)
    unfolding get_cached_result
    get_cached_result-Along =
        bind-Along (cache_key service c slug params) _ cache_key-Along
          (λ key. bind-Along (c.get key) _ (calls.get key) decode_found-Along)

    read_cache-Along : (ttl : ℕ) → Along (read_cache service ttl slug params)
    unfolding read_cache
    read_cache-Along ttl s = elim (Bool-cases (ltb 0 ttl)) [
      | inl e ↦ rw (e, cached) (get_cached_result-Along s)
      | inr e ↦ rw e (stay s)
    ]

    write_cache-Along :
        (ttl : ℕ) (result : ReportResult) → Along (write_cache service ttl slug params result)
    unfolding write_cache
    write_cache-Along ttl result s = elim (Bool-cases (ltb 0 ttl)) [
      | inl e ↦ rw (e, cached) (calls.store result ttl s)
      | inr e ↦ rw e (stay s)
    ]

    answer-Along :
        (ttl : ℕ) (hit : Option ReportResult) → Along (answer service ttl slug params hit)
    unfolding answer
    answer-Along ttl (some hit) = stay
    answer-Along ttl none =
        bind-Along (fresh_result service slug params) _ fresh_result-Along (λ result.
          bind-Along (write_cache service ttl slug params result) _ (write_cache-Along ttl result)
            (λ u. stay))

    -- A run goes from state to state as its calls do.
    pub run_report-Along : Along (run_report service slug params)
    unfolding run_report
    run_report-Along =
        bind-Along (service.repo.get_report_definition slug) _ calls.definition (λ report.
          bind-Along (lift _) _ stay (λ u.
            bind-Along (read_cache service (report.cache_ttl_seconds * second) slug params) _
              (read_cache-Along (report.cache_ttl_seconds * second))
              (answer-Along (report.cache_ttl_seconds * second))))
