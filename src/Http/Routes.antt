-- ===== src/Http/Routes.antt =====
-- `Routes` of internal/http/handlers.go. Which of the registered routes a request matches is chi's
-- work, a parameter; so are its own middleware and the decoder of bodies.
use pg_analytics_service.Prelude.{◌≡◌, ◌⊎◌, inl, inr, refl, Bool, true, false, List, Text, codes}
use pg_analytics_service.Domain.Models.{
  ReportDefinition, ReportResult, RecomputeRun, AuditEntry, Pagination, HealthStatus,
}
use pg_analytics_service.Effects.{Result}
use pg_analytics_service.Application.RecomputeService.{Process}
use pg_analytics_service.Http.Auth.{Headers, is_authorized}
use pg_analytics_service.Http.Handlers.{
  Reply, data_reply, error_reply, Query, RecomputeRequestBody, Handler, get_health,
  list_reports_handler, get_report_handler, run_report_handler, trigger_recompute,
  get_recompute_run, list_audit_entries, with_management_auth,
}
use pg_analytics_service.Http.Respond.{write_error}

-- The routes, in the order of their registration; the parameter of a path is kept apart.
pub data PublicRoute : Type 0 where
  health_route reports_route report_route report_run_route : PublicRoute

pub data ManagementRoute : Type 0 where
  trigger_route run_route audit_route : ManagementRoute

-- A method of a path that has other methods only is answered by chi, without a body.
pub data Match : Type 0 where
  public : PublicRoute → Match
  management : ManagementRoute → Match
  wrong_method no_route : Match

-- A request as the handlers read it.
pub record Request : Type 0 where
  pub method : Text
  pub path : Text
  pub param : Text
  pub query : Query
  pub headers : Headers
  pub body : Result RecomputeRequestBody

pub data Payload : Type 0 where
  health : HealthStatus → Payload
  report_list : List ReportDefinition × Pagination → Payload
  report : ReportDefinition → Payload
  report_result : ReportResult → Payload
  recompute_run : RecomputeRun → Payload
  audit_entries : List AuditEntry × Pagination → Payload
  nothing : Payload

abbrev pub map_reply : {A B : Type 0} → (A → B) → Reply A → Reply B
map_reply f (data_reply status a) = data_reply status (f a)
map_reply f (error_reply e) = error_reply e

abbrev pub carrying : {A T : Type 0} → (A → Payload) → (T → Reply A × T) → T → Reply Payload × T
carrying f next t = (map_reply f (next t).0, (next t).1)

-- Runs and audit entries are what the management key protects.
abbrev pub is_management_data : Payload → Bool
is_management_data (recompute_run run) = true
is_management_data (audit_entries entries) = true
is_management_data (health status) = false
is_management_data (report_list reports) = false
is_management_data (report definition) = false
is_management_data (report_result result) = false
is_management_data nothing = false

abbrev pub shows_management_data : Reply Payload → Bool
shows_management_data (data_reply status payload) = is_management_data payload
shows_management_data (error_reply e) = false

module _ {S : Type 0} where
  -- A handler that does not touch the queue.
  abbrev pub aside : {A : Type 0} → (S → Reply A × S) → Process S → Reply A × Process S
  aside next p = ((next p.world).0, record p { world = (next p.world).1 })

  module _ (h : Handler S) (request : Request) where
    unfoldable pub serve_public : PublicRoute → Process S → Reply Payload × Process S
    serve_public health_route = carrying health (aside (get_health h))
    serve_public reports_route = carrying report_list (aside (list_reports_handler h request.query))
    serve_public report_route = carrying report (aside (get_report_handler h request.param))
    serve_public report_run_route =
        carrying report_result (aside (run_report_handler h request.param request.query))

    unfoldable pub serve_management : ManagementRoute → Process S → Reply Payload × Process S
    serve_management trigger_route =
        carrying recompute_run (trigger_recompute h request.headers request.body)
    serve_management run_route = carrying recompute_run (aside (get_recompute_run h request.param))
    serve_management audit_route =
        carrying audit_entries (aside (list_audit_entries h request.query))

    unfoldable pub answer_request : Text → Match → Process S → Reply Payload × Process S
    unfolding serve_public serve_management with_management_auth write_error
    answer_request api_key (public route) p = serve_public route p
    answer_request api_key (management route) p =
        with_management_auth api_key request.headers (serve_management route) p
    answer_request api_key wrong_method p = (data_reply 405 nothing, p)
    answer_request api_key no_route p =
        (error_reply (write_error 404 (codes "not_found") (codes "route was not found")), p)

    -- `Routes`; `router` is chi's choice for a method and a path.
    unfoldable pub serve : (Text → Text → Match) → Text → Process S → Reply Payload × Process S
    unfolding answer_request
    serve router api_key = answer_request api_key (router request.method request.path)

    serve_public-queue :
        (route : PublicRoute) (p : Process S) → (serve_public route p).1.queue ≡ p.queue
    unfolding serve_public
    serve_public-queue health_route p = refl
    serve_public-queue reports_route p = refl
    serve_public-queue report_route p = refl
    serve_public-queue report_run_route p = refl

    public-Discreet :
        {A : Type 0} (f : A → Payload)
        → ((a : A) → is_management_data (f a) ≡ false)
        → (r : Reply A) → shows_management_data (map_reply f r) ≡ false
    public-Discreet f h (data_reply status a) = h a
    public-Discreet f h (error_reply e) = refl

    serve_public-Discreet :
        (route : PublicRoute) (p : Process S)
        → shows_management_data (serve_public route p).0 ≡ false
    unfolding serve_public
    serve_public-Discreet health_route p = public-Discreet health (λ a. refl) _
    serve_public-Discreet reports_route p = public-Discreet report_list (λ a. refl) _
    serve_public-Discreet report_route p = public-Discreet report (λ a. refl) _
    serve_public-Discreet report_run_route p = public-Discreet report_result (λ a. refl) _

    -- What a request without the management key may get and change.
    abbrev pub Harmless : Match → Process S → Reply Payload × Process S → Type 0
    Harmless matched p r =
        (shows_management_data r.0 ≡ false)
        × (r.1.queue ≡ p.queue)
        × ((r.1 ≡ p) ⊎ ((route : PublicRoute) × (matched ≡ public route)))

    answer_request-Harmless :
        (api_key : Text) (matched : Match) (p : Process S)
        → is_authorized api_key request.headers ≡ false
        → Harmless matched p (answer_request api_key matched p)
    unfolding answer_request with_management_auth
    answer_request-Harmless api_key (public route) p refused =
        (serve_public-Discreet route p, serve_public-queue route p, inr (route, refl))
    answer_request-Harmless api_key (management route) p refused = rw refused (refl, refl, inl refl)
    answer_request-Harmless api_key wrong_method p refused = (refl, refl, inl refl)
    answer_request-Harmless api_key no_route p refused = (refl, refl, inl refl)

    -- Without the management key, whatever route chi finds for the request: the reply carries neither a
    -- run nor audit entries and no job is queued; and unless the request matches a public route, neither
    -- the servers nor the queue are touched.
    pub serve-Harmless :
        (router : Text → Text → Match) (api_key : Text) (p : Process S)
        → is_authorized api_key request.headers ≡ false
        → (shows_management_data (serve router api_key p).0 ≡ false)
          × ((serve router api_key p).1.queue ≡ p.queue)
          × (((serve router api_key p).1 ≡ p)
              ⊎ ((route : PublicRoute) × (router request.method request.path ≡ public route)))
    unfolding serve
    serve-Harmless router api_key p refused =
        answer_request-Harmless api_key (router request.method request.path) p refused
