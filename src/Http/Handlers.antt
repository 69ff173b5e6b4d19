-- ===== src/Http/Handlers.antt =====
-- The routes and handlers of internal/http/handlers.go. A reply is its status with the data of the
-- envelope; `meta` repeats parts of the data and is left out. chi, its own middleware and the JSON
-- decoder are not modelled: a handler is given the path's parameter, the query and the decoded body.
pub mod Requests
use pg_analytics_service.Prelude.{
  ℕ, ◌≡◌, Bool, true, false, Option, none, some, List, [], ◌∷◌, if◌then◌else◌, Text, codes, ◌=ₜ◌, ℤ,
  pos,
}
use pg_analytics_service.Domain.Errors.{Error, err_code_invalid, new_app_error}
use pg_analytics_service.Domain.Models.{
  Time, ReportDefinition, ReportListFilter, ReportRunParams, ReportResult, RecomputeRequest,
  RecomputeRun, AuditEntry, AuditFilter, Pagination, HealthStatus,
}
use pg_analytics_service.Effects.{Result, ok, err, Action, pure, raise, ◌>>=◌, ◌>>◌}
use pg_analytics_service.Application.Ports.{AuditRepository, HealthStore, Host}
use pg_analytics_service.Application.ReportService.{
  ReportService, list_reports, get_report, run_report,
}
use pg_analytics_service.Application.RecomputeService.{
  RecomputeService, Process, on_world, trigger, get_run,
}
use pg_analytics_service.Application.AuditService.{list_entries}
use pg_analytics_service.Application.HealthService.{check}
use pg_analytics_service.Strings.{trim_space}
use pg_analytics_service.Http.Params.{
  parse_int_with_default, normalize_window, parse_date_range_with_values,
}
use pg_analytics_service.Http.Auth.{Headers, is_authorized}
use pg_analytics_service.Http.Respond.{ErrorReply, write_error, handle_error}

-- `writeJSON` or `writeError`.
pub data Reply (A : Type 0) : Type 0 where
  data_reply : ℕ → A → Reply A
  error_reply : ErrorReply → Reply A

-- `r.URL.Query().Get`: the first value of a name, or the empty string.
abbrev pub Query : Type 0
Query = Text → Text

pub record RecomputeRequestBody : Type 0 where
  pub report_slug : Text
  pub window : Text
  pub date_from : Text
  pub date_to : Text
  pub requested_by : Text

pub record Handler (S : Type 0) : Type 0 where
  pub reports : ReportService S
  pub recompute : RecomputeService S
  pub audits : AuditRepository S
  pub health : HealthStore S
  pub host : Host S
  pub version : Text
  pub default_days : ℕ

-- `if err != nil { handleError(w, err); return }; writeJSON(w, status, …)`.
unfoldable pub reply_with : {A : Type 0} → ℕ → Result A → Reply A
reply_with status (ok a) = data_reply status a
reply_with status (err e) = error_reply (handle_error e)

abbrev pub handled : {A T : Type 0} → ℕ → Action T A → T → Reply A × T
handled status m t = (reply_with status (m t).0, (m t).1)

unfoldable pub list_filter : Query → ReportListFilter
list_filter query = record {
  search = trim_space (query (codes "search"));
  limit = parse_int_with_default (query (codes "limit")) (pos 20);
  offset = parse_int_with_default (query (codes "offset")) (pos 0);
  sort = trim_space (query (codes "sort"));
  order = trim_space (query (codes "order"));
}

unfoldable pub run_params : Query → Time → Time → ReportRunParams
run_params query from to = record {
  window = normalize_window (query (codes "window"));
  date_from = from;
  date_to = to;
  breakdown = trim_space (query (codes "breakdown"));
  limit = parse_int_with_default (query (codes "limit")) (pos 50);
  offset = parse_int_with_default (query (codes "offset")) (pos 0);
  source = trim_space (query (codes "source"));
  status = trim_space (query (codes "status"));
}

unfoldable pub audit_filter : Query → AuditFilter
audit_filter query = record {
  action = trim_space (query (codes "action"));
  actor = trim_space (query (codes "actor"));
  limit = parse_int_with_default (query (codes "limit")) (pos 20);
  offset = parse_int_with_default (query (codes "offset")) (pos 0);
}

-- Who asks for a recomputation: the body, then the header `X-Actor`, then a default.
unfoldable pub requester : RecomputeRequestBody → Headers → Text
requester body headers =
    if trim_space body.requested_by =ₜ []
    then if trim_space (headers (codes "X-Actor")) =ₜ []
      then codes "management-api"
      else trim_space (headers (codes "X-Actor"))
    else trim_space body.requested_by

unfoldable pub recompute_request : RecomputeRequestBody → Headers → Time → Time → RecomputeRequest
unfolding requester
recompute_request body headers from to = record {
  report_slug = trim_space body.report_slug;
  window = normalize_window body.window;
  date_from = from;
  date_to = to;
  requested_by = requester body headers;
  requested_via = codes "http";
}

-- The decoder's outcome, and the check of the slug.
unfoldable pub checked_body : Result RecomputeRequestBody → Result RecomputeRequestBody
checked_body (err e) = err (new_app_error err_code_invalid (codes "invalid JSON body"))
checked_body (ok body) =
    if trim_space body.report_slug =ₜ []
    then err (new_app_error err_code_invalid (codes "report_slug is required"))
    else ok body

module _ {S : Type 0} (h : Handler S) where
  unfoldable pub get_health : S → Reply HealthStatus × S
  get_health s =
      let found = check h.health h.host h.version s in
      (data_reply (if found.0.status =ₜ codes "ok" then 200 else 503) found.0, found.1)

  unfoldable pub list_reports_handler : Query → S → Reply (List ReportDefinition × Pagination) × S
  list_reports_handler query = handled 200 (list_reports h.reports (list_filter query))

  unfoldable pub get_report_handler : Text → S → Reply ReportDefinition × S
  get_report_handler slug = handled 200 (get_report h.reports slug)

  -- `parseDateRangeWithValues`, which reads the clock.
  unfoldable pub date_range : Text → Text → Action S (Time × Time)
  date_range raw_from raw_to s = (
    parse_date_range_with_values h.default_days (h.host.now s).0 raw_from raw_to,
    (h.host.now s).1,
  )

  unfoldable pub run_report_handler : Text → Query → S → Reply ReportResult × S
  unfolding date_range
  run_report_handler slug query = handled 200 (do
    range ← date_range (query (codes "date_from")) (query (codes "date_to"))
    run_report h.reports slug (run_params query range.0 range.1))

  unfoldable pub trigger_recompute :
      Headers → Result RecomputeRequestBody → Process S → Reply RecomputeRun × Process S
  unfolding date_range
  trigger_recompute headers decoded = handled 202 (do
    body ← λ p. (checked_body decoded, p)
    range ← on_world (date_range body.date_from body.date_to)
    trigger h.recompute (recompute_request body headers range.0 range.1))

  unfoldable pub get_recompute_run : Text → S → Reply RecomputeRun × S
  get_recompute_run run_id = handled 200 (get_run h.recompute run_id)

  unfoldable pub list_audit_entries : Query → S → Reply (List AuditEntry × Pagination) × S
  list_audit_entries query = handled 200 (list_entries h.audits (audit_filter query))

-- `managementAuthMiddleware` before a handler: `next` is not called without the key.
unfoldable pub with_management_auth :
    {A T : Type 0} → Text → Headers → (T → Reply A × T) → T → Reply A × T
with_management_auth api_key headers next t = if is_authorized api_key headers then next t else (
  error_reply (write_error 401 (codes "unauthorized") (codes "management authentication failed")),
  t,
)
