-- ===== src/Tests/Handlers.antt =====
-- Requests to the handlers over the services of `Stores`.
use pg_analytics_service.Prelude.{◌≡◌, ◌⊎◌, refl, false, if◌then◌else◌, Text, none, [], codes, ◌=ₜ◌}
use pg_analytics_service.Effects.{ok, pure}
use pg_analytics_service.Application.RecomputeService.{Process}
use pg_analytics_service.Strings.{trim_space}
use pg_analytics_service.Http.Auth.{Headers, is_authorized, provided_key, header_names}
use pg_analytics_service.Http.Handlers.{Handler}
use pg_analytics_service.Http.Routes.{
  Match, public, PublicRoute, shows_management_data, management, trigger_route, wrong_method,
  no_route, Request, serve, serve-Harmless,
}
use pg_analytics_service.Tests.Stores.{Store, reports, recomputes, audits, host}

abbrev handler : Handler Store
handler = record {
  reports = reports;
  recompute = recomputes;
  audits = audits;
  health = record { ping_db = pure tt; ping_cache = pure tt };
  host = host;
  version = codes "dev";
  default_days = 30;
}

abbrev no_headers : Headers
no_headers name = []

abbrev idle : Process Store
idle = record { world = λ k. none; queue = [] }

abbrev router : Text → Text → Match
router method path =
    if path =ₜ codes "/api/v1/recomputations"
    then if method =ₜ codes "POST" then management trigger_route else wrong_method
    else no_route

abbrev request : Request
request = record {
  method = codes "POST";
  path = codes "/api/v1/recomputations";
  param = [];
  query = λ name. [];
  headers = no_headers;
  body = ok (record {
    report_slug = codes "status-counts";
    window = codes "day";
    date_from = [];
    date_to = [];
    requested_by = [];
  });
}

unauthorized : is_authorized (codes "secret") no_headers ≡ false
unfolding is_authorized provided_key header_names trim_space codes ◌=ₜ◌
unauthorized = refl

serve-Harmless_example :
    (shows_management_data (serve handler request router (codes "secret") idle).0 ≡ false)
    × ((serve handler request router (codes "secret") idle).1.queue ≡ idle.queue)
    × (((serve handler request router (codes "secret") idle).1 ≡ idle)
        ⊎ ((route : PublicRoute) × (router request.method request.path ≡ public route)))
serve-Harmless_example = serve-Harmless handler request router (codes "secret") idle unauthorized
