-- ===== src/Application/AuditService.antt =====
-- internal/application/audit_service.go.
use pg_analytics_service.Prelude.{◌≡◌, List, if◌then◌else◌, codes, pos, ◌≤ℤ◌, ltb_ℤ, arith}
use pg_analytics_service.Domain.Errors.{err_code_internal, wrap_app_error}
use pg_analytics_service.Domain.Models.{AuditEntry, AuditFilter, Pagination}
use pg_analytics_service.Effects.{Action, pure, ◌>>=◌, rethrow}
use pg_analytics_service.Application.Ports.{AuditRepository}

-- The three `if`s, in their order.
unfoldable pub at_least_one : AuditFilter → AuditFilter
at_least_one filter =
    if ltb_ℤ filter.limit (pos 1) then record filter { limit = pos 20 } else filter

unfoldable pub at_most_100 : AuditFilter → AuditFilter
at_most_100 filter =
    if ltb_ℤ (pos 100) filter.limit then record filter { limit = pos 100 } else filter

unfoldable pub from_zero : AuditFilter → AuditFilter
from_zero filter = if ltb_ℤ filter.offset (pos 0) then record filter { offset = pos 0 } else filter

unfoldable pub clamped : AuditFilter → AuditFilter
unfolding at_least_one at_most_100 from_zero
clamped filter = from_zero (at_most_100 (at_least_one filter))

module _ {S : Type 0} (repo : AuditRepository S) where
  unfoldable pub list_entries : AuditFilter → Action S (List AuditEntry × Pagination)
  unfolding clamped
  list_entries filter = do
    let f = clamped filter
    found ←
        rethrow (wrap_app_error err_code_internal (codes "failed to list audit entries"))
          (repo.list_entries f)
    pure (found.0, record { limit = f.limit; offset = f.offset; total = found.1 })

-- Whatever the request's filter, the one that the repository is asked with has a limit from 1 to 100
-- and no negative offset, the same action and actor; and a filter that already has such is kept.
pub clamped_lem :
    (filter : AuditFilter)
    → (pos 1 ≤ℤ (clamped filter).limit)
      × ((clamped filter).limit ≤ℤ pos 100)
      × (pos 0 ≤ℤ (clamped filter).offset)
      × ((clamped filter).action ≡ filter.action)
      × ((clamped filter).actor ≡ filter.actor)
      × (pos 1 ≤ℤ filter.limit
          → filter.limit ≤ℤ pos 100
          → pos 0 ≤ℤ filter.offset
          → clamped filter ≡ filter)
unfolding clamped at_least_one at_most_100 from_zero
clamped_lem filter = ground arith
