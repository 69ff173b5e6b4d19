-- ===== src/Tests/Requests.antt =====
-- Requests, their dates and keys, and the commands of Redis.
use pg_analytics_service.Prelude.{
  ◌≡◌, ◌⊎◌, none, some, [], ◌++◌, if◌then◌else◌, codes, ◌=ₜ◌, pos, arith,
}
use pg_analytics_service.Domain.Errors.{
  err_code_internal, Error, AppError, plain, as_app_error, error_text, code_text,
}
use pg_analytics_service.Domain.Numbers.{decimal, parse_int, parse_int-decimal}
use pg_analytics_service.Application.LockLaws.{LockLaws}
use pg_analytics_service.Redis.{recompute_lock}
use pg_analytics_service.Redis.Laws.{lock_holder, recompute_lock-LockLaws}
use pg_analytics_service.Http.Auth.{Headers}
use pg_analytics_service.Http.Respond.{handle_error, HasStatus, handle_error_lem}
use pg_analytics_service.Tests.Stores.{client, client-ClientLaws}

parse_int-decimal_example : parse_int (decimal 365) ≡ some (pos 365)
parse_int-decimal_example = parse_int-decimal 365 (omega arith)

abbrev headers : Headers
headers name = if name =ₜ codes "Authorization" then codes "Bearer secret" else []

abbrev failure : Error
failure = plain (codes "closed pool")

handle_error_lem_example :
    ((app : AppError) × (as_app_error failure ≡ some app)
      × HasStatus app.code (handle_error failure).status
      × ((handle_error failure).code ≡ code_text app.code)
      × ((handle_error failure).message ≡ app.message))
    ⊎ ((as_app_error failure ≡ none)
        × ((handle_error failure).status ≡ 500)
        × ((handle_error failure).code ≡ code_text err_code_internal)
        × ((handle_error failure).message ≡ codes "internal error: " ++ error_text failure))
handle_error_lem_example = handle_error_lem failure

recompute_lock-LockLaws_example :
    LockLaws (recompute_lock client) (lock_holder client client-ClientLaws)
recompute_lock-LockLaws_example = recompute_lock-LockLaws client client-ClientLaws
