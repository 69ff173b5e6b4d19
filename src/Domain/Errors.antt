-- ===== src/Domain/Errors.antt =====
-- internal/domain/errors.go, and the other errors that its callers meet: driver errors, the
-- sentinels of pgx and go-redis, and `fmt.Errorf` with `%w`.
use pg_analytics_service.Prelude.{Bool, false, Option, none, some, ◌++◌, Text, codes, ◌=ₜ◌}

pub data ErrorCode : Type 0 where
  err_code_invalid err_code_not_found err_code_unauthorized : ErrorCode
  err_code_conflict err_code_unavailable err_code_internal : ErrorCode

-- The string behind each constant.
unfoldable pub code_text : ErrorCode → Text
code_text err_code_invalid = codes "invalid_request"
code_text err_code_not_found = codes "not_found"
code_text err_code_unauthorized = codes "unauthorized"
code_text err_code_conflict = codes "conflict"
code_text err_code_unavailable = codes "service_unavailable"
code_text err_code_internal = codes "internal_error"

-- Go's `error` values. The first two are `*AppError` without and with an inner `Err`; `plain` is a
-- driver's error, `wrapped` is `fmt.Errorf("…: %w", err)`; then `pgx.ErrNoRows`, `goredis.Nil`.
pub data Error : Type 0 where
  app_error : ErrorCode → Text → Error
  app_error_with : ErrorCode → Text → Error → Error
  plain : Text → Error
  wrapped : Text → Error → Error
  err_no_rows : Error
  redis_nil : Error

unfoldable pub new_app_error : ErrorCode → Text → Error
new_app_error code message = app_error code message

unfoldable pub wrap_app_error : ErrorCode → Text → Error → Error
wrap_app_error code message err = app_error_with code message err

-- `err.Error()`.
unfoldable pub error_text : Error → Text
error_text (app_error code message) = message
error_text (app_error_with code message err) = message ++ (codes ": " ++ error_text err)
error_text (plain message) = message
error_text (wrapped prefix err) = prefix ++ (codes ": " ++ error_text err)
error_text err_no_rows = codes "no rows in result set"
error_text redis_nil = codes "redis: nil"

pub record AppError : Type 0 where
  pub code : ErrorCode
  pub message : Text

-- `errors.As(err, &appErr)`: the first `*AppError` of the chain that `Unwrap` makes.
unfoldable pub as_app_error : Error → Option AppError
as_app_error (app_error code message) = some (record { code = code; message = message })
as_app_error (app_error_with code message err) = some (record { code = code; message = message })
as_app_error (plain message) = none
as_app_error (wrapped prefix err) = as_app_error err
as_app_error err_no_rows = none
as_app_error redis_nil = none

unfoldable pub is_app_error_code : Error → ErrorCode → Bool
is_app_error_code err code = elim (as_app_error err) [
  | none ↦ false
  | some app ↦ code_text app.code =ₜ code_text code
]
