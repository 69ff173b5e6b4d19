-- ===== src/Http/Respond.antt =====
-- `handleError` of internal/http/handlers.go, over the envelope of response.go.
use pg_analytics_service.Prelude.{
  ℕ, ◌≡◌, refl, ◌++◌, ◌⊎◌, inl, inr, Option, none, some, Option-cases, Text, codes, arith,
}
use pg_analytics_service.Domain.Errors.{
  Error, wrapped, wrap_app_error, new_app_error, ErrorCode, AppError, err_code_invalid,
  err_code_not_found, err_code_unauthorized, err_code_conflict, err_code_unavailable,
  err_code_internal, code_text, error_text, as_app_error,
}

-- What `writeError` sends: the status, and `ErrorPayload` without details.
pub record ErrorReply : Type 0 where
  pub status : ℕ
  pub code : Text
  pub message : Text

unfoldable pub write_error : ℕ → Text → Text → ErrorReply
write_error status code message = record { status = status; code = code; message = message }

-- The `switch` on the code.
unfoldable pub app_error_reply : ErrorCode → Text → ErrorReply
unfolding write_error
app_error_reply err_code_invalid message = write_error 400 (code_text err_code_invalid) message
app_error_reply err_code_not_found message = write_error 404 (code_text err_code_not_found) message
app_error_reply err_code_unauthorized message =
    write_error 401 (code_text err_code_unauthorized) message
app_error_reply err_code_conflict message = write_error 409 (code_text err_code_conflict) message
app_error_reply err_code_unavailable message =
    write_error 503 (code_text err_code_unavailable) message
app_error_reply err_code_internal message = write_error 500 (code_text err_code_internal) message

abbrev reply_of : Option AppError → Error → ErrorReply
reply_of (some app) err = app_error_reply app.code app.message
reply_of none err =
    write_error 500 (code_text err_code_internal) (codes "internal error: " ++ error_text err)

unfoldable pub handle_error : Error → ErrorReply
unfolding app_error_reply write_error
handle_error err = reply_of (as_app_error err) err

-- What an error stands for behind the interface: a client never sees the inner error of an
-- `AppError`, nor what `fmt.Errorf` put before it.
pub handle_error-hides_inner :
    (code : ErrorCode) (message prefix : Text) (inner : Error)
    → (handle_error (wrap_app_error code message inner) ≡ handle_error (new_app_error code message))
      × (handle_error (wrapped prefix (wrap_app_error code message inner))
          ≡ handle_error (new_app_error code message))
unfolding handle_error as_app_error wrap_app_error new_app_error
handle_error-hides_inner code message prefix inner = (refl, refl)

-- The status that the interface gives to each kind of error.
abbrev pub HasStatus : ErrorCode → ℕ → Type 0
HasStatus code status =
    ((code ≡ err_code_invalid) × (status ≡ 400))
    ⊎ ((code ≡ err_code_unauthorized) × (status ≡ 401))
    ⊎ ((code ≡ err_code_not_found) × (status ≡ 404))
    ⊎ ((code ≡ err_code_conflict) × (status ≡ 409))
    ⊎ ((code ≡ err_code_internal) × (status ≡ 500))
    ⊎ ((code ≡ err_code_unavailable) × (status ≡ 503))

HasStatus-app_error_reply :
    (code : ErrorCode) (message : Text) → HasStatus code (app_error_reply code message).status
unfolding app_error_reply write_error
HasStatus-app_error_reply err_code_invalid message = ground arith
HasStatus-app_error_reply _ message = ground arith

-- What the reply takes of the error it is given for.
reply_code :
    (code : ErrorCode) (message : Text) → (app_error_reply code message).code ≡ code_text code
unfolding app_error_reply write_error
reply_code err_code_invalid message = refl
reply_code err_code_not_found message = refl
reply_code err_code_unauthorized message = refl
reply_code err_code_conflict message = refl
reply_code err_code_unavailable message = refl
reply_code err_code_internal message = refl

reply_message :
    (code : ErrorCode) (message : Text) → (app_error_reply code message).message ≡ message
unfolding app_error_reply write_error
reply_message err_code_invalid message = refl
reply_message err_code_not_found message = refl
reply_message err_code_unauthorized message = refl
reply_message err_code_conflict message = refl
reply_message err_code_unavailable message = refl
reply_message err_code_internal message = refl

-- Every error is answered: the first `AppError` of its chain gives the status, the code and the
-- message; an error without one is a 500 with the code of internal errors and its own text.
pub handle_error_lem :
    (e : Error)
    → ((app : AppError) × (as_app_error e ≡ some app)
        × HasStatus app.code (handle_error e).status
        × ((handle_error e).code ≡ code_text app.code)
        × ((handle_error e).message ≡ app.message))
      ⊎ ((as_app_error e ≡ none)
          × ((handle_error e).status ≡ 500)
          × ((handle_error e).code ≡ code_text err_code_internal)
          × ((handle_error e).message ≡ codes "internal error: " ++ error_text e))
unfolding handle_error write_error
handle_error_lem e = elim (Option-cases (as_app_error e)) [
  | inl h ↦ inr (h, rw h refl, rw h refl, rw h refl)
  | inr (app, h) ↦ inl (
    app,
    h,
    rw h (HasStatus-app_error_reply app.code app.message),
    rw h (reply_code app.code app.message),
    rw h (reply_message app.code app.message),
  )
]
