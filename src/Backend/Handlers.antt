-- ===== src/Backend/Handlers.antt =====
-- How backend/internal/httpapi (handlers.go and errors.go) answers when the service for the letters gives an error.
pub mod Laws
use Prim.Native.String.{String}
use secret_letter.Prelude.{ℕ, List, [], ◌∷◌}
use secret_letter.Prelude.Results.{ok}
use secret_letter.Text.{units}
use secret_letter.Http.{Response}
use secret_letter.Backend.Letter.{
  Reply, said_consumed, said_expired, not_found, conflict, ignored, claimed, done,
}
use secret_letter.Backend.RevealSession.{
  SecretError, secret_consumed, secret_expired, secret_not_found, invalid_token, unavailable,
}

-- Less the details, which the frontend does not read.
pub record AppError : Type 0 where
  pub code : String
  pub message : String
  pub status_code : ℕ

abbrev pub app_error : String → String → ℕ → AppError
app_error code message status_code = record {
  code = code;
  message = message;
  status_code = status_code;
}

-- The constructors of errors.go that the handlers below use.
abbrev pub err_invalid_request : String → AppError
err_invalid_request message = app_error "invalid_request" message 400

abbrev pub err_secret_consumed : String → AppError
err_secret_consumed message = app_error "SECRET_CONSUMED" message 410

abbrev pub err_secret_expired : String → AppError
err_secret_expired message = app_error "SECRET_EXPIRED" message 410

abbrev pub err_secret_not_found : String → AppError
err_secret_not_found message = app_error "SECRET_NOT_FOUND" message 404

abbrev pub err_internal : String → AppError
err_internal message = app_error "internal_error" message 500

abbrev pub err_invalid_secret_id : String → AppError
err_invalid_secret_id message = app_error "invalid_secret_id" message 400

-- `RespondError`, as the browser reads it.
unfoldable pub respond_error : AppError → Response
respond_error e = record {
  status = e.status_code;
  json = ok (("error", units e.code) ∷ ("message", units e.message) ∷ []);
}

-- The error branch of `handleCreateRevealSession`.
unfoldable pub reveal_session_error : SecretError → AppError
reveal_session_error invalid_token = err_invalid_secret_id "Secret token is invalid"
reveal_session_error secret_consumed = err_secret_consumed "This secret has already vanished."
reveal_session_error secret_expired = err_secret_expired "This secret has expired."
reveal_session_error secret_not_found = err_secret_not_found "No secret letter was found here."
reveal_session_error unavailable = err_internal "Failed to create reveal session"

-- The error branch behind `ValidateRevealSession` in `handleOpenSecret`.
unfoldable pub session_error : SecretError → AppError
session_error invalid_token = err_invalid_request "Reveal session is invalid."
session_error secret_expired = err_secret_expired "Reveal session has expired."
session_error secret_not_found = err_secret_not_found "Reveal session not found."
session_error _ = err_internal "Failed to validate reveal session"

-- The error branch behind `ConsumeSecret`.
unfoldable pub open_error : SecretError → AppError
open_error invalid_token = err_invalid_secret_id "Secret token is invalid"
open_error secret_consumed = err_secret_consumed "This secret has already vanished."
open_error secret_expired = err_secret_expired "This secret has expired."
open_error secret_not_found = err_secret_not_found "No secret letter was found here."
open_error unavailable = err_internal "Failed to consume secret"

-- The error of `ConsumeSecret` for a reply of the first script that is no payload.
unfoldable pub consume_error : Reply → SecretError
consume_error said_consumed = secret_consumed
consume_error said_expired = secret_expired
consume_error not_found = secret_not_found
consume_error _ = unavailable
