-- ===== src/Api/Codes.antt =====
-- `normalizeSecretErrorCode`, `friendlySecretApiMessage` and `toSecretApiError` of
-- frontend/web-app/src/lib/api.ts.
pub mod Laws
use Prim.Native.String.{String}
use secret_letter.Prelude.{
  ℕ, [], ◌∷◌, Bool, ◌&&◌, ◌||◌, leb, ltb, ◌==◌, Option, none, some, if◌then◌else◌,
}
use secret_letter.Text.{Text, units, text_eq, or_else, or_undefined}
use secret_letter.Errors.{
  SecretApiErrorCode, secret_consumed, secret_expired, secret_not_found, already_consumed,
  not_found, invalid_secret_id, rate_limit_exceeded, client_error, timeout_error, network_error,
  server_error, unknown_error, SecretApiError,
}
use secret_letter.Api.Messages.{
  consumed_text, expired_text, not_found_text, invalid_id_text, rate_limit_text, client_text,
  timeout_text, network_text, server_text, cannot_open_text,
}

-- The seven codes of the server that are taken over as they are.
unfoldable pub known_code : Option Text → Option SecretApiErrorCode
known_code none = none
known_code (some code) =
    if text_eq code (units "SECRET_CONSUMED")
    then some secret_consumed
    else if text_eq code (units "SECRET_EXPIRED")
    then some secret_expired
    else if text_eq code (units "SECRET_NOT_FOUND")
    then some secret_not_found
    else if text_eq code (units "already_consumed")
    then some already_consumed
    else if text_eq code (units "not_found")
    then some not_found
    else if text_eq code (units "invalid_secret_id")
    then some invalid_secret_id
    else if text_eq code (units "rate_limit_exceeded")
    then some rate_limit_exceeded
    else none

-- The ladder on the status that follows.
unfoldable pub code_of_status : ℕ → SecretApiErrorCode
code_of_status status =
    if status == 408 || status == 504
    then timeout_error
    else if status == 410
    then secret_consumed
    else if status == 404
    then secret_not_found
    else if status == 429
    then rate_limit_exceeded
    else if leb 400 status && ltb status 500
    then client_error
    else if leb 500 status
    then server_error
    else unknown_error

unfoldable pub normalize_secret_error_code : Option Text → ℕ → SecretApiErrorCode
normalize_secret_error_code code status = elim (known_code code) [
  | some known ↦ known
  | none ↦ code_of_status status
]

unfoldable pub friendly_secret_api_message : SecretApiErrorCode → ℕ → Text
friendly_secret_api_message secret_consumed status = consumed_text
friendly_secret_api_message already_consumed status = consumed_text
friendly_secret_api_message secret_expired status = expired_text
friendly_secret_api_message secret_not_found status = not_found_text
friendly_secret_api_message not_found status = not_found_text
friendly_secret_api_message invalid_secret_id status = invalid_id_text
friendly_secret_api_message rate_limit_exceeded status = rate_limit_text
friendly_secret_api_message client_error status = client_text
friendly_secret_api_message timeout_error status = timeout_text
friendly_secret_api_message network_error status = network_text
friendly_secret_api_message server_error status = server_text
friendly_secret_api_message unknown_error status = if status == 429 then rate_limit_text else []

-- What the code reads of the body of a failed reply.
pub record ErrorData : Type 0 where
  pub error : Option Text
  pub message : Option Text

unfoldable pub to_secret_api_error : ℕ → ErrorData → SecretApiError
to_secret_api_error status error_data =
    let code = normalize_secret_error_code error_data.error status in
    record {
      code = code;
      message =
          or_else (friendly_secret_api_message code status)
            (or_undefined error_data.message cannot_open_text);
      status = status;
    }
