-- ===== src/Errors.antt =====
-- What the frontend throws and catches: the classes of frontend/web-app/src/lib/types.ts and
-- lib/crypto.ts, a `DOMException`, any other `Error`, and what is no `Error` at all.
use secret_letter.Prelude.{ℕ}
use secret_letter.Text.{Text, units}

pub data SecretApiErrorCode : Type 0 where
  secret_consumed secret_expired secret_not_found : SecretApiErrorCode
  already_consumed not_found invalid_secret_id rate_limit_exceeded : SecretApiErrorCode
  client_error timeout_error network_error server_error unknown_error : SecretApiErrorCode

-- The fields of a `SecretApiError`.
pub record SecretApiError : Type 0 where
  pub code : SecretApiErrorCode
  pub message : Text
  pub status : ℕ

pub data Thrown : Type 0 where
  secret_api_error : SecretApiError → Thrown
  base64url_decode_error : Thrown
  invalid_key_material_error : Thrown
  dom_exception : Text → Thrown
  plain_error : Text → Thrown
  non_error : Thrown

-- `error.message` of an `Error`. In a browser a `DOMException` is one too.
abbrev pub error_message : Thrown → Text → Text
error_message (secret_api_error e) otherwise = e.message
error_message base64url_decode_error otherwise = units "Invalid base64url data"
error_message invalid_key_material_error otherwise = units "Invalid AES-GCM key material"
error_message (dom_exception message) otherwise = message
error_message (plain_error message) otherwise = message
error_message non_error otherwise = otherwise
