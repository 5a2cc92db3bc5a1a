-- ===== src/Backend/Replies.antt =====
-- What the handlers of backend/internal/httpapi/handlers.go read from a request and write to a reply, less the
-- fields that the browser does not read. A body is what the JSON of a request holds.
use Prim.Native.String.{String}
use text.Mathlib.Text.{◌==◌ as str_eq}
use secret_letter.Prelude.{ℕ, List, [], ◌∷◌, Option, none, some, if◌then◌else◌, is_empty, flat_map}
use secret_letter.Prelude.Results.{Result, ok, throw}
use secret_letter.Text.{Text, units}
use secret_letter.Utf8.Encoder.{encode}
use secret_letter.Utf8.Decoder.{initial, decode_loop, units_of}
use secret_letter.Http.{JsonObject, JsonValue, str, num, Response}
use secret_letter.Backend.RevealSession.{SecretError, invalid_token}
use secret_letter.Backend.Validation.{CreateSecretRequest}
use secret_letter.Backend.Service.Closed.{status_text}
use secret_letter.Backend.Handlers.{
  AppError, app_error, err_internal, err_invalid_secret_id, respond_error, reveal_session_error,
  open_error,
}
use secret_letter.Backend.Secrets.{Redis, SecretPayload, SecretStatus, CreateSecretResponse}

abbrev pub Body : Type 0
Body = List (String × JsonValue)

unfoldable pub value_at : String → Body → Option JsonValue
value_at name [] = none
value_at name ((other, value) ∷ fields) =
    if str_eq other name then some value else value_at name fields

-- A field of a Go struct; `none` is the decoder's error for a value of another type.
unfoldable pub str_field : String → Body → Option Text
str_field name body = elim (value_at name body) [
  | none ↦ some []
  | some value ↦ elim value [ str s ↦ some (encode s) | num n ↦ none ]
]

unfoldable pub num_field : String → Body → Option ℕ
num_field name body = elim (value_at name body) [
  | none ↦ some 0
  | some value ↦ elim value [ str s ↦ none | num n ↦ some n ]
]

infixl 5 ◌>>=◌
abbrev ◌>>=◌ : {A B : Type 0} → Option A → (A → Option B) → Option B
m >>= f = elim m [ none ↦ none | some a ↦ f a ]

-- `json.NewDecoder(r.Body).Decode(&req)`; the browser posts no truth values.
unfoldable pub decode_create : Body → Option CreateSecretRequest
decode_create body = do
  content ← str_field "content" body
  ciphertext ← str_field "ciphertext" body
  nonce ← str_field "nonce" body
  algorithm ← str_field "algorithm" body
  ttl_seconds ← num_field "ttlSeconds" body
  expires_in_minutes ← num_field "expiresInMinutes" body
  some (record {
    content = content;
    ciphertext = ciphertext;
    nonce = nonce;
    algorithm = algorithm;
    ttl_seconds = ttl_seconds;
    expires_in_minutes = expires_in_minutes;
    burn_after_read = none;
  })

abbrev pub err_method_not_allowed : AppError
err_method_not_allowed = app_error "method_not_allowed" "Method not allowed" 405

abbrev pub err_validation_failed : AppError
err_validation_failed = app_error "validation_failed" "Request validation failed" 400

abbrev pub err_not_found : AppError
err_not_found = app_error "not_found" "Route not found" 404

-- A Go string in the browser that reads the JSON.
unfoldable pub browser_text : Text → Text
browser_text bytes = flat_map units_of (decode_loop initial bytes)

-- `writeJSON`
abbrev pub write_json : ℕ → JsonObject → Response
write_json status fields = record { status = status; json = ok fields }

-- `writeJSON(w, http.StatusCreated, resp)`
unfoldable pub created_response : CreateSecretResponse → Response
created_response response = write_json 201 (
    ("secretId", browser_text response.token)
    ∷ ("token", browser_text response.token)
    ∷ ("url", browser_text (b'/' ∷ response.token))
    ∷ ("expiresAt", browser_text response.expires_at)
    ∷ [])

abbrev pub reply_create : Redis × Result SecretError CreateSecretResponse → Redis × Response
reply_create (redis, ok response) = (redis, created_response response)
reply_create (redis, throw _) = (redis, respond_error (err_internal "Failed to create secret"))

unfoldable pub session_response : Text → Text → Response
session_response token session_id = write_json 201 (
    ("sessionId", browser_text session_id)
    ∷ ("secretId", browser_text token)
    ∷ ("status", units "active")
    ∷ [])

abbrev pub reply_session : Text → Redis × Result SecretError Text → Redis × Response
reply_session token (redis, ok session_id) = (redis, session_response token session_id)
reply_session token (redis, throw e) = (redis, respond_error (reveal_session_error e))

-- An empty `expiresAt` is left out.
unfoldable pub status_response : Text → SecretStatus → Response
status_response token status = write_json 200 (
    ("secretId", browser_text token)
    ∷ ("status", status_text status.status)
    ∷ (if is_empty status.expires_at
        then []
        else ("expiresAt", browser_text status.expires_at) ∷ []))

-- The error branch of `handleGetSecretStatus`.
unfoldable pub status_error : SecretError → AppError
status_error invalid_token = err_invalid_secret_id "Secret token is invalid"
status_error _ = err_internal "Failed to get secret status"

abbrev pub reply_status : Text → Redis × Result SecretError SecretStatus → Redis × Response
reply_status token (redis, ok status) = (redis, status_response token status)
reply_status token (redis, throw e) = (redis, respond_error (status_error e))

unfoldable pub opened_response : Text → SecretPayload → Response
opened_response token payload = write_json 200 (
    ("secretId", browser_text token)
    ∷ ("ciphertext", browser_text payload.ciphertext)
    ∷ ("nonce", browser_text payload.nonce)
    ∷ ("algorithm", browser_text payload.algorithm)
    ∷ [])

abbrev pub reply_open : Text → Redis × Result SecretError SecretPayload → Redis × Response
reply_open token (redis, ok payload) = (redis, opened_response token payload)
reply_open token (redis, throw e) = (redis, respond_error (open_error e))
