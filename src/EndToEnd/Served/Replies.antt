-- ===== src/EndToEnd/Served/Replies.antt =====
-- What the frontend reads of the replies of the handlers that are no errors, and of one that is.
use secret_letter.Prelude.{ℕ, ◌≡◌, refl, ap, some}
use secret_letter.Prelude.Results.{Result, ok, throw}
use secret_letter.Errors.{Thrown}
use secret_letter.Text.{Text}
use secret_letter.Http.{JsonObject, field}
use secret_letter.Scene
use secret_letter.Scene.{initial_scene}
use secret_letter.RevealPage.{finish_open}
use secret_letter.RevealPage.Errors.{map_open_error}
use secret_letter.Api.Requests.{CreateSecretRequest, read_reply}
use secret_letter.Backend.Service.Closed.{status_text}
use secret_letter.Backend.Validation.{received}
use secret_letter.Backend.Handlers.{reveal_session_error, respond_error}
use secret_letter.Backend.Handlers.Laws.{errors_shown}
use secret_letter.Backend.Secrets.{Redis, SecretStatus, SecretPayload, created_letter}
use secret_letter.Backend.RevealSession.{SecretError, secret_consumed}
use secret_letter.Backend.Replies.{
  status_response, session_response, opened_response, reply_status, reply_session, reply_open,
}
use secret_letter.EndToEnd.Accepted.{encode-digits}
use secret_letter.EndToEnd.Served.Letter.{IsDigits, browser_text-digits}

pub status_field :
    (token : Text) (status : SecretStatus)
    → (fields : JsonObject) × (read_reply (status_response token status) ≡ ok fields)
      × (field "status" fields ≡ some (status_text status.status))
unfolding read_reply status_response field
status_field token status = (_, refl, refl)

pub session_field :
    (token session_id : Text)
    → IsDigits session_id
    → (fields : JsonObject) × (read_reply (session_response token session_id) ≡ ok fields)
      × (field "sessionId" fields ≡ some session_id)
unfolding read_reply session_response field
session_field token session_id digits = (_, refl, ap some (browser_text-digits session_id digits))

pub opened_fields :
    (token : Text) (request : CreateSecretRequest) (expires_at_unix : ℕ)
    → IsDigits request.ciphertext
    → IsDigits request.nonce
    → let payload = (created_letter expires_at_unix (received request)).payload in
      (fields : JsonObject) × (read_reply (opened_response token payload) ≡ ok fields)
      × (field "ciphertext" fields ≡ some request.ciphertext)
      × (field "nonce" fields ≡ some request.nonce)
unfolding read_reply opened_response field created_letter received
opened_fields token request expires_at_unix c n = (
  _,
  refl,
  rw (encode-digits request.ciphertext c) (ap some (browser_text-digits request.ciphertext c)),
  rw (encode-digits request.nonce n) (ap some (browser_text-digits request.nonce n)),
)

pub reply_status-ok :
    (token : Text) (r : Redis × Result SecretError SecretStatus) (status : SecretStatus)
    → r.1 ≡ ok status
    → reply_status token r ≡ (r.0, status_response token status)
reply_status-ok token r status h = rw h refl

pub reply_session-ok :
    (token session_id : Text) (r : Redis × Result SecretError Text)
    → r.1 ≡ ok session_id
    → reply_session token r ≡ (r.0, session_response token session_id)
reply_session-ok token session_id r h = rw h refl

pub reply_session-throw :
    (token : Text) (e : SecretError) (r : Redis × Result SecretError Text)
    → r.1 ≡ throw e
    → reply_session token r ≡ (r.0, respond_error (reveal_session_error e))
reply_session-throw token e r h = rw h refl

pub reply_open-ok :
    (token : Text) (payload : SecretPayload) (r : Redis × Result SecretError SecretPayload)
    → r.1 ≡ ok payload
    → reply_open token r ≡ (r.0, opened_response token payload)
reply_open-ok token payload r h = rw h refl

pub shown_consumed :
    (x : Thrown) × (read_reply (respond_error (reveal_session_error secret_consumed)) ≡ throw x)
    × ((map_open_error x).state ≡ Scene.consumed)
unfolding finish_open
shown_consumed =
    let (x, thrown, shown) = (errors_shown secret_consumed).0 in
    (x, thrown, (shown initial_scene).0)
