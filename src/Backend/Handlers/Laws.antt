-- ===== src/Backend/Handlers/Laws.antt =====
-- What the reveal page shows for the errors of the server.
use secret_letter.Prelude.{ℕ, ◌≡◌, ◌≢◌, inl, inr, refl, []}
use secret_letter.Prelude.Results.{throw}
use secret_letter.Errors.{Thrown}
use secret_letter.Text.{text_eq}
use secret_letter.Scene.{SecretSceneState, SceneData}
use secret_letter.Scene
use secret_letter.Http.{field}
use secret_letter.Api.Codes.{
  known_code, code_of_status, normalize_secret_error_code, to_secret_api_error,
}
use secret_letter.Api.Requests.{read_reply}
use secret_letter.RevealPage.{finish_open, refused}
use secret_letter.RevealPage.Errors.{show_api_error, map_open_error}
use secret_letter.Backend.Letter.{claimed, claim_open}
use secret_letter.Backend.Service.{System, created}
use secret_letter.Backend.Service.OneTime.{Reach, Reach-once, claim_open-claimed}
use secret_letter.Backend.RevealSession.{
  SecretError, secret_consumed, secret_expired, secret_not_found, invalid_token, unavailable,
}
use secret_letter.Backend.Handlers.{
  AppError, respond_error, reveal_session_error, open_error, session_error, consume_error,
}

-- What the reader is to see of an error.
abbrev pub state_of : SecretError → SecretSceneState
state_of secret_consumed = Scene.consumed
state_of secret_expired = Scene.expired
state_of _ = Scene.error

-- The page shows this state, and no text, for an error.
abbrev pub Shows : AppError → SecretSceneState → Type 0
Shows e state =
    (x : Thrown) × (read_reply (respond_error e) ≡ throw x)
    × ((current : SceneData)
        → ((finish_open (refused (map_open_error x)) current).state ≡ state)
          × ((finish_open (refused (map_open_error x)) current).secret_content ≡ []))

-- What the reader is to see where the check of the reveal session fails.
abbrev pub state_of_session : SecretError → SecretSceneState
state_of_session secret_expired = Scene.expired
state_of_session _ = Scene.error

-- The page reads the server's errors from their replies, and shows no text. An error of the creation of a session, or
-- of `ConsumeSecret`, is shown as consumed exactly if the service found the letter consumed, as expired exactly
-- if it found it expired, and as an error in all other cases. An error of the check of the reveal session that stands
-- before `ConsumeSecret` is shown as an expired letter exactly if the session has expired, whatever the letter
-- is, and else as an error.
pub errors_shown :
    (e : SecretError)
    → Shows (reveal_session_error e) (state_of e)
      × Shows (open_error e) (state_of e)
      × Shows (session_error e) (state_of_session e)
unfolding reveal_session_error open_error session_error respond_error read_reply to_secret_api_error
    normalize_secret_error_code known_code code_of_status text_eq map_open_error show_api_error
    finish_open field
errors_shown secret_consumed = (
  (_, refl, λ current. (refl, refl)),
  (_, refl, λ current. (refl, refl)),
  (_, refl, λ current. (refl, refl)),
)
errors_shown secret_expired = (
  (_, refl, λ current. (refl, refl)),
  (_, refl, λ current. (refl, refl)),
  (_, refl, λ current. (refl, refl)),
)
errors_shown secret_not_found = (
  (_, refl, λ current. (refl, refl)),
  (_, refl, λ current. (refl, refl)),
  (_, refl, λ current. (refl, refl)),
)
errors_shown invalid_token = (
  (_, refl, λ current. (refl, refl)),
  (_, refl, λ current. (refl, refl)),
  (_, refl, λ current. (refl, refl)),
)
errors_shown unavailable = (
  (_, refl, λ current. (refl, refl)),
  (_, refl, λ current. (refl, refl)),
  (_, refl, λ current. (refl, refl)),
)

-- Once a response has given a letter out, no request to open it, at whatever time, claims it again; and
-- the page of the reader who asks shows the state that goes with the error of the service, and no text.
pub given-refused :
    (letter expires_at_unix : ℕ) {s : System}
    → Reach (created letter expires_at_unix) s
    → s.given ≢ []
    → (now claim_id claim_until : ℕ)
    → let reply = (claim_open now claim_id claim_until s.store).1 in
      ((payload : ℕ) → reply ≢ claimed payload)
      × Shows (open_error (consume_error reply)) (state_of (consume_error reply))
given-refused letter expires_at_unix {s} r given now claim_id claim_until = (
  λ payload h.
      let there = claim_open-claimed letter now claim_id claim_until s.store payload h in
      elim (Reach-once letter expires_at_unix r) [
        | inl none_given ↦ given none_given
        | inr (_, gone) ↦ cc
      ],
  (errors_shown (consume_error (claim_open now claim_id claim_until s.store).1)).1,
)
