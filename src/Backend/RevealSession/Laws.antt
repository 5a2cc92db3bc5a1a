-- ===== src/Backend/RevealSession/Laws.antt =====
-- What a session is good for, and when none can be had.
use secret_letter.Prelude.{ℕ, ◌+◌, ◌≤◌, ◌<◌, ◌≡◌, ◌≢◌, refl, none, some, arith}
use secret_letter.Text.{units, text_eq}
use secret_letter.Http.{JsonObject, field}
use secret_letter.Scene
use secret_letter.RevealPage.{scene_of_status}
use secret_letter.Backend.Letter.{active, opening, Metadata, claimed, claim_open}
use secret_letter.Backend.Letter.Claims.{held, claim_open-held}
use secret_letter.Backend.Service.{secret_status}
use secret_letter.Backend.RevealSession.{
  Sessions, invalid_token, secret_expired, unavailable, session_at, delete, refusal,
  create_reveal_session, validate_reveal_session,
}

module _ (token_hash id now : ℕ) (sessions : Sessions) where
  abbrev pub opened_sessions : Sessions
  opened_sessions = (create_reveal_session (some active) token_hash id now sessions).0

  -- A session for an active letter, while Redis keeps it, is good for that letter alone and for 15 minutes: with it the
  -- validation passes and changes nothing before its end, reports it as expired and deletes it from its end
  -- on, and reports it as invalid for every other letter.
  pub create_reveal_session-validates :
      ((later : ℕ)
        → later < now + 900
        → validate_reveal_session token_hash (some id) later opened_sessions
          ≡ (opened_sessions, none))
      × ((later : ℕ)
          → now + 900 ≤ later
          → validate_reveal_session token_hash (some id) later opened_sessions
            ≡ (delete id opened_sessions, some secret_expired))
      × ((other later : ℕ)
          → other ≢ token_hash
          → validate_reveal_session other (some id) later opened_sessions
            ≡ (opened_sessions, some invalid_token))
  unfolding create_reveal_session validate_reveal_session session_at refusal
  create_reveal_session-validates = (
    λ later h. ground (arith, h),
    λ later h. ground (arith, h),
    λ other later h. ground (arith, h),
  )

-- An opening that was cut off behind its claim: at any later time the status of the letter is `opening`, for which no
-- reveal session is created; and the page shows an error for it. Yet from the end of the claim to the
-- expiry of the letter the script would give it to a new claim.
pub held-unavailable :
    (meta : Metadata) (letter now claim_id claim_until : ℕ)
    → now < meta.expires_at_unix
    → (later token_hash id other until : ℕ) (sessions : Sessions) (reply : JsonObject)
    → field "status" reply ≡ some (units "opening")
    → let store = held meta letter now claim_id claim_until in
      (secret_status later store ≡ some opening)
      × (create_reveal_session (secret_status later store) token_hash id later sessions
          ≡ (sessions, some unavailable))
      × ((scene_of_status reply).state ≡ Scene.error)
      × (claim_until ≤ later
          → later < meta.expires_at_unix
          → (claim_open later other until store).1 ≡ claimed letter)
unfolding secret_status create_reveal_session refusal scene_of_status text_eq
held-unavailable meta letter now claim_id claim_until early later token_hash id other until sessions
      reply h =
    (
      refl,
      refl,
      rw h refl,
      (claim_open-held meta letter now claim_id claim_until early).2 later other until,
    )
