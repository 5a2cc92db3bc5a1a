-- ===== src/Backend/RevealSession.antt =====
-- backend/internal/secret/reveal_session.go: the sessions that a reader asks for before opening a letter.
-- The hash of a letter's token, and the id of a session, are numbers.
pub mod Laws
use secret_letter.Prelude.{
  ℕ, ◌+◌, ◌*◌, List, [], ◌∷◌, Bool, true, false, ◌||◌, not, leb, ◌==◌, Option, none, some,
  if◌then◌else◌,
}
use secret_letter.Backend.Letter.{Status, active, opening, consumed, expired, deleted}

-- 15 minutes, in seconds.
abbrev pub reveal_session_ttl : ℕ
reveal_session_ttl = 15 * 60

-- The errors of errors.go, and any other.
pub data SecretError : Type 0 where
  secret_consumed secret_expired secret_not_found invalid_token unavailable : SecretError

pub record RevealSession : Type 0 where
  pub token_hash : ℕ
  pub is_active : Bool
  pub expires_at_unix : ℕ

-- The keys `reveal:session:` and an id.
abbrev pub Sessions : Type 0
Sessions = List (ℕ × RevealSession)

unfoldable pub session_at : ℕ → Sessions → Option RevealSession
session_at id [] = none
session_at id ((other, session) ∷ sessions) =
    let rest = session_at id sessions in if id == other then some session else rest

unfoldable pub delete : ℕ → Sessions → Sessions
delete id [] = []
delete id ((other, session) ∷ sessions) =
    let rest = delete id sessions in if id == other then rest else (other, session) ∷ rest

-- `switch status.Status` of `CreateRevealSession`; `none` is `"not_found"`.
unfoldable pub refusal : Option Status → Option SecretError
refusal none = some secret_not_found
refusal (some active) = none
refusal (some consumed) = some secret_consumed
refusal (some expired) = some secret_expired
refusal (some deleted) = some secret_not_found
refusal (some opening) = some unavailable

-- `CreateRevealSession`, with what `GetSecretStatus` says and the id that is drawn: the error, or the sessions with the
-- new one.
unfoldable pub create_reveal_session :
    Option Status → ℕ → ℕ → ℕ → Sessions → Sessions × Option SecretError
unfolding refusal delete
create_reveal_session status token_hash id now sessions = elim (refusal status) [
  | some e ↦ (sessions, some e)
  | none ↦ (
    (
      id,
      record {
        token_hash = token_hash;
        is_active = true;
        expires_at_unix = now + reveal_session_ttl;
      },
    )
        ∷ delete id sessions,
    none,
  )
]

-- `ValidateRevealSession`; an id that is `none` is the empty one.
unfoldable pub validate_reveal_session : ℕ → Option ℕ → ℕ → Sessions → Sessions × Option SecretError
unfolding session_at delete
validate_reveal_session token_hash none now sessions = (sessions, some invalid_token)
validate_reveal_session token_hash (some id) now sessions = elim (session_at id sessions) [
  | none ↦ (sessions, some secret_not_found)
  | some session ↦
      if not (session.token_hash == token_hash)
      then (sessions, some invalid_token)
      else if not session.is_active || leb session.expires_at_unix now
      then (delete id sessions, some secret_expired)
      else (sessions, none)
]
