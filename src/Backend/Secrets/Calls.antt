-- ===== src/Backend/Secrets/Calls.antt =====
-- Calls of the methods for a token whose letter is in Redis.
use secret_letter.Prelude.{
  ℕ, ◌+◌, ◌<◌, ◌≡◌, ◌≢◌, refl, List, true, false, Option, none, some, arith, All, length, leb, ltb,
  ◌==◌, ◌||◌,
}
use secret_letter.Prelude.Results.{ok, throw}
use secret_letter.Text.{Text}
use secret_letter.Utf8.Encoder.{IsByte}
use secret_letter.Base64Url.{encode_base64_url}
use secret_letter.Base64Url.RoundTrip.{encode_base64_url_shape}
use secret_letter.Backend.Letter.{Store, active, consumed}
use secret_letter.Backend.Service.{secret_status}
use secret_letter.Backend.RevealSession.{
  RevealSession, Sessions, SecretError, secret_consumed, session_at, delete, refusal,
  validate_reveal_session,
}
use secret_letter.Backend.RevealSession
use secret_letter.Backend.Validation.{CreateSecretRequest}
use secret_letter.Backend.Secrets.{
  Runtime, Draw, Letter, Redis, letter_at, is_valid_token, status_store, status_of, consume_store,
  created_letter, create_secret, get_secret_status, consume_secret, create_reveal_session,
  validate_session, effective_ttl_seconds,
}
use secret_letter.Backend.Secrets.Lives.{letter_at-set_letter}

-- `secureRandomBytes(16)`
abbrev pub IsDrawn : List ℕ → Type 0
IsDrawn bytes = All IsByte bytes × (length bytes ≡ 16)

pub drawn-valid : (bytes : List ℕ) → IsDrawn bytes → is_valid_token (encode_base64_url bytes) ≡ true
unfolding is_valid_token
drawn-valid bytes (h, count) =
    let (digits, long) = encode_base64_url_shape bytes h in
    let short : (ltb (length (encode_base64_url bytes)) 16
          || ltb 200 (length (encode_base64_url bytes)))
        ≡ false =
      ground (arith, count, long) in
    rw short digits

module _ (runtime : Runtime) where
  -- The letter of a token.
  abbrev pub Keeps : Text → Letter → Redis → Type 0
  Keeps token letter redis = letter_at (runtime.sha256 token) redis.letters ≡ some letter

  -- The reveal session with an id.
  abbrev pub HasSession : Text → Text → ℕ → Redis → Type 0
  HasSession token session_id expires_at_unix redis =
      session_at (runtime.id_number session_id) redis.sessions
      ≡ some (record {
        token_hash = runtime.sha256 token;
        is_active = true;
        expires_at_unix = expires_at_unix;
      })

  pub create_secret-Keeps :
      (draw : Draw) (req : CreateSecretRequest) (redis : Redis)
      → IsDrawn draw.token_bytes
      → effective_ttl_seconds req ≢ 0
      → let token = encode_base64_url draw.token_bytes in
        let expires_at = draw.now + effective_ttl_seconds req in
        let r = create_secret runtime draw req redis in
        (r.1 ≡ ok (record { token = token; expires_at = runtime.rfc3339 expires_at }))
        × Keeps token (created_letter expires_at req) r.0
  unfolding create_secret
  create_secret-Keeps draw req redis drawn lasts =
      let token = encode_base64_url draw.token_bytes in
      let some_time : (effective_ttl_seconds req == 0) ≡ false = ground (arith, lasts) in
      rw (drawn-valid draw.token_bytes drawn, create_secret, some_time)
        (refl, letter_at-set_letter (runtime.sha256 token) _ redis.letters)

  module _ (token : Text) (valid : is_valid_token token ≡ true) (letter : Letter) where
    pub get_secret_status-Keeps :
        (now : ℕ) (redis : Redis)
        → Keeps token letter redis
        → let r = get_secret_status runtime now token redis in
          (r.1 ≡ ok (status_of runtime now letter.store))
          × Keeps token (record letter { store = status_store now letter.store }) r.0
          × (r.0.sessions ≡ redis.sessions)
    unfolding get_secret_status
    get_secret_status-Keeps now redis kept =
        rw (valid, get_secret_status, kept)
          (refl, letter_at-set_letter (runtime.sha256 token) _ redis.letters, refl)

    -- The end of `ConsumeSecret`, whatever the two scripts say.
    pub consume_secret-Keeps :
        (draw : Draw) (redis : Redis) (store : Store) (error : Option SecretError)
        → Keeps token letter redis
        → ((claim_id : ℕ) → consume_store draw.now claim_id letter.store ≡ (store, error))
        → let r = consume_secret runtime draw token redis in
          (r.1 ≡ elim error [ none ↦ ok letter.payload | some e ↦ throw e ])
          × Keeps token (record letter { store = store }) r.0
    unfolding consume_secret
    consume_secret-Keeps draw redis store error kept answers =
        rw
          (
            valid,
            consume_secret,
            kept,
            answers (runtime.id_number (encode_base64_url draw.id_bytes)),
          )
          (refl, letter_at-set_letter (runtime.sha256 token) _ redis.letters)

    -- `CreateRevealSession` for an active letter.
    pub create_reveal_session-Keeps :
        (draw : Draw) (redis : Redis)
        → Keeps token letter redis
        → secret_status draw.now letter.store ≡ some active
        → let session_id = encode_base64_url draw.id_bytes in
          let r = create_reveal_session runtime draw token redis in
          (r.1 ≡ ok session_id)
          × Keeps token (record letter { store = status_store draw.now letter.store }) r.0
          × HasSession token session_id (draw.now + 900) r.0
    unfolding session_at refusal create_reveal_session get_secret_status status_of
        RevealSession.create_reveal_session
    create_reveal_session-Keeps draw redis kept is_active =
        let own : (runtime.id_number (encode_base64_url draw.id_bytes)
              == runtime.id_number (encode_base64_url draw.id_bytes))
            ≡ true =
          ground arith in
        rw
          (
            create_reveal_session, valid, get_secret_status, kept, status_of, is_active,
            RevealSession.create_reveal_session, own,
          )
          (refl, letter_at-set_letter (runtime.sha256 token) _ redis.letters, refl)

    -- `CreateRevealSession` for a letter that was given out.
    pub create_reveal_session-consumed :
        (draw : Draw) (redis : Redis)
        → Keeps token letter redis
        → secret_status draw.now letter.store ≡ some consumed
        → let r = create_reveal_session runtime draw token redis in
          (r.1 ≡ throw secret_consumed)
          × Keeps token (record letter { store = status_store draw.now letter.store }) r.0
    unfolding refusal create_reveal_session get_secret_status status_of
        RevealSession.create_reveal_session
    create_reveal_session-consumed draw redis kept is_consumed =
        rw
          (
            create_reveal_session, valid, get_secret_status, kept, status_of, is_consumed,
            RevealSession.create_reveal_session,
          )
          (refl, letter_at-set_letter (runtime.sha256 token) _ redis.letters)

  pub validate_session-passes :
      (token : Text)
      → is_valid_token token ≡ true
      → (now : ℕ) (session_id : Text) (expires_at_unix : ℕ) (redis : Redis)
      → HasSession token session_id expires_at_unix redis
      → now < expires_at_unix
      → validate_session runtime now token session_id redis ≡ (redis, none)
  unfolding validate_reveal_session validate_session
  validate_session-passes token valid now session_id expires_at_unix redis has early =
      let own : (runtime.sha256 token == runtime.sha256 token) ≡ true = ground arith in
      let lasts : leb expires_at_unix now ≡ false = ground arith in
      rw (valid, validate_session, has, validate_reveal_session, own, lasts) refl
