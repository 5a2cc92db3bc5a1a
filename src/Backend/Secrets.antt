-- ===== src/Backend/Secrets.antt =====
-- The methods of `RedisService` (backend/internal/secret/redis_service.go) over all letters, each call run without
-- another in between. Every call draws what it needs from the clock and from `crypto/rand`. What is sealed at
-- rest is read back as it was, and Redis answers.
pub mod Lives
pub mod Calls
use secret_letter.Prelude.{
  ℕ, ◌+◌, ◌*◌, List, [], ◌∷◌, Bool, false, ◌||◌, not, ltb, ◌==◌, Option, none, some, if◌then◌else◌,
  all, length,
}
use secret_letter.Prelude.Results.{Result, ok, throw}
use secret_letter.Text.{Text}
use secret_letter.Base64Url.{encode_base64_url, is_base64_url_char}
use secret_letter.Backend.Letter.{
  Status, active, expired, Metadata, Store, Reply, claimed, done, claim_open, finalize_open,
}
use secret_letter.Backend.Service.{open_claim_ttl, secret_status, is_stale}
use secret_letter.Backend.RevealSession.{
  Sessions, SecretError, invalid_token, secret_not_found, unavailable, validate_reveal_session,
}
use secret_letter.Backend.RevealSession
use secret_letter.Backend.Handlers.{consume_error}
use secret_letter.Backend.Validation.{CreateSecretRequest}

-- What the methods take from Go's library: a hash as the number that names its keys, a drawn id as a
-- number, and a time as a text.
pub record Runtime : Type 0 where
  pub sha256 : Text → ℕ
  pub id_number : Text → ℕ
  pub rfc3339 : ℕ → Text

pub record Draw : Type 0 where
  pub now : ℕ
  pub token_bytes : List ℕ
  pub id_bytes : List ℕ

-- Less the times, the theme and the flag, which the browser does not read.
pub record SecretPayload : Type 0 where
  pub content : Text
  pub ciphertext : Text
  pub nonce : Text
  pub algorithm : Text

-- The two keys of a letter; `payload` is what its payload key decrypts to.
pub record Letter : Type 0 where
  pub store : Store
  pub payload : SecretPayload

abbrev pub Letters : Type 0
Letters = List (ℕ × Letter)

pub record Redis : Type 0 where
  pub letters : Letters
  pub sessions : Sessions

unfoldable pub letter_at : ℕ → Letters → Option Letter
letter_at hash [] = none
letter_at hash ((other, letter) ∷ letters) =
    let rest = letter_at hash letters in if hash == other then some letter else rest

unfoldable pub set_letter : ℕ → Letter → Letters → Letters
set_letter hash letter [] = (hash, letter) ∷ []
set_letter hash letter ((other, old) ∷ letters) =
    let rest = set_letter hash letter letters in
    if hash == other then (hash, letter) ∷ letters else (other, old) ∷ rest

unfoldable pub is_valid_token : Text → Bool
is_valid_token token =
    if ltb (length token) 16 || ltb 200 (length token) then false else all is_base64_url_char token

unfoldable pub effective_ttl_seconds : CreateSecretRequest → ℕ
effective_ttl_seconds req =
    if not (req.ttl_seconds == 0) then req.ttl_seconds else req.expires_in_minutes * 60

-- The two keys that the pipeline of `CreateSecret` sets; the payload is named by 0.
unfoldable pub created_letter : ℕ → CreateSecretRequest → Letter
created_letter expires_at_unix req = record {
  store = record {
    metadata = some (record {
      status = active;
      opening_id = none;
      opening_until_unix = none;
      expires_at_unix = expires_at_unix;
      consumed_at_unix = none;
      view_count = 0;
    });
    payload = some 0;
  };
  payload = record {
    content = req.content;
    ciphertext = req.ciphertext;
    nonce = req.nonce;
    algorithm = req.algorithm;
  };
}

pub record CreateSecretResponse : Type 0 where
  pub token : Text
  pub expires_at : Text

-- Less the time of creation and the message, which the browser does not read; a status that is `none` is
-- `"not_found"`.
pub record SecretStatus : Type 0 where
  pub status : Option Status
  pub expires_at : Text

-- What `GetSecretStatus` leaves behind: a letter that is out of date is marked, and its payload deleted.
unfoldable pub status_store : ℕ → Store → Store
status_store now store = elim store.metadata [
  | none ↦ store
  | some meta ↦
      if is_stale now meta
      then record { metadata = some (record meta { status = expired }); payload = none }
      else store
]

-- The calls of the two scripts in `ConsumeSecret`.
abbrev pub finalized : Store × Reply → Store × Option SecretError
finalized (store, done) = (store, none)
finalized (store, reply) = (store, some (consume_error reply))

abbrev pub claim_then : ℕ → ℕ → Store × Reply → Store × Option SecretError
claim_then now claim_id (store, claimed payload) = finalized (finalize_open now claim_id store)
claim_then now claim_id (store, reply) = (store, some (consume_error reply))

unfoldable pub consume_store : ℕ → ℕ → Store → Store × Option SecretError
consume_store now claim_id store =
    claim_then now claim_id (claim_open now claim_id (now + open_claim_ttl) store)

abbrev pub consumed_with :
    ℕ → Letter → Redis → Store × Option SecretError → Redis × Result SecretError SecretPayload
consumed_with hash letter redis (store, error) = (
  record redis { letters = set_letter hash (record letter { store = store }) redis.letters },
  elim error [ none ↦ ok letter.payload | some e ↦ throw e ],
)

module _ (runtime : Runtime) where
  unfoldable pub hash_token : Text → Option ℕ
  hash_token token = if not (is_valid_token token) then none else some (runtime.sha256 token)

  unfoldable pub create_secret :
      Draw → CreateSecretRequest → Redis → Redis × Result SecretError CreateSecretResponse
  unfolding hash_token
  create_secret draw req redis =
      let token = encode_base64_url draw.token_bytes in
      let ttl_seconds = effective_ttl_seconds req in
      let expires_at = draw.now + ttl_seconds in
      elim (hash_token token) [
        | none ↦ (redis, throw unavailable)
        | some hash ↦ if ttl_seconds == 0 then (redis, throw unavailable) else (
          record redis { letters = set_letter hash (created_letter expires_at req) redis.letters },
          ok (record { token = token; expires_at = runtime.rfc3339 expires_at }),
        )
      ]

  abbrev no_letter : SecretStatus
  no_letter = record { status = none; expires_at = [] }

  unfoldable pub status_of : ℕ → Store → SecretStatus
  status_of now store = record {
    status = secret_status now store;
    expires_at = elim store.metadata [
      | none ↦ []
      | some meta ↦ runtime.rfc3339 meta.expires_at_unix
    ];
  }

  unfoldable pub get_secret_status : ℕ → Text → Redis → Redis × Result SecretError SecretStatus
  unfolding hash_token
  get_secret_status now token redis = elim (hash_token token) [
    | none ↦ (redis, throw invalid_token)
    | some hash ↦ elim (letter_at hash redis.letters) [
      | none ↦ (redis, ok no_letter)
      | some letter ↦ (
        record redis {
          letters =
              set_letter hash (record letter { store = status_store now letter.store })
                redis.letters;
        },
        ok (status_of now letter.store),
      )
    ]
  ]

  unfoldable pub consume_secret : Draw → Text → Redis → Redis × Result SecretError SecretPayload
  unfolding hash_token
  consume_secret draw token redis = elim (hash_token token) [
    | none ↦ (redis, throw invalid_token)
    | some hash ↦ elim (letter_at hash redis.letters) [
      | none ↦ (redis, throw secret_not_found)
      | some letter ↦
          let claim_id = runtime.id_number (encode_base64_url draw.id_bytes) in
          consumed_with hash letter redis (consume_store draw.now claim_id letter.store)
    ]
  ]

  -- `CreateRevealSession` behind its call of `GetSecretStatus`, with the id of the new session.
  abbrev pub session_for :
      Draw → Text → Redis × Result SecretError SecretStatus → Redis × Result SecretError Text
  session_for draw token (redis, throw e) = (redis, throw e)
  session_for draw token (redis, ok status) =
      let session_id = encode_base64_url draw.id_bytes in
      let (sessions, error) =
        RevealSession.create_reveal_session status.status (runtime.sha256 token)
          (runtime.id_number session_id) draw.now redis.sessions in
      (record redis { sessions = sessions }, elim error [ none ↦ ok session_id | some e ↦ throw e ])

  unfoldable pub create_reveal_session : Draw → Text → Redis → Redis × Result SecretError Text
  create_reveal_session draw token redis =
      session_for draw token (get_secret_status draw.now token redis)

  -- `ValidateRevealSession`, for an id that is not empty.
  unfoldable pub validate_session : ℕ → Text → Text → Redis → Redis × Option SecretError
  unfolding hash_token
  validate_session now token session_id redis = elim (hash_token token) [
    | none ↦ (redis, some invalid_token)
    | some hash ↦
        let (sessions, error) =
          validate_reveal_session hash (some (runtime.id_number session_id)) now redis.sessions in
        (record redis { sessions = sessions }, error)
  ]
