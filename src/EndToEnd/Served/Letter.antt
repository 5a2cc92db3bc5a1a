-- ===== src/EndToEnd/Served/Letter.antt =====
-- One letter behind the frontend's requests: what each of them answers, and what it leaves in Redis.
use secret_letter.Prelude.{
  ℕ, suc, ◌+◌, ◌≡◌, refl, ap, ◌∙◌, List, [], ◌∷◌, true, false, Option, some, arith, all,
  and-eq-true, is_empty,
}
use secret_letter.Prelude.Results.{Result, ok}
use secret_letter.Errors.{Thrown}
use secret_letter.Text.{Text}
use secret_letter.Utf8.Decoder.{initial, decode_loop, decode_step, decode_first, units_of}
use secret_letter.Base64Url.{encode_base64_url, is_base64_url_char}
use secret_letter.Base64Url.RoundTrip.{encode_base64_url_shape}
use secret_letter.Http.{JsonObject, post, Response, field}
use secret_letter.Platform.{Platform}
use secret_letter.Api.Requests.{CreateSecretRequest, create_secret, read_reply}
use secret_letter.CreateSecretForm.Link.{token_of}
use secret_letter.CreateSecretForm.Laws.{IsTtl}
use secret_letter.Backend.Validation.{validate_create_secret_request, received}
use secret_letter.Backend.Secrets.{
  Runtime, Draw, Letter, Redis, CreateSecretResponse, is_valid_token, created_letter,
  effective_ttl_seconds,
}
use secret_letter.Backend.Secrets
use secret_letter.Backend.Secrets.Calls.{IsDrawn, Keeps, create_secret-Keeps}
use secret_letter.Backend.RevealSession.{SecretError}
use secret_letter.Backend.Replies.{
  decode_create, value_at, str_field, num_field, browser_text, created_response, reply_create,
}
use secret_letter.Backend.Router.{create_decoded, handle_create_secret}
use secret_letter.EndToEnd.{full_of_length}
use secret_letter.EndToEnd.Served.{Net, served}
use secret_letter.EndToEnd.Served.Requests.{answered, posted, create_request, create_secret-served}

abbrev pub IsDigits : Text → Type 0
IsDigits s = all is_base64_url_char s ≡ true

digit_decoded :
    (c : ℕ)
    → is_base64_url_char c ≡ true
    → (decode_step initial c ≡ (c ∷ [], initial)) × (units_of c ≡ c ∷ [])
unfolding is_base64_url_char decode_step decode_first units_of
digit_decoded c h = (ground arith, ground arith)

-- Base64url is read as it was sent.
pub browser_text-digits : (s : Text) → IsDigits s → browser_text s ≡ s
unfolding browser_text decode_loop
browser_text-digits [] h = refl
browser_text-digits (c ∷ s) h =
    let (own, later) = and-eq-true (is_base64_url_char c) (all is_base64_url_char s) h in
    let (step, same) = digit_decoded c own in
    rw (step, same) (ap (λ t. c ∷ t) (browser_text-digits s later))

pub drawn-IsDigits :
    (bytes : List ℕ)
    → IsDrawn bytes
    → IsDigits (encode_base64_url bytes) × (is_empty (encode_base64_url bytes) ≡ false)
drawn-IsDigits bytes (h, count) =
    let (digits, long) = encode_base64_url_shape bytes h in
    (digits, full_of_length (encode_base64_url bytes) (omega (arith, count, long)))

reply_create-ok :
    (r : Redis × Result SecretError CreateSecretResponse) (response : CreateSecretResponse)
    → r.1 ≡ ok response
    → reply_create r ≡ (r.0, created_response response)
reply_create-ok r response h = rw h refl

token_of-created :
    (token expires_at : Text)
    → IsDigits token
    → is_empty token ≡ false
    → (fields : JsonObject) × (read_reply
          (created_response (record { token = token; expires_at = expires_at }))
        ≡ ok fields)
      × (token_of fields ≡ token)
unfolding read_reply created_response token_of field
token_of-created [] expires_at digits full = cc
token_of-created (c ∷ token) expires_at digits full =
    let same = browser_text-digits (c ∷ token) digits in (_, refl, rw same refl)

module _ (runtime : Runtime) (draw : Draw) (redis : Redis) where
  create_handled :
      (request : CreateSecretRequest)
      → validate_create_secret_request (received request) ≡ []
      → handle_create_secret runtime draw post (some (posted request)) redis
        ≡ reply_create (Secrets.create_secret runtime draw (received request) redis)
  unfolding handle_create_secret create_decoded decode_create value_at str_field num_field received
  create_handled request valid = rw (handle_create_secret, valid) refl

module _ (p : Platform) (runtime : Runtime) (draws : ℕ → Draw) (env : Option Text) where
  abbrev net : Platform
  net = served p runtime draws env

  abbrev pub letter_of : ℕ → CreateSecretRequest → Letter
  letter_of now request = created_letter (now + request.ttl_seconds) (received request)

  abbrev answered_by :
      CreateSecretRequest → Net p.World → Redis × Response → Net p.World × Result Thrown JsonObject
  answered_by request = answered p runtime draws env (create_request p runtime draws env request)

  pub create_secret-letter :
      (request : CreateSecretRequest) (w : Net p.World)
      → IsDrawn (draws w.turn).token_bytes
      → IsTtl request.ttl_seconds
      → validate_create_secret_request (received request) ≡ []
      → let draw = draws w.turn in
        let token = encode_base64_url draw.token_bytes in
        let r = create_secret net env request w in
        ((fields : JsonObject) × (r.1 ≡ ok fields) × (token_of fields ≡ token))
        × Keeps runtime token (letter_of draw.now request) r.0.redis
        × (r.0.turn ≡ suc w.turn)
  create_secret-letter request w drawn lasts valid =
      let draw = draws w.turn in
      let effective : effective_ttl_seconds (received request) ≡ request.ttl_seconds =
        unfold effective_ttl_seconds in unfold received in ground arith in
      let (stored, kept) =
        create_secret-Keeps runtime draw (received request) w.redis drawn (λ e. ground arith) in
      let (digits, full) = drawn-IsDigits draw.token_bytes drawn in
      let same =
        create_secret-served p runtime draws env request w
        ∙ ap (answered_by request w)
            (create_handled runtime draw w.redis request valid ∙ reply_create-ok _ _ stored) in
      rw same (
        token_of-created (encode_base64_url draw.token_bytes) _ digits full,
        rw effective at kept,
        refl,
      )
