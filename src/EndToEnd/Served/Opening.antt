-- ===== src/EndToEnd/Served/Opening.antt =====
-- The requests of frontend/web-app/src/pages/RevealPage.tsx for a letter that is in Redis.
use secret_letter.Prelude.{
  ℕ, suc, ◌+◌, ◌<◌, ◌≡◌, refl, ap, ◌∙◌, List, [], ◌∷◌, true, false, Option, none, some, All-weaken,
  all→All, is_empty,
}
use secret_letter.Prelude.Results.{Result, ok, throw}
use secret_letter.Errors.{Thrown}
use secret_letter.Text.{Text, trim, is_space}
use secret_letter.Text.Trim.{trim_of_solid}
use secret_letter.Base64Url.{encode_base64_url, is_base64_url_char}
use secret_letter.Http.{JsonObject, str, post, HttpRequest, Response, field}
use secret_letter.Platform.{Platform}
use secret_letter.Scene
use secret_letter.Scene.{initial_scene}
use secret_letter.RevealPage.Errors.{map_open_error}
use secret_letter.Api.Requests.{
  CreateSecretRequest, get_secret_status, create_reveal_session, open_secret,
}
use secret_letter.Backend.Letter.{active, consumed}
use secret_letter.Backend.Service.{secret_status}
use secret_letter.Backend.Service.Closed.{status_text}
use secret_letter.Backend.Validation.{received}
use secret_letter.Backend.Secrets.{
  Runtime, Draw, Letter, Redis, SecretStatus, SecretPayload, status_store, status_of,
  created_letter, is_valid_token,
}
use secret_letter.Backend.Secrets
use secret_letter.Backend.Secrets.Lives.{spent_letter, fresh_consume}
use secret_letter.Backend.Secrets.Calls.{
  IsDrawn, Keeps, HasSession, drawn-valid, get_secret_status-Keeps, create_reveal_session-Keeps,
  create_reveal_session-consumed, validate_session-passes, consume_secret-Keeps,
}
use secret_letter.Backend.Replies.{
  opened_response, session_response, reply_session, reply_open, str_field, value_at,
}
use secret_letter.Backend.Router.{
  handle_create_reveal_session, session_asked, session_checked, open_checked,
}
use secret_letter.EndToEnd.Accepted.{encode-digits}
use secret_letter.EndToEnd.Links.{solid_char}
use secret_letter.EndToEnd.Served.{Net, served}
use secret_letter.EndToEnd.Served.Requests.{
  answered, status_request, session_request, open_request, get_secret_status-served,
  create_reveal_session-served, open_secret-served,
}
use secret_letter.EndToEnd.Served.Replies.{
  status_field, session_field, opened_fields, reply_status-ok, reply_session-ok,
  reply_session-throw, reply_open-ok, shown_consumed,
}
use secret_letter.EndToEnd.Served.Letter.{IsDigits, drawn-IsDigits, letter_of}

pub trim-digits : (s : Text) → IsDigits s → trim s ≡ s
trim-digits s h = trim_of_solid s (
    All-weaken (λ c. is_base64_url_char c ≡ true) (λ c. is_space c ≡ false) solid_char s
      (all→All is_base64_url_char s h))

module _ (p : Platform) (runtime : Runtime) (draws : ℕ → Draw) (env : Option Text) (bytes : List ℕ)
    (drawn : IsDrawn bytes) where
  abbrev net : Platform
  net = served p runtime draws env

  abbrev token : Text
  token = encode_base64_url bytes

  -- The request stands in the log with its status.
  abbrev pub Logs : (Text → HttpRequest) → ℕ → Net p.World → Net p.World → Type 0
  Logs request status w after =
      (response : Response) × (after.log ≡ (request (p.random_uuid w.browser).1, response) ∷ w.log)
      × (response.status ≡ status)

  pub get_secret_status-letter :
      (letter : Letter) (w : Net p.World)
      → Keeps runtime token letter w.redis
      → let now = (draws w.turn).now in
        let r = get_secret_status net env token w in
        ((fields : JsonObject) × (r.1 ≡ ok fields)
          × (field "status" fields ≡ some (status_text (secret_status now letter.store))))
        × Keeps runtime token (record letter { store = status_store now letter.store }) r.0.redis
        × (r.0.turn ≡ suc w.turn)
  unfolding status_of
  get_secret_status-letter letter w kept =
      let now = (draws w.turn).now in
      let (stated, keeps, same) =
        get_secret_status-Keeps runtime token (drawn-valid bytes drawn) letter now w.redis kept in
      rw
        (get_secret_status-served p runtime draws env token w (drawn-IsDigits bytes drawn).1
          ∙ ap (answered p runtime draws env (status_request p runtime draws env token) w)
              (reply_status-ok token _ _ stated))
        (status_field token (status_of runtime now letter.store), keeps, refl)

  session_handled :
      (draw : Draw) (redis : Redis)
      → handle_create_reveal_session runtime draw post (some (("secretId", str token) ∷ [])) redis
        ≡ reply_session token (Secrets.create_reveal_session runtime draw token redis)
  unfolding handle_create_reveal_session session_asked str_field value_at
  session_handled draw redis =
      let (digits, full) = drawn-IsDigits bytes drawn in
      rw (handle_create_reveal_session, encode-digits token digits, trim-digits token digits, full)
        refl

  abbrev session_answered : Net p.World → Redis × Response → Net p.World × Result Thrown JsonObject
  session_answered = answered p runtime draws env (session_request p runtime draws env token)

  pub create_reveal_session-letter :
      (letter : Letter) (w : Net p.World)
      → Keeps runtime token letter w.redis
      → IsDrawn (draws w.turn).id_bytes
      → secret_status (draws w.turn).now letter.store ≡ some active
      → let draw = draws w.turn in
        let session_id = encode_base64_url draw.id_bytes in
        let r = create_reveal_session net env token w in
        ((fields : JsonObject) × (r.1 ≡ ok fields) × (field "sessionId" fields ≡ some session_id))
        × Keeps runtime token
            (record letter { store = status_store draw.now letter.store })
            r.0.redis
        × HasSession runtime token session_id (draw.now + 900) r.0.redis
        × (r.0.turn ≡ suc w.turn)
        × Logs (session_request p runtime draws env token) 201 w r.0
  unfolding session_response
  create_reveal_session-letter letter w kept id_drawn is_active =
      let draw = draws w.turn in
      let (made, keeps, has) =
        create_reveal_session-Keeps runtime token (drawn-valid bytes drawn) letter draw w.redis kept
          is_active in
      rw
        (create_reveal_session-served p runtime draws env token w
          ∙ ap (session_answered w)
              (session_handled draw w.redis ∙ reply_session-ok token _ _ made))
        (
          session_field token _ (drawn-IsDigits draw.id_bytes id_drawn).0,
          keeps,
          has,
          refl,
          (_, refl, refl),
        )

  -- The error is shown as consumed.
  pub create_reveal_session-spent :
      (letter : Letter) (w : Net p.World)
      → Keeps runtime token letter w.redis
      → secret_status (draws w.turn).now letter.store ≡ some consumed
      → let draw = draws w.turn in
        let r = create_reveal_session net env token w in
        ((x : Thrown) × (r.1 ≡ throw x) × ((map_open_error x).state ≡ Scene.consumed))
        × Keeps runtime token
            (record letter { store = status_store draw.now letter.store })
            r.0.redis
        × (r.0.turn ≡ suc w.turn)
  create_reveal_session-spent letter w kept is_consumed =
      let draw = draws w.turn in
      let (made, keeps) =
        create_reveal_session-consumed runtime token (drawn-valid bytes drawn) letter draw w.redis
          kept is_consumed in
      rw
        (create_reveal_session-served p runtime draws env token w
          ∙ ap (session_answered w)
              (session_handled draw w.redis ∙ reply_session-throw token _ _ made))
        (shown_consumed, keeps, refl)

  open_handled :
      (draw : Draw) (session_id : Text) (expires_at_unix : ℕ) (redis : Redis)
      → IsDigits session_id
      → is_empty session_id ≡ false
      → HasSession runtime token session_id expires_at_unix redis
      → draw.now < expires_at_unix
      → open_checked runtime draw token (session_checked runtime draw token (trim session_id) redis)
        ≡ reply_open token (Secrets.consume_secret runtime draw token redis)
  unfolding open_checked session_checked
  open_handled draw session_id expires_at_unix redis digits full has early =
      rw
        (
          trim-digits session_id digits,
          full,
          session_checked,
          validate_session-passes runtime token (drawn-valid bytes drawn) draw.now session_id
              expires_at_unix redis has early,
        )
        refl

  pub open_secret-letter :
      (request : CreateSecretRequest) (since until : ℕ) (session_id : Text) (w : Net p.World)
      → IsDigits request.ciphertext
      → IsDigits request.nonce
      → Keeps runtime token (letter_of p runtime draws env since request) w.redis
      → IsDigits session_id
      → is_empty session_id ≡ false
      → HasSession runtime token session_id until w.redis
      → (draws w.turn).now < until
      → (draws w.turn).now < since + request.ttl_seconds
      → let r = open_secret net env token (some session_id) w in
        ((fields : JsonObject) × (r.1 ≡ ok fields)
          × (field "ciphertext" fields ≡ some request.ciphertext)
          × (field "nonce" fields ≡ some request.nonce))
        × Keeps runtime token
            (spent_letter
              (since + request.ttl_seconds)
              (draws w.turn).now
              (letter_of p runtime draws env since request))
            r.0.redis
        × (r.0.turn ≡ suc w.turn)
        × Logs (open_request p runtime draws env token session_id) 200 w r.0
  unfolding opened_response
  open_secret-letter request since until session_id w c n kept digits full has early alive =
      let draw = draws w.turn in
      let letter = letter_of p runtime draws env since request in
      let (given, keeps) =
        consume_secret-Keeps runtime token (drawn-valid bytes drawn) letter draw w.redis _ none kept
          (λ claim_id.
            fresh_consume (since + request.ttl_seconds) (received request) draw.now claim_id
              alive) in
      rw
        (open_secret-served p runtime draws env token session_id w (drawn-IsDigits bytes drawn).1
            full
          ∙ ap (answered p runtime draws env (open_request p runtime draws env token session_id) w)
              (open_handled draw session_id until w.redis digits full has early
                ∙ reply_open-ok token _ _ given))
        (
          opened_fields token request (since + request.ttl_seconds) c n,
          keeps,
          refl,
          (_, refl, refl),
        )
