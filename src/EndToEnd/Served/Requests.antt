-- ===== src/EndToEnd/Served/Requests.antt =====
-- What the requests of frontend/web-app/src/lib/api.ts get from the server.
use mathlib.Core.List.{append_assoc}
use secret_letter.Prelude.{
  ℕ, ◌≡◌, refl, ap, ◌∙◌, [], ◌∷◌, ◌++◌, true, false, Option, none, some, is_empty, length,
}
use secret_letter.Prelude.Results.{Result}
use secret_letter.Errors.{Thrown}
use secret_letter.Text.{Text, units, slice_from, trim}
use secret_letter.Text.Suffix.{slice_from-length}
use secret_letter.Http.{JsonObject, HttpRequest, Response, str, num, get, post, field}
use secret_letter.Platform.{Platform}
use secret_letter.Api.Fetch.{safe_fetch}
use secret_letter.Api.Requests.{
  CreateSecretRequest, api_base_url, ask, read_reply, create_secret, get_secret_status,
  create_reveal_session, open_secret, open_secret_at_path, reading, writing,
}
use secret_letter.Backend.Secrets.{Runtime, Draw, Redis}
use secret_letter.Backend.Secrets
use secret_letter.Backend.Replies.{reply_status, Body}
use secret_letter.Backend.Router.{
  route, handle_create_secret, handle_create_reveal_session, open_checked, session_checked,
}
use secret_letter.Backend.Router.Paths.{route_create, route_session, route_status, route_open}
use secret_letter.EndToEnd.Served.{Net, logged, answer, served}

-- The body of `createSecret`.
abbrev pub posted : CreateSecretRequest → Body
posted request =
    ("ciphertext", str request.ciphertext)
    ∷ ("nonce", str request.nonce)
    ∷ ("algorithm", str request.algorithm)
    ∷ ("ttlSeconds", num request.ttl_seconds)
    ∷ []

module _ (p : Platform) (runtime : Runtime) (draws : ℕ → Draw) (env : Option Text) where
  abbrev net : Platform
  net = served p runtime draws env

  -- The request with its fresh id.
  abbrev pub sent : (Text → HttpRequest) → Net p.World → HttpRequest
  sent request w = request (p.random_uuid w.browser).1

  -- What a call comes to whose request is answered like this.
  abbrev pub answered :
      (Text → HttpRequest) → Net p.World → Redis × Response → Net p.World × Result Thrown JsonObject
  answered request w reply =
      (logged (p.random_uuid w.browser).0 (sent request w) w reply, read_reply reply.1)

  ask-served :
      (request : Text → HttpRequest) (w : Net p.World) (reply : Redis × Response)
      → answer p runtime draws env
          (sent request w)
          (record w { browser = (p.random_uuid w.browser).0 })
        ≡ reply
      → ask net env request read_reply w ≡ answered request w reply
  unfolding ask safe_fetch
  ask-served request w reply h = ap (λ r. answered request w r) h

  -- The path of a URL of the API, of one part and of three.
  path_behind :
      (path : Text) → slice_from (length (api_base_url env)) (api_base_url env ++ path) ≡ path
  path_behind = slice_from-length (api_base_url env)

  path_behind_id :
      (front id back : Text)
      → slice_from (length (api_base_url env)) (api_base_url env ++ front ++ id ++ back)
        ≡ front ++ id ++ back
  path_behind_id front id back =
      rw
        (
          append_assoc (api_base_url env) front id,
          append_assoc (api_base_url env) (front ++ id) back,
        )
        (path_behind (front ++ id ++ back))

  abbrev pub status_request : Text → Text → HttpRequest
  status_request secret_id request_id = record {
    method = get;
    url = api_base_url env ++ units "/api/secrets/" ++ secret_id ++ units "/status";
    no_store = true;
    headers = reading request_id;
    body = none;
  }

  pub get_secret_status-served :
      (secret_id : Text) (w : Net p.World)
      → is_empty secret_id ≡ false
      → get_secret_status net env secret_id w
        ≡ answered (status_request secret_id) w (
            reply_status secret_id
              (Secrets.get_secret_status runtime (draws w.turn).now secret_id w.redis))
  unfolding get_secret_status
  get_secret_status-served secret_id w full = ask-served (status_request secret_id) w _ (
      rw (path_behind_id (units "/api/secrets/") secret_id (units "/status")) (
        route_status runtime (draws w.turn) (sent (status_request secret_id) w) w.redis secret_id
          refl full))

  abbrev pub session_request : Text → Text → HttpRequest
  session_request secret_id request_id = record {
    method = post;
    url = api_base_url env ++ units "/api/reveal-sessions";
    no_store = true;
    headers = writing request_id;
    body = some (("secretId", str secret_id) ∷ []);
  }

  pub create_reveal_session-served :
      (secret_id : Text) (w : Net p.World)
      → create_reveal_session net env secret_id w
        ≡ answered (session_request secret_id) w (
            handle_create_reveal_session runtime
              (draws w.turn)
              post
              (some (("secretId", str secret_id) ∷ []))
              w.redis)
  unfolding create_reveal_session
  create_reveal_session-served secret_id w = ask-served (session_request secret_id) w _ (
      rw (path_behind (units "/api/reveal-sessions"))
        (route_session runtime (draws w.turn) (sent (session_request secret_id) w) w.redis refl))

  abbrev pub create_request : CreateSecretRequest → Text → HttpRequest
  create_request request request_id = record {
    method = post;
    url = api_base_url env ++ units "/api/secrets";
    no_store = false;
    headers = writing request_id;
    body = some (posted request);
  }

  pub create_secret-served :
      (request : CreateSecretRequest) (w : Net p.World)
      → create_secret net env request w
        ≡ answered
            (create_request request)
            w
            (handle_create_secret runtime (draws w.turn) post (some (posted request)) w.redis)
  unfolding create_secret
  create_secret-served request w = ask-served (create_request request) w _ (
      rw (path_behind (units "/api/secrets"))
        (route_create runtime (draws w.turn) (sent (create_request request) w) w.redis refl))

  abbrev pub open_request : Text → Text → Text → HttpRequest
  open_request secret_id session_id request_id = record {
    method = post;
    url = api_base_url env ++ units "/api/secrets/" ++ secret_id ++ units "/" ++ units "open";
    no_store = true;
    headers = writing request_id ++ ("X-Reveal-Session", session_id) ∷ [];
    body = some [];
  }

  open_path :
      (secret_id : Text)
      → slice_from
          (length (api_base_url env))
          (api_base_url env ++ units "/api/secrets/" ++ secret_id ++ units "/" ++ units "open")
        ≡ units "/api/secrets/" ++ secret_id ++ units "/open"
  open_path secret_id =
      rw
        (append_assoc (api_base_url env ++ units "/api/secrets/" ++ secret_id) (units "/")
          (units "open"))
        (path_behind_id (units "/api/secrets/") secret_id (units "/open"))

  pub open_secret-served :
      (secret_id session_id : Text) (w : Net p.World)
      → is_empty secret_id ≡ false
      → is_empty session_id ≡ false
      → open_secret net env secret_id (some session_id) w
        ≡ answered (open_request secret_id session_id) w (
            open_checked runtime
              (draws w.turn)
              secret_id
              (session_checked runtime (draws w.turn) secret_id (trim session_id) w.redis))
  unfolding open_secret open_secret_at_path field
  open_secret-served secret_id session_id w full named =
      let draw = draws w.turn in
      let request = sent (open_request secret_id session_id) w in
      rw (named, open_secret_at_path)
        (ask-served (open_request secret_id session_id) w _ (
          ap (λ path. route runtime draw request path w.redis) (open_path secret_id)
          ∙ route_open runtime draw request w.redis secret_id session_id refl full refl))
