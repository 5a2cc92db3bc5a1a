-- ===== src/Api/Requests.antt =====
-- The requests of frontend/web-app/src/lib/api.ts, over the platform's network.
pub mod Laws
use Prim.Native.String.{String}
use mathlib.Core.Option
use secret_letter.Prelude.{
  ℕ, List, [], ◌∷◌, ◌++◌, Bool, true, false, Option, none, some, if◌then◌else◌, is_empty,
}
use secret_letter.Prelude.Results.{Result, ok, throw}
use secret_letter.Errors.{Thrown, secret_api_error, plain_error}
use secret_letter.Text.{Text, units, trim, or_undefined, decimal}
use secret_letter.Http.{
  JsonObject, JsonValue, str, num, field, Method, get, post, HttpRequest, Response, is_ok,
}
use secret_letter.Api.Codes.{to_secret_api_error}
use secret_letter.Api.Fetch.{safe_fetch}
use secret_letter.Platform.{Platform, Action, ◌>>=◌, lift}

-- `import.meta.env.VITE_API_BASE_URL?.trim() || defaultApiBaseUrl`
unfoldable pub api_base_url : Option Text → Text
api_base_url env = or_undefined (Option.map trim env) (units "http://localhost:8080")

pub record CreateSecretRequest : Type 0 where
  pub ciphertext : Text
  pub nonce : Text
  pub algorithm : Text
  pub ttl_seconds : ℕ

abbrev pub json_type : Text
json_type = units "application/json"

abbrev pub reading : Text → List (String × Text)
reading request_id = ("Accept", json_type) ∷ ("X-Request-ID", request_id) ∷ []

abbrev pub writing : Text → List (String × Text)
writing request_id = ("Content-Type", json_type) ∷ reading request_id

-- `response.json().catch(() => ({}))`
abbrev pub json_or_empty : Result Thrown JsonObject → JsonObject
json_or_empty (ok data_fields) = data_fields
json_or_empty (throw _) = []

-- What follows the awaited `safeFetch` in all but `fetchHealth`.
unfoldable pub read_reply : Response → Result Thrown JsonObject
read_reply response =
    if is_ok response
    then response.json
    else let error_data = json_or_empty response.json in
      throw (
        secret_api_error (
          to_secret_api_error response.status
            (record { error = field "error" error_data; message = field "message" error_data })))

-- In `fetchHealth` a failed reply throws a plain `Error`.
unfoldable pub read_health : Response → Result Thrown JsonObject
read_health response =
    if is_ok response
    then response.json
    else throw (plain_error (units "Health check failed with status " ++ decimal response.status))

module _ (p : Platform) (env : Option Text) where
  abbrev endpoint : String → Text
  endpoint path = api_base_url env ++ units path

  generate_request_id : Action p.World Text
  generate_request_id w = let (w', id) = p.random_uuid w in (w', ok id)

  send : HttpRequest → Action p.World Response
  send request w = let (w', event) = p.exchange request w in (w', safe_fetch event)

  -- What the six functions share: a fresh request id, one `safeFetch`, and the reading of the reply.
  unfoldable pub ask :
      (Text → HttpRequest) → (Response → Result Thrown JsonObject) → Action p.World JsonObject
  unfolding generate_request_id send
  ask request read = do
    request_id ← generate_request_id
    response ← send (request request_id)
    lift (read response)

  unfoldable pub fetch_health : Action p.World JsonObject
  fetch_health =
      ask
        (λ request_id. record {
          method = get;
          url = endpoint "/healthz";
          no_store = false;
          headers = reading request_id;
          body = none;
        })
        read_health

  unfoldable pub create_secret : CreateSecretRequest → Action p.World JsonObject
  create_secret request =
      ask
        (λ request_id. record {
          method = post;
          url = endpoint "/api/secrets";
          no_store = false;
          headers = writing request_id;
          body = some (
              ("ciphertext", str request.ciphertext)
              ∷ ("nonce", str request.nonce)
              ∷ ("algorithm", str request.algorithm)
              ∷ ("ttlSeconds", num request.ttl_seconds)
              ∷ []);
        })
        read_reply

  unfoldable pub get_secret_status : Text → Action p.World JsonObject
  get_secret_status secret_id =
      ask
        (λ request_id. record {
          method = get;
          url = endpoint "/api/secrets/" ++ secret_id ++ units "/status";
          no_store = true;
          headers = reading request_id;
          body = none;
        })
        read_reply

  unfoldable pub create_reveal_session : Text → Action p.World JsonObject
  create_reveal_session secret_id =
      ask
        (λ request_id. record {
          method = post;
          url = endpoint "/api/reveal-sessions";
          no_store = true;
          headers = writing request_id;
          body = some (("secretId", str secret_id) ∷ []);
        })
        read_reply

  -- The header is left out if there is no session, or an empty one.
  abbrev session_header : Option Text → List (String × Text)
  session_header none = []
  session_header (some id) = if is_empty id then [] else ("X-Reveal-Session", id) ∷ []

  unfoldable pub open_secret_at_path : Text → String → Option Text → Action p.World JsonObject
  open_secret_at_path secret_id action reveal_session_id =
      ask
        (λ request_id. record {
          method = post;
          url = endpoint "/api/secrets/" ++ secret_id ++ units "/" ++ units action;
          no_store = true;
          headers = writing request_id ++ session_header reveal_session_id;
          body = some [];
        })
        read_reply

  unfoldable pub open_secret : Text → Option Text → Action p.World JsonObject
  unfolding open_secret_at_path
  open_secret secret_id reveal_session_id = open_secret_at_path secret_id "open" reveal_session_id

  unfoldable pub consume_secret : Text → Action p.World JsonObject
  unfolding open_secret_at_path
  consume_secret secret_id = open_secret_at_path secret_id "consume" none
