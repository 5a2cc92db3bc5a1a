-- ===== src/Backend/Router.antt =====
-- backend/internal/httpapi: the routes of server.go and the handlers of handlers.go, over the Redis service. The
-- path and the headers are ASCII; the middleware, with its limits, is left out.
pub mod Paths
use Prim.Native.String.{String}
use secret_letter.Prelude.{
  ℕ, ◌-◌, [], ◌∷◌, ◌&&◌, Bool, true, false, not, Option, none, some, if◌then◌else◌, is_empty,
  length,
}
use secret_letter.Prelude.Results.{throw}
use secret_letter.Errors.{non_error}
use secret_letter.Text.{Text, units, text_eq, trim, starts_with, ends_with, slice_to, slice_from}
use secret_letter.Http.{Method, get, post, HttpRequest, field, Response}
use secret_letter.Backend.RevealSession.{SecretError}
use secret_letter.Backend.Validation.{validate_create_secret_request}
use secret_letter.Backend.Handlers.{
  err_invalid_request, err_invalid_secret_id, respond_error, session_error,
}
use secret_letter.Backend.Secrets.{
  Runtime, Draw, Redis, create_secret, get_secret_status, consume_secret, create_reveal_session,
  validate_session,
}
use secret_letter.Backend.Replies.{
  Body, str_field, decode_create, err_method_not_allowed, err_validation_failed, err_not_found,
  reply_create, reply_session, reply_status, reply_open, created_response, session_response,
  status_response, opened_response, status_error,
}

abbrev is_post : Method → Bool
is_post post = true
is_post get = false

-- `strings.TrimSuffix`
unfoldable pub trim_suffix : Text → Text → Text
trim_suffix suffix s = if ends_with suffix s then slice_to (length s - length suffix) s else s

-- The reply of Go's mux to a path that has no handler is no JSON.
abbrev page_not_found : Response
page_not_found = record { status = 404; json = throw non_error }

module _ (runtime : Runtime) (draw : Draw) where
  -- `handleCreateSecret` behind the check of the method.
  unfoldable pub create_decoded : Body → Redis → Redis × Response
  create_decoded body redis = elim (decode_create body) [
    | none ↦ (redis, respond_error (err_invalid_request "Invalid JSON request body"))
    | some req ↦
        if is_empty (validate_create_secret_request req)
        then reply_create (create_secret runtime draw req redis)
        else (redis, respond_error err_validation_failed)
  ]

  unfoldable pub handle_create_secret : Method → Option Body → Redis → Redis × Response
  unfolding create_decoded
  handle_create_secret get body redis = (redis, respond_error err_method_not_allowed)
  handle_create_secret post none redis =
      (redis, respond_error (err_invalid_request "Invalid JSON request body"))
  handle_create_secret post (some body) redis = create_decoded body redis

  -- `strings.TrimSpace` is taken to be the frontend's `trim`. On an id that only one of them finds empty, the reply has
  -- the same status and code, and the other message.
  unfoldable pub session_asked : Option Text → Redis → Redis × Response
  session_asked none redis =
      (redis, respond_error (err_invalid_request "Invalid JSON request body"))
  session_asked (some secret_id) redis =
      if is_empty (trim secret_id)
      then (redis, respond_error (err_invalid_secret_id "Secret ID is required"))
      else reply_session secret_id (create_reveal_session runtime draw secret_id redis)

  unfoldable pub handle_create_reveal_session : Method → Option Body → Redis → Redis × Response
  unfolding session_asked
  handle_create_reveal_session get body redis = (redis, respond_error err_method_not_allowed)
  handle_create_reveal_session post none redis =
      (redis, respond_error (err_invalid_request "Invalid JSON request body"))
  handle_create_reveal_session post (some body) redis =
      session_asked (str_field "secretId" body) redis

  unfoldable pub handle_get_secret_status : Text → Redis → Redis × Response
  handle_get_secret_status path redis =
      let secret_id = trim_suffix (units "/status") path in
      if is_empty secret_id
      then (redis, respond_error (err_invalid_secret_id "Secret ID is required"))
      else reply_status secret_id (get_secret_status runtime draw.now secret_id redis)

  -- From `ConsumeSecret` on.
  unfoldable pub open_checked : Text → Redis × Option SecretError → Redis × Response
  open_checked token (redis, some e) = (redis, respond_error (session_error e))
  open_checked token (redis, none) = reply_open token (consume_secret runtime draw token redis)

  -- The session is asked for only if the header has one.
  unfoldable pub session_checked : Text → Text → Redis → Redis × Option SecretError
  session_checked token session_id redis =
      if is_empty session_id
      then (redis, none)
      else validate_session runtime draw.now token session_id redis

  unfoldable pub handle_open_secret : Text → Text → Text → Redis → Redis × Response
  unfolding open_checked session_checked
  handle_open_secret suffix path session_header redis =
      let token = trim_suffix suffix path in
      let session_id = trim session_header in
      if is_empty token
      then (redis, respond_error (err_invalid_secret_id "Secret ID is required"))
      else open_checked token (session_checked token session_id redis)

  unfoldable pub handle_secret_routes : Method → Text → Text → Redis → Redis × Response
  handle_secret_routes method path session_header redis =
      if ends_with (units "/status") path && not (is_post method)
      then handle_get_secret_status path redis
      else if ends_with (units "/open") path && is_post method
      then handle_open_secret (units "/open") path session_header redis
      else if ends_with (units "/consume") path && is_post method
      then handle_open_secret (units "/consume") path session_header redis
      else (redis, respond_error err_not_found)

  -- `mux.HandleFunc` of `Handler`; the health check, which leaves the letters alone, is left out.
  unfoldable pub route : HttpRequest → Text → Redis → Redis × Response
  unfolding handle_create_secret handle_create_reveal_session handle_secret_routes
  route request path redis =
      if text_eq path (units "/api/secrets")
      then handle_create_secret request.method request.body redis
      else if starts_with (units "/api/secrets/") path
      then handle_secret_routes request.method (slice_from 13 path)
          (elim (field "X-Reveal-Session" request.headers) [ none ↦ [] | some id ↦ id ]) redis
      else if text_eq path (units "/api/reveal-sessions")
      then handle_create_reveal_session request.method request.body redis
      else (redis, page_not_found)
