-- ===== src/Backend/Router/Paths.antt =====
-- Which handler a path of the frontend reaches.
use secret_letter.Prelude.{◌≡◌, refl, ◌++◌, false, some, arith, is_empty}
use secret_letter.Text.{Text, units, text_eq, starts_with, slice_from, trim}
use secret_letter.Text.Suffix.{ends_with-append, slice_to-append}
use secret_letter.Http.{get, post, HttpRequest, field}
use secret_letter.Backend.Secrets.{Runtime, Draw, Redis, get_secret_status}
use secret_letter.Backend.Replies.{reply_status}
use secret_letter.Backend.Router.{
  trim_suffix, session_checked, open_checked, handle_create_secret, handle_create_reveal_session,
  handle_get_secret_status, handle_open_secret, handle_secret_routes, route,
}

pub trim_suffix-append : (suffix s : Text) → trim_suffix suffix (s ++ suffix) ≡ s
unfolding trim_suffix
trim_suffix-append suffix s = rw (ends_with-append suffix s) (slice_to-append s suffix)

module _ (runtime : Runtime) (draw : Draw) (request : HttpRequest) (redis : Redis) where
  pub route_create :
      request.method ≡ post
      → route runtime draw request (units "/api/secrets") redis
        ≡ handle_create_secret runtime draw post request.body redis
  unfolding route text_eq
  route_create is_post = rw is_post refl

  pub route_session :
      request.method ≡ post
      → route runtime draw request (units "/api/reveal-sessions") redis
        ≡ handle_create_reveal_session runtime draw post request.body redis
  unfolding route text_eq starts_with
  route_session is_post = rw is_post refl

  pub route_status :
      (token : Text)
      → request.method ≡ get
      → is_empty token ≡ false
      → route runtime draw request (units "/api/secrets/" ++ token ++ units "/status") redis
        ≡ reply_status token (get_secret_status runtime draw.now token redis)
  unfolding route text_eq starts_with slice_from handle_secret_routes handle_get_secret_status
  route_status token is_get full =
      rw
        (
          is_get,
          ends_with-append (units "/status") token,
          trim_suffix-append (units "/status") token,
          full,
        )
        refl

  pub route_open :
      (token session_id : Text)
      → request.method ≡ post
      → is_empty token ≡ false
      → field "X-Reveal-Session" request.headers ≡ some session_id
      → route runtime draw request (units "/api/secrets/" ++ token ++ units "/open") redis
        ≡ open_checked runtime draw token
            (session_checked runtime draw token (trim session_id) redis)
  unfolding route text_eq starts_with slice_from handle_secret_routes handle_open_secret
  route_open token session_id is_post full header =
      let tail = ends_with-append (units "/open") token in
      rw (is_post, header, tail, trim_suffix-append (units "/open") token, full) (ground arith)
