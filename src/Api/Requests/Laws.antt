-- ===== src/Api/Requests/Laws.antt =====
-- How the replies reach the callers of the requests.
use secret_letter.Prelude.{◌≤◌, ◌≡◌, ◌≢◌, ◌⊎◌, inl, inr, refl, [], true, false, Option, Bool-cases}
use secret_letter.Prelude.Results.{Result, throw}
use secret_letter.Errors.{Thrown, SecretApiError, secret_api_error}
use secret_letter.Text.{Text}
use secret_letter.Http.{field, HttpRequest, JsonObject, Response, is_ok}
use secret_letter.Platform.{◌>>=◌, Platform}
use secret_letter.Api.Codes.{to_secret_api_error}
use secret_letter.Api.Codes.Laws.{to_secret_api_error_message}
use secret_letter.Api.Fetch.{FetchEvent, safe_fetch}
use secret_letter.Api.Requests.{
  ask, json_or_empty, read_reply, CreateSecretRequest, fetch_health, create_secret,
  get_secret_status, create_reveal_session, open_secret, consume_secret,
}

-- A reply whose status is in the two hundreds gives its JSON; any other throws a `SecretApiError` with that
-- status, whatever its body is, and with a text of its own if the status is 400 or more.
pub read_reply_total :
    (r : Response)
    → (is_ok r ≡ true) × (read_reply r ≡ r.json)
      ⊎ ((is_ok r ≡ false)
          × ((e : SecretApiError) × (read_reply r ≡ throw (secret_api_error e))
              × (e.status ≡ r.status)
              × (400 ≤ r.status → e.message ≢ [])))
unfolding read_reply to_secret_api_error
read_reply_total r = elim (Bool-cases (is_ok r)) [
  | inl good ↦ inl (good, rw good)
  | inr bad ↦
      let reply = json_or_empty r.json in
      let e =
        to_secret_api_error r.status
          (record { error = field "error" reply; message = field "message" reply }) in
      inr (bad, (e, rw bad, refl, (λ h. (to_secret_api_error_message r.status _ h).1)))
]

module _ (p : Platform) (env : Option Text) (e : FetchEvent) (err : Thrown) where
  ask_offline :
      safe_fetch e ≡ throw err
      → ((request : HttpRequest) (w : p.World) → (p.exchange request w).1 ≡ e)
      → (request : Text → HttpRequest) (read : Response → Result Thrown JsonObject) (w : p.World)
      → (ask p env request read w).1 ≡ throw err
  unfolding ask
  ask_offline f offline request read w =
      let w' = (p.random_uuid w).0 in
      let id = (p.random_uuid w).1 in rw (offline (request id) w', ask, ◌>>=◌) (rw (f, ask, ◌>>=◌))

  -- On a network where every request ends in one failure, be it that the transport fails or that the
  -- time is up, each of the six calls throws what `safeFetch` makes of it.
  pub requests_offline :
      safe_fetch e ≡ throw err
      → ((request : HttpRequest) (w : p.World) → (p.exchange request w).1 ≡ e)
      → (w : p.World) (id : Text) (session : Option Text) (request : CreateSecretRequest)
      → ((fetch_health p env w).1 ≡ throw err)
        × ((create_secret p env request w).1 ≡ throw err)
        × ((get_secret_status p env id w).1 ≡ throw err)
        × ((create_reveal_session p env id w).1 ≡ throw err)
        × ((open_secret p env id session w).1 ≡ throw err)
        × ((consume_secret p env id w).1 ≡ throw err)
  unfolding fetch_health create_secret get_secret_status create_reveal_session open_secret
      consume_secret
  requests_offline f offline w id session request = (
    ask_offline f offline _ _ w,
    ask_offline f offline _ _ w,
    ask_offline f offline _ _ w,
    ask_offline f offline _ _ w,
    ask_offline f offline _ _ w,
    ask_offline f offline _ _ w,
  )
