-- ===== src/PerfAudit/Reveal/Unserved.antt =====
-- The audit's reveal scenarios where nothing answers the request for a reveal session.
use secret_letter.Prelude.{
  ℕ, ◌≡◌, refl, ap, ◌∙◌, ◌⊎◌, inl, inr, ◌++◌, false, Option, none, some, arith, Bool-cases, not,
  ◌||◌, is_empty,
}
use secret_letter.Prelude.Results.{Result, ok, throw, Result-cases}
use secret_letter.Errors.{Thrown}
use secret_letter.Text.{Text, units, ends_with, text_eq}
use secret_letter.Text.Suffix.{ends_with-clash}
use secret_letter.Http.{HttpRequest, JsonObject, Response}
use secret_letter.Platform.{Platform}
use secret_letter.Platform.Steps.{>>=-throw}
use secret_letter.Api.Fetch.{FetchEvent, fails, safe_fetch, fetch_error}
use secret_letter.Api.Requests.{ask, api_base_url, create_reveal_session}
use secret_letter.Crypto.{import_key_from_base64_url}
use secret_letter.Scene.{SecretSceneState, error}
use secret_letter.RevealPage.{
  fetch_plaintext, open_payload, OpenEnd, refused, handle_open, is_sealed,
}
use secret_letter.RevealPage.Errors.{Shown, map_fragment_key_error, map_open_error, show_api_error}
use secret_letter.PerfAudit.Reveal.{
  Scenario, EncryptedSecret, Routed, is_status_route, is_open_route, routed_exchange, routed,
}

pub unrouted :
    (base : Text)
    → (is_status_route (base ++ units "/api/reveal-sessions") ≡ false)
      × (is_open_route (base ++ units "/api/reveal-sessions") ≡ false)
unfolding is_status_route is_open_route ends_with text_eq
unrouted base =
    let clash = λ (route : Text). ends_with-clash route (units "/api/reveal-sessions") base in
    (
      clash (units "/api/secrets/demo-secret/status") refl refl,
      clash (units "/api/secrets/demo-secret/open") refl refl,
    )

abbrev pub lost : Thrown
unfolding fetch_error
lost = fetch_error false

-- The page goes on without a letter.
abbrev pub IsLost : Option OpenEnd → Type 0
IsLost end = (end ≡ none) ⊎ ((shown : Shown) × (end ≡ some (refused shown)) × (shown.state ≡ error))

abbrev pub session_url : Option Text → Text
session_url env = api_base_url env ++ units "/api/reveal-sessions"

-- Nothing listens where reveal sessions are made.
abbrev pub IsUnserved : Platform → Option Text → Type 0
IsUnserved p env =
    (request : HttpRequest) (w : p.World)
    → request.url ≡ session_url env
    → (p.exchange request w).1 ≡ fails

module _ (p : Platform) (clock : p.World → ℕ) (wait : ℕ → p.World → p.World)
    (to_iso_string : ℕ → Text) (env : Option Text) (scenario : Scenario)
    (secret : EncryptedSecret) where
  abbrev net : Platform
  net = routed p clock wait to_iso_string scenario secret

  abbrev passed_on : HttpRequest → Routed p.World → Routed p.World
  passed_on request v = record v { browser = (p.exchange request v.browser).0 }

  exchange-unrouted :
      IsUnserved p env
      → (request : HttpRequest) (v : Routed p.World) → request.url ≡ session_url env
      → routed_exchange p clock wait to_iso_string scenario secret request v
        ≡ (passed_on request v, fails)
  unfolding routed_exchange
  exchange-unrouted unserved request v at =
      let (no_status, no_open) = unrouted (api_base_url env) in
      let status : is_status_route request.url ≡ false = ap is_status_route at ∙ no_status in
      let opening : is_open_route request.url ≡ false = ap is_open_route at ∙ no_open in
      rw (status, opening, routed_exchange)
        (ap (λ (e : FetchEvent). (passed_on request v, e)) (unserved request v.browser at))

  -- The world in which the request is sent, and the request.
  abbrev named : Routed p.World → Routed p.World
  named v = record v { browser = (p.random_uuid v.browser).0 }

  ask-lost :
      IsUnserved p env
      → (request : Text → HttpRequest) (read : Response → Result Thrown JsonObject)
        (v : Routed p.World)
      → ((id : Text) → (request id).url ≡ session_url env)
      → ask net env request read v
        ≡ (passed_on (request (p.random_uuid v.browser).1) (named v), throw lost)
  unfolding ask safe_fetch
  ask-lost unserved request read v at =
      ap after (exchange-unrouted unserved (request (p.random_uuid v.browser).1) (named v) (at _))
    where
      after : Routed p.World × FetchEvent → Routed p.World × Result Thrown JsonObject
      after (v', e) = elim (safe_fetch e) [ ok r ↦ (v', read r) | throw e ↦ (v', throw e) ]

  session-lost :
      IsUnserved p env
      → (secret_id : Text) (v : Routed p.World)
      → (v' : Routed p.World) × (create_reveal_session net env secret_id v ≡ (v', throw lost))
        × (v'.routes ≡ v.routes)
  unfolding create_reveal_session
  session-lost unserved secret_id v = (_, ask-lost unserved _ _ v (λ id. refl), refl)

  fetch-lost :
      IsUnserved p env
      → (secret_id : Text) (key : p.Key) (v : Routed p.World)
      → (v' : Routed p.World) × (fetch_plaintext net env secret_id key v ≡ (v', throw lost))
        × (v'.routes ≡ v.routes)
  unfolding fetch_plaintext
  fetch-lost unserved secret_id key v =
      let (v', failed, same) = session-lost unserved secret_id v in
      (
        v',
        >>=-throw (create_reveal_session net env secret_id) (open_payload net env secret_id key)
            failed,
        same,
      )

  fragment_key_error : (e : Thrown) → (map_fragment_key_error e).state ≡ error
  unfolding map_fragment_key_error
  fragment_key_error e = ground arith

  lost_error : (map_open_error lost).state ≡ error
  unfolding map_open_error show_api_error fetch_error
  lost_error = refl

  pub handle_open-IsLost :
      IsUnserved p env
      → (secret_id fragment_key : Text) (state : SecretSceneState) (v : Routed p.World)
      → let after = handle_open net env (some secret_id) fragment_key state v in
        IsLost after.1 × (after.0.routes ≡ v.routes)
  unfolding handle_open
  handle_open-IsLost unserved secret_id fragment_key state v =
      elim (Bool-cases (is_empty secret_id || is_empty fragment_key || not (is_sealed state))) [
        | inl stops ↦ rw (stops, handle_open) (inl refl, refl)
        | inr goes ↦ elim (Result-cases (import_key_from_base64_url net fragment_key)) [
          | inl (key, e) ↦
              let (v', failed, same) = fetch-lost unserved secret_id key v in
              rw (goes, e, failed, handle_open) (inr (_, refl, lost_error), same)
          | inr (err, e) ↦ rw (goes, e, handle_open) (inr (_, refl, fragment_key_error err), refl)
        ]
      ]
