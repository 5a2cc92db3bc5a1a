-- ===== src/PerfAudit/Reveal/Ends.antt =====
-- How the audit's reveal scenarios end where nothing answers the request for a reveal session.

use secret_letter.Prelude.{
  ℕ, ◌≡◌, refl, ap, ◌∙◌, ◌⊎◌, inl, inr, ◌++◌, true, false, Option, none, some, arith, Bool-cases,
  Option-cases, ◌&&◌, and-eq-true,
}
use secret_letter.Prelude.Results.{Result, ok, throw, Result-cases}
use secret_letter.Errors.{Thrown}
use secret_letter.Text.{Text, units, ends_with, text_eq}
use secret_letter.Text.Suffix.{ends_with-clash}
use secret_letter.Http.{HttpRequest, JsonObject, Response}
use secret_letter.Platform.{Platform}
use secret_letter.Api.Fetch.{safe_fetch}
use secret_letter.Api.Requests.{ask, get_secret_status}
use secret_letter.Scene.{SceneData, error}
use secret_letter.RevealPage.{
  OpenEnd, refused, handle_open_complete, is_sealed, load_status, missing_link_part, finish_open,
}
use secret_letter.E2e.Flow.{is_error, ended, calls_open}
use secret_letter.PerfAudit.Main.{within}
use secret_letter.PerfAudit.Reveal.{
  error_reveal, Scenario, EncryptedSecret, Routed, RouteState, initial_routes, AuditError, thrown,
  timed_out, Reveal, is_status_route, is_open_route, routed_exchange, routed, is_offline,
  is_server_error, held, scenario_end, measure_page, measure_reveal_scenario,
  create_encrypted_secret, plaintext_of, is_revealed,
}
use secret_letter.PerfAudit.Reveal.Unserved.{IsUnserved, IsLost, handle_open-IsLost}

-- The end of a scenario in which no letter is shown.
abbrev pub IsUnrevealed : Scenario → Result AuditError Reveal → Type 0
IsUnrevealed scenario result =
    (result ≡ throw timed_out)
    ⊎ ((r : Reveal) × (result ≡ ok r)
        × (is_server_error scenario.open_mode ≡ true)
        × (r.pre_text ≡ none)
        × ((limit : ℕ) → within r.open_to_error_ms limit ≡ false))

status_url-closed : (front : Text) → is_open_route (front ++ units "/status") ≡ false
unfolding is_open_route ends_with text_eq
status_url-closed front =
    ends_with-clash (units "/api/secrets/demo-secret/open") (units "/status") front refl refl

not_opening :
    (scene : SceneData)
    → (is_sealed scene.state ≡ true) ⊎ (scene.state ≡ error)
    → is_revealed (handle_open_complete scene).state ≡ false
unfolding handle_open_complete
not_opening scene h = elim h [
  | inl closed ↦ ground arith
  | inr e ↦ rw (e, handle_open_complete) (ap is_revealed e)
]

scene_lost :
    (scene : SceneData) (end : Option OpenEnd)
    → is_sealed scene.state ≡ true
    → IsLost end
    → is_revealed (handle_open_complete (ended end scene)).state ≡ false
unfolding handle_open_complete finish_open
scene_lost scene end closed lost = elim lost [
  | inl e ↦ rw e (not_opening scene (inl closed))
  | inr (shown, e, failed) ↦ rw e (not_opening (finish_open (refused shown) scene) (inr failed))
]

scenario_end-lost :
    (scenario : Scenario) (sealed_at ended_at : ℕ) (routes : RouteState) (shown : SceneData)
    → is_revealed shown.state ≡ false
    → routes.open_request_started_at ≡ none
    → IsUnrevealed scenario (scenario_end scenario sealed_at ended_at routes shown)
unfolding scenario_end
scenario_end-lost scenario sealed_at ended_at routes shown hidden unopened =
    elim (Bool-cases (is_server_error scenario.open_mode)) [
      | inl server ↦ elim (Bool-cases (is_error shown.state)) [
        | inl failed ↦ inr (
          error_reveal sealed_at ended_at routes shown,
          rw (server, failed, scenario_end) refl,
          server,
          refl,
          λ limit. rw unopened refl,
        )
        | inr other ↦ inl (rw (server, other, scenario_end) refl)
      ]
      | inr active ↦ inl (rw (active, hidden, scenario_end) refl)
    ]

module _ (p : Platform) (clock : p.World → ℕ) (wait : ℕ → p.World → p.World)
    (to_iso_string : ℕ → Text) (env : Option Text) (scenario : Scenario)
    (secret : EncryptedSecret) where
  abbrev net : Platform
  net = routed p clock wait to_iso_string scenario secret

  abbrev Unopened : Routed p.World → Type 0
  Unopened w = w.routes.open_request_started_at ≡ none

  exchange-Unopened :
      (request : HttpRequest) (w : Routed p.World)
      → is_open_route request.url ≡ false
      → Unopened w
      → Unopened (net.exchange request w).0
  unfolding routed_exchange
  exchange-Unopened request w other unopened = elim (Bool-cases (is_status_route request.url)) [
    | inl status ↦ rw (status, routed_exchange) unopened
    | inr no_status ↦ rw (no_status, other, routed_exchange) unopened
  ]

  ask-world :
      (request : Text → HttpRequest) (read : Response → Result Thrown JsonObject)
      (w : Routed p.World)
      → (ask net env request read w).0
        ≡ (net.exchange (request (net.random_uuid w).1) (net.random_uuid w).0).0
  unfolding ask
  ask-world request read w =
      go (net.exchange (request (net.random_uuid w).1) (net.random_uuid w).0).0
        (safe_fetch (net.exchange (request (net.random_uuid w).1) (net.random_uuid w).0).1)
    where
      after : Routed p.World → Result Thrown Response → Routed p.World × Result Thrown JsonObject
      after v (ok a) = (v, read a)
      after v (throw e) = (v, throw e)

      go : (v : Routed p.World) (r : Result Thrown Response) → (after v r).0 ≡ v
      go v (ok a) = refl
      go v (throw e) = refl

  ask-Unopened :
      (request : Text → HttpRequest) (read : Response → Result Thrown JsonObject)
      (w : Routed p.World)
      → ((id : Text) → is_open_route (request id).url ≡ false)
      → Unopened w
      → Unopened (ask net env request read w).0
  ask-Unopened request read w other unopened =
      ap (λ (v : Routed p.World). v.routes.open_request_started_at) (ask-world request read w)
      ∙ exchange-Unopened (request (net.random_uuid w).1) (net.random_uuid w).0 (other _) unopened

  load_status-Unopened :
      (secret_id : Option Text) (fragment_key : Text) (w : Routed p.World)
      → Unopened w
      → Unopened (load_status net env secret_id fragment_key w).0
  unfolding load_status get_secret_status
  load_status-Unopened secret_id fragment_key w unopened =
      elim (Option-cases (missing_link_part secret_id fragment_key)) [
        | inl e ↦ rw (e, load_status) (ask-Unopened _ _ w (λ id. status_url-closed _) unopened)
        | inr (scene, e) ↦ rw (e, load_status) unopened
      ]

  abbrev loaded : Routed p.World → Routed p.World × SceneData
  loaded w = load_status net env (some (units "demo-secret")) secret.fragment_key w

  measure_page-unserved :
      IsUnserved p env
      → is_offline scenario.status_mode ≡ false
      → (w : Routed p.World) → Unopened w
      → IsUnrevealed scenario (measure_page p clock wait to_iso_string env scenario secret w).1
  unfolding measure_page
  measure_page-unserved unserved online w unopened =
      let (w1, scene) = loaded w in
      elim (Bool-cases (is_sealed scene.state && calls_open (held scene.state).log)) [
        | inl goes ↦
            let (closed, calls) = and-eq-true _ _ goes in
            let (lost, same) =
              handle_open-IsLost p clock wait to_iso_string env scenario secret unserved
                (units "demo-secret") secret.fragment_key scene.state w1 in
            rw (online, goes, measure_page)
              (scenario_end-lost scenario _ _ _ _ (scene_lost scene _ closed lost) (
                ap (λ (r : RouteState). r.open_request_started_at) same
                ∙ load_status-Unopened (some (units "demo-secret")) secret.fragment_key w unopened))
        | inr stays ↦ rw (online, stays, measure_page) (inl refl)
      ]

-- If nothing answers the frontend's request for a reveal session, no scenario in which the status can be loaded
-- ends with a letter: creating the letter throws, or a wait of Playwright gives up, or, where the opening was
-- to fail, the error is shown with no time that passed since a request to open, so that any limit on it is missed.
pub measure_reveal_scenario-unserved :
    (p : Platform) (clock : p.World → ℕ) (wait : ℕ → p.World → p.World) (to_iso_string : ℕ → Text)
    (env : Option Text) (scenario : Scenario)
    → IsUnserved p env
    → is_offline scenario.status_mode ≡ false
    → (w : p.World)
    → let result = (measure_reveal_scenario p clock wait to_iso_string env scenario w).1 in
      ((e : Thrown) × (result ≡ throw (thrown e))) ⊎ IsUnrevealed scenario result
unfolding measure_reveal_scenario
measure_reveal_scenario-unserved p clock wait to_iso_string env scenario unserved online w =
    let made = create_encrypted_secret p clock wait to_iso_string (plaintext_of scenario) w in
    elim (Result-cases made.1) [
      | inl (secret, e) ↦
          rw (e, measure_reveal_scenario)
            (inr (
              measure_page-unserved p clock wait to_iso_string env scenario secret unserved online
                (record { browser = made.0; routes = initial_routes }) refl))
      | inr (err, e) ↦ rw (e, measure_reveal_scenario) (inl (err, refl))
    ]
