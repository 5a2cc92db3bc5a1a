-- ===== src/PerfAudit/Reveal.antt =====
-- `measureRevealScenario` of frontend/web-app/scripts/perf-audit.mjs: a page over routes that answer for the server.
-- Playwright finds an element if the page shows it, and else gives up in time. What no route takes goes to the
-- network. Whether a browser sends preflight requests, and what it makes of their headers, is left out.
pub mod Unserved
pub mod Ends
pub mod Created
pub mod Offline
use Prim.Native.String.{String}
use secret_letter.Prelude.{
  ltb, ℕ, ◌+◌, ◌*◌, ◌-◌, List, [], ◌∷◌, ◌++◌, Bool, true, false, ◌&&◌, not, ◌==◌, Option, none,
  some, if◌then◌else◌,
}
use secret_letter.Prelude.Results
use secret_letter.Prelude.Results.{Result, ok, throw}
use secret_letter.Errors.{Thrown}
use secret_letter.Text.{Text, units, ends_with}
use secret_letter.Http.{JsonObject, HttpRequest, Response}
use secret_letter.Utf8.Encoder.{encode}
use secret_letter.Base64Url.{encode_base64_url}
use secret_letter.Platform.{Platform, Action}
use secret_letter.Api.Fetch.{FetchEvent, responds, fails, times_out, request_timeout_ms}
use secret_letter.Scene.{SecretSceneState, revealed, SceneData}
use secret_letter.RevealPage.{load_status, handle_open, handle_open_complete, is_sealed}
use secret_letter.SecretEnvelopeScene.{
  OpeningState, initial_opening, receive_state, handle_consent_accept, handle_envelope_pointer_down,
  tween_completes,
}
use secret_letter.E2e.Flow.{calls_open, ended, is_error}
use secret_letter.PerfAudit.Main.{includes}
unfoldable pub use secret_letter.PerfAudit.Scenario.{
  held, is_open_route, is_status_route, make_preflight_response, make_route_response, offline_end,
  scenario_end,
}
pub use secret_letter.PerfAudit.Scenario.{
  active, active_reveal, AuditError, EncryptedSecret, error_reveal, initial_routes, is_offline,
  is_revealed, is_server_error, Mode, offline, plaintext_of, Reveal, Routed, RouteState, Scenario,
  server_error, since, since_or_zero, thrown, timed_out,
}

-- `clock` is `Date.now`, `wait` a timeout that is awaited, and `to_iso_string` the method of a date.
module _ (p : Platform) (clock : p.World → ℕ) (wait : ℕ → p.World → p.World)
    (to_iso_string : ℕ → Text) where
  unfoldable pub create_encrypted_secret : Text → Action p.World EncryptedSecret
  create_encrypted_secret plaintext w =
      let (w1, key_bytes) = p.random_values 32 w in
      let (w2, nonce) = p.random_values 12 w1 in
      (
        w2,
        Results.◌>>=◌ (p.import_raw key_bytes) (λ key.
            Results.◌>>=◌ (p.encrypt key nonce (encode plaintext)) (λ ciphertext. ok (record {
              fragment_key = encode_base64_url key_bytes;
              ciphertext = encode_base64_url ciphertext;
              nonce = encode_base64_url nonce;
            }))),
      )

  abbrev delayed : ℕ → p.World → p.World
  delayed delay_ms w = if delay_ms == 0 then w else wait delay_ms w

  -- `safeFetch` gives up before the reply of a route that waits for too long.
  abbrev within_time : ℕ → Response → FetchEvent
  within_time delay_ms response =
      if ltb delay_ms request_timeout_ms then responds response else times_out

  -- The end of a route behind its `startedAt`, for a request that is no preflight.
  unfoldable pub fulfill : Mode → ℕ → Text → (p.World → JsonObject) → p.World → p.World × FetchEvent
  fulfill offline delay_ms message body w = (w, fails)
  fulfill server_error delay_ms message body w = (
    delayed delay_ms w,
    within_time delay_ms (make_route_response (("message", message) ∷ []) 500),
  )
  fulfill active delay_ms message body w =
      let w' = delayed delay_ms w in (w', within_time delay_ms (make_route_response (body w') 200))

  abbrev status_body : p.World → JsonObject
  status_body w =
      ("secretId", units "demo-secret")
      ∷ ("status", units "active")
      ∷ ("expiresAt", to_iso_string (clock w + 60 * 60 * 1000))
      ∷ []

  abbrev open_body : EncryptedSecret → p.World → JsonObject
  open_body secret w =
      ("secretId", units "demo-secret")
      ∷ ("ciphertext", secret.ciphertext)
      ∷ ("nonce", secret.nonce)
      ∷ ("algorithm", units "AES-GCM")
      ∷ ("consumedAt", to_iso_string (clock w))
      ∷ []

  abbrev routed_world : RouteState → p.World × FetchEvent → Routed p.World × FetchEvent
  routed_world routes (browser, event) = (record { browser = browser; routes = routes }, event)

  -- The two routes of the API, for a request and for the preflight request in front of it (`OPTIONS`).
  unfoldable pub status_route : Scenario → Bool → Routed p.World → Routed p.World × FetchEvent
  unfolding fulfill
  status_route scenario is_options w =
      if is_options
      then (w, responds make_preflight_response)
      else routed_world (record w.routes { status_request_started_at = some (clock w.browser) })
          (fulfill scenario.status_mode scenario.status_delay_ms
            (units "Status service unavailable") status_body w.browser)

  unfoldable pub open_route :
      Scenario → EncryptedSecret → Bool → Routed p.World → Routed p.World × FetchEvent
  unfolding fulfill
  open_route scenario secret is_options w =
      if is_options
      then (w, responds make_preflight_response)
      else routed_world (record w.routes { open_request_started_at = some (clock w.browser) })
          (fulfill scenario.open_mode scenario.open_delay_ms (units "Open service unavailable")
            (open_body secret) w.browser)

  -- What a request of the page comes to, which is no preflight.
  unfoldable pub routed_exchange :
      Scenario → EncryptedSecret → HttpRequest → Routed p.World → Routed p.World × FetchEvent
  unfolding status_route open_route
  routed_exchange scenario secret request w =
      if is_status_route request.url
      then status_route scenario false w
      else if is_open_route request.url
      then open_route scenario secret false w
      else routed_world w.routes (p.exchange request w.browser)

  abbrev beside : {A : Type 0} → (p.World → p.World × A) → Routed p.World → Routed p.World × A
  beside action w = let (browser, a) = action w.browser in (record w { browser = browser }, a)

  abbrev pub routed : Scenario → EncryptedSecret → Platform
  routed scenario secret = record {
    World = Routed p.World;
    Key = p.Key;
    random_uuid = beside p.random_uuid;
    exchange = routed_exchange scenario secret;
    generate_key = beside p.generate_key;
    random_values = λ n. beside (p.random_values n);
    encrypt = p.encrypt;
    decrypt = p.decrypt;
    export_raw = p.export_raw;
    import_raw = p.import_raw;
  }

  -- The page, from the first load to the end of the hold.
  unfoldable pub measure_page :
      Option Text
      → Scenario
      → EncryptedSecret
      → Routed p.World
      → Routed p.World × Result AuditError Reveal
  measure_page env scenario secret w =
      let net = routed scenario secret in
      let id = some (units "demo-secret") in
      let (w1, scene) = load_status net env id secret.fragment_key w in
      let (w2, end) = handle_open net env id secret.fragment_key scene.state w1 in
      let shown = handle_open_complete (ended end scene) in
      if is_offline scenario.status_mode
      then (w1, offline_end scene)
      else if not (is_sealed scene.state && calls_open (held scene.state).log)
      then (w1, throw timed_out)
      else (w2, scenario_end scenario (clock w1.browser) (clock w2.browser) w2.routes shown)

  unfoldable pub measure_reveal_scenario :
      Option Text → Scenario → p.World → p.World × Result AuditError Reveal
  measure_reveal_scenario env scenario w =
      let (w0, made) = create_encrypted_secret (plaintext_of scenario) w in
      elim made [
        | throw e ↦ (w0, throw (thrown e))
        | ok secret ↦
            let (w', end) =
              measure_page env scenario secret (record { browser = w0; routes = initial_routes }) in
            (w'.browser, end)
      ]
