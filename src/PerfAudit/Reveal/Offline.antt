-- ===== src/PerfAudit/Reveal/Offline.antt =====
-- The audit's reveal scenario whose request for the status fails.
use mathlib.Core.List.{append_assoc}
use secret_letter.Prelude.{
  ℕ, ◌≡◌, ◌≢◌, refl, ap, ◌∙◌, [], ◌++◌, true, Option, none, some, arith, length,
}
use secret_letter.Prelude.Results.{Result, ok, throw}
use secret_letter.Errors.{Thrown}
use secret_letter.Text.{Text, units}
use secret_letter.Text.Suffix.{ends_with-append}
use secret_letter.Http.{HttpRequest, JsonObject, Response}
use secret_letter.Base64Url.RoundTrip.{decode-encode}
use secret_letter.Platform.{Platform}
use secret_letter.Platform.Laws.{IsWebCrypto}
use secret_letter.Crypto.{import_key_from_base64_url}
use secret_letter.Api.Messages.{network_text}
use secret_letter.Api.Fetch.{FetchEvent, fails, safe_fetch, fetch_error}
use secret_letter.Api.Requests.{ask, api_base_url, read_reply, get_secret_status}
use secret_letter.RevealPage.{
  is_valid_fragment_key_format, load_status, missing_link_part, finish_load, scene_error,
}
use secret_letter.RevealPage.Opening.{import-full}
use secret_letter.EndToEnd.{imported_from}
use secret_letter.PerfAudit.Reveal.{
  Scenario, offline, is_offline, EncryptedSecret, Routed, initial_routes, Reveal, is_status_route,
  fulfill, routed_exchange, routed, offline_end, plaintext_of, create_encrypted_secret,
  measure_page, measure_reveal_scenario,
}
use secret_letter.PerfAudit.Reveal.Unserved.{lost}
use secret_letter.PerfAudit.Reveal.Created.{Made, create_encrypted_secret-Made}

-- The error page for a network that fails, with nothing measured.
abbrev pub offline_reveal : Reveal
offline_reveal = record {
  status_error = true;
  error_text = some network_text;
  open_to_error_ms = none;
  open_to_revealed_ms = none;
  status_to_sealed_ms = none;
  pre_text = none;
}

ask-fails :
    (p : Platform) (env : Option Text) (request : Text → HttpRequest)
    (read : Response → Result Thrown JsonObject) (w v : p.World)
    → p.exchange (request (p.random_uuid w).1) (p.random_uuid w).0 ≡ (v, fails)
    → ask p env request read w ≡ (v, throw lost)
unfolding ask safe_fetch
ask-fails p env request read w v h = ap after h
  where
    after : p.World × FetchEvent → p.World × Result Thrown JsonObject
    after (v', e) = elim (safe_fetch e) [ ok r ↦ (v', read r) | throw e ↦ (v', throw e) ]

status_routed :
    (base : Text)
    → is_status_route (base ++ units "/api/secrets/" ++ units "demo-secret" ++ units "/status")
      ≡ true
unfolding is_status_route
status_routed base =
    rw
      (
        append_assoc base (units "/api/secrets/") (units "demo-secret"),
        append_assoc base (units "/api/secrets/demo-secret") (units "/status"),
      )
      (ends_with-append (units "/api/secrets/demo-secret/status") base)

module _ (p : Platform) (laws : IsWebCrypto p) (clock : p.World → ℕ) (wait : ℕ → p.World → p.World)
    (to_iso_string : ℕ → Text) (env : Option Text) (scenario : Scenario) (secret : EncryptedSecret)
    (made : Made p (plaintext_of scenario) secret) where
  abbrev net : Platform
  net = routed p clock wait to_iso_string scenario secret

  abbrev demo : Text
  demo = units "demo-secret"

  abbrev offline_world : Routed p.World → Routed p.World
  offline_world v = record v {
    routes = record v.routes { status_request_started_at = some (clock v.browser) };
  }

  fragment_import : import_key_from_base64_url p secret.fragment_key ≡ ok made.key
  fragment_import =
      ap (import_key_from_base64_url p) made.fragment_made
      ∙ imported_from p laws made.key_bytes made.key made.key_is_bytes made.key_length made.imported

  fragment_valid : is_valid_fragment_key_format secret.fragment_key ≡ true
  unfolding is_valid_fragment_key_format
  fragment_valid =
      let full : made.key_bytes ≢ [] = λ e. absurd (omega (arith, ap length e, made.key_length)) in
      ap is_valid_fragment_key_format made.fragment_made
      ∙ rw
          (
            is_valid_fragment_key_format,
            decode-encode made.key_bytes made.key_is_bytes full,
            made.key_length,
          )
          refl

  nothing_missing : missing_link_part (some demo) secret.fragment_key ≡ none
  nothing_missing =
      let full = import-full p env secret.fragment_key fragment_import in
      rw (full, fragment_valid) refl

  exchange-status :
      scenario.status_mode ≡ offline
      → (request : HttpRequest) (v : Routed p.World) → is_status_route request.url ≡ true
      → net.exchange request v ≡ (offline_world v, fails)
  unfolding routed_exchange fulfill
  exchange-status down request v here = rw (here, down, routed_exchange, fulfill) refl

  load_status-offline :
      scenario.status_mode ≡ offline
      → (w : Routed p.World)
      → load_status net env (some demo) secret.fragment_key w
        ≡ (offline_world (net.random_uuid w).0, scene_error network_text)
  unfolding load_status finish_load get_secret_status fetch_error
  load_status-offline down w =
      rw (nothing_missing, load_status)
        (ap (λ (q : Routed p.World × Result Thrown JsonObject). (q.0, finish_load q.1))
          (ask-fails net env _ read_reply w _
            (exchange-status down _ (net.random_uuid w).0 (status_routed (api_base_url env)))))

  measure_page-offline :
      scenario.status_mode ≡ offline
      → (w : Routed p.World)
      → (measure_page p clock wait to_iso_string env scenario secret w).1 ≡ ok offline_reveal
  unfolding measure_page offline_end
  measure_page-offline down w =
      let test : is_offline scenario.status_mode ≡ true = ap is_offline down in
      rw (test, load_status-offline down w, measure_page) refl

-- On a platform that keeps the documented laws of Web Crypto: if the script can make the letter of a scenario whose
-- request for the status is aborted, then the scenario ends with the error page and the text for a network
-- that fails, whatever its other modes and delays and the rest of the network are.
pub measure_reveal_scenario-offline :
    (p : Platform) (laws : IsWebCrypto p) (clock : p.World → ℕ) (wait : ℕ → p.World → p.World)
    (to_iso_string : ℕ → Text) (env : Option Text) (scenario : Scenario)
    → scenario.status_mode ≡ offline
    → (w : p.World) (secret : EncryptedSecret)
    → (create_encrypted_secret p clock wait to_iso_string (plaintext_of scenario) w).1 ≡ ok secret
    → (measure_reveal_scenario p clock wait to_iso_string env scenario w).1 ≡ ok offline_reveal
unfolding measure_reveal_scenario
measure_reveal_scenario-offline p laws clock wait to_iso_string env scenario down w secret created =
    let made =
      create_encrypted_secret-Made p laws clock wait to_iso_string (plaintext_of scenario) w secret
        created in
    rw (created, measure_reveal_scenario)
      (measure_page-offline p laws clock wait to_iso_string env scenario secret made down (record {
        browser = (create_encrypted_secret p clock wait to_iso_string (plaintext_of scenario) w).0;
        routes = initial_routes;
      }))
