-- ===== src/PerfAudit/Scenario.antt =====
-- The reveal scenarios of frontend/web-app/scripts/perf-audit.mjs: what they differ in, the routes, and what the
-- script returns for the page that it ends with.
use secret_letter.Prelude.{ℕ, ◌-◌, ◌++◌, Bool, true, false, ◌&&◌, Option, none, some, if◌then◌else◌}
use secret_letter.Prelude.Results.{Result, ok, throw}
use secret_letter.Errors.{Thrown, plain_error}
use secret_letter.Text.{Text, units, ends_with}
use secret_letter.Http.{JsonObject, Response}
use secret_letter.Scene.{SecretSceneState, revealed, SceneData}
use secret_letter.SecretEnvelopeScene.{
  OpeningState, initial_opening, receive_state, handle_consent_accept, handle_envelope_pointer_down,
  tween_completes,
}
use secret_letter.E2e.Flow.{is_error}
use secret_letter.PerfAudit.Main.{includes}

pub data Mode : Type 0 where
  active offline server_error : Mode

-- `blockFonts` concerns what the page does not ask for itself.
pub record Scenario : Type 0 where
  pub name : Text
  pub status_delay_ms : ℕ
  pub open_delay_ms : ℕ
  pub status_mode : Mode
  pub open_mode : Mode

abbrev pub is_offline : Mode → Bool
is_offline offline = true
is_offline _ = false

abbrev pub is_server_error : Mode → Bool
is_server_error server_error = true
is_server_error _ = false

pub record EncryptedSecret : Type 0 where
  pub fragment_key : Text
  pub ciphertext : Text
  pub nonce : Text

pub record RouteState : Type 0 where
  pub status_request_started_at : Option ℕ
  pub open_request_started_at : Option ℕ

abbrev pub initial_routes : RouteState
initial_routes = record { status_request_started_at = none; open_request_started_at = none }

pub record Routed (World : Type 0) : Type 0 where
  pub browser : World
  pub routes : RouteState

pub data AuditError : Type 0 where
  thrown : Thrown → AuditError
  timed_out : AuditError

-- What the script reads out of the result; what a branch does not give is `none`.
pub record Reveal : Type 0 where
  pub status_error : Bool
  pub error_text : Option Text
  pub open_to_error_ms : Option ℕ
  pub open_to_revealed_ms : Option ℕ
  pub status_to_sealed_ms : Option ℕ
  pub pre_text : Option Text

unfoldable pub make_route_response : JsonObject → ℕ → Response
make_route_response body status = record { status = status; json = ok body }

-- Less the headers; there is no JSON in its body.
unfoldable pub make_preflight_response : Response
make_preflight_response = record {
  status = 204;
  json = throw (plain_error (units "Unexpected end of JSON input"));
}

unfoldable pub is_status_route : Text → Bool
is_status_route url = ends_with (units "/api/secrets/demo-secret/status") url

unfoldable pub is_open_route : Text → Bool
is_open_route url = ends_with (units "/api/secrets/demo-secret/open") url

-- The consent, and the hold on the envelope until it is full.
unfoldable pub held : SecretSceneState → OpeningState
held state =
    tween_completes
      (handle_envelope_pointer_down (handle_consent_accept (receive_state state initial_opening)))

abbrev pub is_revealed : SecretSceneState → Bool
is_revealed revealed = true
is_revealed _ = false

-- `startedAt ? at - startedAt : null`
abbrev pub since : ℕ → Option ℕ → Option ℕ
since at none = none
since at (some started_at) = some (at - started_at)

-- `at - startedAt`, in which `null` counts as zero.
abbrev pub since_or_zero : ℕ → Option ℕ → ℕ
since_or_zero at none = at
since_or_zero at (some started_at) = at - started_at

abbrev pub plaintext_of : Scenario → Text
plaintext_of scenario = units "Tin kiem thu " ++ scenario.name

abbrev pub error_reveal : ℕ → ℕ → RouteState → SceneData → Reveal
error_reveal sealed_at ended_at routes shown = record {
  status_error = true;
  error_text = shown.message;
  open_to_error_ms = since ended_at routes.open_request_started_at;
  open_to_revealed_ms = none;
  status_to_sealed_ms = some (since_or_zero sealed_at routes.status_request_started_at);
  pre_text = none;
}

abbrev pub active_reveal : ℕ → ℕ → RouteState → SceneData → Reveal
active_reveal sealed_at ended_at routes shown = record {
  status_error = false;
  error_text = none;
  open_to_error_ms = none;
  open_to_revealed_ms = since ended_at routes.open_request_started_at;
  status_to_sealed_ms = since sealed_at routes.status_request_started_at;
  pre_text = some shown.secret_content;
}

-- What the script returns once the page rests.
unfoldable pub scenario_end : Scenario → ℕ → ℕ → RouteState → SceneData → Result AuditError Reveal
scenario_end scenario sealed_at ended_at routes shown =
    if is_server_error scenario.open_mode
    then if is_error shown.state
      then ok (error_reveal sealed_at ended_at routes shown)
      else throw timed_out
    else if is_revealed shown.state && includes (plaintext_of scenario) shown.secret_content
    then ok (active_reveal sealed_at ended_at routes shown)
    else throw timed_out

unfoldable pub offline_end : SceneData → Result AuditError Reveal
offline_end scene =
    if is_error scene.state
    then ok (record {
      status_error = true;
      error_text = scene.message;
      open_to_error_ms = none;
      open_to_revealed_ms = none;
      status_to_sealed_ms = none;
      pre_text = none;
    })
    else throw timed_out
