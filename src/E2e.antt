-- ===== src/E2e.antt =====
-- frontend/web-app/scripts/e2e.mjs: what the end-to-end run starts and stops, whatever fails. What the
-- commands, the servers and the browser answer is given.
pub mod Cleanup
pub mod Responses
pub mod Flow
use secret_letter.Prelude.{
  ℕ, List, [], ◌∷◌, ◌++◌, Bool, true, false, ◌||◌, ◌&&◌, not, Option, none, some, if◌then◌else◌,
}
use secret_letter.Text.{Text, ends_with}
use secret_letter.Effects.{
  Effect, starts, stops, Resource, redis, backend, preview, browser, backend_server, preview_server,
}

-- `url.endsWith("/") ? url.slice(0, -1) : url`
unfoldable pub drop_last : Text → Text
drop_last [] = []
drop_last (c ∷ []) = []
drop_last (c ∷ d ∷ s) = c ∷ drop_last (d ∷ s)

unfoldable pub normalize_base_url : Text → Text
unfolding drop_last
normalize_base_url url = if ends_with (b'/' ∷ []) url then drop_last url else url

-- Whether each thing that can throw goes well; `redis_addr_set` is `process.env.E2E_REDIS_ADDR`, and
-- `backend_runs` and `preview_runs` say whether a spawned command gets as far as to run its server.
pub record Outcomes : Type 0 where
  pub deployed_target : Bool
  pub backend_port_found : Bool
  pub preview_port_found : Bool
  pub target_ready : Bool
  pub redis_ready : Bool
  pub redis_addr_set : Bool
  pub docker_starts : Bool
  pub docker_redis_ready : Bool
  pub build_passes : Bool
  pub backend_ready : Bool
  pub preview_ready : Bool
  pub browser_launches : Bool
  pub flow_passes : Bool
  pub on_windows : Bool
  pub backend_runs : Bool
  pub preview_runs : Bool
  pub browser_closes : Bool
  pub docker_stops : Bool

-- A started service, whose handle the caller gets unless an error is thrown.
pub record Started : Type 0 where
  pub effects : List Effect
  pub is_ok : Bool
  pub handle : Bool

-- `ensureRedisReady`; the handle is `startedByScript`.
unfoldable pub ensure_redis_ready : Outcomes → Started
ensure_redis_ready o =
    if o.redis_ready
    then record { effects = []; is_ok = true; handle = false }
    else if o.redis_addr_set
    then record { effects = []; is_ok = false; handle = false }
    else if not o.docker_starts
    then record { effects = []; is_ok = false; handle = false }
    else if o.docker_redis_ready
    then record { effects = starts redis ∷ []; is_ok = true; handle = true }
    else record { effects = starts redis ∷ []; is_ok = false; handle = false }

-- `stopCommand`: on Windows `taskkill /T` ends the whole tree, elsewhere a signal kills the command alone.
unfoldable pub stop_command : Bool → Resource → Resource → List Effect
stop_command on_windows command server =
    if on_windows then stops command ∷ stops server ∷ [] else stops command ∷ []

-- `startBackend` and `startPreview`: a command whose server does not become ready is stopped.
unfoldable pub start_server : Bool → Resource → Resource → Bool → Bool → Started
unfolding stop_command
start_server on_windows command server runs becomes_ready =
    let spawned = starts command ∷ (if runs then starts server ∷ [] else []) in
    if becomes_ready then record { effects = spawned; is_ok = true; handle = true } else record {
      effects = spawned ++ stop_command on_windows command server;
      is_ok = false;
      handle = false;
    }

-- What is assigned when the `try` block ends or throws.
pub record Handles : Type 0 where
  pub redis_state : Bool
  pub backend_process : Bool
  pub preview_process : Bool
  pub browser_process : Bool

pub record Body : Type 0 where
  pub effects : List Effect
  pub is_ok : Bool
  pub handles : Handles

abbrev no_handles : Handles
no_handles = record {
  redis_state = false;
  backend_process = false;
  preview_process = false;
  browser_process = false;
}

-- From the launch of the browser to the end of the `try` block.
unfoldable pub browse : Outcomes → List Effect → Handles → Body
browse o effects handles =
    if not o.browser_launches
    then record { effects = effects; is_ok = false; handles = handles }
    else record {
      effects = effects ++ starts browser ∷ [];
      is_ok = o.flow_passes;
      handles = record handles { browser_process = true };
    }

-- The two branches of `useDeployedTarget`, and what follows them.
unfoldable pub try_body : Outcomes → Body
unfolding ensure_redis_ready start_server browse
try_body o =
    let redis_start = ensure_redis_ready o in
    let h1 = record no_handles { redis_state = redis_start.handle } in
    let backend_start =
      start_server o.on_windows backend backend_server o.backend_runs o.backend_ready in
    let e2 = redis_start.effects ++ backend_start.effects in
    let h2 = record h1 { backend_process = backend_start.handle } in
    let preview_start =
      start_server o.on_windows preview preview_server o.preview_runs o.preview_ready in
    let e3 = e2 ++ preview_start.effects in
    let h3 = record h2 { preview_process = preview_start.handle } in
    if o.deployed_target
    then (if o.target_ready
        then browse o [] no_handles
        else record { effects = []; is_ok = false; handles = no_handles })
    else if not redis_start.is_ok
    then record { effects = redis_start.effects; is_ok = false; handles = h1 }
    else if not o.build_passes
    then record { effects = redis_start.effects; is_ok = false; handles = h1 }
    else if not backend_start.is_ok
    then record { effects = e2; is_ok = false; handles = h2 }
    else if not preview_start.is_ok
    then record { effects = e3; is_ok = false; handles = h3 }
    else browse o e3 h3

abbrev stop_if : Bool → List Effect → List Effect
stop_if handle effects = if handle then effects else []

-- The `finally` block; a browser that does not close, and a `docker compose down` that fails, are passed over.
unfoldable pub finally_stops : Outcomes → Handles → List Effect
unfolding stop_command
finally_stops o h =
    stop_if (h.browser_process && o.browser_closes) (stops browser ∷ [])
    ++ stop_if h.preview_process (stop_command o.on_windows preview preview_server)
    ++ stop_if h.backend_process (stop_command o.on_windows backend backend_server)
    ++ stop_if (h.redis_state && o.docker_stops) (stops redis ∷ [])

-- `run`; a free port that is not found throws before the `try`.
unfoldable pub run : Outcomes → List Effect × Bool
unfolding try_body finally_stops
run o =
    let body = try_body o in
    if not o.deployed_target && not (o.backend_port_found && o.preview_port_found)
    then ([], false)
    else (body.effects ++ finally_stops o body.handles, body.is_ok)
