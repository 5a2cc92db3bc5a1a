-- ===== src/E2e/Cleanup.antt =====
-- What the end-to-end run leaves running.
use secret_letter.Prelude.{Bool, ◌&&◌, ◌||◌, not, if◌then◌else◌}
use secret_letter.E2e.{Outcomes}

-- The script looks for a Redis of its own, and docker starts one.
abbrev pub docker_is_used : Outcomes → Bool
docker_is_used o =
    not o.deployed_target
    && (o.backend_port_found && o.preview_port_found)
    && not o.redis_ready
    && not o.redis_addr_set
    && o.docker_starts

-- The Redis of Docker stays: it did not become reachable, or Docker does not take it down.
abbrev pub redis_stays : Outcomes → Bool
redis_stays o = docker_is_used o && (not o.docker_redis_ready || not o.docker_stops)

-- The run comes as far as to spawn the command of the backend, and that of the preview server.
abbrev pub backend_is_spawned : Outcomes → Bool
backend_is_spawned o =
    not o.deployed_target
    && (o.backend_port_found && o.preview_port_found)
    && (o.redis_ready || not o.redis_addr_set && o.docker_starts && o.docker_redis_ready)
    && o.build_passes

abbrev pub preview_is_spawned : Outcomes → Bool
preview_is_spawned o = backend_is_spawned o && o.backend_ready

abbrev pub browser_is_open : Outcomes → Bool
browser_is_open o =
    (if o.deployed_target then o.target_ready else preview_is_spawned o && o.preview_ready)
    && o.browser_launches
