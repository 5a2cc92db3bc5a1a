-- ===== src/Probes.antt =====
-- The loops that frontend/web-app/scripts/perf-audit.mjs and e2e.mjs have in common: `findFreePort`,
-- `waitForServer` and `waitForTcp`. What the ports and the probes answer is given.
pub mod Laws
use secret_letter.Prelude.{
  ℕ, zero, suc, ◌+◌, ◌/◌, Bool, true, false, ltb, Option, none, some, if◌then◌else◌,
}

-- `for (let port = startPort; port < startPort + 20; port += 1)`, by the rounds that are left; `none` is
-- the error that is thrown.
unfoldable pub ports_loop : (ℕ → Bool) → ℕ → ℕ → Option ℕ
ports_loop is_port_free zero port = none
ports_loop is_port_free (suc rounds) port =
    let rest = ports_loop is_port_free rounds (port + 1) in
    if is_port_free port then some port else rest

unfoldable pub find_free_port : (ℕ → Bool) → ℕ → Option ℕ
unfolding ports_loop
find_free_port is_port_free start_port = ports_loop is_port_free 20 start_port

-- One request or connection: how long it took, in milliseconds, and whether it was answered.
pub record Probe : Type 0 where
  pub took : ℕ
  pub answered : Bool

-- How a wait ends, and after how many probes.
pub data Wait : Type 0 where
  ready timed_out : ℕ → Wait

module _ (probe : ℕ → Probe) (pause : ℕ → ℕ) where
  -- `while (Date.now() - started < timeoutMs)`, on fuel; `pause k` is how long the k-th `setTimeout` of 250
  -- milliseconds lasts.
  unfoldable pub wait_loop : ℕ → ℕ → ℕ → ℕ → Option Wait
  wait_loop zero timeout_ms k elapsed = none
  wait_loop (suc fuel) timeout_ms k elapsed =
      let rest = wait_loop fuel timeout_ms (k + 1) (elapsed + (probe k).took + pause k) in
      if ltb elapsed timeout_ms
      then (if (probe k).answered then some (ready (k + 1)) else rest)
      else some (timed_out k)

  unfoldable pub wait_for_server : ℕ → Option Wait
  unfolding wait_loop
  wait_for_server timeout_ms = wait_loop (timeout_ms / 250 + 2) timeout_ms 0 0
