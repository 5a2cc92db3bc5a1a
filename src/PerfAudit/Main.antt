-- ===== src/PerfAudit/Main.antt =====
-- `main` of frontend/web-app/scripts/perf-audit.mjs: what it starts and stops, the budgets and the exit
-- code. What the build, the preview server and the browsers give is given.
pub mod Laws
use Prim.Native.String.{String}
use secret_letter.Prelude.{
  ℕ, suc, ◌+◌, ◌*◌, List, [], ◌∷◌, ◌++◌, Bool, true, false, ◌||◌, ◌&&◌, not, leb, Option, none,
  some, if◌then◌else◌, length, all,
}
use secret_letter.Text.{Text, units, starts_with}
use secret_letter.Effects.{Effect, starts, stops, preview, browser}

-- Whether each thing that can throw goes well.
pub record Outcomes : Type 0 where
  pub assets_built : Bool
  pub port_found : Bool
  pub preview_ready : Bool
  pub home_browser_launches : Bool
  pub home_measured : Bool
  pub reveal_browser_launches : Bool
  pub reveal_measured : Bool
  pub report_written : Bool

-- The two browsers, one after the other; each is closed behind its measurements.
unfoldable pub measure : Outcomes → List Effect × Bool
measure o =
    let home = starts browser ∷ [] in
    let homes = home ++ stops browser ∷ [] in
    let reveal = homes ++ starts browser ∷ [] in
    if not o.home_browser_launches
    then ([], false)
    else if not o.home_measured
    then (home, false)
    else if not o.reveal_browser_launches
    then (homes, false)
    else if not o.reveal_measured
    then (reveal, false)
    else (reveal ++ stops browser ∷ [], o.report_written)

-- `main`, with the `finally` block that stops the preview server.
unfoldable pub main : Outcomes → List Effect × Bool
unfolding measure
main o =
    let body = measure o in
    if not o.assets_built || not o.port_found
    then ([], false)
    else if not o.preview_ready
    then (starts preview ∷ stops preview ∷ [], false)
    else (starts preview ∷ body.0 ++ stops preview ∷ [], body.1)

-- What was measured; `none` is `null` or `undefined`.
pub record Measured : Type 0 where
  pub home_js_gzip_bytes : ℕ
  pub home_desktop_fcp_ms : Option ℕ
  pub home_mobile_fcp_ms : Option ℕ
  pub home_desktop_request_count : ℕ
  pub qr_new_script_requests : ℕ
  pub slow_status_to_sealed_ms : Option ℕ
  pub slow_open_to_revealed_ms : Option ℕ
  pub offline_status_error : Bool
  pub server_error_status_error : Bool
  pub server_error_open_to_error_ms : Option ℕ
  pub font_blocked_text : Option Text

pub record Budget : Type 0 where
  pub name : String
  pub passed : Bool

abbrev budget : String → Bool → Budget
budget name passed = record { name = name; passed = passed }

-- `value !== null && value <= limit`
abbrev pub within : Option ℕ → ℕ → Bool
within none limit = false
within (some value) limit = leb value limit

-- `text.includes(part)`
unfoldable pub includes : Text → Text → Bool
includes part [] = starts_with part []
includes part (c ∷ s) = starts_with part (c ∷ s) || includes part s

abbrev pub includes_option : Text → Option Text → Bool
includes_option part none = false
includes_option part (some s) = includes part s

unfoldable pub font_blocked_plaintext : Text
font_blocked_plaintext = units "Tin kiem thu font-blocked"

unfoldable pub budgets : Measured → List Budget
budgets m =
    budget "home-js-gzip" (leb m.home_js_gzip_bytes (100 * 1024))
    ∷ budget "home-fcp-desktop" (within m.home_desktop_fcp_ms 1000)
    ∷ budget "home-fcp-mobile" (within m.home_mobile_fcp_ms 1800)
    ∷ budget "home-request-count" (leb m.home_desktop_request_count 4)
    ∷ budget "qr-lazy-script-load" (leb 1 m.qr_new_script_requests)
    ∷ budget "reveal-slow-status-to-sealed" (within m.slow_status_to_sealed_ms 1700)
    ∷ budget "reveal-slow-open-to-revealed" (within m.slow_open_to_revealed_ms 1700)
    ∷ budget "reveal-offline-error" m.offline_status_error
    ∷ budget "reveal-server-error"
        (m.server_error_status_error && within m.server_error_open_to_error_ms 1150)
    ∷ budget "reveal-font-blocked" (includes_option font_blocked_plaintext m.font_blocked_text)
    ∷ []

-- `budgets.filter((budget) => !budget.passed)`
unfoldable pub failed_budgets : List Budget → List Budget
failed_budgets [] = []
failed_budgets (b ∷ bs) = let rest = failed_budgets bs in if not b.passed then b ∷ rest else rest

-- `process.exitCode`, which is 0 unless it is set.
unfoldable pub exit_code : Measured → ℕ
unfolding budgets failed_budgets
exit_code m = elim (failed_budgets (budgets m)) [ [] ↦ 0 | _ ∷ _ ↦ 1 ]
