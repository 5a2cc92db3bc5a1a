-- ===== src/Tests/Scripts.antt =====
-- The two scripts on concrete inputs.
use secret_letter.Prelude.{ℕ, ◌≡◌, ◌↔◌, refl, [], ◌∷◌, Bool, true, false, none, some, arith, ltb}
use secret_letter.Text.{Text, units, text_eq, starts_with, ends_with}
use secret_letter.Effects.{starts, stops, redis, backend, preview, browser, backend_server, is_live}
use secret_letter.Probes.{find_free_port, Probe, Wait, ready, timed_out, wait_for_server}
use secret_letter.Probes.Laws.{IsOutcome, wait_for_server_ends}
use secret_letter.E2e.{run, normalize_base_url}
use secret_letter.PerfAudit.Main.{includes, main, Measured, exit_code, font_blocked_plaintext}
use secret_letter.PerfAudit.Main.Laws.{MeetsTargets, browser_is_stuck, main-stops, exit_code-zero}
use secret_letter.PerfAudit.Assets.{
  entry_at, add, initial_keys, ManifestEntry, Manifest, has, Collected, dynamic_keys,
  find_entry_key, collect_initial_assets,
}
use secret_letter.PerfAudit.Assets.Files.{IsScript, IsStyle}
use secret_letter.PerfAudit.Assets.Visits.{Provides, collect_initial_assets-reached}

-- Entries that import one another, a page that is loaded later, and an import that is not there.
abbrev main_entry : ManifestEntry
main_entry = record {
  file = some (units "a.js");
  is_entry = true;
  src = some (units "src/main.tsx");
  css = units "a.css" ∷ [];
  imports = units "b" ∷ units "gone" ∷ [];
  dynamic_imports = units "src/pages/p" ∷ units "c" ∷ [];
}

abbrev shared_entry : ManifestEntry
shared_entry = record {
  file = some (units "b.js");
  is_entry = false;
  src = none;
  css = units "b.css" ∷ [];
  imports = units "m" ∷ [];
  dynamic_imports = [];
}

abbrev picture_entry : ManifestEntry
picture_entry = record {
  file = some (units "c.png");
  is_entry = false;
  src = none;
  css = [];
  imports = units "b" ∷ [];
  dynamic_imports = [];
}

abbrev page_entry : ManifestEntry
page_entry = record {
  file = some (units "p.js");
  is_entry = false;
  src = none;
  css = [];
  imports = [];
  dynamic_imports = [];
}

abbrev small_manifest : Manifest
small_manifest =
    (units "m", main_entry)
    ∷ (units "b", shared_entry)
    ∷ (units "c", picture_entry)
    ∷ (units "src/pages/p", page_entry)
    ∷ []

small_manifest_entry : find_entry_key small_manifest ≡ some (units "m")
unfolding find_entry_key entry_at text_eq ends_with
small_manifest_entry = refl

small_manifest_assets :
    collect_initial_assets small_manifest (units "m")
    ≡ some (record {
      visited = units "m" ∷ units "b" ∷ units "gone" ∷ units "c" ∷ [];
      js = units "a.js" ∷ units "b.js" ∷ [];
      css = units "a.css" ∷ units "b.css" ∷ [];
    })
unfolding collect_initial_assets has entry_at text_eq add initial_keys starts_with ends_with
small_manifest_assets = refl

collect_initial_assets-reached_example :
    (t : Collected) × (collect_initial_assets small_manifest (units "m") ≡ some t)
    × ((f : Text)
        → (has f t.js ≡ true)
          ↔ Provides small_manifest
              (IsScript small_manifest)
              (units "m" ∷ dynamic_keys small_manifest (units "m"))
              f)
    × ((f : Text)
        → (has f t.css ≡ true)
          ↔ Provides small_manifest
              (IsStyle small_manifest)
              (units "m" ∷ dynamic_keys small_manifest (units "m"))
              f)
collect_initial_assets-reached_example = collect_initial_assets-reached small_manifest (units "m")

-- Ports up to 4174 are taken.
abbrev some_free : ℕ → Bool
some_free port = ltb 4174 port

some_free_port : find_free_port some_free 4173 ≡ some 4175
unfolding find_free_port
some_free_port = refl

-- The third probe is answered; each takes 40 milliseconds.
abbrev third_answers : ℕ → Probe
third_answers k = record { took = 40; answered = ltb 1 k }

third_answered : wait_for_server third_answers (λ k. 260) 15000 ≡ some (ready 3)
unfolding wait_for_server
third_answered = refl

never_answered :
    wait_for_server (λ k. record { took = 10; answered = false }) (λ k. 250) 1000
    ≡ some (timed_out 4)
unfolding wait_for_server
never_answered = refl

wait_for_server_ends_example :
    (w : Wait) × (wait_for_server third_answers (λ k. 260) 15000 ≡ some w)
    × IsOutcome third_answers (λ k. 260) (λ k. omega arith) 15000 w
wait_for_server_ends_example =
    wait_for_server_ends third_answers (λ k. 260) (λ k. omega arith) 15000

-- The preview server of the end-to-end run does not come up.
abbrev stuck_preview : secret_letter.E2e.Outcomes
stuck_preview = record {
  deployed_target = false;
  backend_port_found = true;
  preview_port_found = true;
  target_ready = false;
  redis_ready = false;
  redis_addr_set = false;
  docker_starts = true;
  docker_redis_ready = true;
  build_passes = true;
  backend_ready = true;
  preview_ready = false;
  browser_launches = true;
  flow_passes = true;
  on_windows = false;
  backend_runs = true;
  preview_runs = false;
  browser_closes = true;
  docker_stops = true;
}

stuck_preview-run : run stuck_preview ≡ (
  starts redis
      ∷ starts backend
      ∷ starts backend_server
      ∷ starts preview
      ∷ stops preview
      ∷ stops backend
      ∷ stops redis
      ∷ [],
  false,
)
unfolding run
stuck_preview-run = refl

-- A reveal scenario of the audit throws.
abbrev stuck_browser : secret_letter.PerfAudit.Main.Outcomes
stuck_browser = record {
  assets_built = true;
  port_found = true;
  preview_ready = true;
  home_browser_launches = true;
  home_measured = true;
  reveal_browser_launches = true;
  reveal_measured = false;
  report_written = true;
}

main-stops_example :
    (is_live preview false (main stuck_browser).0 ≡ false)
    × (is_live browser false (main stuck_browser).0 ≡ browser_is_stuck stuck_browser)
main-stops_example = main-stops stuck_browser

-- All targets are met but that of the requests.
abbrev five_requests : Measured
five_requests = record {
  home_js_gzip_bytes = 70000;
  home_desktop_fcp_ms = some 400;
  home_mobile_fcp_ms = some 900;
  home_desktop_request_count = 5;
  qr_new_script_requests = 1;
  slow_status_to_sealed_ms = some 1500;
  slow_open_to_revealed_ms = some 1500;
  offline_status_error = true;
  server_error_status_error = true;
  server_error_open_to_error_ms = some 1000;
  font_blocked_text = some font_blocked_plaintext;
}

five_requests_code :
    (exit_code five_requests ≡ 1)
    × (exit_code (record five_requests { home_desktop_request_count = 4 }) ≡ 0)
unfolding exit_code includes font_blocked_plaintext starts_with
five_requests_code = (refl, refl)

exit_code-zero_example : (exit_code five_requests ≡ 0) ↔ MeetsTargets five_requests
exit_code-zero_example = exit_code-zero five_requests

slash_dropped : normalize_base_url (units "https://x/") ≡ units "https://x"
unfolding normalize_base_url ends_with
slash_dropped = refl
