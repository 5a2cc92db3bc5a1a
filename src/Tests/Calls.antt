-- ===== src/Tests/Calls.antt =====
-- api.ts: replies, errors and the time limit.
use secret_letter.Scene.{consumed, expired, error}
use secret_letter.RevealPage.Errors.{map_open_error}
use secret_letter.RevealPage.Refusals.{IsConsumed, refusal_shown}
use secret_letter.Api.Codes.{to_secret_api_error}
use secret_letter.Http.{field}
use secret_letter.Api.Requests.{json_or_empty}
use secret_letter.Prelude.{◌≡◌, ◌⊎◌, ◌↔◌, refl, [], ◌∷◌, true, false, none, some}
use secret_letter.Prelude.Results.{ok, throw}
use secret_letter.Errors.{Thrown, secret_api_error, secret_expired, client_error, network_error}
use secret_letter.Text.{units, text_eq}
use secret_letter.Http.{Response}
use secret_letter.Api.Messages.{network_text}
use secret_letter.Api.Codes.{known_code, code_of_status, normalize_secret_error_code}
use secret_letter.Api.Fetch.{responds, fails, times_out, started, fetch_run, safe_fetch}
use secret_letter.Api.Fetch.Laws.{fetch_run-first}
use secret_letter.Api.Requests.{read_reply}

-- The cases of api.test.ts.
generic_client_error : normalize_secret_error_code none 422 ≡ client_error
unfolding normalize_secret_error_code code_of_status known_code
generic_client_error = refl

expired_over_gone : normalize_secret_error_code (some (units "SECRET_EXPIRED")) 410 ≡ secret_expired
unfolding normalize_secret_error_code known_code text_eq
expired_over_gone = refl

abbrev gone : Response
gone = record { status = 410; json = ok (("error", units "SECRET_CONSUMED") ∷ []) }

fetch_run-first_example :
    let s = fetch_run started (times_out ∷ responds gone ∷ []) in
    (s.outcome ≡ some (safe_fetch times_out))
    × (s.timer_set ≡ false)
    × ((s.aborted ≡ true) ↔ (times_out ≡ times_out))
fetch_run-first_example = fetch_run-first times_out (responds gone ∷ [])

abbrev lost : Thrown
lost = secret_api_error (record { code = network_error; message = network_text; status = 0 })

fails_lost : safe_fetch fails ≡ throw lost
unfolding safe_fetch
fails_lost = refl

abbrev gone_error : Thrown
gone_error =
    secret_api_error
      (to_secret_api_error 410 (record { error = some (units "SECRET_CONSUMED"); message = none }))

gone_thrown : read_reply gone ≡ throw gone_error
unfolding read_reply field
gone_thrown = refl

refusal_shown_example :
    let code = field "error" (json_or_empty gone.json) in
    (((map_open_error gone_error).state ≡ consumed) ↔ IsConsumed code 410)
    × (((map_open_error gone_error).state ≡ expired) ↔ (code ≡ some (units "SECRET_EXPIRED")))
    × (((map_open_error gone_error).state ≡ consumed)
        ⊎ (((map_open_error gone_error).state ≡ expired)
            ⊎ ((map_open_error gone_error).state ≡ error)))
refusal_shown_example = refusal_shown gone gone_error refl gone_thrown
