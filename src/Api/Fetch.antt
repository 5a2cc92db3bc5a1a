-- ===== src/Api/Fetch.antt =====
-- `safeFetch` of frontend/web-app/src/lib/api.ts: one request under a time limit of
-- `REQUEST_TIMEOUT_MS`. The platform decides in which order the reply, a failure of the transport and
-- the timer come; the handlers are the code's.
pub mod Laws
use secret_letter.Prelude.{ℕ, List, [], ◌∷◌, Bool, true, false, Option, none, some, if◌then◌else◌}
use secret_letter.Prelude.Results.{Result, ok, throw}
use secret_letter.Errors.{Thrown, secret_api_error, timeout_error, network_error}
use secret_letter.Http.{Response}
use secret_letter.Api.Messages.{timeout_text, network_text}

abbrev pub request_timeout_ms : ℕ
request_timeout_ms = 10_000

-- The head of the reply arrives, `fetch` fails, or the timer goes off.
pub data FetchEvent : Type 0 where
  responds : Response → FetchEvent
  fails : FetchEvent
  times_out : FetchEvent

pub record FetchState : Type 0 where
  pub timed_out : Bool
  pub aborted : Bool
  pub timer_set : Bool
  pub outcome : Option (Result Thrown Response)

-- After `setTimeout` and the call of `fetch`.
abbrev pub started : FetchState
started = record { timed_out = false; aborted = false; timer_set = true; outcome = none }

-- The `catch` block.
unfoldable pub fetch_error : Bool → Thrown
fetch_error timed_out =
    if timed_out
    then secret_api_error (record { code = timeout_error; message = timeout_text; status = 0 })
    else secret_api_error (record { code = network_error; message = network_text; status = 0 })

-- The awaited promise settles once, and `finally` clears the timer.
settle : Result Thrown Response → FetchState → FetchState
settle result s = elim s.outcome [
  | none ↦ record s { timer_set = false; outcome = some result }
  | some _ ↦ s
]

-- A pending `fetch` whose signal is aborted rejects.
fire : FetchState → FetchState
unfolding settle fetch_error
fire s =
    let s' = record s { timed_out = true; aborted = true; timer_set = false } in
    if s.timer_set then settle (throw (fetch_error s'.timed_out)) s' else s

unfoldable pub fetch_step : FetchState → FetchEvent → FetchState
unfolding settle fetch_error fire
fetch_step s (responds r) = settle (ok r) s
fetch_step s fails = settle (throw (fetch_error s.timed_out)) s
fetch_step s times_out = fire s

unfoldable pub fetch_run : FetchState → List FetchEvent → FetchState
fetch_run s [] = s
fetch_run s (e ∷ es) = fetch_run (fetch_step s e) es

-- What the first of these events makes of the call.
unfoldable pub safe_fetch : FetchEvent → Result Thrown Response
unfolding fetch_error
safe_fetch (responds r) = ok r
safe_fetch fails = throw (fetch_error false)
safe_fetch times_out = throw (fetch_error true)
