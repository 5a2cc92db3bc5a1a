-- ===== src/Api/Fetch/Laws.antt =====
-- Every order of the events of one request.
use secret_letter.Prelude.{ap, ◌∙◌, List, [], ◌∷◌, true, false, some, ◌≡◌, refl, arith, ◌↔◌}
use secret_letter.Prelude.Results.{Result}
use secret_letter.Errors.{Thrown}
use secret_letter.Http.{Response}
use secret_letter.Api.Fetch.{
  FetchEvent, responds, fails, times_out, FetchState, started, fetch_step, fetch_run, safe_fetch,
}

-- Settled, and with the timer cleared.
pub record IsSettled (result : Result Thrown Response) (s : FetchState) : Type 0 where
  pub settled : s.outcome ≡ some result
  pub cleared : s.timer_set ≡ false

step-IsSettled :
    {result : Result Thrown Response} {s : FetchState} (e : FetchEvent)
    → IsSettled result s
    → fetch_step s e ≡ s
unfolding fetch_step
step-IsSettled (responds r) h = ground arith
step-IsSettled fails h = ground arith
step-IsSettled times_out h = ground arith

run-IsSettled :
    {result : Result Thrown Response} {s : FetchState} (es : List FetchEvent)
    → IsSettled result s
    → fetch_run s es ≡ s
unfolding fetch_run
run-IsSettled [] h = refl
run-IsSettled {s} (e ∷ es) h = ap (λ t. fetch_run t es) (step-IsSettled e h) ∙ run-IsSettled es h

first-IsSettled : (e : FetchEvent) → IsSettled (safe_fetch e) (fetch_step started e)
unfolding fetch_step safe_fetch
first-IsSettled (responds r) = ground arith
first-IsSettled fails = ground arith
first-IsSettled times_out = ground arith

first_aborts : (e : FetchEvent) → ((fetch_step started e).aborted ≡ true) ↔ (e ≡ times_out)
unfolding fetch_step
first_aborts (responds r) = ((λ h. cc), (λ h. cc))
first_aborts fails = ((λ h. cc), (λ h. cc))
first_aborts times_out = ((λ h. refl), (λ h. refl))

-- In every order of events, the first decides the call and the later ones change nothing; the timer
-- is cleared, and the request was aborted exactly if the timer came first.
pub fetch_run-first :
    (e : FetchEvent) (es : List FetchEvent)
    → let s = fetch_run started (e ∷ es) in
      (s.outcome ≡ some (safe_fetch e))
      × (s.timer_set ≡ false)
      × ((s.aborted ≡ true) ↔ (e ≡ times_out))
unfolding fetch_run
fetch_run-first e es =
    let first = first-IsSettled e in
    let rest = run-IsSettled es first in rw rest (first.settled, first.cleared, first_aborts e)
