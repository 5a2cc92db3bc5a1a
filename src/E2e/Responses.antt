-- ===== src/E2e/Responses.antt =====
-- frontend/web-app/scripts/e2e.mjs: the responses that the script waits for, and what it checks of them. A wait of Playwright
-- that finds nothing gives up in time.
use secret_letter.Prelude.{
  ℕ, List, [], ◌∷◌, ◌++◌, Bool, true, false, ◌||◌, ◌&&◌, not, ltb, ◌==◌, Option, none, some,
  if◌then◌else◌, is_empty, length,
}
use secret_letter.Prelude.Results.{Result, ok, throw}
use secret_letter.Text.{Text, units, starts_with}
use secret_letter.Http.{Method, get, post, HttpRequest, Response, field}

-- The errors that the script throws, and a wait of Playwright that gives up.
pub data Failure : Type 0 where
  timed_out link_without_fragment session_not_created letter_not_opened session_not_sent : Failure

abbrev pub Done : Type 0
Done = Unit

unfoldable pub includes : Text → Text → Bool
includes needle [] = is_empty needle
includes needle (c ∷ s) = starts_with needle (c ∷ s) || includes needle s

abbrev pub is_post : Method → Bool
is_post post = true
is_post get = false

abbrev pub Exchange : Type 0
Exchange = HttpRequest × Response

-- The two conditions of `waitForResponse`.
unfoldable pub is_session_response : Exchange → Bool
is_session_response (request, response) =
    is_post request.method && includes (units "/api/reveal-sessions") request.url

unfoldable pub is_open_response : Exchange → Bool
is_open_response (request, response) =
    is_post request.method
    && (includes (units "/api/secrets/") request.url && includes (units "/open") request.url)

unfoldable pub find_response : (Exchange → Bool) → List Exchange → Option Exchange
find_response matches [] = none
find_response matches (exchange ∷ exchanges) =
    if matches exchange then some exchange else find_response matches exchanges

-- What is answered behind a point in time, the oldest first; the log has the newest first.
unfoldable pub responses_since : ℕ → List Exchange → List Exchange
responses_since count [] = []
responses_since count (exchange ∷ log) =
    let older = responses_since count log in
    if ltb (length log) count then [] else older ++ exchange ∷ []

abbrev pub session_id_of : HttpRequest → Text
session_id_of request = elim (field "X-Reveal-Session" request.headers) [ none ↦ [] | some id ↦ id ]

unfoldable pub check_open_response : List Exchange → Result Failure Done
check_open_response exchanges = elim (find_response is_open_response exchanges) [
  | none ↦ throw timed_out
  | some (request, response) ↦
      if not (response.status == 200)
      then throw letter_not_opened
      else if is_empty (session_id_of request)
      then throw session_not_sent
      else ok tt
]

-- The checks behind the press of the key.
unfoldable pub check_responses : List Exchange → Result Failure Done
unfolding check_open_response
check_responses exchanges = elim (find_response is_session_response exchanges) [
  | none ↦ throw timed_out
  | some (_, response) ↦
      if not (response.status == 201)
      then throw session_not_created
      else check_open_response exchanges
]
