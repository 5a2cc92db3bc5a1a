-- ===== src/E2e/Flow/Checks.antt =====
-- What the script finds of the two responses that it waits for.
use mathlib.Core.List.{append_assoc, append-nil}
use secret_letter.Prelude.{
  ◌≡◌, refl, sym, ap, ◌∙◌, suc, List, [], ◌∷◌, ◌++◌, true, false, Option, arith, length, ltb, ◌==◌,
  is_empty,
}
use secret_letter.Prelude.Results.{ok}
use secret_letter.Text.{Text, units, starts_with}
use secret_letter.Http.{HttpRequest, Response, post}
use secret_letter.Api.Requests.{api_base_url}
use secret_letter.E2e.Responses.{
  Exchange, includes, is_session_response, is_open_response, find_response, responses_since,
  check_open_response, check_responses, session_id_of,
}

starts_with-append : (needle s : Text) → starts_with needle (needle ++ s) ≡ true
unfolding starts_with
starts_with-append [] s = refl
starts_with-append (c ∷ needle) s = ground (arith, starts_with-append needle s)

pub includes-append : (front needle s : Text) → includes needle (front ++ needle ++ s) ≡ true
unfolding includes
includes-append [] [] [] = refl
includes-append [] [] (c ∷ s) = ground (arith, starts_with-append [] (c ∷ s))
includes-append [] (d ∷ needle) s = ground (arith, starts_with-append (d ∷ needle) s)
includes-append (c ∷ front) needle s = ground (arith, includes-append front needle s)

pub includes-end : (front needle : Text) → includes needle (front ++ needle) ≡ true
includes-end front needle =
    ap (includes needle) (sym (append-nil (front ++ needle))) ∙ includes-append front needle []

nothing_since : (log : List Exchange) → responses_since (length log) log ≡ []
unfolding responses_since
nothing_since [] = refl
nothing_since (exchange ∷ log) = ground arith

pub two_since :
    (a b : Exchange) (log : List Exchange) → responses_since (length log) (b ∷ a ∷ log) ≡ a ∷ b ∷ []
unfolding responses_since
two_since a b log =
    let first : ltb (suc (length log)) (length log) ≡ false = ground arith in
    let second : ltb (length log) (length log) ≡ false = ground arith in
    rw (first, second, nothing_since log) refl

module _ (env : Option Text) (token session_id : Text) where
  abbrev base : Text
  base = api_base_url env

  -- The URLs of the two requests.
  abbrev pub session_url : Text
  session_url = base ++ units "/api/reveal-sessions"

  abbrev pub open_url : Text
  open_url = base ++ units "/api/secrets/" ++ token ++ units "/" ++ units "open"

  open_url-secrets : includes (units "/api/secrets/") open_url ≡ true
  open_url-secrets =
      rw
        (
          append_assoc (base ++ units "/api/secrets/" ++ token) (units "/") (units "open"),
          append_assoc (base ++ units "/api/secrets/") token (units "/open"),
        )
        (includes-append base (units "/api/secrets/") (token ++ units "/open"))

  open_url-open : includes (units "/open") open_url ≡ true
  open_url-open =
      rw (append_assoc (base ++ units "/api/secrets/" ++ token) (units "/") (units "open"))
        (includes-end (base ++ units "/api/secrets/" ++ token) (units "/open"))

  asked-matches :
      (asked : HttpRequest) (made : Response)
      → asked.method ≡ post
      → asked.url ≡ session_url
      → includes (units "/api/secrets/") session_url ≡ false
      → (is_session_response (asked, made) ≡ true) × (is_open_response (asked, made) ≡ false)
  unfolding is_session_response is_open_response
  asked-matches asked made m u apart = (
    rw (is_session_response, m, u) (includes-end base (units "/api/reveal-sessions")),
    rw (is_open_response, m, u, apart) refl,
  )

  opened-matches :
      (opened : HttpRequest) (given : Response)
      → opened.method ≡ post
      → opened.url ≡ open_url
      → is_open_response (opened, given) ≡ true
  unfolding is_open_response
  opened-matches opened given m u =
      rw (is_open_response, m, u, open_url-secrets, open_url-open) refl

  -- A session that is made with 201 and an opening with 200, whose request has the header, pass.
  pub check_responses-ok :
      (asked opened : HttpRequest) (made given : Response)
      → asked.method ≡ post
      → asked.url ≡ session_url
      → opened.method ≡ post
      → opened.url ≡ open_url
      → made.status ≡ 201
      → given.status ≡ 200
      → session_id_of opened ≡ session_id
      → is_empty session_id ≡ false
      → includes (units "/api/secrets/") session_url ≡ false
      → check_responses ((asked, made) ∷ (opened, given) ∷ []) ≡ ok tt
  unfolding check_responses check_open_response find_response
  check_responses-ok asked opened made given m1 u1 m2 u2 s1 s2 header full apart =
      let (session, other) = asked-matches asked made m1 u1 apart in
      let letter = opened-matches opened given m2 u2 in
      let created : (made.status == 201) ≡ true = rw s1 refl in
      let found : (given.status == 200) ≡ true = rw s2 refl in
      let sent : is_empty (session_id_of opened) ≡ false = rw header full in
      rw (check_responses, find_response, session, created)
        (rw (check_open_response, find_response, other, letter, found, sent) refl)
