-- ===== src/Tests/Server.antt =====
-- One letter on the server, opened by two requests at once; and some requests to be validated.
use secret_letter.Prelude.{
  ℕ, ◌≤◌, ◌<◌, ◌≡◌, ◌≢◌, ◌↔◌, ◌⊎◌, refl, List, [], ◌∷◌, ◌++◌, true, none, some, arith,
}
use secret_letter.Text.{text_eq, units}
use secret_letter.Base64Url.{is_base64_url_char}
use secret_letter.Http.{JsonObject, field}
use secret_letter.Scene
use secret_letter.RevealPage.{scene_of_status}
use secret_letter.Backend.RevealSession.{create_reveal_session, secret_consumed, unavailable}
use secret_letter.Backend.RevealSession.Laws.{held-unavailable}
use secret_letter.Backend.Letter.{
  opening, active, consumed, Metadata, Store, claimed, said_consumed, conflict, done, claim_open,
  claim_active, finalize_open, abort_open,
}
use secret_letter.Backend.Letter.Claims.{waiting_store, held, claim_open-held}
use secret_letter.Backend.Service.{
  Opening, System, created, consume_begins, consume_ends, secret_status,
}
use secret_letter.Backend.Service.OneTime.{Reach, here, next, LetterStep, begins, ends, Reach-once}
use secret_letter.Backend.Service.Fate.{fate, FateStep, Reach-Refines, waiting, delivered}
use secret_letter.Backend.Service.Closed.{status_text, given-unsealed}
use secret_letter.Backend.Handlers.{open_error, reveal_session_error}
use secret_letter.Backend.Handlers.{session_error}
use secret_letter.Backend.Handlers.Laws.{Shows, errors_shown}
use secret_letter.Backend.Validation.{
  CreateSecretRequest, validate_create_secret_request, decoded_length, digits_loop, without_breaks,
}
use secret_letter.Backend.Validation.Rules.{IsAllowed, validate-IsAllowed}

-- The letter 7, which expires at 100.
abbrev pub fresh : System
fresh = created 7 100

abbrev pub first_claimed : System
first_claimed = consume_begins 5 1 fresh

-- The second request is refused, since the first has its claim.
abbrev pub both_begun : System
both_begun = consume_begins 6 2 first_claimed

abbrev pub first_opening : Opening
first_opening = record { claim_id = 1; payload = 7 }

abbrev pub first_ended : System
first_ended = consume_ends true true 7 first_opening (record both_begun { running = [] })

first_runs : both_begun.running ≡ first_opening ∷ []
unfolding consume_begins claim_open claim_active
first_runs = refl

pub both_begun-Reach : Reach fresh both_begun
both_begun-Reach = next (next here (begins fresh 5 1)) (begins first_claimed 6 2)

pub last_step : LetterStep both_begun first_ended
last_step = ends both_begun [] [] first_opening true true 7 first_runs

first_given :
    (first_ended.given ≡ 7 ∷ [])
    × (secret_status 8 first_ended.store ≡ some consumed)
    × (fate both_begun ≡ waiting)
    × (fate first_ended ≡ delivered)
unfolding consume_begins consume_ends claim_open claim_active finalize_open secret_status
first_given = (refl, refl, refl, refl)

Reach-once_example :
    (first_ended.given ≡ []) ⊎ ((first_ended.given ≡ 7 ∷ []) × (first_ended.store.payload ≡ none))
Reach-once_example = Reach-once 7 100 (next both_begun-Reach last_step)

Reach-Refines_example :
    (out : List ℕ) × (first_ended.given ≡ out ++ both_begun.given)
    × FateStep 7 (fate both_begun) out (fate first_ended)
Reach-Refines_example = Reach-Refines 7 100 both_begun-Reach last_step

abbrev some_metadata : Metadata
some_metadata = record {
  status = active;
  opening_id = none;
  opening_until_unix = none;
  expires_at_unix = 100;
  consumed_at_unix = none;
  view_count = 0;
}

abbrev taken_store : Store
taken_store = held some_metadata 7 5 1 35

claim_open-held_example :
    (claim_open 5 1 35 (waiting_store some_metadata 7) ≡ (taken_store, claimed 7))
    × ((later other until : ℕ)
        → later < 35
        → claim_open later other until taken_store ≡ (taken_store, said_consumed))
    × ((later other until : ℕ)
        → 35 ≤ later
        → later < 100
        → (claim_open later other until taken_store).1 ≡ claimed 7)
    × ((consumed_at other : ℕ)
        → other ≢ 1
        → finalize_open consumed_at other taken_store ≡ (taken_store, conflict))
    × ((consumed_at : ℕ)
        → ((finalize_open consumed_at 1 taken_store).1 ≡ done)
          × ((later other until : ℕ)
              → claim_open later other until (finalize_open consumed_at 1 taken_store).0
                ≡ ((finalize_open consumed_at 1 taken_store).0, said_consumed)))
    × ((later : ℕ)
        → later < 100
        → abort_open later 1 taken_store ≡ (waiting_store some_metadata 7, done))
claim_open-held_example = claim_open-held some_metadata 7 5 1 35 (omega arith)

-- A request of the load test, and the same without its nonce.
abbrev load_test : CreateSecretRequest
load_test = record {
  content = [];
  ciphertext = units "QUJD";
  nonce = units "MTIzNDU2Nzg5MDEy";
  algorithm = units "AES-GCM";
  ttl_seconds = 3600;
  expires_in_minutes = 0;
  burn_after_read = none;
}

load_test_validated :
    (validate_create_secret_request load_test ≡ [])
    × (validate_create_secret_request (record load_test { nonce = []; ttl_seconds = 60 })
        ≡ record { field = "ttlSeconds"; code = "invalid_ttl" }
          ∷ record { field = "nonce"; code = "empty_nonce" }
          ∷ [])
unfolding validate_create_secret_request decoded_length digits_loop without_breaks text_eq
    is_base64_url_char
load_test_validated = (refl, refl)

padded_length :
    (decoded_length (units "MTI=") ≡ some 2)
    × (decoded_length (units "MTI") ≡ some 2)
    × (decoded_length (units "MT=I") ≡ none)
unfolding decoded_length digits_loop without_breaks text_eq is_base64_url_char
padded_length = (refl, refl, refl)

validate-IsAllowed_example : (validate_create_secret_request load_test ≡ []) ↔ IsAllowed load_test
validate-IsAllowed_example = validate-IsAllowed load_test

abbrev opening_reply : JsonObject
opening_reply = ("status", units "opening") ∷ []

held-unavailable_example :
    (secret_status 50 taken_store ≡ some opening)
    × (create_reveal_session (secret_status 50 taken_store) 3 4 50 [] ≡ ([], some unavailable))
    × ((scene_of_status opening_reply).state ≡ Scene.error)
    × (35 ≤ 50 → 50 < 100 → (claim_open 50 2 80 taken_store).1 ≡ claimed 7)
held-unavailable_example =
    held-unavailable some_metadata 7 5 1 35 (omega arith) 50 3 4 2 80 [] opening_reply
      (unfold field in refl)

pub first_given_out : first_ended.given ≢ []
first_given_out = λ e. cc (first_given.0, e)

errors_shown_example :
    Shows (reveal_session_error secret_consumed) Scene.consumed
    × Shows (open_error secret_consumed) Scene.consumed
    × Shows (session_error secret_consumed) Scene.error
errors_shown_example = errors_shown secret_consumed

abbrev consumed_reply : JsonObject
consumed_reply = ("status", units "consumed") ∷ []

consumed_reply_status :
    field "status" consumed_reply ≡ some (status_text (secret_status 8 first_ended.store))
unfolding field consume_begins consume_ends claim_open claim_active finalize_open secret_status
consumed_reply_status = refl

given-unsealed_example : (scene_of_status consumed_reply).state ≢ Scene.sealed
given-unsealed_example =
    given-unsealed 7 100 (next both_begun-Reach last_step) first_given_out 8 consumed_reply
      consumed_reply_status
