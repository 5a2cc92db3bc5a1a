-- ===== src/SecretEnvelopeScene/Opening.antt =====
-- The opening of the letter, in every order of events.
use secret_letter.Prelude.{
  ℕ, suc, ◌≤◌, ◌≡◌, List, [], ◌∷◌, Bool, true, false, ◌&&◌, arith, if◌then◌else◌,
}
use secret_letter.Scene.{SecretSceneState}
use secret_letter.SecretEnvelopeScene.{
  Entry, seals, accepts, calls_on_open, calls_on_close, OpeningState, initial_opening, is_filling,
  tween_completes, receive_state, handle_consent_accept, handle_close, handle_envelope_pointer_down,
  handle_envelope_pointer_end, handle_envelope_key_down,
}

-- `renders` is a render with another preference for motion, or with the ring there or not.
pub data OpeningEvent : Type 0 where
  receives : SecretSceneState → OpeningEvent
  renders : Bool → Bool → OpeningEvent
  accepts_warning clicks_close pointer_down pointer_end tween_ends : OpeningEvent
  key_down : Bool → OpeningEvent

unfoldable pub opening_step : OpeningEvent → OpeningState → OpeningState
opening_step (receives state) s = receive_state state s
opening_step (renders reduced_motion mounted) s = record s {
  reduced_motion = reduced_motion;
  mounted = mounted;
}
opening_step accepts_warning s = handle_consent_accept s
opening_step clicks_close s = handle_close s
opening_step pointer_down s = handle_envelope_pointer_down s
opening_step pointer_end s = handle_envelope_pointer_end s
opening_step tween_ends s = tween_completes s
opening_step (key_down key) s = handle_envelope_key_down key s

unfoldable pub opening_run : List OpeningEvent → OpeningState → OpeningState
opening_run [] s = s
opening_run (e ∷ es) s = opening_run es (opening_step e s)

-- The calls of `onOpen` since the letter last became sealed.
unfoldable pub opens_since_sealed : List Entry → ℕ
opens_since_sealed [] = 0
opens_since_sealed (seals _ ∷ log) = 0
opens_since_sealed (calls_on_open ∷ log) = suc (opens_since_sealed log)
opens_since_sealed (accepts ∷ log) = opens_since_sealed log
opens_since_sealed (calls_on_close ∷ log) = opens_since_sealed log

-- Whether the warning was accepted since the letter became sealed, or, if a ring was filling at that
-- moment, since it became sealed before.
unfoldable pub is_granted : List Entry → Bool
is_granted [] = false
is_granted (seals was_filling ∷ log) = was_filling && is_granted log
is_granted (accepts ∷ log) = true
is_granted (calls_on_open ∷ log) = is_granted log
is_granted (calls_on_close ∷ log) = is_granted log

unfoldable pub opens_granted : List Entry → Bool
unfolding is_granted
opens_granted [] = true
opens_granted (calls_on_open ∷ log) = is_granted log && opens_granted log
opens_granted (seals _ ∷ log) = opens_granted log
opens_granted (accepts ∷ log) = opens_granted log
opens_granted (calls_on_close ∷ log) = opens_granted log

record OpeningInv (s : OpeningState) : Type 0 where
  once : opens_since_sealed s.log ≡ (if s.has_triggered_open then 1 else 0)
  consented : s.consent_granted ≡ true → is_granted s.log ≡ true
  held : is_filling s.hold_tween ≡ true → is_granted s.log ≡ true
  granted : opens_granted s.log ≡ true

step-OpeningInv :
    (e : OpeningEvent) {s : OpeningState} → OpeningInv s → OpeningInv (opening_step e s)
unfolding opening_step receive_state handle_consent_accept handle_close handle_envelope_pointer_down
    handle_envelope_pointer_end handle_envelope_key_down tween_completes opens_since_sealed
    is_granted opens_granted
step-OpeningInv (receives state) h = ground arith
step-OpeningInv (renders reduced_motion mounted) h = ground arith
step-OpeningInv accepts_warning h = ground arith
step-OpeningInv clicks_close h = ground arith
step-OpeningInv pointer_down h = ground arith
step-OpeningInv pointer_end h = ground arith
step-OpeningInv tween_ends h = ground arith
step-OpeningInv (key_down key) h = ground arith

run-OpeningInv :
    (es : List OpeningEvent) {s : OpeningState} → OpeningInv s → OpeningInv (opening_run es s)
unfolding opening_run
run-OpeningInv [] h = h
run-OpeningInv (e ∷ es) h = run-OpeningInv es (step-OpeningInv e h)

initial-OpeningInv : OpeningInv initial_opening
unfolding opens_since_sealed is_granted opens_granted
initial-OpeningInv = ground arith

-- In every order of clicks, holds, key presses, ends of the ring and renders, `onOpen` is called at
-- most once from one moment at which the letter becomes sealed to the next.
pub opening_run-once :
    (es : List OpeningEvent) → opens_since_sealed (opening_run es initial_opening).log ≤ 1
opening_run-once es = let inv = run-OpeningInv es initial-OpeningInv in ground (arith, inv.once)

-- In every order of events, each call of `onOpen` comes after the reader accepted the warning of the
-- letter that is sealed now; only if the letter became sealed anew while a ring was filling can it
-- be the warning of the letter before.
pub opening_run-granted :
    (es : List OpeningEvent) → opens_granted (opening_run es initial_opening).log ≡ true
opening_run-granted es = (run-OpeningInv es initial-OpeningInv).granted
