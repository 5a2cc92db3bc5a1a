-- ===== src/SecretEnvelopeScene.antt =====
-- frontend/web-app/src/components/secret-letter/SecretEnvelopeScene.tsx: which part of the screen a state
-- belongs to, and the opening of a sealed letter by consent and hold.
pub mod Opening
pub mod Status
use secret_letter.Prelude.{
  ℕ, List, [], ◌∷◌, Bool, true, false, ◌||◌, ◌&&◌, not, Option, none, some, if◌then◌else◌,
}
use secret_letter.Text.{Text}
use secret_letter.Scene.{
  SecretSceneState, loading, sealed, opening, revealed, closing, burning, vanished, expired,
  consumed, error,
}

pub record StatusData : Type 0 where
  pub state : SecretSceneState
  pub message : Option Text

abbrev pub is_status_state : SecretSceneState → Bool
is_status_state loading = true
is_status_state vanished = true
is_status_state expired = true
is_status_state consumed = true
is_status_state error = true
is_status_state _ = false

unfoldable pub get_status_data : SecretSceneState → Option Text → Option StatusData
get_status_data state message =
    if is_status_state state then some (record { state = state; message = message }) else none

unfoldable pub is_envelope_state : SecretSceneState → Bool
is_envelope_state sealed = true
is_envelope_state opening = true
is_envelope_state revealed = true
is_envelope_state closing = true
is_envelope_state burning = true
is_envelope_state _ = false

abbrev pub is_sealed_state : SecretSceneState → Bool
is_sealed_state sealed = true
is_sealed_state _ = false

abbrev pub is_revealed_state : SecretSceneState → Bool
is_revealed_state revealed = true
is_revealed_state _ = false

-- The tween of the ring. The callback of a filling ring is the `triggerOpen` of the render in which
-- the hold began, and keeps the `state` of that render.
pub data Tween : Type 0 where
  filling : SecretSceneState → Tween
  emptying : Tween

-- What passes between the reader, the scene and its parent: the letter became sealed (and whether a
-- ring was filling then), the warning was accepted, `onOpen` and `onClose` were called.
pub data Entry : Type 0 where
  seals : Bool → Entry
  accepts calls_on_open calls_on_close : Entry

-- `mounted`: `holdProgressRef.current` is there. `log` has the newest entry first.
pub record OpeningState : Type 0 where
  pub state : SecretSceneState
  pub reduced_motion : Bool
  pub mounted : Bool
  pub consent_granted : Bool
  pub is_holding : Bool
  pub has_triggered_open : Bool
  pub hold_progress : ℕ
  pub hold_tween : Option Tween
  pub log : List Entry

abbrev pub initial_opening : OpeningState
initial_opening = record {
  state = loading;
  reduced_motion = false;
  mounted = false;
  consent_granted = false;
  is_holding = false;
  has_triggered_open = false;
  hold_progress = 0;
  hold_tween = none;
  log = [];
}

abbrev pub is_filling : Option Tween → Bool
is_filling (some (filling _)) = true
is_filling _ = false

abbrev pub set_hold_progress : ℕ → OpeningState → OpeningState
set_hold_progress progress s = record s {
  hold_progress = if s.mounted then progress else s.hold_progress;
}

-- `triggerOpen`, with the `state` of its closure.
unfoldable pub trigger_open : SecretSceneState → OpeningState → OpeningState
trigger_open state s =
    if s.has_triggered_open || not (is_sealed_state state)
    then s
    else set_hold_progress 1 (record s {
      has_triggered_open = true;
      hold_tween = none;
      consent_granted = true;
      is_holding = false;
      log = calls_on_open ∷ s.log;
    })

unfoldable pub start_envelope_hold : OpeningState → OpeningState
unfolding trigger_open
start_envelope_hold s =
    let started = set_hold_progress 0 (record s { hold_tween = none; is_holding = true }) in
    if s.has_triggered_open || not (is_sealed_state s.state) || not s.consent_granted
    then s
    else if s.reduced_motion
    then trigger_open s.state s
    else if not s.mounted
    then trigger_open s.state started
    else record started { hold_tween = some (filling s.state) }

unfoldable pub stop_envelope_hold : OpeningState → OpeningState
stop_envelope_hold s =
    let stopped = record s { is_holding = false; hold_tween = none } in
    if s.reduced_motion || s.has_triggered_open || not (is_sealed_state s.state)
    then s
    else if not s.mounted
    then stopped
    else record stopped { hold_tween = some emptying }

-- `onComplete` of the tween.
unfoldable pub tween_completes : OpeningState → OpeningState
unfolding trigger_open
tween_completes s = elim s.hold_tween [
  | none ↦ s
  | some tween ↦ elim tween [
    | filling state ↦ trigger_open state (record s { hold_tween = none; hold_progress = 1 })
    | emptying ↦ record s { hold_tween = none; hold_progress = 0 }
  ]
]

-- The parent renders the scene with another `state`; the effect on `[state]` runs.
unfoldable pub receive_state : SecretSceneState → OpeningState → OpeningState
receive_state state s =
    if is_sealed_state state && not (is_sealed_state s.state)
    then set_hold_progress 0 (record s {
      state = state;
      has_triggered_open = false;
      consent_granted = false;
      log = seals (is_filling s.hold_tween) ∷ s.log;
    })
    else record s { state = state }

unfoldable pub handle_open : OpeningState → OpeningState
unfolding trigger_open
handle_open s = if is_sealed_state s.state && s.consent_granted then trigger_open s.state s else s

unfoldable pub handle_consent_accept : OpeningState → OpeningState
handle_consent_accept s =
    set_hold_progress 0
      (record s { consent_granted = true; is_holding = false; log = accepts ∷ s.log })

unfoldable pub handle_close : OpeningState → OpeningState
handle_close s = if is_revealed_state s.state then record s { log = calls_on_close ∷ s.log } else s

-- The handlers of the envelope (Envelope.tsx), with `canHoldOpen` as the scene passes it.
unfoldable pub handle_envelope_pointer_down : OpeningState → OpeningState
unfolding start_envelope_hold
handle_envelope_pointer_down s =
    if not (is_sealed_state s.state) || not s.consent_granted then s else start_envelope_hold s

unfoldable pub handle_envelope_pointer_end : OpeningState → OpeningState
unfolding stop_envelope_hold
handle_envelope_pointer_end s =
    if not (is_sealed_state s.state) || not s.consent_granted then s else stop_envelope_hold s

-- `key` is whether Enter or the space bar was pressed.
unfoldable pub handle_envelope_key_down : Bool → OpeningState → OpeningState
unfolding handle_open
handle_envelope_key_down key s =
    if not (is_sealed_state s.state) || not s.consent_granted
    then s
    else if key
    then handle_open s
    else s
