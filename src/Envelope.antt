-- ===== src/Envelope.antt =====
-- frontend/web-app/src/components/secret-letter/Envelope.tsx: the two buttons of an open letter, to keep
-- its text and to destroy it.
use secret_letter.Prelude.{
  ℕ, suc, ◌+◌, ◌≡◌, ◌≤◌, refl, List, [], ◌∷◌, Bool, true, false, ◌||◌, ◌&&◌, not, Option, none,
  some, arith, if◌then◌else◌,
}
use secret_letter.Scene.{SecretSceneState}
use secret_letter.SecretEnvelopeScene.{is_revealed_state}

abbrev pub destroy_arm_ms : ℕ
destroy_arm_ms = 430

pub record Copy : Type 0 where
  pub asks_clipboard : Bool
  pub result : Bool

-- `performCopyToClipboard`: `executed` is what `document.execCommand("copy")` gives, or nothing where the
-- `try` throws.
unfoldable pub perform_copy_to_clipboard : Option Bool → Bool → Copy
perform_copy_to_clipboard executed has_clipboard =
    let success : Bool = elim executed [ none ↦ false | some b ↦ b ] in
    record { asks_clipboard = not success && has_clipboard; result = success || has_clipboard }

-- `close_calls` counts the calls of `onClose`; a timer is pending where its flag is set; `sparks`
-- counts the sparks on the screen.
pub record EnvelopeState : Type 0 where
  pub state : SecretSceneState
  pub last_copy : Option Copy
  pub copied : Bool
  pub sparks : ℕ
  pub destroy_armed : Bool
  pub destroy_timer : Bool
  pub close_calls : ℕ

abbrev pub initial_envelope : SecretSceneState → EnvelopeState
initial_envelope state = record {
  state = state;
  last_copy = none;
  copied = false;
  sparks = 0;
  destroy_armed = false;
  destroy_timer = false;
  close_calls = 0;
}

-- The result of the copy is dropped.
unfoldable pub handle_copy : Option Bool → Bool → EnvelopeState → EnvelopeState
unfolding perform_copy_to_clipboard
handle_copy executed has_clipboard s = if not (is_revealed_state s.state) then s else record s {
  last_copy = some (perform_copy_to_clipboard executed has_clipboard);
  copied = true;
  sparks = 14;
}

unfoldable pub handle_destroy_click : EnvelopeState → EnvelopeState
handle_destroy_click s =
    if not (is_revealed_state s.state) || s.destroy_armed
    then s
    else record s { destroy_armed = true; destroy_timer = true }

unfoldable pub destroy_timer_fires : EnvelopeState → EnvelopeState
destroy_timer_fires s =
    if s.destroy_timer
    then record s { destroy_timer = false; close_calls = suc s.close_calls }
    else s

pub data EnvelopeEvent : Type 0 where
  renders : SecretSceneState → EnvelopeEvent
  clicks_copy : Option Bool → Bool → EnvelopeEvent
  clicks_destroy destroy_timer copied_timer sparks_timer : EnvelopeEvent

unfoldable pub envelope_step : EnvelopeEvent → EnvelopeState → EnvelopeState
unfolding handle_copy handle_destroy_click destroy_timer_fires
envelope_step (renders state) s = record s { state = state }
envelope_step (clicks_copy executed has_clipboard) s = handle_copy executed has_clipboard s
envelope_step clicks_destroy s = handle_destroy_click s
envelope_step destroy_timer s = destroy_timer_fires s
envelope_step copied_timer s = record s { copied = false }
envelope_step sparks_timer s = record s { sparks = 0 }

unfoldable pub envelope_run : List EnvelopeEvent → EnvelopeState → EnvelopeState
envelope_run [] s = s
envelope_run (e ∷ es) s = envelope_run es (envelope_step e s)

abbrev one_if : Bool → ℕ
one_if b = if b then 1 else 0

step-armed :
    (e : EnvelopeEvent) (s : EnvelopeState)
    → s.close_calls + one_if s.destroy_timer ≡ one_if s.destroy_armed
    → let t = envelope_step e s in t.close_calls + one_if t.destroy_timer ≡ one_if t.destroy_armed
unfolding envelope_step handle_copy handle_destroy_click destroy_timer_fires
step-armed (renders state) s h = h
step-armed (clicks_copy executed has_clipboard) s h = ground arith
step-armed clicks_destroy s h = ground arith
step-armed destroy_timer s h = ground arith
step-armed copied_timer s h = h
step-armed sparks_timer s h = h

run-armed :
    (es : List EnvelopeEvent) (s : EnvelopeState)
    → s.close_calls + one_if s.destroy_timer ≡ one_if s.destroy_armed
    → let t = envelope_run es s in t.close_calls + one_if t.destroy_timer ≡ one_if t.destroy_armed
unfolding envelope_run
run-armed [] s h = h
run-armed (e ∷ es) s h = run-armed es (envelope_step e s) (step-armed e s h)

-- However often the two buttons are pressed and whenever the timers fire, `onClose` is called at most once for an
-- envelope, and only after the destroy button was armed and its timer has fired.
pub envelope_run-once :
    (state : SecretSceneState) (es : List EnvelopeEvent)
    → let s = envelope_run es (initial_envelope state) in
      (s.close_calls ≤ 1)
      × (1 ≤ s.close_calls → (s.destroy_armed ≡ true) × (s.destroy_timer ≡ false))
envelope_run-once state es =
    let h = run-armed es (initial_envelope state) refl in (ground arith, ground arith)
