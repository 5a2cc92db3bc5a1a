-- ===== src/Tests/Scenes.antt =====
-- The scene, the envelope and the hooks, on concrete events.
use secret_letter.Prelude.{List, ℕ, ◌≡◌, ◌≤◌, ◌⊎◌, refl, [], ◌∷◌, true, false, none, some}
use secret_letter.Text.{units}
use secret_letter.Scene.{sealed, revealed, error, loading}
use secret_letter.SecretEnvelopeScene.{
  get_status_data, is_envelope_state, initial_opening, seals, accepts, calls_on_open,
  handle_envelope_key_down, handle_envelope_pointer_end, tween_completes,
  handle_envelope_pointer_down, handle_consent_accept, receive_state,
}
use secret_letter.SecretEnvelopeScene.Opening as Opening
use secret_letter.SecretEnvelopeScene.Opening.{
  OpeningEvent, opening_run, opens_since_sealed, opens_granted, opening_run-once,
  opening_run-granted,
}
use secret_letter.SecretEnvelopeScene.Status.{
  StatusView, enter, status_effect, status_timer_fires, screen, status_screen, envelope,
}
use secret_letter.SecretEnvelopeScene.Status.Settling.{screen_settles}
use secret_letter.Envelope as Envelope
use secret_letter.Envelope.{envelope_run, initial_envelope, envelope_run-once}
use secret_letter.TactilePress.{
  presses, initial_press, press_run, clear_press, has_pointer_capture, press_run-released,
}

-- The letter is sealed, the warning is accepted, and the reader holds until the ring is full.
abbrev held_open : List OpeningEvent
held_open =
    Opening.renders false true
    ∷ Opening.receives sealed
    ∷ Opening.accepts_warning
    ∷ Opening.pointer_down
    ∷ Opening.tween_ends
    ∷ Opening.pointer_end
    ∷ Opening.key_down true
    ∷ []

held_open_once : opens_since_sealed (opening_run held_open initial_opening).log ≡ 1
unfolding opening_run opens_since_sealed Opening.opening_step handle_envelope_key_down
    handle_envelope_pointer_end tween_completes handle_envelope_pointer_down handle_consent_accept
    receive_state
held_open_once = refl

-- A ring that fills while the letter becomes sealed anew opens without a new consent.
held_over :
    (opening_run
      (Opening.renders false true
        ∷ Opening.receives sealed
        ∷ Opening.accepts_warning
        ∷ Opening.pointer_down
        ∷ Opening.receives loading
        ∷ Opening.receives sealed
        ∷ Opening.tween_ends
        ∷ [])
      initial_opening).log
    ≡ calls_on_open ∷ seals true ∷ accepts ∷ seals false ∷ []
unfolding opening_run opens_since_sealed Opening.opening_step handle_envelope_key_down
    handle_envelope_pointer_end tween_completes handle_envelope_pointer_down handle_consent_accept
    receive_state
held_over = refl

opening_run-once_example : opens_since_sealed (opening_run held_open initial_opening).log ≤ 1
opening_run-once_example = opening_run-once held_open

opening_run-granted_example : opens_granted (opening_run held_open initial_opening).log ≡ true
opening_run-granted_example = opening_run-granted held_open

-- A loading screen is on, and the state is now an error.
abbrev failing : StatusView
failing = record {
  current = get_status_data error (some (units "oh"));
  visible = get_status_data loading none;
  transition = enter;
  timer = none;
}

abbrev settled : StatusView
settled = status_effect (status_timer_fires (status_effect failing))

screen_settles_example :
    (((is_envelope_state error ≡ true) × (screen error settled ≡ envelope))
      ⊎ ((is_envelope_state error ≡ false)
          × (screen error settled
              ≡ status_screen (record { state = error; message = some (units "oh") }) enter)))
    × (settled.timer ≡ none)
screen_settles_example = screen_settles error (some (units "oh")) failing refl

abbrev destroyed : Envelope.EnvelopeState
destroyed =
    envelope_run (Envelope.clicks_destroy ∷ Envelope.clicks_destroy ∷ Envelope.destroy_timer ∷ [])
      (initial_envelope revealed)

destroyed_once : destroyed.close_calls ≡ 1
unfolding envelope_run Envelope.envelope_step
destroyed_once = refl

envelope_run-once_example :
    (destroyed.close_calls ≤ 1)
    × (1 ≤ destroyed.close_calls
        → (destroyed.destroy_armed ≡ true) × (destroyed.destroy_timer ≡ false))
envelope_run-once_example =
    envelope_run-once revealed
      (Envelope.clicks_destroy ∷ Envelope.clicks_destroy ∷ Envelope.destroy_timer ∷ [])

press_run-released_example :
    let s = press_run (presses 0 4 ∷ []) initial_press in
    (s.disabled ≡ true → s.is_pressing ≡ false)
    × (s.pointer_id ≡ none → s.is_pressing ≡ false)
    × ((id : ℕ)
        → s.pointer_id ≡ some id
        → (s.is_pressing ≡ true)
          × ((clear_press s).is_pressing ≡ false)
          × (has_pointer_capture id (clear_press s).captured ≡ false))
press_run-released_example = press_run-released (presses 0 4 ∷ [])
