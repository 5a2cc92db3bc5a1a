-- ===== src/Tests/Sky.antt =====
-- The status screen of a letter that was opened before, and the QR code of a link.
use secret_letter.Prelude.{ℕ, ◌≡◌, ◌≢◌, ◌⊎◌, refl, List, [], ◌∷◌, ◌++◌, true, false, none, some}
use secret_letter.Scene.{consumed, expired}
use secret_letter.Text.{Text, units, text_eq}
use secret_letter.CreateSecretForm.Qr.{
  QrState, initial_qr, qr_effect, module_loads, handle_qr_pointer_down,
  handle_qr_pointer_up_or_leave, qr_timer_fires, copy_secret_link_from_keyboard,
}
use secret_letter.CreateSecretForm.Qr.Steps as Qr
use secret_letter.CreateSecretForm.Qr.Laws.{Reach-qr}
use secret_letter.SecretStatusScreen.{
  StatusState, initial_status, stars_effect, handle_mouse_move, frame_fires, first_spawn_fires,
  interval_fires, cleanup_timer_fires, receive, spawn_star,
}
use secret_letter.SecretStatusScreen.Sky.{
  here, next, moves, spawns_first, spawns, sweeps, SkyInv, Reach-SkyInv,
}

abbrev mounted : StatusState
mounted = stars_effect (initial_status consumed false)

-- Two stars, of which one is gone, and the pointer moved.
abbrev starry : StatusState
starry =
    handle_mouse_move (10, 20)
      (cleanup_timer_fires 1 (interval_fires 2 (first_spawn_fires 1 mounted)))

starry_stars : (starry.shooting_stars ≡ 2 ∷ []) × (starry.timers ≡ 2 ∷ [])
unfolding stars_effect handle_mouse_move cleanup_timer_fires interval_fires first_spawn_fires
    spawn_star
starry_stars = (refl, refl)

Reach-SkyInv_example : SkyInv starry
Reach-SkyInv_example = Reach-SkyInv consumed false (
    next
      (next (next (next here (spawns_first mounted 1)) (spawns (first_spawn_fires 1 mounted) 2))
        (sweeps (interval_fires 2 (first_spawn_fires 1 mounted)) 1))
      (moves (cleanup_timer_fires 1 (interval_fires 2 (first_spawn_fires 1 mounted))) (10, 20)))

-- Another lively status at once: the star stays, and nothing takes it away.
starry_then_expired :
    ((receive expired false starry).shooting_stars ≡ 2 ∷ [])
    × ((receive expired false starry).timers ≡ [])
unfolding receive stars_effect handle_mouse_move cleanup_timer_fires interval_fires
    first_spawn_fires spawn_star
starry_then_expired = (refl, refl)

starry_drawn : (frame_fires starry).mouse_pos ≡ (10, 20)
unfolding frame_fires stars_effect handle_mouse_move cleanup_timer_fires interval_fires
    first_spawn_fires spawn_star
starry_drawn = refl

-- The QR code of a link is asked for.
abbrev asked : QrState
asked = qr_effect (units "ab") true true true initial_qr

asked_drawn : (module_loads 0 (units "ab") asked).canvas ≡ some (units "ab")
unfolding module_loads qr_effect
asked_drawn = refl

-- The QR code is hidden before the module is there.
hidden_undrawn :
    (module_loads 0 (units "ab") (qr_effect (units "ab") false true true asked)).canvas ≡ none
unfolding module_loads qr_effect
hidden_undrawn = refl

-- Two fingers: the timer of the first is still pending when both are lifted.
two_presses :
    (handle_qr_pointer_up_or_leave (
      handle_qr_pointer_up_or_leave (handle_qr_pointer_down (handle_qr_pointer_down asked)))).timers
    ≡ 0 ∷ []
unfolding handle_qr_pointer_up_or_leave handle_qr_pointer_down qr_effect
two_presses = refl

Reach-qr_example :
    ((before after : List (ℕ × Text)) (id : ℕ) (link : Text)
      → asked.loads ≡ before ++ (id, link) ∷ after
      → ((module_loads id link asked).canvas ≡ asked.canvas)
        ⊎ (((module_loads id link asked).canvas ≡ some asked.secret_link)
            × (asked.show_qr ≡ true)
            × (asked.secret_link ≢ [])))
    × ((handle_qr_pointer_up_or_leave asked).timers ≡ [])
    × (asked.press_timer ≡ none → (timer : ℕ) → qr_timer_fires timer asked ≡ asked)
Reach-qr_example = Reach-qr (Qr.next Qr.here (Qr.renders initial_qr (units "ab") true true true))

keys_that_copy :
    (copy_secret_link_from_keyboard (units "Enter") ≡ true)
    × (copy_secret_link_from_keyboard (units "Tab") ≡ false)
unfolding copy_secret_link_from_keyboard text_eq
keys_that_copy = (refl, refl)
