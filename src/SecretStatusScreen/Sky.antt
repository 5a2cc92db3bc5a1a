-- ===== src/SecretStatusScreen/Sky.antt =====
-- The status screen in all orders of its events.
use secret_letter.Prelude.{ℕ, ◌≡◌, ◌≢◌, ◌⊎◌, [], Bool, true, false, none, arith}
use secret_letter.Scene.{SecretSceneState}
use secret_letter.SecretStatusScreen.{
  StatusState, initial_status, handle_mouse_move, frame_fires, is_quiet, stars_effect, receive,
  spawn_star, first_spawn_fires, interval_fires, cleanup_timer_fires,
}

-- New properties come at any time, but a sky that still has stars is only followed by a quiet one.
pub data SkyStep : StatusState → StatusState → Type 0 where
  moves : (s : StatusState) (position : ℕ × ℕ) → SkyStep s (handle_mouse_move position s)
  draws : (s : StatusState) → SkyStep s (frame_fires s)
  receives :
      (s : StatusState) (state : SecretSceneState) (reduced_motion : Bool)
      → (s.shooting_stars ≡ []) ⊎ (is_quiet (receive state reduced_motion s) ≡ true)
      → SkyStep s (receive state reduced_motion s)
  spawns_first : (s : StatusState) (id : ℕ) → SkyStep s (first_spawn_fires id s)
  spawns : (s : StatusState) (id : ℕ) → SkyStep s (interval_fires id s)
  sweeps : (s : StatusState) (id : ℕ) → SkyStep s (cleanup_timer_fires id s)

pub data Reach (s : StatusState) : StatusState → Type 0 where
  here : Reach s s
  next : {t u : StatusState} → Reach s t → SkyStep t u → Reach s u

pub record SkyInv (s : StatusState) : Type 0 where
  pub swept : s.shooting_stars ≡ s.timers
  pub quiet :
      is_quiet s ≡ true → (s.shooting_stars ≡ []) × (s.first_spawn ≡ false) × (s.interval ≡ false)
  pub drawn : s.pending_mouse_pos ≢ none → s.pointer_frame ≡ true

mounted-SkyInv :
    (state : SecretSceneState) (reduced_motion : Bool)
    → SkyInv (stars_effect (initial_status state reduced_motion))
unfolding stars_effect
mounted-SkyInv state reduced_motion = ground arith

step-SkyInv : {s t : StatusState} → SkyStep s t → SkyInv s → SkyInv t
unfolding handle_mouse_move frame_fires receive stars_effect first_spawn_fires interval_fires
    spawn_star cleanup_timer_fires
step-SkyInv (moves s position) h = ground arith
step-SkyInv (draws s) h = ground arith
step-SkyInv (receives s state reduced_motion c) h = ground arith
step-SkyInv (spawns_first s id) h = ground arith
step-SkyInv (spawns s id) h = ground arith
step-SkyInv (sweeps s id) h = ground arith

-- From the mounted screen on, as long as no lively status follows another one that still has stars: each star that is
-- shown, and no other, has a timer that will take it away; a loading screen, and one with reduced motion, has no stars
-- and starts none; and a position of the pointer that is not drawn yet has a frame requested for it.
pub Reach-SkyInv :
    (state : SecretSceneState) (reduced_motion : Bool) {s : StatusState}
    → Reach (stars_effect (initial_status state reduced_motion)) s
    → SkyInv s
Reach-SkyInv state reduced_motion here = mounted-SkyInv state reduced_motion
Reach-SkyInv state reduced_motion (next r step) =
    step-SkyInv step (Reach-SkyInv state reduced_motion r)
