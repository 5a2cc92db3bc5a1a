-- ===== src/SecretStatusScreen.antt =====
-- frontend/web-app/src/components/secret-letter/SecretStatusScreen.tsx: the spotlight that follows the pointer, and
-- the shooting stars with their timers. A position is a pair of hundredths, and a star is its id.
pub mod Sky
use secret_letter.Prelude.{
  ℕ, ◌*◌, ◌/◌, ◌-◌, List, [], ◌∷◌, ◌++◌, Bool, true, false, ◌||◌, not, ◌==◌, Option, none, some,
  if◌then◌else◌,
}
use secret_letter.Scene.{SecretSceneState, loading}

-- `pointer_frame` is whether `pointerFrameRef` holds a frame that is requested. `timers` are the pending timers of
-- `cleanupTimers`, each with the id of its star; `first_spawn` and `interval` are the two of the effect.
pub record StatusState : Type 0 where
  pub state : SecretSceneState
  pub reduced_motion : Bool
  pub mouse_pos : ℕ × ℕ
  pub pending_mouse_pos : Option (ℕ × ℕ)
  pub pointer_frame : Bool
  pub shooting_stars : List ℕ
  pub timers : List ℕ
  pub first_spawn : Bool
  pub interval : Bool

-- Before the effects of the first rendering.
abbrev pub initial_status : SecretSceneState → Bool → StatusState
initial_status state reduced_motion = record {
  state = state;
  reduced_motion = reduced_motion;
  mouse_pos = (50, 50);
  pending_mouse_pos = none;
  pointer_frame = false;
  shooting_stars = [];
  timers = [];
  first_spawn = false;
  interval = false;
}

-- `handleMouseMove`, from the position within the element.
unfoldable pub handle_mouse_move : ℕ × ℕ → StatusState → StatusState
handle_mouse_move position s =
    if s.reduced_motion
    then s
    else record s { pending_mouse_pos = some position; pointer_frame = true }

-- The callback of the frame, if one is requested.
unfoldable pub frame_fires : StatusState → StatusState
frame_fires s = if not s.pointer_frame then s else elim s.pending_mouse_pos [
  | none ↦ record s { pointer_frame = false }
  | some position ↦ record s {
    pointer_frame = false;
    mouse_pos = position;
    pending_mouse_pos = none;
  }
]

abbrev is_loading : SecretSceneState → Bool
is_loading loading = true
is_loading _ = false

abbrev pub is_quiet : StatusState → Bool
is_quiet s = is_loading s.state || s.reduced_motion

-- The cleanup of the effect.
abbrev pub cleared : StatusState → StatusState
cleared s = record s { timers = []; first_spawn = false; interval = false }

-- The effect of the stars.
unfoldable pub stars_effect : StatusState → StatusState
stars_effect s =
    if is_quiet s
    then record s { shooting_stars = [] }
    else record s { first_spawn = true; interval = true }

-- New properties: the old effect is cleaned up, and the new one runs.
unfoldable pub receive : SecretSceneState → Bool → StatusState → StatusState
unfolding stars_effect
receive state reduced_motion s =
    stars_effect (record (cleared s) { state = state; reduced_motion = reduced_motion })

-- `spawnStar`, with the id that is drawn.
unfoldable pub spawn_star : ℕ → StatusState → StatusState
spawn_star id s = record s {
  shooting_stars = s.shooting_stars ++ id ∷ [];
  timers = s.timers ++ id ∷ [];
}

-- Its two callers, while their timers are set.
unfoldable pub first_spawn_fires : ℕ → StatusState → StatusState
unfolding spawn_star
first_spawn_fires id s =
    if s.first_spawn then spawn_star id (record s { first_spawn = false }) else s

unfoldable pub interval_fires : ℕ → StatusState → StatusState
unfolding spawn_star
interval_fires id s = if s.interval then spawn_star id s else s

-- `currentStars.filter((star) => star.id !== id)`
abbrev pub without : ℕ → List ℕ → List ℕ
without id [] = []
without id (x ∷ xs) = let rest = without id xs in if x == id then rest else x ∷ rest

abbrev pub mem : ℕ → List ℕ → Bool
mem id [] = false
mem id (x ∷ xs) = x == id || mem id xs

-- The callback of a star's timer. Ids are taken to be different, so no other timer has this id.
unfoldable pub cleanup_timer_fires : ℕ → StatusState → StatusState
cleanup_timer_fires id s =
    if mem id s.timers
    then record s { shooting_stars = without id s.shooting_stars; timers = without id s.timers }
    else s
