-- ===== src/RevealPage/Lifecycle.antt =====
-- The scenes that the page goes through, in every order in which its handlers and the ends of its
-- asynchronous calls can come.
use secret_letter.Prelude.{◌≡◌, ◌⊎◌, refl, [], Bool, true, false, Option, some, arith}
use secret_letter.Prelude.Results.{Result, ok, throw}
use secret_letter.Errors.{Thrown}
use secret_letter.Text.{Text}
use secret_letter.Http.{JsonObject}
use secret_letter.Scene.{
  SecretSceneState, opening, revealed, closing, burning, SceneData, initial_scene,
}
use secret_letter.RevealPage.{
  missing_link_part, finish_load, OpenEnd, opened, refused, finish_open, handle_open_complete,
  handle_close, handle_burning, handle_burn_complete,
}

-- One `setScene` of the page.
pub data PageStep : SceneData → SceneData → Type 0 where
  load_begins : (s : SceneData) → PageStep s initial_scene
  load_refuses :
      (s scene : SceneData) (secret_id : Option Text) (fragment_key : Text)
      → missing_link_part secret_id fragment_key ≡ some scene
      → PageStep s scene
  load_ends : (s : SceneData) (reply : Result Thrown JsonObject) → PageStep s (finish_load reply)
  open_ends : (s : SceneData) (end : OpenEnd) → PageStep s (finish_open end s)
  open_completes : (s : SceneData) → PageStep s (handle_open_complete s)
  closes : (s : SceneData) → PageStep s (handle_close s)
  burns : (s : SceneData) → PageStep s (handle_burning s)
  burn_completes : (s : SceneData) → PageStep s (handle_burn_complete s)

pub data Reach (s : SceneData) : SceneData → Type 0 where
  here : Reach s s
  next : {t u : SceneData} → Reach s t → PageStep t u → Reach s u

-- The states in which the letter lies open on the screen.
abbrev pub shows_letter : SecretSceneState → Bool
shows_letter opening = true
shows_letter revealed = true
shows_letter closing = true
shows_letter burning = true
shows_letter _ = false

abbrev pub IsDiscreet : SceneData → Type 0
IsDiscreet s = shows_letter s.state ≡ false → s.secret_content ≡ []

refusal_empty :
    (secret_id : Option Text) (fragment_key : Text) (scene : SceneData)
    → missing_link_part secret_id fragment_key ≡ some scene
    → scene.secret_content ≡ []
refusal_empty secret_id fragment_key scene h = ground arith

load_empty : (reply : Result Thrown JsonObject) → (finish_load reply).secret_content ≡ []
unfolding finish_load
load_empty (ok status) = ground arith
load_empty (throw e) = refl

PageStep-IsDiscreet : {s t : SceneData} → PageStep s t → IsDiscreet s → IsDiscreet t
unfolding finish_open handle_open_complete handle_close handle_burning handle_burn_complete
PageStep-IsDiscreet (load_begins s) h = λ _. refl
PageStep-IsDiscreet (load_refuses s scene id key e) h = λ _. refusal_empty id key scene e
PageStep-IsDiscreet (load_ends s reply) h = λ _. load_empty reply
PageStep-IsDiscreet (open_ends s (opened plaintext)) h = λ k. cc
PageStep-IsDiscreet (open_ends s (refused shown)) h = λ _. refl
PageStep-IsDiscreet (open_completes s) h = ground arith
PageStep-IsDiscreet (closes s) h = ground arith
PageStep-IsDiscreet (burns s) h = ground arith
PageStep-IsDiscreet (burn_completes s) h = λ _. refl

-- In every scene that the page can reach, in whatever order replies, animations and clicks come,
-- the text of the letter is empty unless the letter is opening, revealed, closing or burning.
pub Reach-IsDiscreet :
    (s : SceneData) → Reach initial_scene s → shows_letter s.state ≡ false → s.secret_content ≡ []
Reach-IsDiscreet _ here = λ _. refl
Reach-IsDiscreet _ (next r step) = PageStep-IsDiscreet step (Reach-IsDiscreet _ r)

-- The only moves of the three handlers.
pub data Moves : SecretSceneState → SecretSceneState → Type 0 where
  opening_revealed : Moves opening revealed
  revealed_closing : Moves revealed closing
  closing_burning : Moves closing burning

-- Nothing happens, or the state alone moves on.
abbrev pub Moved : SceneData → SceneData → Type 0
Moved s t = (t ≡ s) ⊎ (Moves s.state t.state × (t ≡ record s { state = t.state }))

open_complete-Moved : (s : SceneData) → Moved s (handle_open_complete s)
unfolding handle_open_complete
open_complete-Moved s = grind (arith, opening_revealed)

close-Moved : (s : SceneData) → Moved s (handle_close s)
unfolding handle_close
close-Moved s = grind (arith, revealed_closing)

burning-Moved : (s : SceneData) → Moved s (handle_burning s)
unfolding handle_burning
burning-Moved s = grind (arith, closing_burning)

-- Each of the handlers for the end of the opening, the close button and the start of the burning
-- leaves the scene as it is, or moves its state alone along opening, revealed, closing, burning.
pub handlers-Moved :
    (s : SceneData)
    → Moved s (handle_open_complete s) × Moved s (handle_close s) × Moved s (handle_burning s)
handlers-Moved s = (open_complete-Moved s, close-Moved s, burning-Moved s)
