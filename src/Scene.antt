-- ===== src/Scene.antt =====
-- The states of a letter on the screen, from frontend/web-app/src/lib/types.ts, and what the page
-- keeps of it (`SceneData` of frontend/web-app/src/pages/RevealPage.tsx).
use secret_letter.Prelude.{[], Option, none}
use secret_letter.Text.{Text}

pub data SecretSceneState : Type 0 where
  loading sealed opening revealed closing burning : SecretSceneState
  vanished expired consumed error : SecretSceneState

pub record SceneData : Type 0 where
  pub state : SecretSceneState
  pub secret_content : Text
  pub expires_at : Option Text
  pub message : Option Text

abbrev pub initial_scene : SceneData
initial_scene = record { state = loading; secret_content = []; expires_at = none; message = none }
