-- ===== src/Effects.antt =====
-- What the two scripts of frontend/web-app/scripts start and stop.
use secret_letter.Prelude.{List, [], ◌∷◌, Bool, true, false, ◌||◌, ◌&&◌, not}

-- `backend` and `preview` are the commands that are spawned, `go run` and `npm run preview`; each of them runs its
-- server in a process of its own.
pub data Resource : Type 0 where
  redis backend preview browser backend_server preview_server : Resource

pub data Effect : Type 0 where
  starts stops : Resource → Effect

abbrev same_resource : Resource → Resource → Bool
same_resource redis redis = true
same_resource backend backend = true
same_resource preview preview = true
same_resource browser browser = true
same_resource backend_server backend_server = true
same_resource preview_server preview_server = true
same_resource _ _ = false

-- Whether a resource is running behind these effects, if it is running before them or not.
unfoldable pub is_live : Resource → Bool → List Effect → Bool
is_live r now [] = now
is_live r now (starts q ∷ effects) = is_live r (same_resource r q || now) effects
is_live r now (stops q ∷ effects) = is_live r (not (same_resource r q) && now) effects
