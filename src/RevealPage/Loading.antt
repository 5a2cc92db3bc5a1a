-- ===== src/RevealPage/Loading.antt =====
-- When the page shows a sealed letter.
use secret_letter.Prelude.{
  ◌↔◌, ◌≡◌, ◌≢◌, ◌⊎◌, inl, inr, refl, true, Option, none, some, arith, Bool-cases, Option-cases, [],
  ◌∷◌,
}
use secret_letter.Prelude.Results.{Result, ok, throw}
use secret_letter.Errors.{Thrown}
use secret_letter.Base64Url.{decode_base64_url}
use secret_letter.Text.{trim, Text, units, text_eq}
use secret_letter.Text.Equality.{text_eq→eq}
use secret_letter.Http.{JsonObject, field}
use secret_letter.Platform.{Platform}
use secret_letter.Api.Requests.{get_secret_status}
use secret_letter.Scene.{sealed, SceneData}
use secret_letter.RevealPage.{
  text_of, is_valid_fragment_key_format, missing_link_part, scene_of_status, finish_load,
  load_status,
}

abbrev pub IsOpenable : JsonObject → Type 0
IsOpenable reply =
    (text_of (field "status" reply) ≡ units "active")
    ⊎ (text_of (field "status" reply) ≡ units "pending")

scene_of_status-sealed :
    (reply : JsonObject) → (scene_of_status reply).state ≡ sealed → IsOpenable reply
unfolding scene_of_status
scene_of_status-sealed reply h =
    elim (Bool-cases (text_eq (text_of (field "status" reply)) (units "active"))) [
      | inl e ↦ inl (text_eq→eq _ _ e)
      | inr e ↦ elim (Bool-cases (text_eq (text_of (field "status" reply)) (units "pending"))) [
        | inl f ↦ inr (text_eq→eq _ _ f)
        | inr f ↦ ground arith
      ]
    ]

finish_load-sealed :
    (reply : Result Thrown JsonObject)
    → (finish_load reply).state ≡ sealed
    → (status : JsonObject) × (reply ≡ ok status) × IsOpenable status
unfolding finish_load
finish_load-sealed (ok status) h = (status, refl, scene_of_status-sealed status h)
finish_load-sealed (throw e) h = cc

missing-unsealed :
    (secret_id : Option Text) (fragment_key : Text) (scene : SceneData)
    → missing_link_part secret_id fragment_key ≡ some scene
    → scene.state ≢ sealed
missing-unsealed secret_id fragment_key scene h = ground arith

complete_parts :
    (secret_id : Option Text) (fragment_key : Text)
    → missing_link_part secret_id fragment_key ≡ none
    → (text_of secret_id ≢ []) × (is_valid_fragment_key_format fragment_key ≡ true)
complete_parts none fragment_key h = cc
complete_parts (some []) fragment_key h = cc
complete_parts (some (c ∷ s)) fragment_key h = ((λ e. cc), ground arith)

pub whole_link :
    (secret_id : Option Text) (fragment_key : Text)
    → text_of secret_id ≢ []
    → is_valid_fragment_key_format fragment_key ≡ true
    → missing_link_part secret_id fragment_key ≡ none
unfolding is_valid_fragment_key_format decode_base64_url trim
whole_link none fragment_key full valid = absurd (full refl)
whole_link (some []) fragment_key full valid = absurd (full refl)
whole_link (some (c ∷ id)) [] full valid = cc
whole_link (some (c ∷ id)) (d ∷ key) full valid = rw valid refl

openable-sealed : (reply : JsonObject) → IsOpenable reply → (finish_load (ok reply)).state ≡ sealed
unfolding finish_load scene_of_status text_eq
openable-sealed reply (inl e) = rw e refl
openable-sealed reply (inr e) = rw e refl

sealed_only :
    (p : Platform) (env : Option Text) (secret_id : Option Text) (fragment_key : Text) (w : p.World)
    → (load_status p env secret_id fragment_key w).1.state ≡ sealed
    → (text_of secret_id ≢ [])
      × (is_valid_fragment_key_format fragment_key ≡ true)
      × ((reply : JsonObject) × ((get_secret_status p env (text_of secret_id) w).1 ≡ ok reply)
          × IsOpenable reply)
unfolding load_status
sealed_only p env secret_id fragment_key w h =
    elim (Option-cases (missing_link_part secret_id fragment_key)) [
      | inl e ↦
          let (id, key) = complete_parts secret_id fragment_key e in
          (id, key, finish_load-sealed _ (rw (e, load_status) at h))
      | inr (scene, e) ↦
          absurd (missing-unsealed secret_id fragment_key scene e (rw (e, load_status) at h))
    ]

-- The letter is shown sealed exactly if the link has an id and a key of the right format, and the
-- server answered that the letter is active or pending.
pub load_status-sealed :
    (p : Platform) (env : Option Text) (secret_id : Option Text) (fragment_key : Text) (w : p.World)
    → ((load_status p env secret_id fragment_key w).1.state ≡ sealed) ↔ (
        (text_of secret_id ≢ [])
        × (is_valid_fragment_key_format fragment_key ≡ true)
        × ((reply : JsonObject) × ((get_secret_status p env (text_of secret_id) w).1 ≡ ok reply)
            × IsOpenable reply))
unfolding load_status
load_status-sealed p env secret_id fragment_key w = (
  sealed_only p env secret_id fragment_key w,
  λ h.
      let (full, valid, answer) = h in
      let (reply, answered, openable) = answer in
      rw (whole_link secret_id fragment_key full valid, load_status)
        (rw answered (openable-sealed reply openable)),
)
