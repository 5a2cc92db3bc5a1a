-- ===== src/RevealPage.antt =====
-- frontend/web-app/src/pages/RevealPage.tsx: the page behind a secret link. An asynchronous handler is
-- split where it awaits: what it does before, and the `setScene` with which it ends.
pub mod Errors
pub mod Lifecycle
pub mod Opening
pub mod Loading
pub mod Refusals
use secret_letter.Prelude.{
  ℕ, List, [], ◌∷◌, Bool, true, false, ◌||◌, ◌&&◌, not, ◌==◌, Option, none, some, if◌then◌else◌,
  is_empty, length,
}
use secret_letter.Prelude.Results
use secret_letter.Prelude.Results.{Result, ok, throw}
use secret_letter.Errors.{Thrown, error_message, plain_error}
use secret_letter.Text.{Text, units, text_eq}
use secret_letter.Http.{JsonObject, field}
use secret_letter.Base64Url.{decode_base64_url}
use secret_letter.Crypto.{import_key_from_base64_url, decrypt_secret}
use secret_letter.Platform.{Platform, Action, ◌>>=◌, lift}
use secret_letter.Api.Requests.{get_secret_status, create_reveal_session, open_secret}
use secret_letter.Scene.{
  SecretSceneState, loading, sealed, opening, revealed, closing, burning, vanished, expired,
  consumed, error, SceneData, initial_scene,
}
use secret_letter.RevealPage.Errors.{
  Shown, map_open_error, map_fragment_key_error, invalid_key_format_message,
}

-- A field that the code reads as a string; `undefined` is false and is not equal to any text.
abbrev pub text_of : Option Text → Text
text_of none = []
text_of (some s) = s

unfoldable pub is_valid_fragment_key_format : Text → Bool
is_valid_fragment_key_format fragment_key = elim (decode_base64_url fragment_key) [
  | ok key_bytes ↦ length key_bytes == 32
  | throw _ ↦ false
]

abbrev pub scene_error : Text → SceneData
scene_error message = record {
  state = error;
  secret_content = [];
  expires_at = none;
  message = some message;
}

abbrev pub scene_at : SecretSceneState → Option Text → SceneData
scene_at state expires_at = record {
  state = state;
  secret_content = [];
  expires_at = expires_at;
  message = none;
}

-- The scene that a reply of the status endpoint gives.
unfoldable pub scene_of_status : JsonObject → SceneData
scene_of_status status =
    let is = λ (s : Text). text_eq (text_of (field "status" status)) s in
    let expires_at = field "expiresAt" status in
    if is (units "active") || is (units "pending")
    then scene_at sealed expires_at
    else if is (units "consumed")
    then scene_at consumed expires_at
    else if is (units "expired")
    then scene_at expired expires_at
    else scene_error (units "Không tìm thấy lá thư bí mật nào ở đây.")

-- The end of `loadStatus`, behind its `await`.
unfoldable pub finish_load : Result Thrown JsonObject → SceneData
unfolding scene_of_status
finish_load (ok status) = scene_of_status status
finish_load (throw e) =
    scene_error (error_message e (units "Không thể mở lá thư bí mật này. Hãy thử lại."))

-- `secretId` is `undefined` where the route has none, and an empty text counts as missing too.
abbrev pub missing_link_part : Option Text → Text → Option SceneData
missing_link_part secret_id fragment_key =
    if is_empty (text_of secret_id)
    then some (scene_error (units "Liên kết không hợp lệ. Thiếu mã lá thư."))
    else if is_empty fragment_key
    then some (scene_error (units "Liên kết không hợp lệ. Thiếu khóa giải mã."))
    else if is_valid_fragment_key_format fragment_key
    then none
    else some (scene_error invalid_key_format_message)

-- `handleOpen` ends by one of two kinds of `setScene`.
pub data OpenEnd : Type 0 where
  opened : Text → OpenEnd
  refused : Shown → OpenEnd

unfoldable pub finish_open : OpenEnd → SceneData → SceneData
finish_open (opened plaintext) current = record current {
  state = opening;
  secret_content = plaintext;
}
finish_open (refused shown) current = record {
  state = shown.state;
  secret_content = [];
  expires_at = none;
  message = shown.message;
}

abbrev pub is_sealed : SecretSceneState → Bool
is_sealed sealed = true
is_sealed _ = false

module _ (p : Platform) (env : Option Text) where
  -- `loadStatus`: the scene that it ends with. It shows `initialScene` while it waits.
  unfoldable pub load_status : Option Text → Text → p.World → p.World × SceneData
  unfolding finish_load
  load_status secret_id fragment_key w = elim (missing_link_part secret_id fragment_key) [
    | some scene ↦ (w, scene)
    | none ↦
        let (w', reply) = get_secret_status p env (text_of secret_id) w in (w', finish_load reply)
  ]

  -- The decoding of the payload, once it is there.
  unfoldable pub decrypt_payload : p.Key → JsonObject → Result Thrown Text
  decrypt_payload key response =
      let ciphertext = text_of (field "ciphertext" response) in
      let nonce = text_of (field "nonce" response) in
      if is_empty ciphertext || is_empty nonce
      then throw (plain_error (units "Secret payload is missing."))
      else Results.◌>>=◌ (decode_base64_url ciphertext)
          (λ c. Results.◌>>=◌ (decode_base64_url nonce) (λ n. decrypt_secret p c key n))

  -- The second `try` of `handleOpen`. A session without an id counts as no session.
  unfoldable pub open_payload : Text → p.Key → JsonObject → Action p.World Text
  open_payload secret_id key reveal_session = do
    response ← open_secret p env secret_id (field "sessionId" reveal_session)
    lift (decrypt_payload key response)

  unfoldable pub fetch_plaintext : Text → p.Key → Action p.World Text
  unfolding open_payload
  fetch_plaintext secret_id key = do
    reveal_session ← create_reveal_session p env secret_id
    open_payload secret_id key reveal_session

  abbrev pub open_end : Result Thrown Text → OpenEnd
  open_end (ok plaintext) = opened plaintext
  open_end (throw e) = refused (map_open_error e)

  -- `handleOpen`; `none` means that it returned at once and set no scene.
  unfoldable pub handle_open :
      Option Text → Text → SecretSceneState → p.World → p.World × Option OpenEnd
  unfolding fetch_plaintext
  handle_open secret_id fragment_key state w =
      if is_empty (text_of secret_id) || is_empty fragment_key || not (is_sealed state)
      then (w, none)
      else elim (import_key_from_base64_url p fragment_key) [
        | throw e ↦ (w, some (refused (map_fragment_key_error e)))
        | ok key ↦
            let (w', plaintext) = fetch_plaintext (text_of secret_id) key w in
            (w', some (open_end plaintext))
      ]

unfoldable pub handle_open_complete : SceneData → SceneData
handle_open_complete current = elim current.state [
  | opening ↦ record current { state = revealed }
  | _ ↦ current
]

unfoldable pub handle_close : SceneData → SceneData
handle_close current = elim current.state [
  | revealed ↦ record current { state = closing }
  | _ ↦ current
]

unfoldable pub handle_burning : SceneData → SceneData
handle_burning current = elim current.state [
  | closing ↦ record current { state = burning }
  | _ ↦ current
]

unfoldable pub handle_burn_complete : SceneData → SceneData
handle_burn_complete current = scene_at vanished none
