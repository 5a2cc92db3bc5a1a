-- ===== src/RevealPage/Errors.antt =====
-- `mapOpenError` and `mapFragmentKeyError` of frontend/web-app/src/pages/RevealPage.tsx.
use secret_letter.Prelude.{Option, none, some}
use secret_letter.Errors.{
  SecretApiErrorCode, secret_consumed, already_consumed, secret_expired, Thrown, secret_api_error,
  base64url_decode_error, invalid_key_material_error, dom_exception,
}
use secret_letter.Text.{Text, units}
use secret_letter.Scene.{SecretSceneState, expired, consumed, error}

-- `Pick<SceneData, "state" | "message">`
pub record Shown : Type 0 where
  pub state : SecretSceneState
  pub message : Option Text

unfoldable pub invalid_key_format_message : Text
invalid_key_format_message =
    units "Khóa giải mã trong liên kết không đúng định dạng. Hãy kiểm tra lại phần sau dấu #."

abbrev shown_error : Text → Shown
shown_error message = record { state = error; message = some message }

unfoldable pub show_api_error : SecretApiErrorCode → Text → Shown
show_api_error secret_consumed message = record { state = consumed; message = none }
show_api_error already_consumed message = record { state = consumed; message = none }
show_api_error secret_expired message = record { state = expired; message = none }
show_api_error _ message = shown_error message

unfoldable pub map_open_error : Thrown → Shown
unfolding show_api_error
map_open_error (secret_api_error e) = show_api_error e.code e.message
map_open_error (dom_exception _) =
    shown_error (units "Khóa giải mã không khớp hoặc dữ liệu đã bị hỏng.")
map_open_error base64url_decode_error =
    shown_error (units "Dữ liệu mã hóa trả về không đúng định dạng.")
map_open_error _ = shown_error (units "Không thể mở lá thư bí mật này. Hãy thử lại.")

unfoldable pub map_fragment_key_error : Thrown → Shown
map_fragment_key_error base64url_decode_error = shown_error invalid_key_format_message
map_fragment_key_error invalid_key_material_error = shown_error invalid_key_format_message
map_fragment_key_error _ = shown_error (units "Không thể đọc khóa giải mã trong liên kết.")
