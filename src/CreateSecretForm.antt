-- ===== src/CreateSecretForm.antt =====
-- frontend/web-app/src/components/CreateSecretForm.tsx: the state of the form and its handlers.
-- `handleSubmit` is split where it awaits (`Link` makes the link), and a timer's callback is a
-- handler of its own.
pub mod Link
pub mod Laws
pub mod Presence
pub mod Display
pub mod Qr
use Prim.Native.String.{String}
use secret_letter.Prelude.{
  ℕ, zero, suc, ◌+◌, ◌*◌, ◌/◌, List, [], ◌∷◌, ◌++◌, Bool, true, false, not, ◌||◌, ◌&&◌, leb, ltb,
  ◌==◌, Option, none, some, if◌then◌else◌, is_empty,
}
use secret_letter.Prelude.Results.{Result, ok, throw}
use secret_letter.Errors.{Thrown, error_message}
use secret_letter.Text.{Text, units, trim, decimal}
use secret_letter.Utf8.{clamp_utf8_text}

abbrev pub ttl_options : List ℕ
ttl_options = 3600 ∷ 86400 ∷ 604800 ∷ []

abbrev pub max_plaintext_size : ℕ
max_plaintext_size = 10 * 1024

pub data CopyStatus : Type 0 where
  idle copied failed : CopyStatus

-- `form_timer` holds the link that the callback of the pending timer will set.
pub record FormState : Type 0 where
  pub plaintext : Text
  pub plaintext_bytes : ℕ
  pub ttl : ℕ
  pub loading : Bool
  pub error : Text
  pub secret_link : Text
  pub copy_status : CopyStatus
  pub share_feedback : Text
  pub show_qr : Bool
  pub show_share_menu : Bool
  pub is_form_exiting : Bool
  pub is_result_exiting : Bool
  pub form_timer : Option Text
  pub result_timer : Bool

abbrev pub initial_form : FormState
initial_form = record {
  plaintext = [];
  plaintext_bytes = 0;
  ttl = 3600;
  loading = false;
  error = [];
  secret_link = [];
  copy_status = idle;
  share_feedback = [];
  show_qr = false;
  show_share_menu = false;
  is_form_exiting = false;
  is_result_exiting = false;
  form_timer = none;
  result_timer = false;
}

-- `disabled` of the text area and of the buttons for the time limit.
abbrev pub inputs_disabled : FormState → Bool
inputs_disabled s = s.loading || s.is_form_exiting

-- `disabled` of the submit button.
abbrev pub submit_disabled : FormState → Bool
submit_disabled s = s.loading || s.is_form_exiting || is_empty (trim s.plaintext)

unfoldable pub handle_text_change : Text → FormState → FormState
handle_text_change value s =
    let next_value = clamp_utf8_text value max_plaintext_size in
    record s { plaintext = next_value.text; plaintext_bytes = next_value.byte_length }

unfoldable pub set_ttl : ℕ → FormState → FormState
set_ttl value s = record s { ttl = value }

-- `handleSubmit` up to its `try`: whether it goes on.
unfoldable pub submit_begins : FormState → FormState × Bool
submit_begins s =
    let s' = record s { error = []; secret_link = []; copy_status = idle } in
    if ltb max_plaintext_size s.plaintext_bytes
    then (
      record s' {
        error =
            units "Nội dung vượt quá giới hạn "
            ++ decimal (max_plaintext_size / 1024)
            ++ units "KB";
      },
      false,
    )
    else if is_empty (trim s.plaintext)
    then (record s' { error = units "Vui lòng nhập nội dung bí mật" }, false)
    else (record s' { loading = true }, true)

-- The end of `handleSubmit`, its `finally` included.
unfoldable pub submit_ends : Result Thrown Text → FormState → FormState
submit_ends (ok link) s = record s {
  is_form_exiting = true;
  form_timer = some link;
  loading = false;
}
submit_ends (throw e) s = record s {
  error = error_message e (units "Không thể tạo liên kết bí mật");
  loading = false;
}

-- The callback after 150 ms.
unfoldable pub form_timer_fires : FormState → FormState
form_timer_fires s = elim s.form_timer [
  | none ↦ s
  | some link ↦ record s {
    form_timer = none;
    secret_link = link;
    plaintext = [];
    plaintext_bytes = 0;
    is_form_exiting = false;
  }
]

unfoldable pub close_share_menu : FormState → FormState
close_share_menu s = record s { show_share_menu = false; share_feedback = [] }

unfoldable pub open_share_menu : FormState → FormState
open_share_menu s = record s { share_feedback = []; show_share_menu = true }

unfoldable pub reset_to_compose : FormState → FormState
reset_to_compose s =
    if s.is_result_exiting then s else record s { is_result_exiting = true; result_timer = true }

-- The callback after 160 ms.
unfoldable pub result_timer_fires : FormState → FormState
unfolding close_share_menu
result_timer_fires s =
    if s.result_timer
    then record (close_share_menu (record s {
      result_timer = false;
      secret_link = [];
      plaintext = [];
      plaintext_bytes = 0;
      copy_status = idle;
      show_qr = false;
    })) { is_result_exiting = false }
    else s

-- `copyToClipboard` once the clipboard has answered; `shareMessage` is the toast of the share menu.
unfoldable pub copy_ends : Bool → Option Text → FormState → FormState
copy_ends success none s = record s { copy_status = if success then copied else failed }
copy_ends success (some message) s =
    if success
    then record s {
      copy_status = copied;
      share_feedback = if is_empty message then s.share_feedback else message;
    }
    else record s {
      copy_status = failed;
      share_feedback =
          if is_empty message then s.share_feedback else units "Không thể sao chép liên kết này.";
    }

-- `copySharePart`; the clipboard is not asked for an empty value.
unfoldable pub copy_share_part : Text → Text → Bool → FormState → FormState
copy_share_part value success_message success s =
    if is_empty value
    then record s { share_feedback = units "Thiếu dữ liệu chia sẻ để sao chép." }
    else if success
    then record s { share_feedback = success_message }
    else record s { share_feedback = units "Không thể sao chép mục chia sẻ này." }

-- The callback of `setTransientShareFeedback`, after 2200 ms.
unfoldable pub feedback_timer_fires : FormState → FormState
feedback_timer_fires s = record s { share_feedback = [] }

-- The callback of `copyToClipboard`, after 1500 or 2000 ms.
unfoldable pub copy_timer_fires : FormState → FormState
copy_timer_fires s = record s { copy_status = idle }

unfoldable pub set_show_qr : Bool → FormState → FormState
set_show_qr value s = record s { show_qr = value }

-- The colour of the progress bar, from `bytePercentage`, which is a hundredth of a multiple of the
-- limit: the comparisons are those of the source, multiplied out.
pub data BarColor : Type 0 where
  green amber red : BarColor

unfoldable pub progress_bar_color : ℕ → BarColor
progress_bar_color plaintext_bytes =
    if leb (90 * max_plaintext_size) (plaintext_bytes * 100)
    then red
    else if leb (60 * max_plaintext_size) (plaintext_bytes * 100)
    then amber
    else green

-- `Math.max(0, TTL_OPTIONS.findIndex(...))`
find_index : ℕ → List ℕ → Option ℕ
find_index value [] = none
find_index value (option ∷ options) =
    if option == value
    then some 0
    else elim (find_index value options) [ none ↦ none | some i ↦ some (suc i) ]

unfoldable pub selected_ttl_index : ℕ → ℕ
unfolding find_index
selected_ttl_index ttl = elim (find_index ttl ttl_options) [ none ↦ 0 | some i ↦ i ]
