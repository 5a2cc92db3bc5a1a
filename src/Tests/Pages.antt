-- ===== src/Tests/Pages.antt =====
-- The form, the page behind the link, and the way from one to the other.
use secret_letter.Prelude.{◌↔◌, false, ℕ, ◌≡◌, ◌≢◌, refl, List, [], ◌∷◌, true, false, none, some}
use secret_letter.Prelude.Results.{ok}
use secret_letter.Text.{
  is_space, Text, units, text_eq, trim, is_space, chars, code_point_at0, replace_all,
}
use secret_letter.Utf8.{clamp_utf8_text, utf8_byte_length_for_code_point}
use secret_letter.Http.{JsonObject, field}
use secret_letter.Base64Url.{decode_base64_url, is_base64_url_char, pad_loop}
use secret_letter.Base64Url.Platform.{atob}
use secret_letter.Crypto.{import_key_from_base64_url}
use secret_letter.Api.Fetch.{safe_fetch}
use secret_letter.Api.Requests.{
  ask, read_reply, get_secret_status, create_reveal_session, open_secret,
}
use secret_letter.Scene.{sealed, SceneData, initial_scene}
use secret_letter.RevealPage.{
  is_valid_fragment_key_format, finish_load, finish_open, opened, load_status, handle_open,
  handle_burn_complete, fetch_plaintext, scene_of_status,
}
use secret_letter.RevealPage.Lifecycle.{here, next, open_ends, burn_completes, Reach-IsDiscreet}
use secret_letter.RevealPage.Opening.{handle_open-imports, handle_open-key_unseen}
use secret_letter.RevealPage.Loading.{IsOpenable, load_status-sealed}
use secret_letter.CreateSecretForm.{FormState, initial_form, submit_disabled, handle_text_change}
use secret_letter.CreateSecretForm.Laws as FormLaws
use secret_letter.Tests.Browser.{noting, toy}

-- The link key of the toy browser: 32 bytes of value 7.
abbrev pub link_key : Text
link_key = units "BwcHBwcHBwcHBwcHBwcHBwcHBwcHBwcHBwcHBwcHBwc"

abbrev pub sevens : List ℕ
sevens =
    7 ∷ 7 ∷ 7 ∷ 7 ∷ 7 ∷ 7 ∷ 7 ∷ 7 ∷ 7 ∷ 7 ∷ 7 ∷ 7 ∷ 7 ∷ 7 ∷ 7 ∷ 7 ∷ 7 ∷ 7 ∷ 7 ∷ 7 ∷ 7 ∷ 7 ∷ 7 ∷ 7
    ∷ 7 ∷ 7 ∷ 7 ∷ 7 ∷ 7 ∷ 7 ∷ 7 ∷ 7 ∷ []

pub link_key_valid : is_valid_fragment_key_format link_key ≡ true
unfolding is_valid_fragment_key_format decode_base64_url trim is_space is_base64_url_char pad_loop
    atob replace_all
link_key_valid = refl

pub link_key_import : import_key_from_base64_url toy link_key ≡ ok sevens
unfolding import_key_from_base64_url decode_base64_url trim is_space is_base64_url_char pad_loop
    atob replace_all
link_key_import = refl

handle_open_asks : (handle_open noting none (some (units "abc")) link_key sealed []).0 ≢ []
unfolding handle_open fetch_plaintext import_key_from_base64_url decode_base64_url trim is_space
    is_base64_url_char pad_loop atob replace_all create_reveal_session open_secret ask safe_fetch
    read_reply
handle_open_asks = λ k. cc

handle_open-imports_example :
    (sealed ≡ sealed) × ((key : List ℕ) × (import_key_from_base64_url noting link_key ≡ ok key))
handle_open-imports_example =
    handle_open-imports noting none (some (units "abc")) link_key sealed [] handle_open_asks

-- The link key of 32 bytes of value 8.
abbrev other_key : Text
other_key = units "CAgICAgICAgICAgICAgICAgICAgICAgICAgICAgICAg"

abbrev pub eights : List ℕ
eights =
    8 ∷ 8 ∷ 8 ∷ 8 ∷ 8 ∷ 8 ∷ 8 ∷ 8 ∷ 8 ∷ 8 ∷ 8 ∷ 8 ∷ 8 ∷ 8 ∷ 8 ∷ 8 ∷ 8 ∷ 8 ∷ 8 ∷ 8 ∷ 8 ∷ 8 ∷ 8 ∷ 8
    ∷ 8 ∷ 8 ∷ 8 ∷ 8 ∷ 8 ∷ 8 ∷ 8 ∷ 8 ∷ []

other_key_import : import_key_from_base64_url noting other_key ≡ ok eights
unfolding import_key_from_base64_url decode_base64_url trim is_space is_base64_url_char pad_loop
    atob replace_all
other_key_import = refl

link_key_noted : import_key_from_base64_url noting link_key ≡ ok sevens
unfolding import_key_from_base64_url decode_base64_url trim is_space is_base64_url_char pad_loop
    atob replace_all
link_key_noted = refl

handle_open-key_unseen_example :
    (handle_open noting none (some (units "abc")) link_key sealed []).0
    ≡ (handle_open noting none (some (units "abc")) other_key sealed []).0
handle_open-key_unseen_example =
    handle_open-key_unseen noting none (some (units "abc")) link_key other_key sealed []
      link_key_noted other_key_import

status_sealed : (load_status toy none (some (units "abc")) link_key []).1.state ≡ sealed
unfolding load_status finish_load scene_of_status is_valid_fragment_key_format decode_base64_url
    trim is_space is_base64_url_char pad_loop atob replace_all get_secret_status ask safe_fetch
    read_reply text_eq field
status_sealed = refl

load_status-sealed_example :
    ((load_status toy none (some (units "abc")) link_key []).1.state ≡ sealed) ↔ (
      (units "abc" ≢ [])
      × (is_valid_fragment_key_format link_key ≡ true)
      × ((reply : JsonObject) × ((get_secret_status toy none (units "abc") []).1 ≡ ok reply)
          × IsOpenable reply))
load_status-sealed_example = load_status-sealed toy none (some (units "abc")) link_key []

abbrev shown_scene : SceneData
shown_scene = finish_open (opened (units "hi")) initial_scene

abbrev closed_scene : SceneData
closed_scene = handle_burn_complete shown_scene

Reach-IsDiscreet_example : closed_scene.secret_content ≡ []
unfolding handle_burn_complete
Reach-IsDiscreet_example =
    Reach-IsDiscreet closed_scene
      (next (next here (open_ends initial_scene (opened (units "hi"))))
        (burn_completes shown_scene))
      refl

-- A form in which a text was written.
abbrev pub written : FormState
written = handle_text_change (units "hi") initial_form

submit_enabled : submit_disabled written ≡ false
unfolding handle_text_change clamp_utf8_text utf8_byte_length_for_code_point chars code_point_at0
    trim is_space
submit_enabled = refl

pub written-Reach : FormLaws.Reach initial_form written
written-Reach = FormLaws.next FormLaws.here (FormLaws.types initial_form (units "hi") refl refl)

Reach-FormInv_example : FormLaws.FormInv written
Reach-FormInv_example = FormLaws.Reach-FormInv written-Reach
