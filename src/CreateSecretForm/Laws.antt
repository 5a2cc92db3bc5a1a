-- ===== src/CreateSecretForm/Laws.antt =====
-- The form between two events, whatever the user, the timers and the server do.
use secret_letter.Prelude.{◌≡◌, ◌≢◌, ◌≤◌, ◌⊎◌, refl, ℕ, [], Bool, true, false, Option, none, arith}
use secret_letter.Prelude.Results.{Result, ok, throw}
use secret_letter.Errors.{Thrown}
use secret_letter.Text.{chars, Text}
use secret_letter.Utf8.{get_utf8_byte_length}
use secret_letter.Utf8.Laws.{clamp_utf8_text_bounds}
use secret_letter.CreateSecretForm.{
  idle, FormState, initial_form, max_plaintext_size, inputs_disabled, submit_disabled,
  handle_text_change, set_ttl, submit_begins, submit_ends, form_timer_fires, reset_to_compose,
  result_timer_fires, open_share_menu, close_share_menu, copy_ends, copy_share_part,
  feedback_timer_fires, copy_timer_fires, set_show_qr,
}

abbrev pub IsTtl : ℕ → Type 0
IsTtl t = (t ≡ 3600) ⊎ ((t ≡ 86400) ⊎ (t ≡ 604800))

-- The form is on the screen while there is no link, and the result while there is one. An event comes only
-- from a control that is shown and not disabled; the end of a submission only while one runs.
pub data FormStep : FormState → FormState → Type 0 where
  types :
      (s : FormState) (value : Text)
      → s.secret_link ≡ []
      → inputs_disabled s ≡ false
      → FormStep s (handle_text_change value s)
  chooses :
      (s : FormState) (value : ℕ)
      → s.secret_link ≡ []
      → inputs_disabled s ≡ false
      → IsTtl value
      → FormStep s (set_ttl value s)
  submits :
      (s : FormState)
      → s.secret_link ≡ []
      → submit_disabled s ≡ false
      → FormStep s (submit_begins s).0
  answers :
      (s : FormState) (result : Result Thrown Text)
      → s.loading ≡ true
      → FormStep s (submit_ends result s)
  form_timer : (s : FormState) → FormStep s (form_timer_fires s)
  resets : (s : FormState) → s.secret_link ≢ [] → FormStep s (reset_to_compose s)
  result_timer : (s : FormState) → FormStep s (result_timer_fires s)
  opens_share : (s : FormState) → s.secret_link ≢ [] → FormStep s (open_share_menu s)
  closes_share : (s : FormState) → FormStep s (close_share_menu s)
  copies :
      (s : FormState) (success : Bool) (message : Option Text)
      → FormStep s (copy_ends success message s)
  feedback_timer : (s : FormState) → FormStep s (feedback_timer_fires s)
  copy_timer : (s : FormState) → FormStep s (copy_timer_fires s)
  shows_qr : (s : FormState) (value : Bool) → FormStep s (set_show_qr value s)
  copies_part :
      (s : FormState) (value message : Text) (success : Bool)
      → FormStep s (copy_share_part value message success s)

pub data Reach (s : FormState) : FormState → Type 0 where
  here : Reach s s
  next : {t u : FormState} → Reach s t → FormStep t u → Reach s u

pub record FormInv (s : FormState) : Type 0 where
  pub counted : s.plaintext_bytes ≡ get_utf8_byte_length s.plaintext
  pub within : s.plaintext_bytes ≤ max_plaintext_size
  pub chosen : IsTtl s.ttl
  pub exiting : s.is_form_exiting ≡ true → s.form_timer ≢ none
  pub entering : s.is_form_exiting ≡ false → s.form_timer ≡ none
  pub one_at_a_time : s.loading ≡ true → s.form_timer ≡ none
  pub unlinked : s.loading ≡ true → s.secret_link ≡ []
  pub hidden : s.is_form_exiting ≡ true → s.secret_link ≡ []
  pub cleared : s.secret_link ≢ [] → s.plaintext ≡ []
  pub leaving : s.is_result_exiting ≡ s.result_timer

empty_count : get_utf8_byte_length [] ≡ 0
unfolding get_utf8_byte_length chars
empty_count = refl

initial-FormInv : FormInv initial_form
initial-FormInv = ground (arith, empty_count)

step-FormInv : {s t : FormState} → FormStep s t → FormInv s → FormInv t
unfolding handle_text_change set_ttl submit_begins submit_ends form_timer_fires reset_to_compose
    result_timer_fires open_share_menu close_share_menu copy_ends copy_share_part
    feedback_timer_fires copy_timer_fires set_show_qr
step-FormInv (types s value shown able) h =
    let (c, w) = clamp_utf8_text_bounds value max_plaintext_size in ground arith
step-FormInv (chooses s value shown able t) h = ground arith
step-FormInv (submits s shown able) h = ground arith
step-FormInv (answers s (ok link) l) h = ground arith
step-FormInv (answers s (throw e) l) h = ground arith
step-FormInv (form_timer s) h = ground (arith, empty_count)
step-FormInv (resets s shown) h = ground arith
step-FormInv (result_timer s) h = ground (arith, empty_count)
step-FormInv (opens_share s shown) h = ground arith
step-FormInv (closes_share s) h = ground arith
step-FormInv (copies s success message) h = ground arith
step-FormInv (feedback_timer s) h = ground arith
step-FormInv (copy_timer s) h = ground arith
step-FormInv (shows_qr s value) h = ground arith
step-FormInv (copies_part s value message success) h = ground arith

-- In every order of events: the counter is the number of UTF-8 bytes of the text and at most
-- 10240; the time limit is one of the three offered; the form is leaving exactly while its timer
-- has a link pending, and shows no link then; a running submission has neither a link pending nor
-- a link shown; once a link is shown no text is kept; and the result is leaving exactly while its
-- timer is pending.
pub Reach-FormInv : {s : FormState} → Reach initial_form s → FormInv s
Reach-FormInv here = initial-FormInv
Reach-FormInv (next r step) = step-FormInv step (Reach-FormInv r)

-- Whenever the submit button can be pressed, the submission goes on: neither of the two checks of
-- `handleSubmit` refuses what the form holds, and old errors and links are cleared.
pub submit-begins :
    {s : FormState}
    → Reach initial_form s
    → submit_disabled s ≡ false
    → submit_begins s
      ≡ (record s { loading = true; error = []; secret_link = []; copy_status = idle }, true)
unfolding submit_begins
submit-begins r able = let inv = Reach-FormInv r in ground (arith, inv.within)
