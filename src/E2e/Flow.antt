-- ===== src/E2e/Flow.antt =====
-- frontend/web-app/scripts/e2e.mjs: what its flow does in the browser and checks, over the pages of the frontend and the
-- Go server. Playwright finds a control or a text if the page shows it, and else gives up in time; a text is
-- found exactly.
pub mod Checks
pub mod Created
pub mod Opened
pub mod Guarded
pub mod Texts
pub mod Passes
use secret_letter.Prelude.{
  ℕ, List, [], ◌∷◌, ◌++◌, Bool, true, false, ◌||◌, ◌&&◌, not, ltb, ◌==◌, Option, none, some,
  if◌then◌else◌, is_empty, length,
}
use secret_letter.Prelude.Results
use secret_letter.Prelude.Results.{Result, ok, throw}
use secret_letter.Text.{Text, units, text_eq, starts_with, slice_from, index_of, slice_to, decimal}
use secret_letter.Http.{Method, get, post, HttpRequest, Response, field}
use secret_letter.E2e.Responses.{
  Failure, timed_out, link_without_fragment, Done, includes, responses_since, check_responses,
}
use secret_letter.Platform.{Platform}
use secret_letter.App.{home_page, reveal_page, no_page, app}
use secret_letter.SecretLink.{SecretLinkParts, split_secret_link}
use secret_letter.Scene.{SecretSceneState, SceneData, consumed, error}
use secret_letter.RevealPage.{load_status, handle_open, finish_open, OpenEnd}
use secret_letter.CreateSecretForm.{
  initial_form, submit_disabled, handle_text_change, submit_begins, submit_ends, form_timer_fires,
}
use secret_letter.CreateSecretForm.Link.{make_link}
use secret_letter.SecretEnvelopeScene.{
  OpeningState, Entry, calls_on_open, initial_opening, receive_state, handle_consent_accept,
  handle_envelope_key_down,
}
use secret_letter.Backend.Secrets.{Runtime, Draw}
use secret_letter.EndToEnd.Served.{Net, served}

-- The scene behind the consent and the key Enter on the envelope.
unfoldable pub pressed : SecretSceneState → OpeningState
pressed state =
    handle_envelope_key_down true (handle_consent_accept (receive_state state initial_opening))

abbrev pub calls_open : List Entry → Bool
calls_open (calls_on_open ∷ _) = true
calls_open _ = false

abbrev pub ended : Option OpenEnd → SceneData → SceneData
ended none scene = scene
ended (some end) scene = finish_open end scene

abbrev pub is_consumed : SecretSceneState → Bool
is_consumed consumed = true
is_consumed _ = false

abbrev pub is_error : SecretSceneState → Bool
is_error error = true
is_error _ = false

abbrev pub shows_message : Text → Option Text → Bool
shows_message message none = false
shows_message message (some shown) = text_eq shown message

abbrev pub visible : Bool → Result Failure Done
visible shown = if shown then ok tt else throw timed_out

unfoldable pub link_shown : Text → Result Failure Text
link_shown link =
    if is_empty link
    then throw timed_out
    else if not (includes (b'#' ∷ []) link)
    then throw link_without_fragment
    else ok link

-- `link.split("#")[0]`
unfoldable pub before_hash : Text → Text
before_hash link = elim (index_of b'#' link) [ none ↦ link | some i ↦ slice_to i link ]

abbrev pub Script : Type 0 → Type 0 → Type 0
Script World A = World → World × Result Failure A

infixl 5 ◌>>=◌ ◌>>◌
abbrev pub ◌>>=◌ : {World A B : Type 0} → Script World A → (A → Script World B) → Script World B
◌>>=◌ m f w = let (w', r) = m w in elim r [ ok a ↦ f a w' | throw e ↦ (w', throw e) ]

abbrev pub ◌>>◌ : {World A B : Type 0} → Script World A → Script World B → Script World B
m >> next = m >>= λ _. next

-- `origin` is the address of the preview server, which serves the frontend; the links start with it.
module _ (p : Platform) (runtime : Runtime) (draws : ℕ → Draw) (env : Option Text)
    (origin : Text) where
  abbrev net : Platform
  net = served p runtime draws env

  unfoldable pub create_secret_via_ui : Text → Script (Net p.World) Text
  create_secret_via_ui secret_text w =
      let form = handle_text_change secret_text initial_form in
      let (begun, goes) = submit_begins form in
      let (w', result) = make_link net env none origin form.plaintext form.ttl w in
      if submit_disabled form || not goes
      then (w, throw timed_out)
      else (w', link_shown (form_timer_fires (submit_ends result begun)).secret_link)

  -- What a page does once a URL has led to it.
  unfoldable pub lead_to :
      {A : Type 0}
      → (Text → Text → Script (Net p.World) A)
      → SecretLinkParts
      → Script (Net p.World) A
  lead_to next parts w = elim (app (slice_from (length origin) parts.public_url)) [
    | home_page ↦ (w, throw timed_out)
    | reveal_page secret_id ↦ next secret_id parts.fragment_key w
    | no_page ↦ (w, throw timed_out)
  ]

  unfoldable pub at_reveal :
      {A : Type 0} → (Text → Text → Script (Net p.World) A) → Text → Script (Net p.World) A
  at_reveal next link = lead_to next (split_secret_link link)

  unfoldable pub open_page : Text → Text → Text → Script (Net p.World) Done
  open_page secret_text secret_id fragment_key w =
      let (w1, scene) = load_status net env (some secret_id) fragment_key w in
      let (w2, end) = handle_open net env (some secret_id) fragment_key scene.state w1 in
      let shown = ended end scene in
      if not (calls_open (pressed scene.state).log) then (w1, throw timed_out) else (
        w2,
        Results.◌>>=◌ (check_responses (responses_since (length w1.log) w2.log))
            (λ _. visible (text_eq shown.secret_content secret_text)),
      )

  unfoldable pub open_secret_and_verify : Text → Text → Script (Net p.World) Done
  open_secret_and_verify secret_link secret_text = at_reveal (open_page secret_text) secret_link

  unfoldable pub expect_consumed_state : Text → Script (Net p.World) Done
  expect_consumed_state = at_reveal (λ secret_id fragment_key w.
      let (w', scene) = load_status net env (some secret_id) fragment_key w in
      (w', visible (is_consumed scene.state)))

  unfoldable pub error_page : Text → Text → Text → Script (Net p.World) Done
  error_page message secret_id fragment_key w =
      let (w', scene) = load_status net env (some secret_id) fragment_key w in
      (w', visible (is_error scene.state && shows_message message scene.message))

  unfoldable pub expect_error_state : Text → Text → Script (Net p.World) Done
  unfolding error_page
  expect_error_state url message = at_reveal (error_page message) url

  -- `verifyFragmentGuardrails` behind the creation of the letter.
  unfoldable pub guarded : Text → Text → Script (Net p.World) Done
  guarded secret_text secret_link = do
    let public_url = before_hash secret_link
    expect_error_state public_url (units "Liên kết không hợp lệ. Thiếu khóa giải mã.")
    expect_error_state (public_url ++ units "#not-a-valid-key")
        (units "Khóa giải mã trong liên kết không đúng định dạng. Hãy kiểm tra lại phần sau dấu #.")
    open_secret_and_verify secret_link secret_text
    expect_consumed_state secret_link

  unfoldable pub verify_fragment_guardrails : Text → Script (Net p.World) Done
  verify_fragment_guardrails secret_text = do
    secret_link ← create_secret_via_ui secret_text
    guarded secret_text secret_link

  -- The part of `run` behind the launch of the browser and the creation of its letter.
  unfoldable pub read_once : Text → Text → Text → Script (Net p.World) Done
  read_once secret_text guard_text secret_link = do
    open_secret_and_verify secret_link secret_text
    expect_consumed_state secret_link
    verify_fragment_guardrails guard_text

  -- The part behind the launch of the browser; a date is in both texts.
  unfoldable pub flow : Text → Text → Script (Net p.World) Done
  flow secret_text guard_text = do
    secret_link ← create_secret_via_ui secret_text
    read_once secret_text guard_text secret_link

-- The texts of `run` and of `verifyFragmentGuardrails`, with `Date.now()`.
unfoldable pub secret_text_of : ℕ → Text
secret_text_of now = units "E2E secret " ++ decimal now

unfoldable pub guard_text_of : ℕ → Text
guard_text_of now = units "Fragment guard " ++ decimal now
