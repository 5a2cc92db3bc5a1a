-- ===== src/E2e/Flow/Opened.antt =====
-- `openSecretAndVerify` and `expectConsumedState`, for a link that the script has read.
use secret_letter.Prelude.{ℕ, suc, ◌+◌, ◌<◌, ◌≡◌, refl, ap, ◌∙◌, ◌∷◌, Option, some, true, arith}
use secret_letter.Prelude.Results.{ok}
use secret_letter.Text.{Text}
use secret_letter.Text.Equality.{text_eq_refl}
use secret_letter.Text.Suffix.{slice_from-length}
use secret_letter.Base64Url.{encode_base64_url}
use secret_letter.Http.{field}
use secret_letter.Platform.{Platform}
use secret_letter.App.Laws.{app-token}
use secret_letter.Scene.{sealed}
use secret_letter.Api.Requests.{create_reveal_session}
use secret_letter.RevealPage.{load_status, finish_open}
use secret_letter.SecretEnvelopeScene.{
  receive_state, handle_consent_accept, handle_envelope_key_down, handle_open as scene_opens,
  trigger_open,
}
use secret_letter.Backend.Validation.{received}
use secret_letter.Backend.Secrets.{Runtime, Draw, Letter}
use secret_letter.Backend.Secrets.Lives.{spent_letter, fresh_status, spent_status}
use secret_letter.Backend.Secrets.Calls.{Keeps}
use secret_letter.EndToEnd.Served.{Net, served}
use secret_letter.EndToEnd.Served.Letter.{drawn-IsDigits, letter_of}
use secret_letter.EndToEnd.Served.Requests.{session_request, open_request}
use secret_letter.EndToEnd.Served.Pages.{
  served-IsWebCrypto, sealed-IsDigits, load_status-waiting, load_status-spent,
}
use secret_letter.EndToEnd.Served.Readers.{opens}
use secret_letter.E2e.Flow.{
  Script, at_reveal, lead_to, open_page, open_secret_and_verify, expect_consumed_state, pressed,
  calls_open,
}
use secret_letter.E2e.Flow.Checks.{two_since, check_responses-ok}
use secret_letter.E2e.Flow.Created.{IsSetUp, IsSecretText, Posted, Waits}

-- The key opens a sealed letter.
pressed_opens : calls_open (pressed sealed).log ≡ true
unfolding pressed receive_state handle_consent_accept handle_envelope_key_down scene_opens
    trigger_open
pressed_opens = refl

module _ (p : Platform) (runtime : Runtime) (draws : ℕ → Draw) (env : Option Text) (origin : Text)
    (set_up : IsSetUp p draws env origin) {text link : Text}
    (posted : Posted p runtime draws env origin text link) where
  abbrev net : Platform
  net = served p runtime draws env

  abbrev token : Text
  token = encode_base64_url (draws posted.turn).token_bytes

  abbrev pub expiry : ℕ
  expiry = (draws posted.turn).now + posted.letter.request.ttl_seconds

  abbrev fresh : Letter
  fresh = letter_of p runtime draws env (draws posted.turn).now posted.letter.request

  -- The letter was given out.
  abbrev pub Spent : Net p.World → Type 0
  Spent w = (at : ℕ) × Keeps runtime token (spent_letter expiry at fresh) w.redis

  -- Where the link leads.
  pub at_reveal-link :
      {A : Type 0} (next : Text → Text → Script (Net p.World) A) (w : Net p.World)
      → at_reveal p runtime draws env origin next link w ≡ next token posted.link_key w
  unfolding at_reveal lead_to
  at_reveal-link {A} next w =
      let (digits, full) =
        drawn-IsDigits (draws posted.turn).token_bytes (set_up.drawn_tokens posted.turn) in
      ap (λ parts. lead_to p runtime draws env origin {A = A} next parts w) posted.split
      ∙ rw (lead_to, slice_from-length origin (b'/' ∷ token), app-token token digits full) refl

  pub expect_consumed_state-passes :
      (w : Net p.World)
      → Spent w
      → let r = expect_consumed_state p runtime draws env origin link w in (r.1 ≡ ok tt) × Spent r.0
  unfolding expect_consumed_state
  expect_consumed_state-passes w (at, kept) =
      let (unchanged, is_consumed) = spent_status expiry at (draws w.turn).now fresh in
      let (shows, keeps, turn) =
        load_status-spent p runtime draws env (draws posted.turn).token_bytes
          (set_up.drawn_tokens posted.turn) posted.link_key posted.formed
          (spent_letter expiry at fresh) w kept is_consumed in
      rw (at_reveal-link _ w, shows) (refl, (at, rw unchanged at keeps))

  -- The opening itself, on a page that shows the letter sealed.
  open_page-passes :
      (w : Net p.World)
      → IsSecretText text
      → Waits p runtime draws env origin posted w
      → let r = open_page p runtime draws env origin text token posted.link_key w in
        (r.1 ≡ ok tt) × Spent r.0
  unfolding open_page finish_open
  open_page-passes w good kept =
      let bytes = (draws posted.turn).token_bytes in
      let drawn = set_up.drawn_tokens posted.turn in
      let (c, n, lasts) =
        sealed-IsDigits net (served-IsWebCrypto p runtime draws env set_up.laws) text 3600
          posted.before posted.after posted.letter posted.sealing in
      let soon : (turn : ℕ) → (draws turn).now < expiry =
        λ turn. omega (arith, set_up.brief turn posted.turn, lasts) in
      let (unchanged, is_active) =
        fresh_status expiry (received posted.letter.request) (draws w.turn).now (soon w.turn) in
      let (shows, keeps, turn) =
        load_status-waiting p runtime draws env bytes drawn posted.link_key posted.formed fresh w
          kept is_active in
      let w1 = (load_status net env (some token) posted.link_key w).0 in
      let (end, spent, later, (made, asked, s1), (given, answered, s2)) =
        opens p set_up.laws runtime draws env text 3600 posted.before posted.after posted.letter
          posted.link_key good.well posted.sealing posted.exported bytes drawn
          (draws posted.turn).now w1 (rw unchanged at keeps) (set_up.drawn_ids w1.turn)
          (soon w1.turn) (soon (suc w1.turn)) (set_up.brief (suc w1.turn) w1.turn) in
      let session_id = encode_base64_url (draws w1.turn).id_bytes in
      let (digits, full) = drawn-IsDigits (draws w1.turn).id_bytes (set_up.drawn_ids w1.turn) in
      let w2 = (create_reveal_session net env token w1).0 in
      let sent = session_request p runtime draws env token (p.random_uuid w1.browser).1 in
      let opening =
        open_request p runtime draws env token session_id (p.random_uuid w2.browser).1 in
      let log = answered ∙ ap (λ l. (opening, given) ∷ l) asked in
      let checked =
        check_responses-ok env token session_id sent opening made given refl refl refl refl s1 s2
          (unfold field in refl) full set_up.apart in
      rw
        (
          open_page,
          shows,
          pressed_opens,
          log,
          two_since (sent, made) (opening, given) w1.log,
          checked,
          end,
          good.whole,
          text_eq_refl text,
        )
        (refl, (_, spent))

  pub open_secret_and_verify-passes :
      (w : Net p.World)
      → IsSecretText text
      → Waits p runtime draws env origin posted w
      → let r = open_secret_and_verify p runtime draws env origin link text w in
        (r.1 ≡ ok tt) × Spent r.0
  unfolding open_secret_and_verify
  open_secret_and_verify-passes w good kept =
      rw (at_reveal-link (open_page p runtime draws env origin text) w)
        (open_page-passes w good kept)
