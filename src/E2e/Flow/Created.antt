-- ===== src/E2e/Flow/Created.antt =====
-- `createSecretViaUi`: the link that the script reads, and the letter behind it.
use mathlib.Core.List.{append_assoc}
use secret_letter.Prelude.{
  ℕ, ◌+◌, ◌<◌, ◌≤◌, ◌≡◌, refl, ap, [], ◌∷◌, ◌++◌, Option, none, true, false, is_empty,
}
use secret_letter.Prelude.Results.{ok}
use secret_letter.Text.{Text, units, trim}
use secret_letter.Utf8.{get_utf8_byte_length}
use secret_letter.Utf8.RoundTrip.{IsWellFormed, without_bom}
use secret_letter.Utf8.Laws.{clamp_utf8_text-Kept}
use secret_letter.Base64Url.{encode_base64_url}
use secret_letter.Crypto.{export_key_to_base64_url, import_key_from_base64_url}
use secret_letter.Platform.{Platform}
use secret_letter.Platform.Laws.{IsWebCrypto, IsTagged, IsAvailable}
use secret_letter.SecretLink.{split_secret_link}
use secret_letter.RevealPage.{is_valid_fragment_key_format}
use secret_letter.CreateSecretForm.{
  FormState, initial_form, handle_text_change, submit_ends, form_timer_fires,
}
use secret_letter.CreateSecretForm.Laws.{Reach, here, next, types, submit-begins}
use secret_letter.CreateSecretForm.Link.{Sealed, seal, make_link}
use secret_letter.Backend.Secrets.{Runtime, Draw}
use secret_letter.Backend.Secrets.Calls.{IsDrawn, Keeps}
use secret_letter.EndToEnd.Served.{Net, served}
use secret_letter.EndToEnd.Served.Letter.{letter_of}
use secret_letter.EndToEnd.Served.Pages.{served-IsWebCrypto}
use secret_letter.EndToEnd.Served.Publishing.{IsOrigin, seal-ok, served-IsAvailable, publishes}
use secret_letter.E2e.Responses.{includes}
use secret_letter.E2e.Flow.{link_shown, create_secret_via_ui}
use secret_letter.E2e.Flow.Checks.{session_url, includes-append}

-- What the run needs: the documented laws of Web Crypto; random tokens and ids; a run of less than fifteen minutes;
-- an address without `#` and whitespace; and an address of the API in which the script does not take the request
-- for a session for one that opens a letter.
pub record IsSetUp (p : Platform) (draws : ℕ → Draw) (env : Option Text) (origin : Text)
    : Type 0 where
  pub laws : IsWebCrypto p
  pub works : IsAvailable p
  pub tagged : IsTagged p
  pub drawn_tokens : (turn : ℕ) → IsDrawn (draws turn).token_bytes
  pub drawn_ids : (turn : ℕ) → IsDrawn (draws turn).id_bytes
  pub brief : (m n : ℕ) → (draws m).now < (draws n).now + 900
  pub place : IsOrigin origin
  pub apart : includes (units "/api/secrets/") (session_url env [] []) ≡ false

-- A text that the form takes and the page shows as it is.
pub record IsSecretText (text : Text) : Type 0 where
  pub well : IsWellFormed text
  pub fits : get_utf8_byte_length text ≤ 10240
  pub full : is_empty (trim text) ≡ false
  pub whole : without_bom text ≡ text

-- The form with this text.
abbrev form_with : Text → FormState
form_with text = record initial_form {
  plaintext = text;
  plaintext_bytes = get_utf8_byte_length text;
}

typed_text :
    (text : Text) → IsSecretText text → handle_text_change text initial_form ≡ form_with text
unfolding handle_text_change
typed_text text good = rw (clamp_utf8_text-Kept text 10240 good.fits) refl

here_then : (text : Text) → Reach initial_form (handle_text_change text initial_form)
here_then text = next here (types initial_form text refl refl)

typed : (text : Text) → IsSecretText text → Reach initial_form (form_with text)
typed text good = rw (typed_text text good) at (here_then text)

link_full : (url key : Text) → is_empty (url ++ b'#' ∷ key) ≡ false
link_full [] key = refl
link_full (c ∷ url) key = refl

module _ (p : Platform) (runtime : Runtime) (draws : ℕ → Draw) (env : Option Text)
    (origin : Text) where
  abbrev net : Platform
  net = served p runtime draws env

  -- A letter with this text was sealed, and its link is there.
  pub record Posted (text link : Text) : Type 0 where
    pub before : Net p.World
    pub after : Net p.World
    pub letter : Sealed net
    pub link_key : Text
    pub turn : ℕ
    pub sealing : seal net text 3600 before ≡ (after, ok letter)
    pub exported : export_key_to_base64_url net letter.key ≡ ok link_key
    pub linked :
        link ≡ (origin ++ b'/' ∷ encode_base64_url (draws turn).token_bytes) ++ b'#' ∷ link_key
    pub split : split_secret_link link ≡ record {
      full_link = link;
      public_url = origin ++ b'/' ∷ encode_base64_url (draws turn).token_bytes;
      fragment_key = link_key;
    }
    pub formed : is_valid_fragment_key_format link_key ≡ true
    pub imported : import_key_from_base64_url net link_key ≡ ok letter.key

  -- It waits in Redis.
  abbrev pub Waits : {text link : Text} → Posted text link → Net p.World → Type 0
  Waits posted w =
      Keeps runtime (encode_base64_url (draws posted.turn).token_bytes)
        (letter_of p runtime draws env (draws posted.turn).now posted.letter.request) w.redis

  link_shown-ok : (url key : Text) → link_shown (url ++ b'#' ∷ key) ≡ ok (url ++ b'#' ∷ key)
  unfolding link_shown
  link_shown-ok url key =
      let hash : includes (b'#' ∷ []) (url ++ b'#' ∷ key) ≡ true =
        rw (append_assoc url (b'#' ∷ []) key) at (includes-append url (b'#' ∷ []) key) in
      rw (link_full url key, link_shown, hash) refl

  pub create_secret_via_ui-posts :
      (set_up : IsSetUp p draws env origin) (text : Text) (w : Net p.World)
      → IsSecretText text
      → let r = create_secret_via_ui p runtime draws env origin text w in
        (link : Text) × (r.1 ≡ ok link) × ((posted : Posted text link) × Waits posted r.0)
  unfolding create_secret_via_ui submit_ends form_timer_fires
  create_secret_via_ui-posts set_up text w good =
      let form = form_with text in
      let (s, link_key, made, exported) =
        seal-ok net (served-IsWebCrypto p runtime draws env set_up.laws)
          (served-IsAvailable p runtime draws env set_up.works) text 3600 w good.well.0 in
      let v = (seal net text 3600 w).0 in
      let reach = typed text good in
      let (answers, kept, split, formed, imported) =
        publishes p set_up.laws set_up.works set_up.tagged runtime draws env origin reach w
          good.well.0 set_up.place set_up.drawn_tokens v s link_key (ap (λ r. (v, r)) made)
          exported in
      let begins = submit-begins reach (rw good.full refl) in
      let url = origin ++ b'/' ∷ encode_base64_url (draws v.turn).token_bytes in
      let w2 = (make_link net env none origin text 3600 w).0 in
      let link = url ++ b'#' ∷ link_key in
      let ends : create_secret_via_ui p runtime draws env origin text w ≡ (w2, ok link) =
        rw
          (
            create_secret_via_ui,
            typed_text text good,
            begins,
            good.full,
            answers,
            link_shown-ok url link_key,
          )
          refl in
      rw ends (
        link,
        refl,
        (
          record {
            before = w;
            after = v;
            letter = s;
            link_key = link_key;
            turn = v.turn;
            sealing = ap (λ r. (v, r)) made;
            exported = exported;
            linked = refl;
            split = split;
            formed = formed;
            imported = imported;
          },
          kept,
        ),
      )
