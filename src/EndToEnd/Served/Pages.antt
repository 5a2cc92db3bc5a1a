-- ===== src/EndToEnd/Served/Pages.antt =====
-- The reveal page over the server: the first reader of a letter, and every later one.
use mathlib.Core.Bool.{true≢false}
use secret_letter.Prelude.{
  ℕ, suc, ◌≡◌, ◌≢◌, refl, sym, ap, ◌∙◌, List, [], Option, some, true, is_empty,
}
use secret_letter.Prelude.Results.{ok}
use secret_letter.Text.{Text, units, text_eq}
use secret_letter.Base64Url.{encode_base64_url}
use secret_letter.Base64Url.RoundTrip.{encode_base64_url_shape}
use secret_letter.Http.{JsonObject, field}
use secret_letter.Crypto.{generate_key}
use secret_letter.Platform.{Platform}
use secret_letter.Platform.Steps.{>>=-inverse}
use secret_letter.Platform.Laws.{IsWebCrypto}
use secret_letter.Scene.{SceneData, sealed}
use secret_letter.Scene
use secret_letter.Api.Requests.{get_secret_status}
use secret_letter.RevealPage.{
  is_valid_fragment_key_format, scene_of_status, finish_load, load_status,
}
use secret_letter.RevealPage.Loading.{whole_link}
use secret_letter.CreateSecretForm.Link.{Sealed, sealed_with, seal, seal_under}
use secret_letter.EndToEnd.{seal_under_parts}
use secret_letter.Backend.Letter.{active, consumed}
use secret_letter.Backend.Service.{secret_status}
use secret_letter.Backend.Secrets.{Runtime, Draw, Letter, status_store}
use secret_letter.Backend.Secrets.Calls.{IsDrawn, Keeps}
use secret_letter.EndToEnd.Served.{Net, served}
use secret_letter.EndToEnd.Served.Letter.{IsDigits, drawn-IsDigits}
use secret_letter.EndToEnd.Served.Opening.{get_secret_status-letter}

pub served-IsWebCrypto :
    (p : Platform) (runtime : Runtime) (draws : ℕ → Draw) (env : Option Text)
    → IsWebCrypto p
    → IsWebCrypto (served p runtime draws env)
served-IsWebCrypto p runtime draws env laws = record {
  decrypt-encrypt = laws.decrypt-encrypt;
  encrypt_bytes = laws.encrypt_bytes;
  import-export = laws.import-export;
  random_bytes = λ n w. laws.random_bytes n w.browser;
}

pub sealed-IsDigits :
    (p : Platform) (laws : IsWebCrypto p) (plaintext : Text) (ttl : ℕ) (w w1 : p.World)
    (s : Sealed p)
    → seal p plaintext ttl w ≡ (w1, ok s)
    → IsDigits s.request.ciphertext × IsDigits s.request.nonce × (s.request.ttl_seconds ≡ ttl)
unfolding seal sealed_with
sealed-IsDigits p laws plaintext ttl w w1 s sealing =
    let (wk, key, made, under) =
      >>=-inverse (generate_key p) (seal_under p plaintext ttl) w sealing in
    let (nonce, ciphertext, same, encrypted, bytes, count) =
      seal_under_parts p laws plaintext ttl key wk w1 s under in
    let (cb, cf) = laws.encrypt_bytes key nonce _ ciphertext encrypted in
    rw same
      ((encode_base64_url_shape ciphertext cb).0, (encode_base64_url_shape nonce bytes).0, refl)

status_scene :
    (fields : JsonObject)
    → (field "status" fields ≡ some (units "active") → (finish_load (ok fields)).state ≡ sealed)
      × (field "status" fields ≡ some (units "consumed")
          → (finish_load (ok fields)).state ≡ Scene.consumed)
unfolding finish_load scene_of_status text_eq
status_scene fields = (λ h. rw h refl, λ h. rw h refl)

module _ (p : Platform) (runtime : Runtime) (draws : ℕ → Draw) (env : Option Text) (bytes : List ℕ)
    (drawn : IsDrawn bytes) (link_key : Text)
    (valid : is_valid_fragment_key_format link_key ≡ true) where
  abbrev net : Platform
  net = served p runtime draws env

  abbrev token : Text
  token = encode_base64_url bytes

  pub token_full : token ≢ []
  token_full e = absurd (true≢false (sym (ap is_empty e) ∙ (drawn-IsDigits bytes drawn).1))

  -- What the page does behind its checks of the link.
  load_status-asks :
      (w : Net p.World) (fields : JsonObject)
      → (get_secret_status net env token w).1 ≡ ok fields
      → load_status net env (some token) link_key w
        ≡ ((get_secret_status net env token w).0, finish_load (ok fields))
  unfolding load_status
  load_status-asks w fields answers =
      rw (whole_link (some token) link_key token_full valid, load_status)
        (ap (λ r. ((get_secret_status net env token w).0, finish_load r)) answers)

  -- The page of a reader who comes while the letter waits.
  pub load_status-waiting :
      (letter : Letter) (w : Net p.World)
      → Keeps runtime token letter w.redis
      → secret_status (draws w.turn).now letter.store ≡ some active
      → let r = load_status net env (some token) link_key w in
        (r.1.state ≡ sealed)
        × Keeps runtime token
            (record letter { store = status_store (draws w.turn).now letter.store })
            r.0.redis
        × (r.0.turn ≡ suc w.turn)
  load_status-waiting letter w kept is_active =
      let ((fields, answers, said), keeps, turn) =
        get_secret_status-letter p runtime draws env bytes drawn letter w kept in
      rw (load_status-asks w fields answers)
        ((status_scene fields).0 (rw is_active at said), keeps, turn)

  -- And of one who comes when it was given out.
  pub load_status-spent :
      (letter : Letter) (w : Net p.World)
      → Keeps runtime token letter w.redis
      → secret_status (draws w.turn).now letter.store ≡ some consumed
      → let r = load_status net env (some token) link_key w in
        (r.1.state ≡ Scene.consumed)
        × Keeps runtime token
            (record letter { store = status_store (draws w.turn).now letter.store })
            r.0.redis
        × (r.0.turn ≡ suc w.turn)
  load_status-spent letter w kept is_consumed =
      let ((fields, answers, said), keeps, turn) =
        get_secret_status-letter p runtime draws env bytes drawn letter w kept in
      rw (load_status-asks w fields answers)
        ((status_scene fields).1 (rw is_consumed at said), keeps, turn)
