-- ===== src/EndToEnd.antt =====
-- From the form to the page: the link that CreateSecretForm.tsx makes, opened by RevealPage.tsx.
pub mod Links
pub mod Accepted
pub mod Refused
pub mod Served
use secret_letter.Prelude.{
  ◌<◌, ℕ, ◌≡◌, ◌≢◌, refl, sym, ap, ◌∙◌, List, [], ◌∷◌, false, Option, some, arith, All, length,
  is_empty,
}
use secret_letter.Prelude.Results.{Result, ok, ok-injective, >>=-inverse_ok}
use secret_letter.Errors.{Thrown}
use secret_letter.Text.{Text}
use secret_letter.Utf8.Encoder.{IsByte, encode}
use secret_letter.Utf8.RoundTrip.{IsWellFormed, without_bom, decode-encode_text}
use secret_letter.Base64Url.{encode_base64_url}
use secret_letter.Base64Url.RoundTrip.{decode-encode, encode_base64_url_shape, length_pos}
use secret_letter.Http.{JsonObject, field}
use secret_letter.Crypto.{
  generate_key, generate_nonce, encrypt_secret, decrypt_secret, export_key_to_base64_url,
  import_key_from_base64_url,
}
use secret_letter.Platform.{Platform, lift}
use secret_letter.Platform.Steps.{>>=-step, >>=-inverse}
use secret_letter.Platform.Laws.{IsWebCrypto}
use secret_letter.Api.Requests.{create_reveal_session, open_secret}
use secret_letter.Scene.{sealed}
use secret_letter.CreateSecretForm.Link.{Sealed, sealed_with, seal_under, seal}
use secret_letter.RevealPage.Opening.{import-full}
use secret_letter.RevealPage.{
  decrypt_payload, open_payload, fetch_plaintext, handle_open, opened, open_end,
}

pub full_of_length : (s : Text) → 0 < length s → is_empty s ≡ false
full_of_length [] h = elim h [ ]
full_of_length (c ∷ s) h = refl

pub is_empty-false : (s : Text) → s ≢ [] → is_empty s ≡ false
is_empty-false [] h = absurd (h refl)
is_empty-false (c ∷ s) h = refl

module _ (p : Platform) (laws : IsWebCrypto p) where
  pub exported_parts :
      (key : p.Key) (link_key : Text)
      → export_key_to_base64_url p key ≡ ok link_key
      → (raw : List ℕ) × (p.export_raw key ≡ ok raw) × (link_key ≡ encode_base64_url raw)
  unfolding export_key_to_base64_url
  exported_parts key link_key h =
      let (raw, same, exported) =
        >>=-inverse_ok (λ raw. ok (encode_base64_url raw)) (p.export_raw key) link_key h in
      (raw, exported, sym (ok-injective same))

  pub imported_from :
      (raw : List ℕ) (key : p.Key)
      → All IsByte raw
      → length raw ≡ 32
      → p.import_raw raw ≡ ok key
      → import_key_from_base64_url p (encode_base64_url raw) ≡ ok key
  unfolding import_key_from_base64_url
  imported_from raw key bytes count imported =
      rw (decode-encode raw bytes (λ e. absurd (omega (arith, ap length e))), count) imported

  pub seal_under_parts :
      (plaintext : Text) (ttl : ℕ) (key : p.Key) (w w1 : p.World) (s : Sealed p)
      → seal_under p plaintext ttl key w ≡ (w1, ok s)
      → (nonce ciphertext : List ℕ) × (s ≡ sealed_with p key nonce ttl ciphertext)
        × (p.encrypt key nonce (encode plaintext) ≡ ok ciphertext)
        × All IsByte nonce
        × (length nonce ≡ 12)
  unfolding seal_under encrypt_secret generate_nonce
  seal_under_parts plaintext ttl key w w1 s h =
      let nonce = (p.random_values 12 w).1 in
      let (bytes, count) = laws.random_bytes 12 w in
      let (ciphertext, same, encrypted) =
        >>=-inverse_ok (λ c. ok (sealed_with p key nonce ttl c))
          (p.encrypt key nonce (encode plaintext)) s
          (ap (λ (q : p.World × Result Thrown (Sealed p)). q.1) h) in
      (nonce, ciphertext, sym (ok-injective same), encrypted, bytes, count)

  -- A key that was exported to a link is imported from it.
  pub import-export_link :
      (key : p.Key) (link_key : Text)
      → export_key_to_base64_url p key ≡ ok link_key
      → import_key_from_base64_url p link_key ≡ ok key
  import-export_link key link_key h =
      let (raw, exported, written) = exported_parts key link_key h in
      let (bytes, count, imported) = laws.import-export key raw exported in
      rw written (imported_from raw key bytes count imported)

  encode_full :
      (bytes : List ℕ) → All IsByte bytes → bytes ≢ [] → is_empty (encode_base64_url bytes) ≡ false
  encode_full bytes h full =
      full_of_length (encode_base64_url bytes)
        (omega (arith, (encode_base64_url_shape bytes h).1, length_pos bytes full))

  -- The payload that was sealed is read back.
  pub decrypt_sealed :
      (env : Option Text) (plaintext : Text) (key : p.Key) (nonce ciphertext : List ℕ)
      (response : JsonObject)
      → IsWellFormed plaintext
      → p.encrypt key nonce (encode plaintext) ≡ ok ciphertext
      → All IsByte nonce
      → nonce ≢ []
      → field "ciphertext" response ≡ some (encode_base64_url ciphertext)
      → field "nonce" response ≡ some (encode_base64_url nonce)
      → decrypt_payload p env key response ≡ ok (without_bom plaintext)
  unfolding decrypt_payload decrypt_secret
  decrypt_sealed env plaintext key nonce ciphertext response well e nb nf fc fn =
      let (cb, cf) = laws.encrypt_bytes key nonce (encode plaintext) ciphertext e in
      rw
        (
          fc,
          fn,
          encode_full ciphertext cb cf,
          encode_full nonce nb nf,
          decode-encode ciphertext cb cf,
          decode-encode nonce nb nf,
          laws.decrypt-encrypt key nonce (encode plaintext) ciphertext e,
        )
        (ap ok (decode-encode_text plaintext well))

  -- The two requests of the page, answered.
  pub fetch_plaintext-answers :
      (env : Option Text) (secret_id : Text) (key : p.Key) (v v1 v2 : p.World)
      (session response : JsonObject)
      → create_reveal_session p env secret_id v ≡ (v1, ok session)
      → open_secret p env secret_id (field "sessionId" session) v1 ≡ (v2, ok response)
      → fetch_plaintext p env secret_id key v ≡ (v2, decrypt_payload p env key response)
  unfolding fetch_plaintext
  fetch_plaintext-answers env secret_id key v v1 v2 session response created opening =
      >>=-step (create_reveal_session p env secret_id) (open_payload p env secret_id key) created
      ∙ >>=-step (open_secret p env secret_id (field "sessionId" session))
          (λ r. lift (decrypt_payload p env key r)) opening

  pub handle_open-answers :
      (env : Option Text) (secret_id link_key plaintext : Text) (key : p.Key) (v v2 : p.World)
      → secret_id ≢ []
      → import_key_from_base64_url p link_key ≡ ok key
      → fetch_plaintext p env secret_id key v ≡ (v2, ok plaintext)
      → handle_open p env (some secret_id) link_key sealed v ≡ (v2, some (opened plaintext))
  unfolding handle_open
  handle_open-answers env secret_id link_key plaintext key v v2 full imported fetched =
      rw (is_empty-false secret_id full, import-full p env link_key imported, imported)
        (ap (λ (q : p.World × Result Thrown Text). (q.0, some (open_end p env q.1))) fetched)

  -- On a platform that keeps the documented laws of Web Crypto, take a text without a lone
  -- surrogate that the form sealed, and the key of the letter as it is exported for the link.
  -- Whenever the server answers the two requests of the page, for an id that is not empty, with a
  -- reveal session and with the ciphertext and the nonce that the form posts, opening the sealed
  -- letter with that link key shows the text, less a leading byte order mark.
  pub reveal_of_seal :
      (plaintext : Text) (ttl : ℕ) (w w1 : p.World) (s : Sealed p) (link_key : Text)
      → IsWellFormed plaintext
      → seal p plaintext ttl w ≡ (w1, ok s)
      → export_key_to_base64_url p s.key ≡ ok link_key
      → (env : Option Text) (secret_id : Text) (v v1 v2 : p.World) (session response : JsonObject)
      → secret_id ≢ []
      → create_reveal_session p env secret_id v ≡ (v1, ok session)
      → open_secret p env secret_id (field "sessionId" session) v1 ≡ (v2, ok response)
      → field "ciphertext" response ≡ some s.request.ciphertext
      → field "nonce" response ≡ some s.request.nonce
      → handle_open p env (some secret_id) link_key sealed v
        ≡ (v2, some (opened (without_bom plaintext)))
  unfolding seal sealed_with
  reveal_of_seal plaintext ttl w w1 s link_key well sealing exported env secret_id v v1 v2 session
        response full created opening fc fn =
      let (wk, key, made, under) =
        >>=-inverse (generate_key p) (seal_under p plaintext ttl) w sealing in
      let (nonce, ciphertext, same, encrypted, bytes, count) =
        seal_under_parts plaintext ttl key wk w1 s under in
      let imported = import-export_link key link_key (rw same at exported) in
      let payload =
        decrypt_sealed env plaintext key nonce ciphertext response well encrypted bytes
          (λ e. absurd (omega (arith, count, ap length e))) (rw same at fc) (rw same at fn) in
      handle_open-answers env secret_id link_key (without_bom plaintext) key v v2 full imported (
        fetch_plaintext-answers env secret_id key v v1 v2 session response created opening
        ∙ ap (λ r. (v2, r)) payload)
