-- ===== src/RevealPage/Opening.antt =====
-- Loading the status and opening the letter: what reaches the server, and when.
use mathlib.Core.Bool.{false≢true}
use secret_letter.Prelude.{
  ◌∷◌, ℕ, ◌≡◌, ◌≢◌, inl, inr, refl, List, [], true, false, Option, arith, length, ◌==◌, ==_iff, not,
  Bool-cases, is_empty, ◌||◌,
}
use secret_letter.Prelude.Results.{ok, Result-cases}
use secret_letter.Text.{trim, Text}
use secret_letter.Http.{field}
use secret_letter.Base64Url.{decode_base64_url}
use secret_letter.Crypto.{import_key_from_base64_url}
use secret_letter.Platform.{lift, Platform, >>=-world}
use secret_letter.Api.Requests.{create_reveal_session, open_secret}
use secret_letter.Scene.{SecretSceneState, sealed}
use secret_letter.RevealPage.{
  text_of, is_valid_fragment_key_format, open_payload, decrypt_payload, fetch_plaintext,
  handle_open, is_sealed,
}

sealed_of_test : (state : SecretSceneState) → is_sealed state ≡ true → state ≡ sealed
sealed_of_test state h = ground arith

module _ (p : Platform) (env : Option Text) where
  -- A key in the right format passes the two checks of the import, and only the platform can still
  -- refuse it.
  pub valid_format-import :
      (fragment_key : Text)
      → is_valid_fragment_key_format fragment_key ≡ true
      → (key_bytes : List ℕ) × (decode_base64_url fragment_key ≡ ok key_bytes)
        × (length key_bytes ≡ 32)
        × (import_key_from_base64_url p fragment_key ≡ p.import_raw key_bytes)
  unfolding is_valid_fragment_key_format import_key_from_base64_url
  valid_format-import fragment_key h = elim (Result-cases (decode_base64_url fragment_key)) [
    | inl (bytes, e) ↦
        let test : (length bytes == 32) ≡ true = rw (e, is_valid_fragment_key_format) at h in
        (bytes, e, (==_iff _ _).0 test, rw (e, test))
    | inr (err, e) ↦ absurd (false≢true (rw (e, is_valid_fragment_key_format) at h))
  ]

  pub import-full :
      (fragment_key : Text) {key : p.Key}
      → import_key_from_base64_url p fragment_key ≡ ok key
      → is_empty fragment_key ≡ false
  unfolding import_key_from_base64_url decode_base64_url trim
  import-full [] h = cc
  import-full (c ∷ s) h = refl

  fetch_plaintext-key_unseen :
      (secret_id : Text) (a b : p.Key) (w : p.World)
      → (fetch_plaintext p env secret_id a w).0 ≡ (fetch_plaintext p env secret_id b w).0
  unfolding fetch_plaintext
  fetch_plaintext-key_unseen secret_id a b w =
      >>=-world (create_reveal_session p env secret_id) (open_payload p env secret_id a)
        (open_payload p env secret_id b)
        (λ session.
          >>=-world (open_secret p env secret_id (field "sessionId" session))
            (λ response. lift (decrypt_payload p env a response))
            (λ response. lift (decrypt_payload p env b response)) (λ response w'. refl {a = w'}))
        w

  -- If `handleOpen` changes the world outside the page, then the letter was sealed and the key of
  -- the link was imported.
  pub handle_open-imports :
      (secret_id : Option Text) (fragment_key : Text) (state : SecretSceneState) (w : p.World)
      → (handle_open p env secret_id fragment_key state w).0 ≢ w
      → (state ≡ sealed) × ((key : p.Key) × (import_key_from_base64_url p fragment_key ≡ ok key))
  unfolding handle_open
  handle_open-imports secret_id fragment_key state w h =
      elim (Bool-cases
        (is_empty (text_of secret_id) || is_empty fragment_key || not (is_sealed state))) [
          | inl stops ↦ absurd (h (rw stops))
          | inr goes ↦ elim (Result-cases (import_key_from_base64_url p fragment_key)) [
            | inl (key, e) ↦ (sealed_of_test state (ground arith), (key, e))
            | inr (err, e) ↦ absurd (h (rw (goes, e)))
          ]
        ]

  -- Two link keys that can both be imported leave the same world behind when the letter is opened
  -- with them: what reaches the server does not depend on the key.
  pub handle_open-key_unseen :
      (secret_id : Option Text) (key_a key_b : Text) (state : SecretSceneState) (w : p.World)
      {a b : p.Key}
      → import_key_from_base64_url p key_a ≡ ok a
      → import_key_from_base64_url p key_b ≡ ok b
      → (handle_open p env secret_id key_a state w).0
        ≡ (handle_open p env secret_id key_b state w).0
  unfolding handle_open
  handle_open-key_unseen secret_id key_a key_b state w {a} {b} ea eb =
      let na = import-full key_a ea in
      let nb = import-full key_b eb in
      ground (arith, fetch_plaintext-key_unseen (text_of secret_id) a b w)
