-- ===== src/PerfAudit/Reveal/Created.antt =====
-- How the audit makes the letter of a scenario.
use secret_letter.Prelude.{ℕ, ◌≡◌, ap, sym, List, All, length}
use secret_letter.Prelude.Results.{ok, ok-injective, >>=-inverse_ok}
use secret_letter.Text.{Text}
use secret_letter.Utf8.Encoder.{IsByte, encode}
use secret_letter.Base64Url.{encode_base64_url}
use secret_letter.Platform.{Platform}
use secret_letter.Platform.Laws.{IsWebCrypto}
use secret_letter.PerfAudit.Reveal.{EncryptedSecret, create_encrypted_secret}

-- The key, the nonce and the ciphertext behind a letter of the audit.
pub record Made (p : Platform) (plaintext : Text) (secret : EncryptedSecret) : Type 0 where
  pub key : p.Key
  pub key_bytes : List ℕ
  pub nonce_bytes : List ℕ
  pub cipher_bytes : List ℕ
  pub fragment_made : secret.fragment_key ≡ encode_base64_url key_bytes
  pub ciphertext_made : secret.ciphertext ≡ encode_base64_url cipher_bytes
  pub nonce_made : secret.nonce ≡ encode_base64_url nonce_bytes
  pub imported : p.import_raw key_bytes ≡ ok key
  pub encrypted : p.encrypt key nonce_bytes (encode plaintext) ≡ ok cipher_bytes
  pub key_is_bytes : All IsByte key_bytes
  pub key_length : length key_bytes ≡ 32
  pub nonce_is_bytes : All IsByte nonce_bytes
  pub nonce_length : length nonce_bytes ≡ 12

module _ (p : Platform) (laws : IsWebCrypto p) (clock : p.World → ℕ) (wait : ℕ → p.World → p.World)
    (to_iso_string : ℕ → Text) (plaintext : Text) where
  pub create_encrypted_secret-Made :
      (w : p.World) (secret : EncryptedSecret)
      → (create_encrypted_secret p clock wait to_iso_string plaintext w).1 ≡ ok secret
      → Made p plaintext secret
  unfolding create_encrypted_secret
  create_encrypted_secret-Made w secret h =
      let (w1, key_bytes) = p.random_values 32 w in
      let nonce = (p.random_values 12 w1).1 in
      let (kb, kl) = laws.random_bytes 32 w in
      let (nb, nl) = laws.random_bytes 12 w1 in
      let (key, later, imported) = >>=-inverse_ok _ (p.import_raw key_bytes) secret h in
      let (ciphertext, same, encrypted) =
        >>=-inverse_ok _ (p.encrypt key nonce (encode plaintext)) secret later in
      let e = ok-injective same in
      record {
        key = key;
        key_bytes = key_bytes;
        nonce_bytes = nonce;
        cipher_bytes = ciphertext;
        fragment_made = sym (ap (λ (s : EncryptedSecret). s.fragment_key) e);
        ciphertext_made = sym (ap (λ (s : EncryptedSecret). s.ciphertext) e);
        nonce_made = sym (ap (λ (s : EncryptedSecret). s.nonce) e);
        imported = imported;
        encrypted = encrypted;
        key_is_bytes = kb;
        key_length = kl;
        nonce_is_bytes = nb;
        nonce_length = nl;
      }
