-- ===== src/Crypto.antt =====
-- frontend/web-app/src/lib/crypto.ts, but for the two base64url functions (Base64Url): keys, nonces
-- and AES-GCM over the platform's Web Crypto.
use secret_letter.Prelude.{ℕ, List, not, ◌==◌, length, if◌then◌else◌, ◌/◌}
use secret_letter.Prelude.Results.{Result, ok, throw}
use secret_letter.Prelude.Results
use secret_letter.Errors.{Thrown, invalid_key_material_error}
use secret_letter.Text.{Text}
use secret_letter.Utf8.Encoder.{encode}
use secret_letter.Utf8.Decoder.{decode}
use secret_letter.Base64Url.{encode_base64_url, decode_base64_url}
use secret_letter.Platform.{Platform, Action}

abbrev pub key_length : ℕ
key_length = 256

abbrev pub nonce_length : ℕ
nonce_length = 12

abbrev pub key_length_bytes : ℕ
key_length_bytes = key_length / 8

-- The bytes are copied into a buffer first (`asBufferSource`), which changes nothing here.
module _ (p : Platform) where
  unfoldable pub generate_key : Action p.World p.Key
  generate_key = p.generate_key

  unfoldable pub generate_nonce : p.World → p.World × List ℕ
  generate_nonce = p.random_values nonce_length

  unfoldable pub encrypt_secret : Text → p.Key → List ℕ → Result Thrown (List ℕ)
  encrypt_secret plaintext key nonce = p.encrypt key nonce (encode plaintext)

  unfoldable pub decrypt_secret : List ℕ → p.Key → List ℕ → Result Thrown Text
  decrypt_secret ciphertext key nonce =
      Results.◌>>=◌ (p.decrypt key nonce ciphertext) (λ plaintext. ok (decode plaintext))

  unfoldable pub export_key_to_base64_url : p.Key → Result Thrown Text
  export_key_to_base64_url key =
      Results.◌>>=◌ (p.export_raw key) (λ raw. ok (encode_base64_url raw))

  unfoldable pub import_key_from_base64_url : Text → Result Thrown p.Key
  import_key_from_base64_url base64url = Results.◌>>=◌ (decode_base64_url base64url) (λ key_bytes.
      if not (length key_bytes == key_length_bytes)
      then throw invalid_key_material_error
      else p.import_raw key_bytes)
