-- ===== src/Platform/Laws.antt =====
-- What the program relies on of Web Crypto, as it is documented.
use secret_letter.Prelude.{ℕ, ◌+◌, ◌≡◌, ◌≢◌, List, [], All, length}
use secret_letter.Prelude.Results.{ok}
use secret_letter.Utf8.Encoder.{IsByte}
use secret_letter.Platform.{Platform}

-- AES-GCM decrypts what it encrypted under the same key and nonce, and its output, which holds a tag
-- at least, is not empty; a raw key has 32 bytes and is imported as the same key; random values are
-- as many bytes as were asked for.
pub record IsWebCrypto (p : Platform) : Type 0 where
  pub decrypt-encrypt :
      (key : p.Key) (iv message sealed : List ℕ)
      → p.encrypt key iv message ≡ ok sealed
      → p.decrypt key iv sealed ≡ ok message
  pub encrypt_bytes :
      (key : p.Key) (iv message sealed : List ℕ)
      → p.encrypt key iv message ≡ ok sealed
      → All IsByte sealed × (sealed ≢ [])
  pub import-export :
      (key : p.Key) (raw : List ℕ)
      → p.export_raw key ≡ ok raw
      → All IsByte raw × (length raw ≡ 32) × (p.import_raw raw ≡ ok key)
  pub random_bytes :
      (n : ℕ) (w : p.World)
      → All IsByte (p.random_values n w).1 × (length (p.random_values n w).1 ≡ n)

-- AES-GCM, as it is documented, adds a tag of sixteen bytes to the message.
abbrev pub IsTagged : Platform → Type 0
IsTagged p =
    (key : p.Key) (iv message sealed : List ℕ)
    → p.encrypt key iv message ≡ ok sealed
    → length sealed ≡ length message + 16

-- Web Crypto does what it is asked: it generates keys that can be exported, and encrypts bytes under a nonce of
-- twelve bytes.
pub record IsAvailable (p : Platform) : Type 0 where
  pub generates :
      (w : p.World)
      → (key : p.Key) × (raw : List ℕ) × ((p.generate_key w).1 ≡ ok key)
        × (p.export_raw key ≡ ok raw)
  pub encrypts :
      (key : p.Key) (iv message : List ℕ)
      → length iv ≡ 12
      → All IsByte message
      → (sealed : List ℕ) × (p.encrypt key iv message ≡ ok sealed)
