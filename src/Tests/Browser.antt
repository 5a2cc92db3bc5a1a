-- ===== src/Tests/Browser.antt =====
-- A browser and a server that can be run: the cipher puts a tag in front, and the server answers
-- from the kind of the request and keeps what was posted last.
use Prim.Native.String.{String}
use secret_letter.Prelude.{
  ℕ, ◌<◌, zero, suc, ◌≡◌, ◌≢◌, refl, sym, List, [], ◌∷◌, Bool, true, ◌&&◌, ltb, ◌==◌, ==_iff,
  Option, none, some, if◌then◌else◌, All, all, all→All, All→all, All-weaken, length, arith,
  Bool-cases, inl, inr, and-eq-true,
}
use secret_letter.Prelude.Results.{Result, ok, throw, ok-injective, throw-ne-ok}
use secret_letter.Errors.{Thrown, non_error}
use secret_letter.Text.{units}
use secret_letter.Utf8.Encoder.{IsByte}
use secret_letter.Http.{JsonObject, JsonValue, str, num}
use secret_letter.Api.Fetch.{FetchEvent, responds}
use secret_letter.Platform.{Platform}
use secret_letter.Platform.Laws.{IsWebCrypto, IsTagged, IsAvailable}

abbrev is_byte : ℕ → Bool
is_byte b = ltb b 256

abbrev pub replicate : ℕ → ℕ → List ℕ
replicate zero b = []
replicate (suc n) b = b ∷ replicate n b

-- A tag of sixteen bytes, in front.
abbrev pub with_tag : List ℕ → List ℕ
with_tag message = 0 ∷ 0 ∷ 0 ∷ 0 ∷ 0 ∷ 0 ∷ 0 ∷ 0 ∷ 0 ∷ 0 ∷ 0 ∷ 0 ∷ 0 ∷ 0 ∷ 0 ∷ 0 ∷ message

abbrev drop : ℕ → List ℕ → List ℕ
drop zero bytes = bytes
drop (suc n) [] = []
drop (suc n) (b ∷ bytes) = drop n bytes

abbrev pub toy_encrypt : List ℕ → List ℕ → List ℕ → Result Thrown (List ℕ)
toy_encrypt key iv message = if all is_byte message then ok (with_tag message) else throw non_error

abbrev pub toy_decrypt : List ℕ → List ℕ → List ℕ → Result Thrown (List ℕ)
toy_decrypt key iv sealed = ok (drop 16 sealed)

abbrev pub toy_export : List ℕ → Result Thrown (List ℕ)
toy_export key = if length key == 32 && all is_byte key then ok key else throw non_error

abbrev texts : List (String × JsonValue) → JsonObject
texts [] = []
texts ((name, str value) ∷ fields) = (name, value) ∷ texts fields
texts ((name, num value) ∷ fields) = texts fields

abbrev answer : ℕ → JsonObject → FetchEvent
answer status fields = responds (record { status = status; json = ok fields })

-- A read, an opening, a reveal session, and a new secret.
abbrev serve : Option (List (String × JsonValue)) → JsonObject → JsonObject × FetchEvent
serve none stored = (stored, answer 200 (("status", units "active") ∷ []))
serve (some []) stored = (stored, answer 200 stored)
serve (some (field ∷ [])) stored = (stored, answer 201 (("sessionId", units "s1") ∷ []))
serve (some (field ∷ more ∷ fields)) stored =
    (texts (field ∷ more ∷ fields), answer 201 (("secretId", units "abc") ∷ []))

abbrev pub toy : Platform
toy = record {
  World = JsonObject;
  Key = List ℕ;
  random_uuid = λ w. (w, units "id");
  exchange = λ request w. serve request.body w;
  generate_key = λ w. (w, ok (replicate 32 7));
  random_values = λ n w. (w, replicate n 5);
  encrypt = toy_encrypt;
  decrypt = toy_decrypt;
  export_raw = toy_export;
  import_raw = λ raw. ok raw;
}

bytes_of_test : (bytes : List ℕ) → all is_byte bytes ≡ true → All IsByte bytes
bytes_of_test bytes h =
    All-weaken (λ b. is_byte b ≡ true) IsByte (λ b k. ground arith) bytes (all→All is_byte bytes h)

pub replicate_bytes :
    (n b : ℕ) → b < 256 → All IsByte (replicate n b) × (length (replicate n b) ≡ n)
replicate_bytes zero b h = (tt, refl)
replicate_bytes (suc n) b h =
    let (bytes, count) = replicate_bytes n b h in ((h, bytes), omega (arith, count))

-- What is encrypted is the message behind the tag, and the message is bytes.
toy_encrypt_inverse :
    (key iv message sealed : List ℕ)
    → toy_encrypt key iv message ≡ ok sealed
    → (sealed ≡ with_tag message) × (all is_byte message ≡ true)
toy_encrypt_inverse key iv message sealed h = elim (Bool-cases (all is_byte message)) [
  | inl e ↦ (sym (ok-injective (rw e at h)), e)
  | inr e ↦ absurd (throw-ne-ok (rw e at h))
]

toy_decrypt-encrypt :
    (key iv message sealed : List ℕ)
    → toy_encrypt key iv message ≡ ok sealed
    → toy_decrypt key iv sealed ≡ ok message
toy_decrypt-encrypt key iv message sealed h =
    rw (toy_encrypt_inverse key iv message sealed h).0 refl

toy_encrypt_bytes :
    (key iv message sealed : List ℕ)
    → toy_encrypt key iv message ≡ ok sealed
    → All IsByte sealed × (sealed ≢ [])
toy_encrypt_bytes key iv message sealed h =
    let (same, bytes) = toy_encrypt_inverse key iv message sealed h in
    rw same (bytes_of_test (with_tag message) bytes, (λ k. cc))

toy_import-export :
    (key raw : List ℕ)
    → toy_export key ≡ ok raw
    → All IsByte raw × (length raw ≡ 32) × (◌≡◌ {A = Result Thrown (List ℕ)} (ok raw) (ok key))
toy_import-export key raw h = elim (Bool-cases (length key == 32 && all is_byte key)) [
  | inl e ↦
      let same : raw ≡ key = ground arith in
      let (count, bytes) = and-eq-true (length key == 32) (all is_byte key) e in
      rw same (bytes_of_test key bytes, (==_iff (length key) 32).0 count, refl)
  | inr e ↦ ground arith
]

pub toy-IsTagged : IsTagged toy
toy-IsTagged key iv message sealed h =
    rw (toy_encrypt_inverse key iv message sealed h).0 (omega arith)

pub toy-IsWebCrypto : IsWebCrypto toy
toy-IsWebCrypto = record {
  decrypt-encrypt = toy_decrypt-encrypt;
  encrypt_bytes = toy_encrypt_bytes;
  import-export = toy_import-export;
  random_bytes = λ n w. replicate_bytes n 5 (omega arith);
}

-- The same browser, whose server notes each request.
abbrev pub noting : Platform
noting = record toy { random_uuid = λ w. (("asked", units "yes") ∷ w, units "id") }

all_bytes : (bytes : List ℕ) → All IsByte bytes → all is_byte bytes ≡ true
all_bytes bytes h =
    All→all is_byte bytes (All-weaken IsByte (λ b. is_byte b ≡ true) (λ b k. ground arith) bytes h)

pub toy-IsAvailable : IsAvailable toy
toy-IsAvailable = record {
  generates = λ w. (replicate 32 7, replicate 32 7, refl, refl);
  encrypts = λ key iv message count bytes. (with_tag message, rw (all_bytes message bytes) refl);
}
