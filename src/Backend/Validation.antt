-- ===== src/Backend/Validation.antt =====
-- backend/internal/secret/validation.go: which requests the server takes. A Go string is the list of its
-- bytes.
pub mod Rules
use Prim.Native.String.{String}
use secret_letter.Prelude.{
  ℕ, suc, ◌+◌, ◌*◌, ◌/◌, ◌%◌, List, [], ◌∷◌, ◌++◌, Bool, true, false, ◌||◌, ◌&&◌, not, ltb, ◌==◌,
  Option, none, some, if◌then◌else◌, is_empty, length,
}
use secret_letter.Text.{Text, units, text_eq}
use secret_letter.Base64Url.{is_base64_url_char}
use secret_letter.Utf8.Encoder.{encode}
use secret_letter.Api.Requests

-- `CreateSecretRequest` of types.go, less the theme; a field that is missing is zero, empty or `nil`. A number
-- below zero, which no rule takes, is left out.
pub record CreateSecretRequest : Type 0 where
  pub content : Text
  pub ciphertext : Text
  pub nonce : Text
  pub algorithm : Text
  pub ttl_seconds : ℕ
  pub expires_in_minutes : ℕ
  pub burn_after_read : Option Bool

-- Less the message.
pub record ValidationError : Type 0 where
  pub field : String
  pub code : String

abbrev error : String → String → ValidationError
error field code = record { field = field; code = code }

abbrev pub max_ciphertext_size : ℕ
max_ciphertext_size = 15 * 1024

abbrev pub nonce_length : ℕ
nonce_length = 12

abbrev pub allowed_ttls : ℕ → Bool
allowed_ttls seconds = seconds == 3600 || seconds == 86400 || seconds == 604800

abbrev pub allowed_expiration_minutes : ℕ → Bool
allowed_expiration_minutes minutes = minutes == 60 || minutes == 1440 || minutes == 10080

-- Go's decoder passes over line breaks.
unfoldable pub without_breaks : Text → Text
without_breaks [] = []
without_breaks (c ∷ s) =
    let rest = without_breaks s in if c == 10 || c == 13 then rest else c ∷ rest

abbrev ends_at : Bool → ℕ → Option ℕ
ends_at right n = if right then some (n * 3 / 4) else none

-- How many bytes `base64.URLEncoding` decodes behind `n` digits: the padding is asked for, and nothing may stand
-- behind it.
unfoldable pub digits_loop : ℕ → Text → Option ℕ
digits_loop n [] = ends_at (n % 4 == 0) n
digits_loop n (c ∷ s) =
    let rest = digits_loop (suc n) s in
    if is_base64_url_char c
    then rest
    else if text_eq (c ∷ s) (b'=' ∷ [])
    then ends_at (n % 4 == 3) n
    else if text_eq (c ∷ s) (b'=' ∷ b'=' ∷ [])
    then ends_at (n % 4 == 2) n
    else none

-- The number of bytes that `decodeBase64Url` gives; `none` is its error.
unfoldable pub decoded_length : Text → Option ℕ
unfolding without_breaks digits_loop
decoded_length s =
    let padded =
      if length s % 4 == 2
      then s ++ b'=' ∷ b'=' ∷ []
      else if length s % 4 == 3
      then s ++ b'=' ∷ []
      else s in
    digits_loop 0 (without_breaks padded)

abbrev pub ttl_errors : CreateSecretRequest → List ValidationError
ttl_errors req =
    if req.ttl_seconds == 0 && not (req.expires_in_minutes == 0)
    then (if not (allowed_expiration_minutes req.expires_in_minutes)
        then error "expiresInMinutes" "invalid_expiration" ∷ []
        else [])
    else if not (allowed_ttls req.ttl_seconds)
    then error "ttlSeconds" "invalid_ttl" ∷ []
    else []

abbrev pub nonce_errors : Text → List ValidationError
nonce_errors nonce =
    if is_empty nonce then error "nonce" "empty_nonce" ∷ [] else elim (decoded_length nonce) [
      | none ↦ error "nonce" "invalid_nonce_format" ∷ []
      | some n ↦ if not (n == nonce_length) then error "nonce" "invalid_nonce_length" ∷ [] else []
    ]

abbrev pub algorithm_errors : Text → List ValidationError
algorithm_errors algorithm =
    if not (text_eq algorithm (units "AES-GCM"))
    then error "algorithm" "invalid_algorithm" ∷ []
    else []

abbrev pub size_errors : Text → List ValidationError
size_errors ciphertext =
    if ltb max_ciphertext_size (length ciphertext)
    then error "ciphertext" "ciphertext_too_large" ∷ []
    else []

abbrev pub sealed_errors : CreateSecretRequest → List ValidationError
sealed_errors req =
    if is_empty req.ciphertext
    then []
    else algorithm_errors req.algorithm ++ size_errors req.ciphertext ++ nonce_errors req.nonce

abbrev pub content_errors : Text → List ValidationError
content_errors content =
    if is_empty content then [] else error "content" "plaintext_not_allowed" ∷ []

abbrev pub ciphertext_errors : Text → List ValidationError
ciphertext_errors ciphertext =
    if is_empty ciphertext then error "ciphertext" "empty_ciphertext" ∷ [] else []

abbrev pub burn_errors : Option Bool → List ValidationError
burn_errors (some false) = error "burnAfterRead" "burn_after_read_required" ∷ []
burn_errors _ = []

-- `ValidateCreateSecretRequest`: the errors, in their order; none is `nil`.
unfoldable pub validate_create_secret_request : CreateSecretRequest → List ValidationError
validate_create_secret_request req =
    ttl_errors req
    ++ (content_errors req.content
        ++ (ciphertext_errors req.ciphertext
            ++ (burn_errors req.burn_after_read ++ sealed_errors req)))

-- What the server reads of the JSON that `createSecret` of frontend/web-app/src/lib/api.ts posts: the strings in
-- UTF-8.
unfoldable pub received : Requests.CreateSecretRequest → CreateSecretRequest
received request = record {
  content = [];
  ciphertext = encode request.ciphertext;
  nonce = encode request.nonce;
  algorithm = encode request.algorithm;
  ttl_seconds = request.ttl_seconds;
  expires_in_minutes = 0;
  burn_after_read = none;
}
