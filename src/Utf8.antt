-- ===== src/Utf8.antt =====
-- frontend/web-app/src/lib/utf8.ts: counting and clamping a text by its UTF-8 bytes.
pub mod Bytes
pub mod Encoder
pub mod Decoder
pub mod RoundTrip
pub mod Clamp
pub mod Laws
use secret_letter.Prelude.{
  ℕ, ◌+◌, List, [], ◌∷◌, ◌++◌, Bool, true, false, leb, ltb, not, is_empty, if◌then◌else◌,
}
use secret_letter.Text.{Text, chars, code_point_at0}

unfoldable pub utf8_byte_length_for_code_point : ℕ → ℕ
utf8_byte_length_for_code_point code_point =
    if leb code_point 0x7f
    then 1
    else if leb code_point 0x7ff
    then 2
    else if leb code_point 0xffff
    then 3
    else 4

pub record Utf8ClampResult : Type 0 where
  pub text : Text
  pub byte_length : ℕ
  pub truncated : Bool

-- The loop of `getUtf8ByteLength`.
unfoldable pub byte_length_loop : ℕ → List Text → ℕ
byte_length_loop bytes [] = bytes
byte_length_loop bytes (char ∷ rest) =
    byte_length_loop (bytes + utf8_byte_length_for_code_point (code_point_at0 char)) rest

unfoldable pub get_utf8_byte_length : Text → ℕ
unfolding byte_length_loop
get_utf8_byte_length text = byte_length_loop 0 (chars text)

-- The loop of `clampUtf8Text`.
unfoldable pub clamp_loop : ℕ → ℕ → Text → List Text → Utf8ClampResult
clamp_loop max_bytes bytes clamped [] = record {
  text = clamped;
  byte_length = bytes;
  truncated = false;
}
clamp_loop max_bytes bytes clamped (char ∷ rest) =
    let char_bytes = utf8_byte_length_for_code_point (code_point_at0 char) in
    let more = clamp_loop max_bytes (bytes + char_bytes) (clamped ++ char) rest in
    if ltb max_bytes (bytes + char_bytes)
    then record { text = clamped; byte_length = bytes; truncated = true }
    else more

-- `maxBytes` is not negative where the source calls it.
unfoldable pub clamp_utf8_text : Text → ℕ → Utf8ClampResult
unfolding clamp_loop
clamp_utf8_text text max_bytes =
    if leb max_bytes 0
    then record { text = []; byte_length = 0; truncated = not (is_empty text) }
    else clamp_loop max_bytes 0 [] (chars text)
