-- ===== src/Utf8/Encoder.antt =====
-- The language's `TextEncoder`, written after the Encoding Standard and independent of utf8.ts: a
-- surrogate without its partner is encoded as U+FFFD.
use secret_letter.Prelude.{
  ℕ, ◌+◌, ◌/◌, ◌%◌, ◌<◌, ◌≡◌, List, [], ◌∷◌, ◌||◌, ltb, if◌then◌else◌, length, length-append,
  flat_map, arith,
}
use secret_letter.Text.{Text, chars, code_point_at0, is_lead, is_trail}
use secret_letter.Utf8.{utf8_byte_length_for_code_point, byte_length_loop, get_utf8_byte_length}

abbrev pub IsByte : ℕ → Type 0
IsByte b = b < 256

-- The scalar value of a character: what is left of a lone surrogate is U+FFFD.
unfoldable pub scalar : ℕ → ℕ
scalar c = if is_lead c || is_trail c then 0xfffd else c

unfoldable pub encode_scalar : ℕ → List ℕ
encode_scalar c =
    if ltb c 0x80
    then c ∷ []
    else if ltb c 0x800
    then (0xc0 + c / 64) ∷ (0x80 + c % 64) ∷ []
    else if ltb c 0x10000
    then (0xe0 + c / 4096) ∷ (0x80 + c / 64 % 64) ∷ (0x80 + c % 64) ∷ []
    else (0xf0 + c / 262144) ∷ (0x80 + c / 4096 % 64) ∷ (0x80 + c / 64 % 64) ∷ (0x80 + c % 64) ∷ []

unfoldable pub encode_char : Text → List ℕ
unfolding encode_scalar scalar code_point_at0
encode_char char = encode_scalar (scalar (code_point_at0 char))

unfoldable pub encode : Text → List ℕ
encode text = flat_map encode_char (chars text)

length-encode_scalar :
    (c : ℕ) → length (encode_scalar (scalar c)) ≡ utf8_byte_length_for_code_point c
unfolding encode_scalar scalar utf8_byte_length_for_code_point
length-encode_scalar c = ground arith

length-encode_char :
    (char : Text)
    → length (encode_char char) ≡ utf8_byte_length_for_code_point (code_point_at0 char)
unfolding encode_char
length-encode_char char = unfold encode_char in length-encode_scalar (code_point_at0 char)

byte_length_loop-encode :
    (bytes : ℕ) (cs : List Text)
    → byte_length_loop bytes cs ≡ bytes + length (flat_map encode_char cs)
unfolding byte_length_loop
byte_length_loop-encode bytes [] = omega arith
byte_length_loop-encode bytes (c ∷ cs) = omega (
  arith,
  byte_length_loop-encode (bytes + utf8_byte_length_for_code_point (code_point_at0 c)) cs,
  length-encode_char c,
  length-append (encode_char c) (flat_map encode_char cs),
)

-- The count is the number of bytes that `TextEncoder` gives, on every text, lone surrogates
-- included.
pub get_utf8_byte_length-encode : (text : Text) → get_utf8_byte_length text ≡ length (encode text)
unfolding get_utf8_byte_length encode
get_utf8_byte_length-encode text = omega (arith, byte_length_loop-encode 0 (chars text))
