-- ===== src/Utf8/Bytes.antt =====
-- What `TextEncoder` gives are bytes.
use secret_letter.Prelude.{
  ℕ, ◌<◌, List, [], ◌∷◌, ◌&&◌, arith, All, All-append, flat_map, Bool-cases, inl, inr,
}
use secret_letter.Text.{Text, chars, code_point_at0, is_lead, is_trail}
use secret_letter.Utf8.Encoder.{IsByte, encode, encode_char, encode_scalar, scalar}

abbrev IsUnit : ℕ → Type 0
IsUnit u = u < 0x10000

encode_scalar-bytes : (c : ℕ) → c < 0x110000 → All IsByte (encode_scalar (scalar c))
unfolding encode_scalar scalar
encode_scalar-bytes c h = ground arith

code_point_small : (char : Text) → All IsUnit char → code_point_at0 char < 0x110000
unfolding code_point_at0
code_point_small [] h = omega arith
code_point_small (u ∷ []) (a, h) = omega (arith, a)
code_point_small (u ∷ v ∷ char) (a, (b, h)) = ground arith

chars_small : (text : Text) → All IsUnit text → All (All IsUnit) (chars text)
unfolding chars
chars_small [] h = tt
chars_small (u ∷ []) (a, h) = ((a, tt), tt)
chars_small (u ∷ v ∷ text) (a, (b, h)) = elim (Bool-cases (is_lead u && is_trail v)) [
  | inl pair ↦ rw pair ((a, (b, tt)), chars_small text h)
  | inr single ↦ rw single ((a, tt), chars_small (v ∷ text) (b, h))
]

encode_chars-bytes : (cs : List Text) → All (All IsUnit) cs → All IsByte (flat_map encode_char cs)
encode_chars-bytes [] h = tt
encode_chars-bytes (c ∷ cs) (own, later) =
    All-append IsByte (encode_char c) (flat_map encode_char cs)
      (unfold encode_char in encode_scalar-bytes (code_point_at0 c) (code_point_small c own))
      (encode_chars-bytes cs later)

pub encode-bytes : (text : Text) → All (λ u. u < 0x10000) text → All IsByte (encode text)
unfolding encode
encode-bytes text h = encode_chars-bytes (chars text) (chars_small text h)
