-- ===== src/E2e/Flow/Texts.antt =====
-- The texts that the script writes can be held by the form and shown by the page.
use secret_letter.Prelude.{
  ℕ, zero, suc, ◌+◌, ◌%◌, ◌/◌, ◌<◌, ◌≤◌, ◌≡◌, refl, [], ◌∷◌, false, arith, All, All-weaken, length,
  length-append, is_empty, ltb, Bool-cases, inl, inr, flat_map,
}
use secret_letter.Text.{
  Text, chars, code_point_at0, is_lead, is_space, trim, trim_start, trim_end, decimal, decimal_loop,
}
use secret_letter.Text.Chars.{chars_single}
use secret_letter.Utf8.Encoder.{
  encode, encode_char, encode_scalar, scalar, get_utf8_byte_length-encode,
}
use secret_letter.Utf8.RoundTrip.{IsWhole, without_bom}
use secret_letter.E2e.Flow.{secret_text_of, guard_text_of}
use secret_letter.E2e.Flow.Created.{IsSecretText}

abbrev IsAscii : Text → Type 0
IsAscii = All (λ c. c < 128)

ascii_char : (c : ℕ) → c < 128 → IsWhole (c ∷ []) × (is_lead c ≡ false)
unfolding code_point_at0
ascii_char c h = (ground arith, ground arith)

ascii_chars : (s : Text) → IsAscii s → All IsWhole (chars s)
ascii_chars [] h = unfold chars in tt
ascii_chars (c ∷ []) (a, h) = unfold chars in ((ascii_char c a).0, tt)
ascii_chars (c ∷ d ∷ s) (a, h) =
    let (whole, alone) = ascii_char c a in
    rw (chars_single c d s (rw alone refl)) (whole, ascii_chars (d ∷ s) h)

ascii_width : (c : ℕ) → c < 128 → length (encode_char (c ∷ [])) ≡ 1
unfolding encode_char encode_scalar scalar code_point_at0
ascii_width c h = ground arith

ascii_length : (s : Text) → IsAscii s → length (encode s) ≡ length s
unfolding encode
ascii_length [] h = unfold chars in refl
ascii_length (c ∷ []) (a, h) =
    unfold chars in omega (arith, ascii_width c a, length-append (encode_char (c ∷ [])) [])
ascii_length (c ∷ d ∷ s) (a, h) =
    let alone = (ascii_char c a).1 in
    rw (chars_single c d s (rw alone refl)) (
      omega (
        arith,
        ascii_width c a,
        ascii_length (d ∷ s) h,
        length-append (encode_char (c ∷ [])) (flat_map encode_char (chars (d ∷ s))),
      ))

trim_full : (c : ℕ) (s : Text) → is_space c ≡ false → is_empty (trim (c ∷ s)) ≡ false
unfolding trim trim_start trim_end
trim_full c s h = ground (arith, h)

ascii_text :
    (c : ℕ) (s : Text)
    → is_space c ≡ false
    → IsAscii (c ∷ s)
    → length (c ∷ s) ≤ 10240
    → IsSecretText (c ∷ s)
unfolding without_bom
ascii_text c s solid (a, h) short = record {
  well = (
    All-weaken (λ u. u < 128) (λ u. u < 0x10000) (λ u k. omega (arith, k)) (c ∷ s) (a, h),
    ascii_chars (c ∷ s) (a, h),
  );
  fits = omega (arith, get_utf8_byte_length-encode (c ∷ s), ascii_length (c ∷ s) (a, h), short);
  full = trim_full c s solid;
  whole = ground arith;
}

decimal_digits :
    (fuel n : ℕ) (acc : Text)
    → IsAscii acc
    → IsAscii (decimal_loop fuel n acc) × (length (decimal_loop fuel n acc) ≤ fuel + length acc)
unfolding decimal_loop
decimal_digits zero n acc h = (h, omega arith)
decimal_digits (suc fuel) n acc h =
    let digit : 48 + n % 10 < 128 = ground arith in
    let (ascii, short) = decimal_digits fuel (n / 10) ((48 + n % 10) ∷ acc) (digit, h) in
    elim (Bool-cases (ltb n 10)) [
      | inl e ↦ rw e ((digit, h), omega arith)
      | inr e ↦ rw e (ascii, omega (arith, short))
    ]

decimal_good : (n : ℕ) → IsAscii (decimal n) × (length (decimal n) ≤ 20)
unfolding decimal
decimal_good n = decimal_digits 20 n [] tt

-- Whatever the date.
pub secret_text_of-good : (now : ℕ) → IsSecretText (secret_text_of now)
unfolding secret_text_of is_space
secret_text_of-good now =
    let (ascii, short) = decimal_good now in
    ascii_text b'E' _ refl (ground (arith, ascii)) (omega (arith, short))

pub guard_text_of-good : (now : ℕ) → IsSecretText (guard_text_of now)
unfolding guard_text_of is_space
guard_text_of-good now =
    let (ascii, short) = decimal_good now in
    ascii_text b'F' _ refl (ground (arith, ascii)) (omega (arith, short))
