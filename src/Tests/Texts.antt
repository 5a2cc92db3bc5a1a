-- ===== src/Tests/Texts.antt =====
-- utf8.ts, the base64url functions of crypto.ts, and secretLink.ts.
use secret_letter.Prelude.{
  ℕ, ◌*◌, ◌/◌, ◌≡◌, ◌⊎◌, refl, [], ◌∷◌, List, true, false, arith, All, length,
}
use secret_letter.Prelude.Results.{ok, throw}
use secret_letter.Errors.{base64url_decode_error}
use secret_letter.Text.{
  replace_all, Text, units, chars, code_point_at0, is_space, trim, index_of, slice_to, slice_from,
}
use secret_letter.Utf8.{utf8_byte_length_for_code_point, get_utf8_byte_length, clamp_utf8_text}
use secret_letter.Utf8.Encoder.{encode, encode_char, IsByte, get_utf8_byte_length-encode}
use secret_letter.Utf8.Decoder.{decode}
use secret_letter.Prelude.{◌≤◌, ◌<◌}
use secret_letter.Utf8.Laws.{Kept, Cut, clamp_utf8_text_longest}
use secret_letter.Base64Url.{encode_base64_url, decode_base64_url, is_malformed, is_base64_url_char}
use secret_letter.Base64Url.Platform.{btoa, sextets, padding, base64_char}
use secret_letter.Base64Url.RoundTrip.{decode-encode, decode_base64_url_total}
use secret_letter.SecretLink.{split_secret_link}

-- "a😀b", the text of utf8.test.ts: the second character is a surrogate pair.
abbrev smile : Text
smile = b'a' ∷ 0xd83d ∷ 0xde00 ∷ b'b' ∷ []

clamp_smile :
    clamp_utf8_text smile 5
    ≡ record { text = b'a' ∷ 0xd83d ∷ 0xde00 ∷ []; byte_length = 5; truncated = true }
unfolding clamp_utf8_text chars code_point_at0 utf8_byte_length_for_code_point
clamp_smile = refl

clamp_nothing :
    clamp_utf8_text (units "abc") 0 ≡ record { text = []; byte_length = 0; truncated = true }
unfolding clamp_utf8_text
clamp_nothing = refl

get_utf8_byte_length-encode_example : get_utf8_byte_length smile ≡ length (encode smile)
get_utf8_byte_length-encode_example = get_utf8_byte_length-encode smile

clamp_utf8_text_longest_example :
    let r = clamp_utf8_text smile 5 in
    (get_utf8_byte_length smile ≤ 5 → Kept smile 5)
    × (5 < get_utf8_byte_length smile → Cut smile 5)
    × (r.byte_length ≡ get_utf8_byte_length r.text)
    × (r.byte_length ≤ 5)
clamp_utf8_text_longest_example = clamp_utf8_text_longest smile 5

-- The bytes of "é😀" and back, and a byte order mark that is lost.
decode_smile : decode (encode (0xe9 ∷ 0xd83d ∷ 0xde00 ∷ [])) ≡ 0xe9 ∷ 0xd83d ∷ 0xde00 ∷ []
unfolding decode encode encode_char chars code_point_at0
decode_smile = refl

decode_bom : decode (encode (0xfeff ∷ b'a' ∷ [])) ≡ b'a' ∷ []
unfolding decode encode encode_char chars code_point_at0
decode_bom = refl

encode_bytes : encode_base64_url (0xfb ∷ 0xff ∷ 0xfe ∷ 1 ∷ []) ≡ units "-__-AQ"
unfolding encode_base64_url btoa sextets padding base64_char replace_all
encode_bytes = refl

decode_short : decode_base64_url (units " a ") ≡ throw base64url_decode_error
unfolding decode_base64_url trim is_space is_base64_url_char
decode_short = refl

decode-encode_example : decode_base64_url (encode_base64_url (0xfb ∷ 1 ∷ [])) ≡ ok (0xfb ∷ 1 ∷ [])
decode-encode_example = decode-encode (0xfb ∷ 1 ∷ []) (omega arith) (λ e. cc)

decode_base64_url_total_example :
    (is_malformed (trim (units "AQ")) ≡ true)
      × (decode_base64_url (units "AQ") ≡ throw base64url_decode_error)
    ⊎ ((is_malformed (trim (units "AQ")) ≡ false)
        × ((bytes : List ℕ) × (decode_base64_url (units "AQ") ≡ ok bytes)
            × (length bytes ≡ length (trim (units "AQ")) * 3 / 4)
            × All IsByte bytes))
decode_base64_url_total_example = decode_base64_url_total (units "AQ")

abbrev link : Text
link = units "  https://secret.example/s/demo#key "

split_link : split_secret_link link ≡ record {
  full_link = units "https://secret.example/s/demo#key";
  public_url = units "https://secret.example/s/demo";
  fragment_key = units "key";
}
unfolding split_secret_link trim is_space index_of slice_to slice_from
split_link = refl
