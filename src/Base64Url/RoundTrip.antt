-- ===== src/Base64Url/RoundTrip.antt =====
-- Encoding and decoding bytes as base64url.
use secret_letter.Prelude.{
  ℕ, ◌+◌, ◌*◌, ◌/◌, ◌%◌, ◌<◌, ◌≡◌, ◌≢◌, refl, ap, ◌∙◌, List, [], ◌∷◌, map, true, false, arith, All,
  some, all, length, ◌⊎◌, inl, inr, Bool-cases, length-map, ==-ne, All-map, All-weaken, All→all,
}
use mathlib.Core.List.{append-nil, map-append}
use secret_letter.Prelude.Results.{ok, throw}
use secret_letter.Errors.{base64url_decode_error}
use secret_letter.Text.{Text, is_space, trim, replace_all}
use secret_letter.Text.Trim.{trim_of_solid}
use secret_letter.Utf8.Encoder.{IsByte}
use secret_letter.Base64Url.{
  encode_base64_url, decode_base64_url, is_malformed, is_base64_url_char, to_base64,
}
use secret_letter.Base64Url.Platform.{base64_char, sextets, octets, padding, values, btoa}
use secret_letter.Base64Url.Alphabet.{
  IsSextet, swap, url_char, url_char_lem, swap-url_char, replace_all-map, replace_all-append,
  replace_all-absent,
}
use secret_letter.Base64Url.Values.{
  sextets-IsSextet, octets-sextets, length-octets, octets-IsByte, length-sextets, values-map,
  values_of_url,
}
use secret_letter.Base64Url.Padding.{atob-pad}

map-map : (f g : ℕ → ℕ) (s : Text) → map f (map g s) ≡ map (λ u. f (g u)) s
map-map f g [] = refl
map-map f g (u ∷ s) = ap (λ t. f (g u) ∷ t) (map-map f g s)

map-eq : (f g : ℕ → ℕ) (s : Text) → All (λ u. f u ≡ g u) s → map f s ≡ map g s
map-eq f g [] h = refl
map-eq f g (u ∷ s) (h, hs) = cc (map-eq f g s hs)

-- The padding is `=` alone, and is removed.
no_padding :
    (bytes : List ℕ)
    → replace_all b'=' [] (map (swap b'/' b'_') (map (swap b'+' b'-') (padding bytes))) ≡ []
unfolding padding replace_all
no_padding [] = refl
no_padding (a ∷ []) = refl
no_padding (a ∷ b ∷ []) = refl
no_padding (a ∷ b ∷ c ∷ bytes) = no_padding bytes

-- A value's character after the encoder's replacements, over a list of values.
url_chars :
    (vs : List ℕ)
    → All IsSextet vs
    → replace_all b'=' [] (map (swap b'/' b'_') (map (swap b'+' b'-') (map base64_char vs)))
      ≡ map url_char vs
unfolding url_char
url_chars vs h =
    ap (replace_all b'=' []) (
      ap (map (swap b'/' b'_')) (map-map (swap b'+' b'-') base64_char vs)
      ∙ map-map (swap b'/' b'_') (λ v. swap b'+' b'-' (base64_char v)) vs)
    ∙ replace_all-absent b'=' [] (map url_char vs) (
        All-map (λ u. u ≢ b'=') url_char vs
          (All-weaken IsSextet _ (λ v k. (url_char_lem v k).2) vs h))

-- The encoder writes one base64url character for each value of six bits.
pub encode_base64_url-sextets :
    (bytes : List ℕ) → All IsByte bytes → encode_base64_url bytes ≡ map url_char (sextets bytes)
unfolding encode_base64_url btoa
encode_base64_url-sextets bytes h =
    simp (replace_all-map, map-append, replace_all-append, no_padding, append-nil)
      (url_chars (sextets bytes) (sextets-IsSextet bytes h))

-- The text in the base64 alphabet.
to_base64-map : (input : Text) → to_base64 input ≡ map (swap b'_' b'/') (map (swap b'-' b'+') input)
unfolding to_base64
to_base64-map input = simp replace_all-map

length-to_base64 : (input : Text) → length (to_base64 input) ≡ length input
length-to_base64 input =
    ap length (to_base64-map input)
    ∙ length-map (swap b'_' b'/') (map (swap b'-' b'+') input)
    ∙ length-map (swap b'-' b'+') input

-- What the guard lets pass.
is_malformed_parts :
    (input : Text)
    → is_malformed input ≡ false
    → (input ≢ []) × (all is_base64_url_char input ≡ true) × (length input % 4 ≢ 1)
unfolding is_malformed
is_malformed_parts [] h = ground arith
is_malformed_parts (c ∷ input) h = ((λ e. cc), ground arith, ground arith)

decode_of_values :
    (s : Text) (vs : List ℕ)
    → is_malformed (trim s) ≡ false
    → values (to_base64 (trim s)) ≡ some vs
    → decode_base64_url s ≡ ok (octets vs)
unfolding decode_base64_url
decode_of_values s vs good v =
    let (full, chars, n) = is_malformed_parts (trim s) good in
    let m : length (to_base64 (trim s)) % 4 ≢ 1 = rw (length-to_base64 (trim s)) n in
    rw (good, atob-pad (to_base64 (trim s)) vs v m)

-- Whatever the text, `decodeBase64Url` throws the decode error exactly when its guard rejects the
-- trimmed text; otherwise it gives bytes, three for each four characters, rounded down.
pub decode_base64_url_total :
    (s : Text)
    → (is_malformed (trim s) ≡ true) × (decode_base64_url s ≡ throw base64url_decode_error)
      ⊎ ((is_malformed (trim s) ≡ false)
          × ((bytes : List ℕ) × (decode_base64_url s ≡ ok bytes)
              × (length bytes ≡ length (trim s) * 3 / 4)
              × All IsByte bytes))
unfolding decode_base64_url
decode_base64_url_total s = elim (Bool-cases (is_malformed (trim s))) [
  | inl bad ↦ inl (bad, rw bad)
  | inr good ↦
      let (full, chars, n) = is_malformed_parts (trim s) good in
      let (vs, e, small, count) = values_of_url (trim s) chars in
      let e' : values (to_base64 (trim s)) ≡ some vs = rw to_base64-map e in
      inr (
        good,
        (
          octets vs,
          decode_of_values s vs good e',
          rw (← count) (length-octets vs),
          octets-IsByte vs small,
        ),
      )
]

-- The characters that the encoder writes, and how many.
encoded :
    (bytes : List ℕ)
    → All IsByte bytes
    → (length (encode_base64_url bytes) ≡ (length bytes * 4 + 2) / 3)
      × All (λ c. is_space c ≡ false) (encode_base64_url bytes)
      × (all is_base64_url_char (encode_base64_url bytes) ≡ true)
encoded bytes h =
    let vs = sextets bytes in
    let small = sextets-IsSextet bytes h in
    rw (encode_base64_url-sextets bytes h) (
      length-map url_char vs ∙ length-sextets bytes,
      All-map (λ c. is_space c ≡ false) url_char vs
          (All-weaken IsSextet _ (λ v k. (url_char_lem v k).1) vs small),
      All→all is_base64_url_char (map url_char vs) (
          All-map (λ c. is_base64_url_char c ≡ true) url_char vs
            (All-weaken IsSextet _ (λ v k. (url_char_lem v k).0) vs small)),
    )

-- The encoding is written in the URL-safe alphabet without padding: four characters for each three
-- bytes, rounded up.
pub encode_base64_url_shape :
    (bytes : List ℕ)
    → All IsByte bytes
    → (all is_base64_url_char (encode_base64_url bytes) ≡ true)
      × (length (encode_base64_url bytes) ≡ (length bytes * 4 + 2) / 3)
encode_base64_url_shape bytes h = let (n, solid, chars) = encoded bytes h in (chars, n)

not_malformed :
    (s : Text)
    → 0 < length s
    → all is_base64_url_char s ≡ true
    → length s % 4 ≢ 1
    → is_malformed s ≡ false
unfolding is_malformed
not_malformed [] h k n = elim h [ ]
not_malformed (c ∷ s) h k n = rw (k, ==-ne _ 1 n)

pub length_pos : (bytes : List ℕ) → bytes ≢ [] → 0 < length bytes
length_pos [] h = absurd (h refl)
length_pos (b ∷ bytes) h = omega arith

encode-well_formed :
    (bytes : List ℕ)
    → All IsByte bytes
    → bytes ≢ []
    → is_malformed (trim (encode_base64_url bytes)) ≡ false
encode-well_formed bytes h full =
    let (n, solid, chars) = encoded bytes h in
    rw (trim_of_solid _ solid)
      (not_malformed _ (omega (arith, length_pos bytes full)) chars (omega arith))

-- Decoding an encoding gives the bytes back, for any but the empty list of bytes.
pub decode-encode :
    (bytes : List ℕ)
    → All IsByte bytes
    → bytes ≢ []
    → decode_base64_url (encode_base64_url bytes) ≡ ok bytes
decode-encode bytes h full =
    let vs = sextets bytes in
    let (n, solid, chars) = encoded bytes h in
    decode_of_values (encode_base64_url bytes) vs (encode-well_formed bytes h full) (
      ap values (
        ap to_base64 (trim_of_solid _ solid ∙ encode_base64_url-sextets bytes h)
        ∙ to_base64-map (map url_char vs)
        ∙ ap (map (swap b'_' b'/')) (map-map (swap b'-' b'+') url_char vs)
        ∙ map-map (swap b'_' b'/') _ vs
        ∙ map-eq _ base64_char vs
            (All-weaken IsSextet _ swap-url_char vs (sextets-IsSextet bytes h)))
      ∙ values-map vs (sextets-IsSextet bytes h))
    ∙ ap ok (octets-sextets bytes h)
