-- ===== src/EndToEnd/Accepted.antt =====
-- What the form of CreateSecretForm.tsx posts, before the validation of backend/internal/secret/validation.go.
use secret_letter.Prelude.{
  ℕ, ◌≤◌, ◌≡◌, ◌≢◌, inl, refl, ap, ap₂, ◌++◌, List, [], ◌∷◌, true, false, arith, All, all,
  and-eq-true, length,
}
use secret_letter.Prelude.Results.{ok}
use secret_letter.Text.{Text, units, text_eq, chars, is_lead, code_point_at0}
use secret_letter.Text.Chars.{chars_single}
use secret_letter.Utf8.Encoder.{
  IsByte, encode, encode_scalar, scalar, encode_char, get_utf8_byte_length-encode,
}
use secret_letter.Base64Url.{encode_base64_url, is_base64_url_char}
use secret_letter.Base64Url.RoundTrip.{encode_base64_url_shape, length_pos}
use secret_letter.Crypto.{generate_key}
use secret_letter.Platform.{Platform}
use secret_letter.Platform.Steps.{>>=-inverse}
use secret_letter.Platform.Laws.{IsWebCrypto, IsTagged}
use secret_letter.CreateSecretForm.{FormState, initial_form}
use secret_letter.CreateSecretForm.Link.{Sealed, sealed_with, seal_under, seal}
use secret_letter.CreateSecretForm.Laws.{IsTtl, Reach, Reach-FormInv}
use secret_letter.Backend.Validation.{validate_create_secret_request, received}
use secret_letter.Backend.Validation.Rules.{
  IsAllowed, validate-IsAllowed, decoded_length-sixteen, decoded_length-twelve,
}
use secret_letter.EndToEnd.{seal_under_parts}

digit_alone :
    (c : ℕ) → is_base64_url_char c ≡ true → (encode_char (c ∷ []) ≡ c ∷ []) × (is_lead c ≡ false)
unfolding is_base64_url_char encode_char encode_scalar scalar code_point_at0
digit_alone c h = (ground arith, ground arith)

-- Base64url is its own UTF-8.
pub encode-digits : (s : Text) → all is_base64_url_char s ≡ true → encode s ≡ s
unfolding encode
encode-digits [] h = unfold chars in refl
encode-digits (c ∷ []) h =
    let (own, later) = and-eq-true (is_base64_url_char c) true h in
    unfold chars in ap (λ bytes. bytes ++ []) (digit_alone c own).0
encode-digits (c ∷ d ∷ s) h =
    let (own, later) = and-eq-true (is_base64_url_char c) (all is_base64_url_char (d ∷ s)) h in
    let (bytes, alone) = digit_alone c own in
    rw (chars_single c d s (rw alone refl))
      (ap₂ (λ x y. x ++ y) bytes (encode-digits (d ∷ s) later))

form_algorithm : text_eq (encode (units "AES-GCM")) (units "AES-GCM") ≡ true
unfolding text_eq encode chars encode_char encode_scalar scalar code_point_at0
form_algorithm = refl

full_code : (bytes : List ℕ) → All IsByte bytes → bytes ≢ [] → encode_base64_url bytes ≢ []
full_code bytes h full e =
    absurd (omega (arith, (encode_base64_url_shape bytes h).1, length_pos bytes full, ap length e))

module _ (p : Platform) (laws : IsWebCrypto p) (tagged : IsTagged p) where
  sealed-IsAllowed :
      (ttl : ℕ) (key : p.Key) (nonce ciphertext : List ℕ)
      → All IsByte nonce
      → length nonce ≡ 12
      → All IsByte ciphertext
      → ciphertext ≢ []
      → length ciphertext ≤ 10256
      → IsTtl ttl
      → IsAllowed (received (sealed_with p key nonce ttl ciphertext).request)
  unfolding received sealed_with
  sealed-IsAllowed ttl key nonce ciphertext nb nl cb cf small t =
      let (nd, ns) = encode_base64_url_shape nonce nb in
      let (cd, cs) = encode_base64_url_shape ciphertext cb in
      let sent = encode-digits (encode_base64_url ciphertext) cd in
      let once = encode-digits (encode_base64_url nonce) nd in
      record {
        limited = inl t;
        no_plaintext = refl;
        sealed = rw sent (full_code ciphertext cb cf);
        burns = λ e. cc;
        algorithm = form_algorithm;
        small = rw sent (omega (arith, cs, small));
        nonce = rw once (
            (decoded_length-twelve (encode_base64_url nonce)).0
              (decoded_length-sixteen (encode_base64_url nonce) nd (omega (arith, ns, nl))));
      }

  -- Whatever the user did on the form, the server finds no error in the request that it posts: on a platform that
  -- keeps the documented laws of Web Crypto, the tag of AES-GCM included, the request that is sealed from any
  -- reachable state of the form keeps to every rule of the endpoint.
  pub Reach-accepted :
      {s : FormState}
      → Reach initial_form s
      → (w w1 : p.World) (x : Sealed p) → seal p s.plaintext s.ttl w ≡ (w1, ok x)
      → validate_create_secret_request (received x.request) ≡ []
  unfolding seal
  Reach-accepted {s} r w w1 x sealing =
      let inv = Reach-FormInv r in
      let (wk, key, made, under) =
        >>=-inverse (generate_key p) (seal_under p s.plaintext s.ttl) w sealing in
      let (nonce, ciphertext, same, encrypted, bytes, count) =
        seal_under_parts p laws s.plaintext s.ttl key wk w1 x under in
      let (cb, cf) = laws.encrypt_bytes key nonce (encode s.plaintext) ciphertext encrypted in
      let long = tagged key nonce (encode s.plaintext) ciphertext encrypted in
      (validate-IsAllowed (received x.request)).1 (
        rw same (
          sealed-IsAllowed s.ttl key nonce ciphertext bytes count cb cf
            (omega (arith, inv.counted, inv.within, get_utf8_byte_length-encode s.plaintext, long))
            inv.chosen))
