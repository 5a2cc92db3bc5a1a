-- ===== src/EndToEnd/Served/Publishing.antt =====
-- The form over the server: a text is sealed, posted and kept under the token of the link.
use secret_letter.Prelude.{
  ℕ, ◌<◌, ◌≡◌, ◌≢◌, refl, ap, ◌∙◌, List, ◌∷◌, ◌++◌, Option, none, true, false, arith, All,
  All-weaken, All-append, all→All,
}
use secret_letter.Prelude.Results.{Result, ok}
use secret_letter.Errors.{Thrown}
use secret_letter.Text.{Text, is_space}
use secret_letter.Utf8.Encoder.{encode}
use secret_letter.Utf8.Bytes.{encode-bytes}
use secret_letter.Base64Url.{encode_base64_url, is_base64_url_char}
use secret_letter.Crypto.{
  generate_key, generate_nonce, encrypt_secret, export_key_to_base64_url,
  import_key_from_base64_url,
}
use secret_letter.Platform.{Platform}
use secret_letter.Platform.Steps.{>>=-step}
use secret_letter.Platform.Laws.{IsWebCrypto, IsTagged, IsAvailable}
use secret_letter.SecretLink.{split_secret_link}
use secret_letter.SecretLink.Laws.{NoHash}
use secret_letter.RevealPage.{is_valid_fragment_key_format}
use secret_letter.Api.Requests.{create_secret}
use secret_letter.CreateSecretForm.{FormState, initial_form}
use secret_letter.CreateSecretForm.Laws.{Reach, Reach-FormInv}
use secret_letter.CreateSecretForm.Link.{
  Sealed, sealed_with, sealed_result, seal, seal_under, base_url, make_link,
}
use secret_letter.EndToEnd.Accepted.{Reach-accepted}
use secret_letter.EndToEnd.Links.{make_link-import, solid_char}
use secret_letter.Backend.Secrets.{Runtime, Draw}
use secret_letter.Backend.Secrets.Calls.{IsDrawn, Keeps}
use secret_letter.EndToEnd.Served.{Net, served}
use secret_letter.EndToEnd.Served.Letter.{IsDigits, drawn-IsDigits, letter_of, create_secret-letter}
use secret_letter.EndToEnd.Served.Pages.{served-IsWebCrypto, sealed-IsDigits}

digit_no_hash : (c : ℕ) → is_base64_url_char c ≡ true → c ≢ b'#'
unfolding is_base64_url_char
digit_no_hash c h = ground arith

module _ (p : Platform) (laws : IsWebCrypto p) (works : IsAvailable p) where
  exported_key :
      (key : p.Key) (raw : List ℕ)
      → p.export_raw key ≡ ok raw
      → export_key_to_base64_url p key ≡ ok (encode_base64_url raw)
  unfolding export_key_to_base64_url
  exported_key key raw h = rw h refl

  under-ok :
      (plaintext : Text) (ttl : ℕ) (key : p.Key) (w : p.World) (ciphertext : List ℕ)
      → p.encrypt key (p.random_values 12 w).1 (encode plaintext) ≡ ok ciphertext
      → (seal_under p plaintext ttl key w).1
        ≡ ok (sealed_with p key (p.random_values 12 w).1 ttl ciphertext)
  unfolding seal_under sealed_result encrypt_secret generate_nonce
  under-ok plaintext ttl key w ciphertext h = rw h refl

  -- Sealing goes well.
  pub seal-ok :
      (plaintext : Text) (ttl : ℕ) (w : p.World)
      → All (λ u. u < 0x10000) plaintext
      → (s : Sealed p) × (link_key : Text) × ((seal p plaintext ttl w).1 ≡ ok s)
        × (export_key_to_base64_url p s.key ≡ ok link_key)
  unfolding seal generate_key sealed_with
  seal-ok plaintext ttl w small =
      let (key, raw, made, exported) = works.generates w in
      let w1 = (p.generate_key w).0 in
      let nonce = (p.random_values 12 w1).1 in
      let (ciphertext, encrypted) =
        works.encrypts key nonce (encode plaintext) (laws.random_bytes 12 w1).1
          (encode-bytes plaintext small) in
      (
        sealed_with p key nonce ttl ciphertext,
        encode_base64_url raw,
        ap (λ (q : p.World × Result Thrown (Sealed p)). q.1)
              (>>=-step (generate_key p) (seal_under p plaintext ttl) (ap (λ r. (w1, r)) made))
            ∙ under-ok plaintext ttl key w1 ciphertext encrypted,
        exported_key key raw exported,
      )

pub served-IsAvailable :
    (p : Platform) (runtime : Runtime) (draws : ℕ → Draw) (env : Option Text)
    → IsAvailable p
    → IsAvailable (served p runtime draws env)
served-IsAvailable p runtime draws env works = record {
  generates = λ w. works.generates w.browser;
  encrypts = works.encrypts;
}

-- A place from which links are made.
abbrev pub IsOrigin : Text → Type 0
IsOrigin origin = NoHash origin × All (λ c. is_space c ≡ false) origin

slash_no_hash : ◌≢◌ {A = ℕ} b'/' b'#'
slash_no_hash e = omega (arith, e)

slash_solid : is_space b'/' ≡ false
unfolding is_space
slash_solid = refl

token_clean : (token : Text) → IsDigits token → NoHash (b'/' ∷ token)
token_clean token digits = (
  slash_no_hash,
  All-weaken (λ c. is_base64_url_char c ≡ true) (λ c. c ≢ b'#') digit_no_hash token
      (all→All is_base64_url_char token digits),
)

token_bare : (token : Text) → IsDigits token → All (λ c. is_space c ≡ false) (b'/' ∷ token)
token_bare token digits = (
  slash_solid,
  All-weaken (λ c. is_base64_url_char c ≡ true) (λ c. is_space c ≡ false) solid_char token
      (all→All is_base64_url_char token digits),
)

pub link_start :
    (origin token : Text) → IsOrigin origin → IsDigits token → IsOrigin (origin ++ b'/' ∷ token)
link_start origin token (clean, bare) digits = (
  All-append (λ c. c ≢ b'#') origin (b'/' ∷ token) clean (token_clean token digits),
  All-append (λ c. is_space c ≡ false) origin (b'/' ∷ token) bare (token_bare token digits),
)

module _ (p : Platform) (laws : IsWebCrypto p) (works : IsAvailable p) (tagged : IsTagged p)
    (runtime : Runtime) (draws : ℕ → Draw) (env : Option Text) (origin : Text) where
  abbrev net : Platform
  net = served p runtime draws env

  -- The form makes a link from whatever it can hold.
  pub publishes :
      {form : FormState}
      → Reach initial_form form
      → (w : Net p.World) → All (λ u. u < 0x10000) form.plaintext
      → IsOrigin origin
      → ((turn : ℕ) → IsDrawn (draws turn).token_bytes)
      → (v : Net p.World) (s : Sealed net) (link_key : Text)
      → seal net form.plaintext form.ttl w ≡ (v, ok s)
      → export_key_to_base64_url net s.key ≡ ok link_key
      → let draw = draws v.turn in
        let token = encode_base64_url draw.token_bytes in
        let url = origin ++ b'/' ∷ token in
        let r = make_link net env none origin form.plaintext form.ttl w in
        (r.1 ≡ ok (url ++ b'#' ∷ link_key))
        × Keeps runtime token (letter_of p runtime draws env draw.now s.request) r.0.redis
        × (split_secret_link (url ++ b'#' ∷ link_key) ≡ record {
          full_link = url ++ b'#' ∷ link_key;
          public_url = url;
          fragment_key = link_key;
        })
        × (is_valid_fragment_key_format link_key ≡ true)
        × (import_key_from_base64_url net link_key ≡ ok s.key)
  unfolding base_url
  publishes {form} reach w small place drawn v s link_key sealing exported =
      let draw = draws v.turn in
      let token = encode_base64_url draw.token_bytes in
      let net_laws = served-IsWebCrypto p runtime draws env laws in
      let (c, n, same) = sealed-IsDigits net net_laws form.plaintext form.ttl w v s sealing in
      let valid = Reach-accepted net net_laws tagged reach w v s sealing in
      let ((fields, answers, named), kept, turn) =
        create_secret-letter p runtime draws env s.request v (drawn v.turn)
          (rw same (Reach-FormInv reach).chosen) valid in
      let w2 = (create_secret net env s.request v).0 in
      let (digits, full) = drawn-IsDigits draw.token_bytes (drawn v.turn) in
      let (clean, bare) = link_start origin token place digits in
      let (made, split, formed, imported) =
        make_link-import net net_laws env none origin form.plaintext form.ttl w v w2 s link_key
          fields sealing (ap (λ r. (w2, r)) answers) exported (rw named clean) (rw named bare) in
      rw made (rw named refl, kept, rw named at split, formed, imported)
