-- ===== src/EndToEnd/Links.antt =====
-- The link that the form of CreateSecretForm.tsx shows: what stands in it, and what of it the server gets.

use secret_letter.Prelude.{
  ℕ, ◌≡◌, refl, ap, ◌∙◌, List, ◌∷◌, ◌++◌, true, false, Option, arith, All, all→All, All-weaken,
  length, ==_iff,
}
use secret_letter.Prelude.Results
use secret_letter.Prelude.Results.{Result, ok, throw}
use secret_letter.Errors.{Thrown}
use secret_letter.Text.{Text, is_space}
use secret_letter.Utf8.Encoder.{IsByte, encode}
use secret_letter.Base64Url.{encode_base64_url, is_base64_url_char}
use secret_letter.Base64Url.RoundTrip.{decode-encode, encode_base64_url_shape}
use secret_letter.Http.{JsonObject}
use secret_letter.Crypto.{
  generate_nonce, encrypt_secret, export_key_to_base64_url, import_key_from_base64_url,
}
use secret_letter.SecretLink.{split_secret_link}
use secret_letter.SecretLink.Laws.{NoHash, split_secret_link-append}
use secret_letter.Platform.{Platform, ◌>>=◌, lift, >>=-world}
use secret_letter.Platform.Steps.{>>=-step}
use secret_letter.Platform.Laws.{IsWebCrypto}
use secret_letter.Api.Requests.{create_secret}
use secret_letter.CreateSecretForm.Link.{
  Sealed, sealed_with, sealed_result, seal_under, seal, base_url, token_of, secret_link_of,
  link_result, publish, make_link,
}
use secret_letter.RevealPage.{is_valid_fragment_key_format}
use secret_letter.EndToEnd.{exported_parts, import-export_link}

pub solid_char : (c : ℕ) → is_base64_url_char c ≡ true → is_space c ≡ false
unfolding is_base64_url_char is_space
solid_char c h = ground arith

publish-key_unseen :
    (p : Platform) (api_env env : Option Text) (origin : Text) (a b : Sealed p) (w : p.World)
    → a.request ≡ b.request
    → (publish p api_env env origin a w).0 ≡ (publish p api_env env origin b w).0
unfolding publish
publish-key_unseen p api_env env origin a b w same =
    >>=-world (create_secret p api_env a.request) (λ r. lift (link_result p api_env env origin a r))
      (λ r. lift (link_result p api_env env origin b r)) (λ r w'. refl {a = w'}) w
    ∙ ap
        (λ q.
          (◌>>=◌ (create_secret p api_env q) (λ r. lift (link_result p api_env env origin b r))
            w).0)
        same

-- What follows `generateKey`: two keys that encrypt the text alike, under the nonce that is drawn, leave the same
-- world behind once the letter is sealed and published, whether or not this succeeds. So what reaches the server
-- depends on the key by nothing but the ciphertext.
pub seal_under-key_unseen :
    (p : Platform) (api_env env : Option Text) (origin plaintext : Text) (ttl : ℕ) (a b : p.Key)
    (w : p.World)
    → let nonce = (p.random_values 12 w).1 in
      p.encrypt a nonce (encode plaintext) ≡ p.encrypt b nonce (encode plaintext)
      → ((seal_under p plaintext ttl a >>= publish p api_env env origin) w).0
        ≡ ((seal_under p plaintext ttl b >>= publish p api_env env origin) w).0
unfolding seal_under sealed_result generate_nonce encrypt_secret sealed_with
seal_under-key_unseen p api_env env origin plaintext ttl a b w alike =
    same (p.encrypt a nonce (encode plaintext)) ∙ ap (λ r. (published b r).0) alike
  where
    nonce : List ℕ
    nonce = (p.random_values 12 w).1

    published : p.Key → Result Thrown (List ℕ) → p.World × Result Thrown Text
    published key r =
        (◌>>=◌ (lift (Results.◌>>=◌ r (λ c. ok (sealed_with p key nonce ttl c))))
            (publish p api_env env origin))
          (p.random_values 12 w).0

    same : (r : Result Thrown (List ℕ)) → (published a r).0 ≡ (published b r).0
    same (ok c) =
        publish-key_unseen p api_env env origin (sealed_with p a nonce ttl c)
          (sealed_with p b nonce ttl c) (p.random_values 12 w).0 refl
    same (throw e) = refl

module _ (p : Platform) (laws : IsWebCrypto p) where
  valid_encoded :
      (raw : List ℕ)
      → All IsByte raw
      → length raw ≡ 32
      → is_valid_fragment_key_format (encode_base64_url raw) ≡ true
  unfolding is_valid_fragment_key_format
  valid_encoded raw bytes count =
      rw
        (
          decode-encode raw bytes (λ e. absurd (omega (arith, ap length e))),
          is_valid_fragment_key_format,
        )
        ((==_iff _ _).1 count)

  pub exported_solid :
      (key : p.Key) (link_key : Text)
      → export_key_to_base64_url p key ≡ ok link_key
      → All (λ c. is_space c ≡ false) link_key × (is_valid_fragment_key_format link_key ≡ true)
  exported_solid key link_key h =
      let (raw, exported, written) = exported_parts p laws key link_key h in
      let (bytes, count, imported) = laws.import-export key raw exported in
      let url = (encode_base64_url_shape raw bytes).0 in
      rw written (
        All-weaken (λ c. is_base64_url_char c ≡ true) (λ c. is_space c ≡ false) solid_char
            (encode_base64_url raw) (all→All is_base64_url_char (encode_base64_url raw) url),
        valid_encoded raw bytes count,
      )

  shown_link :
      (api_env env : Option Text) (origin : Text) (s : Sealed p) (link_key : Text)
      (response : JsonObject)
      → export_key_to_base64_url p s.key ≡ ok link_key
      → link_result p api_env env origin s response
        ≡ ok ((base_url env origin ++ b'/' ∷ token_of response) ++ b'#' ∷ link_key)
  unfolding link_result secret_link_of
  shown_link api_env env origin s link_key response h = rw h refl

  -- On a platform that keeps the documented laws of Web Crypto: if the letter is sealed, the
  -- server answers, the key is exported, and neither the base of the link nor the token holds a
  -- `#` or whitespace, then the form makes a link, which `splitSecretLink` takes apart into the
  -- base with the token and the exported key; that key has the format that the reveal page asks
  -- for, and is imported as the key of the letter.
  pub make_link-import :
      (api_env env : Option Text) (origin plaintext : Text) (ttl : ℕ) (w w1 w2 : p.World)
      (s : Sealed p) (link_key : Text) (response : JsonObject)
      → seal p plaintext ttl w ≡ (w1, ok s)
      → create_secret p api_env s.request w1 ≡ (w2, ok response)
      → export_key_to_base64_url p s.key ≡ ok link_key
      → NoHash (base_url env origin ++ b'/' ∷ token_of response)
      → All (λ c. is_space c ≡ false) (base_url env origin ++ b'/' ∷ token_of response)
      → let url = base_url env origin ++ b'/' ∷ token_of response in
        let link = url ++ b'#' ∷ link_key in
        (make_link p api_env env origin plaintext ttl w ≡ (w2, ok link))
        × (split_secret_link link
            ≡ record { full_link = link; public_url = url; fragment_key = link_key })
        × (is_valid_fragment_key_format link_key ≡ true)
        × (import_key_from_base64_url p link_key ≡ ok s.key)
  unfolding make_link publish link_result secret_link_of
  make_link-import api_env env origin plaintext ttl w w1 w2 s link_key response sealing created
        exported clean bare =
      let (solid, valid) = exported_solid s.key link_key exported in
      (
        >>=-step (seal p plaintext ttl) (publish p api_env env origin) sealing
            ∙ >>=-step (create_secret p api_env s.request)
                (λ r. lift (link_result p api_env env origin s r)) created
            ∙ ap (λ r. (w2, r)) (shown_link api_env env origin s link_key response exported),
        split_secret_link-append _ link_key clean bare solid,
        valid,
        import-export_link p laws s.key link_key exported,
      )
