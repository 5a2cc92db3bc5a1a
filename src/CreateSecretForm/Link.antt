-- ===== src/CreateSecretForm/Link.antt =====
-- The `try` of `handleSubmit` in frontend/web-app/src/components/CreateSecretForm.tsx: a fresh key and
-- nonce, the encrypted letter on the server, and the link with the key behind its `#`.
use mathlib.Core.Option
use secret_letter.Prelude.{
  ℕ, List, [], ◌∷◌, ◌++◌, ◌==◌, ◌&&◌, Option, none, some, if◌then◌else◌, is_empty,
}
use secret_letter.Prelude.Results
use secret_letter.Prelude.Results.{Result, ok, throw}
use secret_letter.Errors.{Thrown}
use secret_letter.Text.{Text, units, trim, or_undefined}
use secret_letter.Http.{JsonObject, field}
use secret_letter.Base64Url.{encode_base64_url}
use secret_letter.Crypto.{generate_key, generate_nonce, encrypt_secret, export_key_to_base64_url}
use secret_letter.Platform.{Platform, Action, ◌>>=◌, lift}
use secret_letter.Api.Requests.{CreateSecretRequest, create_secret}

-- `replace(/\/+$/, "")`
unfoldable pub strip_slashes : Text → Text
strip_slashes [] = []
strip_slashes (c ∷ s) =
    let rest = strip_slashes s in if is_empty rest && c == b'/' then [] else c ∷ rest

-- `import.meta.env.VITE_PUBLIC_SECRET_ORIGIN?.trim().replace(/\/+$/, "") || window.location.origin`
unfoldable pub base_url : Option Text → Text → Text
unfolding strip_slashes
base_url env origin = or_undefined (Option.map (λ s. strip_slashes (trim s)) env) origin

-- `response.token || response.secretId`; a text field that is missing prints as `undefined`.
unfoldable pub token_of : JsonObject → Text
token_of response =
    or_undefined (field "token" response)
      (elim (field "secretId" response) [ none ↦ units "undefined" | some id ↦ id ])

unfoldable pub secret_link_of : Text → Text → Text → Text
secret_link_of base token key_b64 = base ++ b'/' ∷ token ++ b'#' ∷ key_b64

module _ (p : Platform) where
  -- What is encrypted, and what is posted of it.
  pub record Sealed : Type 0 where
    pub key : p.Key
    pub request : CreateSecretRequest

  unfoldable pub sealed_with : p.Key → List ℕ → ℕ → List ℕ → Sealed
  sealed_with key nonce ttl ciphertext_bytes = record {
    key = key;
    request = record {
      ciphertext = encode_base64_url ciphertext_bytes;
      nonce = encode_base64_url nonce;
      algorithm = units "AES-GCM";
      ttl_seconds = ttl;
    };
  }

  unfoldable pub sealed_result : Text → ℕ → p.Key → List ℕ → Result Thrown Sealed
  sealed_result plaintext ttl key nonce =
      Results.◌>>=◌ (encrypt_secret p plaintext key nonce)
        (λ ciphertext_bytes. ok (sealed_with key nonce ttl ciphertext_bytes))

  unfoldable pub seal_under : Text → ℕ → p.Key → Action p.World Sealed
  unfolding sealed_result
  seal_under plaintext ttl key w =
      let (w', nonce) = generate_nonce p w in (w', sealed_result plaintext ttl key nonce)

  unfoldable pub seal : Text → ℕ → Action p.World Sealed
  seal plaintext ttl = do key ← generate_key p; seal_under plaintext ttl key

  module _ (api_env env : Option Text) (origin : Text) where
    unfoldable pub link_result : Sealed → JsonObject → Result Thrown Text
    link_result sealed response =
        Results.◌>>=◌ (export_key_to_base64_url p sealed.key)
          (λ key_b64. ok (secret_link_of (base_url env origin) (token_of response) key_b64))

    unfoldable pub publish : Sealed → Action p.World Text
    publish sealed = do
      response ← create_secret p api_env sealed.request
      lift (link_result sealed response)

    unfoldable pub make_link : Text → ℕ → Action p.World Text
    make_link plaintext ttl = do sealed ← seal plaintext ttl; publish sealed
