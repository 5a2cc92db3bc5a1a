-- ===== src/Tests/Letters.antt =====
-- From the form to the page and to the server, over the toy browser.
use secret_letter.Prelude.{All, ◌++◌, false, ◌≡◌, refl, [], ◌∷◌, true, false, none, some, arith}
use secret_letter.Prelude.Results.{ok}
use secret_letter.Text.{is_space, Text, units, is_space, chars, code_point_at0, replace_all}
use secret_letter.Utf8.{clamp_utf8_text, utf8_byte_length_for_code_point}
use secret_letter.Utf8.Encoder.{encode, encode_char}
use secret_letter.Utf8.RoundTrip.{without_bom, IsWellFormed}
use secret_letter.Http.{JsonObject, field}
use secret_letter.Base64Url.{encode_base64_url}
use secret_letter.Base64Url.Platform.{btoa, sextets, padding, base64_char}
use secret_letter.Platform.{◌>>=◌}
use secret_letter.Crypto.{
  import_key_from_base64_url, export_key_to_base64_url, encrypt_secret, generate_key,
  generate_nonce,
}
use secret_letter.Api.Fetch.{safe_fetch}
use secret_letter.Api.Requests.{create_secret, ask, read_reply, create_reveal_session, open_secret}
use secret_letter.Scene.{sealed}
use secret_letter.RevealPage.{is_valid_fragment_key_format, opened, handle_open}
use secret_letter.CreateSecretForm.{handle_text_change}
use secret_letter.CreateSecretForm.Link.{
  publish, make_link, token_of, base_url, Sealed, sealed_with, seal, seal_under, sealed_result,
}
use secret_letter.EndToEnd.Links.{seal_under-key_unseen, make_link-import}
use secret_letter.SecretLink.{split_secret_link}
use secret_letter.SecretLink.Laws.{NoHash}
use secret_letter.EndToEnd.{reveal_of_seal}
use secret_letter.Tests.Browser.{with_tag, toy, toy-IsWebCrypto, toy-IsTagged}
use secret_letter.Backend.Validation.{validate_create_secret_request, received}
use secret_letter.EndToEnd.Accepted.{Reach-accepted}
use secret_letter.Tests.Pages.{link_key, written, written-Reach, sevens, eights}

abbrev pub toy_sealed : Sealed toy
toy_sealed =
    sealed_with toy sevens (5 ∷ 5 ∷ 5 ∷ 5 ∷ 5 ∷ 5 ∷ 5 ∷ 5 ∷ 5 ∷ 5 ∷ 5 ∷ 5 ∷ []) 3600
      (with_tag (104 ∷ 105 ∷ []))

pub toy_seals : seal toy (units "hi") 3600 [] ≡ ([], ok toy_sealed)
unfolding seal sealed_with seal_under sealed_result generate_key generate_nonce encrypt_secret
    encode encode_char chars code_point_at0
toy_seals = refl

toy_exports : export_key_to_base64_url toy sevens ≡ ok link_key
unfolding export_key_to_base64_url encode_base64_url btoa sextets padding base64_char replace_all
toy_exports = refl

-- What the server keeps of the toy letter.
abbrev kept : JsonObject
kept = ("ciphertext", toy_sealed.request.ciphertext) ∷ ("nonce", toy_sealed.request.nonce) ∷ []

toy_session :
    create_reveal_session toy none (units "abc") kept ≡ (kept, ok (("sessionId", units "s1") ∷ []))
unfolding create_reveal_session ask safe_fetch read_reply
toy_session = refl

toy_opens : open_secret toy none (units "abc") (some (units "s1")) kept ≡ (kept, ok kept)
unfolding open_secret ask safe_fetch read_reply
toy_opens = refl

hi_well : IsWellFormed (units "hi")
unfolding chars code_point_at0
hi_well = ground arith

reveal_of_seal_example :
    handle_open toy none (some (units "abc")) link_key sealed kept
    ≡ (kept, some (opened (without_bom (units "hi"))))
unfolding sealed_with field
reveal_of_seal_example =
    reveal_of_seal toy toy-IsWebCrypto (units "hi") 3600 [] [] toy_sealed link_key hi_well toy_seals
      toy_exports none (units "abc") kept kept kept (("sessionId", units "s1") ∷ []) kept (λ k. cc)
      toy_session toy_opens refl refl

abbrev toy_reply : JsonObject
toy_reply = ("secretId", units "abc") ∷ []

abbrev posted : JsonObject
posted =
    ("ciphertext", toy_sealed.request.ciphertext)
    ∷ ("nonce", toy_sealed.request.nonce)
    ∷ ("algorithm", units "AES-GCM")
    ∷ []

toy_creates : create_secret toy none toy_sealed.request [] ≡ (posted, ok toy_reply)
unfolding create_secret ask safe_fetch read_reply sealed_with
toy_creates = refl

abbrev toy_url : Text
toy_url = base_url none (units "https://x") ++ b'/' ∷ token_of toy_reply

toy_url_bare : NoHash toy_url × All (λ c. is_space c ≡ false) toy_url
unfolding base_url token_of field is_space
toy_url_bare = (ground arith, ground arith)

make_link-import_example :
    (make_link toy none none (units "https://x") (units "hi") 3600 []
      ≡ (posted, ok (toy_url ++ b'#' ∷ link_key)))
    × (split_secret_link (toy_url ++ b'#' ∷ link_key) ≡ record {
      full_link = toy_url ++ b'#' ∷ link_key;
      public_url = toy_url;
      fragment_key = link_key;
    })
    × (is_valid_fragment_key_format link_key ≡ true)
    × (import_key_from_base64_url toy link_key ≡ ok toy_sealed.key)
unfolding sealed_with
make_link-import_example =
    make_link-import toy toy-IsWebCrypto none none (units "https://x") (units "hi") 3600 [] []
      posted toy_sealed link_key toy_reply toy_seals toy_creates toy_exports toy_url_bare.0
      toy_url_bare.1

-- The toy cipher encrypts alike under all keys.
seal_under-key_unseen_example :
    ((seal_under toy (units "hi") 3600 sevens >>= publish toy none none (units "https://x")) []).0
    ≡ ((seal_under toy (units "hi") 3600 eights >>= publish toy none none (units "https://x")) []).0
seal_under-key_unseen_example =
    seal_under-key_unseen toy none none (units "https://x") (units "hi") 3600 sevens eights [] refl

written_seals : seal toy written.plaintext written.ttl [] ≡ ([], ok toy_sealed)
unfolding seal sealed_with seal_under sealed_result generate_key generate_nonce encrypt_secret
    encode encode_char chars code_point_at0 handle_text_change clamp_utf8_text
    utf8_byte_length_for_code_point
written_seals = refl

Reach-accepted_example : validate_create_secret_request (received toy_sealed.request) ≡ []
Reach-accepted_example =
    Reach-accepted toy toy-IsWebCrypto toy-IsTagged written-Reach [] [] toy_sealed written_seals
