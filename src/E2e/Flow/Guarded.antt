-- ===== src/E2e/Flow/Guarded.antt =====
-- The two broken forms of a link in `verifyFragmentGuardrails`.
use secret_letter.Prelude.{
  ℕ, ◌≡◌, refl, ap, ◌∙◌, [], ◌∷◌, ◌++◌, Option, none, false, arith, All, is_empty,
}
use secret_letter.Prelude.Results.{ok}
use secret_letter.Text.{Text, units, text_eq, trim, is_space, index_of, replace_all}
use secret_letter.Text.Trim.{trim_of_solid}
use secret_letter.Text.Suffix.{slice_from-length}
use secret_letter.Base64Url.{encode_base64_url, decode_base64_url, is_base64_url_char, pad_loop}
use secret_letter.Base64Url.Platform.{atob}
use secret_letter.Platform.{Platform}
use secret_letter.SecretLink.{SecretLinkParts, split_trimmed, split_secret_link}
use secret_letter.SecretLink.Laws.{NoHash, index_of-append, slices, split_secret_link-append}
use secret_letter.App.Laws.{app-token}
use secret_letter.RevealPage.{is_valid_fragment_key_format, load_status}
use secret_letter.RevealPage.Errors.{invalid_key_format_message}
use secret_letter.Backend.Secrets.{Runtime, Draw}
use secret_letter.EndToEnd.Served.{Net}
use secret_letter.EndToEnd.Served.Letter.{drawn-IsDigits}
use secret_letter.EndToEnd.Served.Publishing.{IsOrigin, link_start}
use secret_letter.E2e.Responses.{Done}
use secret_letter.E2e.Flow.{Script, before_hash, lead_to, at_reveal, error_page, expect_error_state}
use secret_letter.E2e.Flow.Created.{IsSetUp, Posted}

no_index : (s : Text) → NoHash s → index_of b'#' s ≡ none
unfolding index_of
no_index [] h = refl
no_index (c ∷ s) (a, h) = ground (arith, no_index s h)

pub before_hash-append : (url key : Text) → NoHash url → before_hash (url ++ b'#' ∷ key) ≡ url
unfolding before_hash
before_hash-append url key h = rw (before_hash, index_of-append url key h) (slices url key).0

-- A URL without a fragment has an empty key.
split-bare :
    (s : Text)
    → IsOrigin s
    → is_empty s ≡ false
    → split_secret_link s ≡ record { full_link = s; public_url = s; fragment_key = [] }
unfolding split_secret_link split_trimmed
split-bare s (clean, bare) full =
    ap split_trimmed (trim_of_solid s bare) ∙ rw (full, no_index s clean) refl

origin_full : (origin token : Text) → is_empty (origin ++ b'/' ∷ token) ≡ false
origin_full [] token = refl
origin_full (c ∷ origin) token = refl

abbrev malformed_key : Text
malformed_key = units "not-a-valid-key"

malformed_format : is_valid_fragment_key_format malformed_key ≡ false
unfolding is_valid_fragment_key_format decode_base64_url trim is_space is_base64_url_char pad_loop
    atob replace_all
malformed_format = refl

malformed_solid : All (λ c. is_space c ≡ false) malformed_key
unfolding is_space
malformed_solid = ground arith

module _ (p : Platform) (runtime : Runtime) (draws : ℕ → Draw) (env : Option Text) (origin : Text)
    (set_up : IsSetUp p draws env origin) {text link : Text}
    (posted : Posted p runtime draws env origin text link) where
  abbrev token : Text
  token = encode_base64_url (draws posted.turn).token_bytes

  abbrev pub public_url : Text
  public_url = origin ++ b'/' ∷ token

  url_place : IsOrigin public_url
  url_place =
      link_start origin token set_up.place
        (drawn-IsDigits (draws posted.turn).token_bytes (set_up.drawn_tokens posted.turn)).0

  pub before_hash-link : before_hash link ≡ public_url
  before_hash-link =
      ap before_hash posted.linked ∙ before_hash-append public_url posted.link_key url_place.0

  abbrev script : (Text → Text → Script (Net p.World) Done) → Text → Script (Net p.World) Done
  script next url = at_reveal p runtime draws env origin next url

  led :
      (next : Text → Text → Script (Net p.World) Done) (key : Text) (w : Net p.World)
      (parts : SecretLinkParts)
      → parts.public_url ≡ public_url
      → parts.fragment_key ≡ key
      → lead_to p runtime draws env origin next parts w ≡ next token key w
  unfolding lead_to
  led next key w parts url fragment =
      let (digits, full) =
        drawn-IsDigits (draws posted.turn).token_bytes (set_up.drawn_tokens posted.turn) in
      rw
        (
          lead_to,
          url,
          slice_from-length origin (b'/' ∷ token),
          app-token token digits full,
          fragment,
        )
        refl

  token_full : is_empty token ≡ false
  token_full = (drawn-IsDigits (draws posted.turn).token_bytes (set_up.drawn_tokens posted.turn)).1

  -- Without its fragment the link shows the first message, and nothing reaches the server.
  pub expect_missing :
      (w : Net p.World)
      → expect_error_state p runtime draws env origin public_url
          (units "Liên kết không hợp lệ. Thiếu khóa giải mã.")
          w
        ≡ (w, ok tt)
  unfolding expect_error_state at_reveal error_page load_status text_eq
  expect_missing w =
      let parts = split-bare public_url url_place (origin_full origin token) in
      led
        (error_page p runtime draws env origin (units "Liên kết không hợp lệ. Thiếu khóa giải mã."))
        [] w (split_secret_link public_url) (ap (λ q. q.public_url) parts)
        (ap (λ q. q.fragment_key) parts)
      ∙ rw (error_page, load_status, token_full) refl

  -- With a key of another format it shows the second.
  pub expect_malformed :
      (w : Net p.World)
      → expect_error_state p runtime draws env origin
          (public_url ++ units "#not-a-valid-key")
          (units
            "Khóa giải mã trong liên kết không đúng định dạng. Hãy kiểm tra lại phần sau dấu #.")
          w
        ≡ (w, ok tt)
  unfolding expect_error_state at_reveal error_page load_status text_eq invalid_key_format_message
  expect_malformed w =
      let parts =
        split_secret_link-append public_url malformed_key url_place.0 url_place.1 malformed_solid in
      led
        (error_page p runtime draws env origin (
          units
            "Khóa giải mã trong liên kết không đúng định dạng. Hãy kiểm tra lại phần sau dấu #."))
        malformed_key w (split_secret_link (public_url ++ units "#not-a-valid-key"))
        (ap (λ q. q.public_url) parts) (ap (λ q. q.fragment_key) parts)
      ∙ rw (error_page, load_status, token_full, malformed_format) refl
