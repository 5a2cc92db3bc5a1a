-- ===== src/App/Laws.antt =====
-- Where a secret link leads.
use secret_letter.Prelude.{◌==◌, ◌≡◌, refl, [], ◌∷◌, true, false, arith, all, and-eq-true, is_empty}
use secret_letter.Text.{Text}
use secret_letter.Base64Url.{is_base64_url_char}
use secret_letter.App.{reveal_page, split_slashes, without_empty, page_of, app}

token_segment : (s : Text) → all is_base64_url_char s ≡ true → split_slashes s ≡ s ∷ []
unfolding split_slashes is_base64_url_char
token_segment [] h = refl
token_segment (c ∷ s) h =
    let (own, later) = and-eq-true (is_base64_url_char c) (all is_base64_url_char s) h in
    let solid : (c == b'/') ≡ false = ground arith in rw (solid, token_segment s later) refl

-- The path of a secret link leads to the reveal page with the token.
pub app-token :
    (s : Text)
    → all is_base64_url_char s ≡ true
    → is_empty s ≡ false
    → app (b'/' ∷ s) ≡ reveal_page s
unfolding app split_slashes without_empty page_of
app-token s h full = rw (token_segment s h, full) refl
