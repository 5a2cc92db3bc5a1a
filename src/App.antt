-- ===== src/App.antt =====
-- frontend/web-app/src/App.tsx: which page the routes show for a path. React Router matches the segments of the
-- path, and hands the one behind `:secretId` to the page; a token needs no decoding.
pub mod Laws
use secret_letter.Prelude.{
  ℕ, ◌++◌, List, [], ◌∷◌, Option, none, some, if◌then◌else◌, ◌==◌, is_empty, Bool, true, false,
  ◌||◌,
}
use secret_letter.Text.{Text, units, text_eq}

pub data Page : Type 0 where
  home_page : Page
  reveal_page : Text → Page
  no_page : Page

abbrev prepend : List ℕ → List Text → List Text
prepend c [] = c ∷ []
prepend c (segment ∷ segments) = (c ++ segment) ∷ segments

-- The parts between the slashes.
unfoldable pub split_slashes : Text → List Text
split_slashes [] = [] ∷ []
split_slashes (c ∷ path) =
    let rest = split_slashes path in if c == b'/' then [] ∷ rest else prepend (c ∷ []) rest

unfoldable pub without_empty : List Text → List Text
without_empty [] = []
without_empty (segment ∷ segments) =
    let rest = without_empty segments in if is_empty segment then rest else segment ∷ rest

-- The patterns `/`, `/s/:secretId`, `/reveal/:secretId` and `/:secretId`.
unfoldable pub page_of : List Text → Page
page_of [] = home_page
page_of (secret_id ∷ []) = reveal_page secret_id
page_of (front ∷ secret_id ∷ []) =
    if text_eq front (units "s") || text_eq front (units "reveal")
    then reveal_page secret_id
    else no_page
page_of (front ∷ second ∷ third ∷ segments) = no_page

unfoldable pub app : Text → Page
unfolding split_slashes without_empty page_of
app path = page_of (without_empty (split_slashes path))
