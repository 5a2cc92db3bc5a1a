-- ===== src/SecretLink.antt =====
-- frontend/web-app/src/lib/secretLink.ts: a secret link and its two parts.
pub mod Laws
use secret_letter.Prelude.{suc, [], ◌∷◌, Option, none, some, is_empty, if◌then◌else◌}
use secret_letter.Text.{Text, trim, index_of, slice_to, slice_from}

pub record SecretLinkParts : Type 0 where
  pub full_link : Text
  pub public_url : Text
  pub fragment_key : Text

-- What `splitSecretLink` does with the trimmed link.
unfoldable pub split_trimmed : Text → SecretLinkParts
split_trimmed full_link =
    if is_empty full_link
    then record { full_link = []; public_url = []; fragment_key = [] }
    else elim (index_of b'#' full_link) [
      | none ↦ record { full_link = full_link; public_url = full_link; fragment_key = [] }
      | some hash_index ↦ record {
        full_link = full_link;
        public_url = slice_to hash_index full_link;
        fragment_key = slice_from (suc hash_index) full_link;
      }
    ]

unfoldable pub split_secret_link : Text → SecretLinkParts
unfolding split_trimmed
split_secret_link secret_link = let full_link = trim secret_link in split_trimmed full_link
