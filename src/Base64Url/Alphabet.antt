-- ===== src/Base64Url/Alphabet.antt =====
-- The two alphabets, character by character, and the replacements that lead from one to the other.
use secret_letter.Prelude.{
  Option-cases, inl, inr, ℕ, ◌<◌, ◌≡◌, ◌≢◌, refl, [], ◌∷◌, ◌++◌, map, true, false, ◌==◌,
  if◌then◌else◌, arith, All, some, none,
}
use mathlib.Core.List.{append_assoc}
use secret_letter.Text.{Text, is_space, replace_all}
use secret_letter.Base64Url.{is_base64_url_char}
use secret_letter.Base64Url.Platform.{base64_char, base64_value}

abbrev pub IsSextet : ℕ → Type 0
IsSextet v = v < 64

abbrev pub swap : ℕ → ℕ → ℕ → ℕ
swap c d u = if u == c then d else u

-- The base64url character of a value.
unfoldable pub url_char : ℕ → ℕ
unfolding base64_char
url_char v = swap b'/' b'_' (swap b'+' b'-' (base64_char v))

pub base64_value-char : (v : ℕ) → IsSextet v → base64_value (base64_char v) ≡ some v
unfolding base64_value base64_char
base64_value-char v h = ground arith

pub url_char_lem :
    (v : ℕ)
    → IsSextet v
    → (is_base64_url_char (url_char v) ≡ true)
      × (is_space (url_char v) ≡ false)
      × (url_char v ≢ b'=')
unfolding is_base64_url_char url_char is_space
url_char_lem v h = (ground arith, ground arith, ground arith)

-- What the alphabet leaves out.
pub base64_value-some :
    (c v : ℕ) → base64_value c ≡ some v → (c ≢ b'=') × (is_space c ≡ false) × IsSextet v
unfolding base64_value is_space
base64_value-some c v h = (ground arith, ground arith, ground arith)

-- A character that the pattern admits is in the base64 alphabet after the two replacements.
value_of_swap :
    (c : ℕ) → is_base64_url_char c ≡ true → base64_value (swap b'_' b'/' (swap b'-' b'+' c)) ≢ none
unfolding is_base64_url_char base64_value
value_of_swap c h = ground arith

pub base64_value-swap :
    (c : ℕ)
    → is_base64_url_char c ≡ true
    → (v : ℕ) × (base64_value (swap b'_' b'/' (swap b'-' b'+' c)) ≡ some v) × IsSextet v
base64_value-swap c h = elim (Option-cases (base64_value (swap b'_' b'/' (swap b'-' b'+' c)))) [
  | inl e ↦ absurd (value_of_swap c h e)
  | inr (v, e) ↦ (v, e, (base64_value-some _ v e).2)
]

pub swap-url_char :
    (v : ℕ) → IsSextet v → swap b'_' b'/' (swap b'-' b'+' (url_char v)) ≡ base64_char v
unfolding url_char base64_char
swap-url_char v h = ground arith

pub replace_all-map : (c d : ℕ) (s : Text) → replace_all c (d ∷ []) s ≡ map (swap c d) s
unfolding replace_all
replace_all-map c d [] = refl
replace_all-map c d (u ∷ s) = ground (arith, replace_all-map c d s)

pub replace_all-append :
    (c : ℕ) (d s t : Text) → replace_all c d (s ++ t) ≡ replace_all c d s ++ replace_all c d t
unfolding replace_all
replace_all-append c d [] t = refl
replace_all-append c d (u ∷ s) t = simp (replace_all-append c d s t, append_assoc)

pub replace_all-absent : (c : ℕ) (d s : Text) → All (λ u. u ≢ c) s → replace_all c d s ≡ s
unfolding replace_all
replace_all-absent c d [] h = refl
replace_all-absent c d (u ∷ s) (h, hs) = ground (arith, replace_all-absent c d s hs)
