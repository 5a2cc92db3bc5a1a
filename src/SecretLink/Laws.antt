-- ===== src/SecretLink/Laws.antt =====
-- What `splitSecretLink` gives for any text, and for a link of the form.
use secret_letter.Prelude.{
  length, ℕ, zero, suc, ◌≡◌, ◌≢◌, refl, sym, ap, ◌∙◌, [], ◌∷◌, ◌++◌, true, false, arith, All, some,
  none, is_empty, ◌⊎◌, inl, inr, Bool-cases, Option-cases, ◌==◌, All-append,
}
use secret_letter.Text.{Text, is_space, trim, index_of, slice_to, slice_from}
use secret_letter.Text.Trim.{trim_of_solid}
use secret_letter.SecretLink.{split_trimmed, split_secret_link}

abbrev pub NoHash : Text → Type 0
NoHash = All (λ c. c ≢ b'#')

index_of-none : (s : Text) → index_of b'#' s ≡ none → NoHash s
unfolding index_of
index_of-none [] h = tt
index_of-none (d ∷ s) h = elim (Option-cases (index_of b'#' s)) [
  | inl e ↦ (ground arith, index_of-none s e)
  | inr (i, e) ↦ ground arith
]

index_of-some :
    (i : ℕ) (s : Text)
    → index_of b'#' s ≡ some i
    → (s ≡ slice_to i s ++ b'#' ∷ slice_from (suc i) s) × NoHash (slice_to i s)
unfolding index_of slice_to slice_from
index_of-some i [] h = ground arith
index_of-some zero (d ∷ s) h = elim (Bool-cases (d == b'#')) [
  | inl same ↦ ground arith
  | inr other ↦ elim (Option-cases (index_of b'#' s)) [
    | inl e ↦ ground arith
    | inr (k, e) ↦ ground arith
  ]
]
index_of-some (suc i) (d ∷ s) h = elim (Bool-cases (d == b'#')) [
  | inl same ↦ ground arith
  | inr other ↦ elim (Option-cases (index_of b'#' s)) [
    | inl e ↦ ground arith
    | inr (k, e) ↦
        let at_i : index_of b'#' s ≡ some i = ground arith in
        let (cut, clean) = index_of-some i s at_i in
        (ap (λ (t : Text). d ∷ t) cut, (ground arith, clean))
  ]
]

pub index_of-append : (s t : Text) → NoHash s → index_of b'#' (s ++ b'#' ∷ t) ≡ some (length s)
unfolding index_of
index_of-append [] t h = refl
index_of-append (d ∷ s) t (hd, h) = ground (arith, index_of-append s t h)

pub slices :
    (s t : Text)
    → (slice_to (length s) (s ++ b'#' ∷ t) ≡ s) × (slice_from (suc (length s)) (s ++ b'#' ∷ t) ≡ t)
unfolding slice_to slice_from
slices [] t = (refl, refl)
slices (d ∷ s) t = ground (arith, slices s t)

empty_of_test : (s : Text) → is_empty s ≡ true → s ≡ []
empty_of_test [] h = refl
empty_of_test (c ∷ s) h = cc

not_empty : (s t : Text) (c : ℕ) → is_empty (s ++ c ∷ t) ≡ false
not_empty [] t c = refl
not_empty (d ∷ s) t c = refl

-- The public URL never holds a `#`, so nothing of the fragment is in it; and the trimmed link is
-- either the public URL alone, with an empty key, or the public URL, a `#` and the key.
pub split_secret_link_parts :
    (s : Text)
    → let p = split_secret_link s in
      (p.full_link ≡ trim s)
      × NoHash p.public_url
      × ((p.full_link ≡ p.public_url) × (p.fragment_key ≡ [])
          ⊎ (p.full_link ≡ p.public_url ++ b'#' ∷ p.fragment_key))
unfolding split_secret_link
split_secret_link_parts s = elim (Bool-cases (is_empty (trim s))) [
  | inl e ↦ rw e (sym (empty_of_test (trim s) e), tt, inl (refl, refl))
  | inr e ↦ elim (Option-cases (index_of b'#' (trim s))) [
    | inl n ↦ rw (e, n) (refl, index_of-none (trim s) n, inl (refl, refl))
    | inr (i, n) ↦ let (cut, clean) = index_of-some i (trim s) n in rw (e, n) (refl, clean, inr cut)
  ]
]

-- A link put together from a URL without `#` and any key, none of them with whitespace, is taken
-- apart into these two.
pub split_secret_link-append :
    (url key : Text)
    → NoHash url
    → All (λ c. is_space c ≡ false) url
    → All (λ c. is_space c ≡ false) key
    → split_secret_link (url ++ b'#' ∷ key)
      ≡ record { full_link = url ++ b'#' ∷ key; public_url = url; fragment_key = key }
unfolding split_secret_link
split_secret_link-append url key h u k =
    let link = url ++ b'#' ∷ key in
    let solid =
      All-append (λ c. is_space c ≡ false) url (b'#' ∷ key) u (unfold is_space in refl, k) in
    let (public, fragment) = slices url key in
    ap split_trimmed (trim_of_solid link solid)
    ∙ rw (not_empty url key b'#', index_of-append url key h)
        (λ i. record { full_link = link; public_url = public i; fragment_key = fragment i })
