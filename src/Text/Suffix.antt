-- ===== src/Text/Suffix.antt =====
-- A text with another one in front of it or behind it.

use mathlib.Core.Bool.{true≢false}
use secret_letter.Prelude.{
  ◌-◌, false, sym, ◌∙◌, inl, inr, Bool-cases, ◌≡◌, refl, ap, [], ◌∷◌, ◌++◌, true, arith, length,
  length-append,
}
use secret_letter.Text.{Text, text_eq, ends_with, slice_to, slice_from}
use secret_letter.Text.Equality.{text_eq_refl, text_eq→eq}

ends_with_self : (s : Text) → ends_with s s ≡ true
unfolding ends_with
ends_with_self [] = refl
ends_with_self (c ∷ s) = rw (text_eq_refl (c ∷ s)) refl

pub ends_with-append : (suffix s : Text) → ends_with suffix (s ++ suffix) ≡ true
unfolding ends_with
ends_with-append suffix [] = ends_with_self suffix
ends_with-append suffix (c ∷ s) = let rest = ends_with-append suffix s in ground (arith, rest)

slice_to-length : (s suffix : Text) → slice_to (length s) (s ++ suffix) ≡ s
unfolding slice_to
slice_to-length [] suffix = refl
slice_to-length (c ∷ s) suffix = ap (λ t. c ∷ t) (slice_to-length s suffix)

pub slice_to-append :
    (s suffix : Text) → slice_to (length (s ++ suffix) - length suffix) (s ++ suffix) ≡ s
slice_to-append s suffix =
    let count : length (s ++ suffix) - length suffix ≡ length s =
      omega (arith, length-append s suffix) in
    rw count (slice_to-length s suffix)

pub slice_from-length : (front s : Text) → slice_from (length front) (front ++ s) ≡ s
unfolding slice_from
slice_from-length [] s = refl
slice_from-length (c ∷ front) s = slice_from-length front s

text_eq-clash : (s t front : Text) → ends_with t s ≡ false → text_eq s (front ++ t) ≡ false
unfolding ends_with text_eq
text_eq-clash [] [] [] h = absurd (true≢false h)
text_eq-clash [] (d ∷ t) [] h = refl
text_eq-clash (c ∷ s) t [] h = elim (Bool-cases (text_eq (c ∷ s) t)) [
  | inl same ↦
      let e = text_eq→eq (c ∷ s) t same in
      absurd (true≢false (sym (ends_with_self (c ∷ s)) ∙ ap (λ u. ends_with u (c ∷ s)) e ∙ h))
  | inr other ↦ other
]
text_eq-clash [] t (d ∷ front) h = refl
text_eq-clash (c ∷ s) t (d ∷ front) h = let rest = text_eq-clash s t front in ground (arith, rest)

-- Neither of two texts ends with the other one.
pub ends_with-clash :
    (s t front : Text)
    → ends_with t s ≡ false
    → ends_with s t ≡ false
    → ends_with s (front ++ t) ≡ false
unfolding ends_with
ends_with-clash s t [] h g = g
ends_with-clash s t (c ∷ front) h g =
    let here = text_eq-clash s t (c ∷ front) h in
    let rest = ends_with-clash s t front h g in ground (arith, here, rest)
