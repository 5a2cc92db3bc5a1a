-- ===== src/PerfAudit/Assets/Sets.antt =====
-- Membership in the sets of PerfAudit.Assets.
use secret_letter.Prelude.{
  ◌≡◌, ◌↔◌, ◌⊎◌, inl, inr, List, [], ◌∷◌, ◌++◌, true, false, Option, none, some, arith, Bool-cases,
  ap, sym,
}
use secret_letter.Text.{Text, text_eq}
use secret_letter.Text.Equality.{text_eq→eq, text_eq_refl}
use secret_letter.PerfAudit.Assets.{has, add, add_all, add_option}

-- A split on whether two texts are the same.
pub text_cases : (a b : Text) → (a ≡ b) × (text_eq a b ≡ true) ⊎ (text_eq a b ≡ false)
text_cases a b = elim (Bool-cases (text_eq a b)) [
  | inl e ↦ inl (text_eq→eq a b e, e)
  | inr e ↦ inr e
]

pub has-cons :
    (x y : Text) (ys : List Text) → (has x (y ∷ ys) ≡ true) ↔ ((x ≡ y) ⊎ (has x ys ≡ true))
unfolding has
has-cons x y ys = elim (text_cases x y) [
  | inl (e, t) ↦ (λ _. inl e, λ _. rw t)
  | inr t ↦ (
    λ h. inr (ground arith),
    λ h. elim h [ inl e ↦ rw (e, text_eq_refl y) | inr k ↦ ground arith ],
  )
]

has-append :
    (x y : Text) (xs : List Text) → (has x (xs ++ y ∷ []) ≡ true) ↔ ((x ≡ y) ⊎ (has x xs ≡ true))
unfolding has
has-append x y [] = has-cons x y []
has-append x y (z ∷ xs) = ground (arith, has-append x y xs)

pub has-add :
    (x y : Text) (xs : List Text) → (has x (add y xs) ≡ true) ↔ ((x ≡ y) ⊎ (has x xs ≡ true))
unfolding add
has-add x y xs = elim (Bool-cases (has y xs)) [
  | inl e ↦ rw e (λ h. inr h, λ h. elim h [ inl same ↦ rw same e | inr k ↦ k ])
  | inr e ↦ rw e (has-append x y xs)
]

pub has-add_all :
    (x : Text) (ys xs : List Text)
    → (has x (add_all ys xs) ≡ true) ↔ ((has x ys ≡ true) ⊎ (has x xs ≡ true))
unfolding has
has-add_all x [] xs = (λ h. inr h, λ h. ground arith)
has-add_all x (y ∷ ys) xs =
    ground (arith, has-add_all x ys (add y xs), has-add x y xs, has-cons x y ys)

pub has-add_option :
    (f : Text) (o : Option Text) (xs : List Text)
    → (has f (add_option o xs) ≡ true) ↔ ((o ≡ some f) ⊎ (has f xs ≡ true))
has-add_option f none xs = (λ h. inr h, λ h. elim h [ inl e ↦ cc | inr k ↦ k ])
has-add_option f (some x) xs = (
  λ h. elim ((has-add f x xs).0 h) [ inl e ↦ inl (ap some (sym e)) | inr k ↦ inr k ],
  λ h. elim h [ inl e ↦ (has-add f x xs).1 (inl cc) | inr k ↦ (has-add f x xs).1 (inr k) ],
)
