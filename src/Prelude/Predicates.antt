-- ===== src/Prelude/Predicates.antt =====
-- Predicates on lists by recursion, which compute to tuples.
use mathlib.Core.Path.{◌≡◌, refl}
use mathlib.Core.Bool.{Bool, true}
use mathlib.Core.List.{List, [], ◌∷◌, ◌++◌, map}
use native.Mathlib.Omega.{arith}
use secret_letter.Prelude.Lists.{all}
use secret_letter.Prelude.Tests.{and-eq-true}

abbrev pub All {ℓ κ} : {A : Type ℓ} → (A → Type κ) → List A → Type κ
All P [] = Unit
All P (x ∷ xs) = P x × All P xs

module _ {ℓ κ} {A : Type ℓ} (P : A → Type κ) where
  pub All-append : (xs ys : List A) → All P xs → All P ys → All P (xs ++ ys)
  All-append [] ys h k = k
  All-append (x ∷ xs) ys h k = (h.0, All-append xs ys h.1 k)

  pub All-append_parts : (xs ys : List A) → All P (xs ++ ys) → All P xs × All P ys
  All-append_parts [] ys h = (tt, h)
  All-append_parts (x ∷ xs) ys h =
      let (front, back) = All-append_parts xs ys h.1 in ((h.0, front), back)

module _ {ℓ} {A : Type ℓ} where
  pub All-weaken {κ μ} :
      (P : A → Type κ) (Q : A → Type μ)
      → ((a : A) → P a → Q a)
      → (xs : List A) → All P xs
      → All Q xs
  All-weaken P Q f [] h = tt
  All-weaken P Q f (x ∷ xs) h = (f x h.0, All-weaken P Q f xs h.1)

  pub All-map {κ μ} :
      {B : Type μ} (Q : B → Type κ) (f : A → B) (xs : List A)
      → All (λ a. Q (f a)) xs
      → All Q (map f xs)
  All-map Q f [] h = tt
  All-map Q f (x ∷ xs) h = (h.0, All-map Q f xs h.1)

  pub all→All : (p : A → Bool) (xs : List A) → all p xs ≡ true → All (λ a. p a ≡ true) xs
  all→All p [] h = tt
  all→All p (x ∷ xs) h =
      let (here, later) = and-eq-true (p x) (all p xs) h in (here, all→All p xs later)

  pub All→all : (p : A → Bool) (xs : List A) → All (λ a. p a ≡ true) xs → all p xs ≡ true
  All→all p [] h = refl
  All→all p (x ∷ xs) h = ground (arith, h.0, All→all p xs h.1)
