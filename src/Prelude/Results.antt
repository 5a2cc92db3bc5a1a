-- ===== src/Prelude/Results.antt =====
-- What a JavaScript call gives back: a value, or what it throws.
use mathlib.Core.Path.{◌≡◌, refl}
use mathlib.Core.Logic.{◌⊎◌, inl, inr}

pub data Result {ℓ κ} (E : Type ℓ) (A : Type κ) : Type (ℓ ⊔ κ) where
  ok : A → Result E A
  throw : E → Result E A

-- An exception passes by what follows.
infixl 5 ◌>>=◌
abbrev pub ◌>>=◌ {ℓ κ μ} :
    {E : Type ℓ} {A : Type κ} {B : Type μ} → Result E A → (A → Result E B) → Result E B
r >>= next = elim r [ ok a ↦ next a | throw e ↦ throw e ]

pub Result-cases {ℓ κ} :
    {E : Type ℓ} {A : Type κ} (r : Result E A) → ((a : A) × (r ≡ ok a)) ⊎ ((e : E) × (r ≡ throw e))
Result-cases (ok a) = inl (a, refl)
Result-cases (throw e) = inr (e, refl)

pub throw-ne-ok {ℓ κ} : {E : Type ℓ} {A : Type κ} {e : E} {a : A} → throw e ≡ ok a → ⊥
throw-ne-ok h = cc

pub ok-injective {ℓ κ} :
    {E : Type ℓ} {A : Type κ} {a b : A} → ◌≡◌ {A = Result E A} (ok a) (ok b) → a ≡ b
ok-injective h = cc

module _ {ℓ κ μ} {E : Type ℓ} {A : Type κ} {B : Type μ} (next : A → Result E B) where
  pub >>=-inverse_ok :
      (r : Result E A) (b : B) → (r >>= next) ≡ ok b → (a : A) × (next a ≡ ok b) × (r ≡ ok a)
  >>=-inverse_ok (throw e) b h = cc
  >>=-inverse_ok (ok a) b h = (a, h, refl)
