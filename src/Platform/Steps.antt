-- ===== src/Platform/Steps.antt =====
-- Stepping into a chain of actions, and taking a successful one apart.
use secret_letter.Prelude.{◌≡◌, refl, ap}
use secret_letter.Prelude.Results.{Result, ok, throw, throw-ne-ok}
use secret_letter.Errors.{Thrown}
use secret_letter.Platform.{◌>>=◌}

module _ {World A B : Type 0} where
  pub >>=-step :
      (m : World → World × Result Thrown A) (f : A → World → World × Result Thrown B) {w w' : World}
      {a : A}
      → m w ≡ (w', ok a)
      → (m >>= f) w ≡ f a w'
  >>=-step m f h = ap after h
    where
      after : World × Result Thrown A → World × Result Thrown B
      after q = elim q.1 [ ok a ↦ f a q.0 | throw e ↦ (q.0, throw e) ]

  pub >>=-throw :
      (m : World → World × Result Thrown A) (f : A → World → World × Result Thrown B) {w w' : World}
      {e : Thrown}
      → m w ≡ (w', throw e)
      → (m >>= f) w ≡ (w', throw e)
  >>=-throw m f h = ap after h
    where
      after : World × Result Thrown A → World × Result Thrown B
      after q = elim q.1 [ ok a ↦ f a q.0 | throw e ↦ (q.0, throw e) ]

  pub >>=-inverse :
      (m : World → World × Result Thrown A) (f : A → World → World × Result Thrown B) (w : World)
      {w2 : World} {b : B}
      → (m >>= f) w ≡ (w2, ok b)
      → (w1 : World) × (a : A) × (m w ≡ (w1, ok a)) × (f a w1 ≡ (w2, ok b))
  >>=-inverse m f w {w2} {b} h = go (m w).0 (m w).1 refl h
    where
      go :
          (w1 : World) (r : Result Thrown A)
          → m w ≡ (w1, r)
          → ◌≡◌ {A = World × Result Thrown B}
              (elim r [ ok a ↦ f a w1 | throw e ↦ (w1, throw e) ])
              (w2, ok b)
          → (w1 : World) × (a : A) × (m w ≡ (w1, ok a)) × (f a w1 ≡ (w2, ok b))
      go w1 (ok a) e h = (w1, a, e, h)
      go w1 (throw err) e h = absurd (throw-ne-ok (ap (λ (q : World × Result Thrown B). q.1) h))
