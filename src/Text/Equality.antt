-- ===== src/Text/Equality.antt =====
-- `===` on strings decides equality.
use secret_letter.Prelude.{◌≡◌, refl, [], ◌∷◌, true, arith, ==_iff, and-eq-true}
use secret_letter.Text.{Text, text_eq}

pub text_eq→eq : (s t : Text) → text_eq s t ≡ true → s ≡ t
unfolding text_eq
text_eq→eq [] [] h = refl
text_eq→eq (c ∷ s) (d ∷ t) h =
    let (here, later) = and-eq-true _ _ h in
    let head : c ≡ d = (==_iff c d).0 here in let tail = text_eq→eq s t later in cc
text_eq→eq [] (d ∷ t) h = cc
text_eq→eq (c ∷ s) [] h = cc

pub text_eq_refl : (s : Text) → text_eq s s ≡ true
unfolding text_eq
text_eq_refl [] = refl
text_eq_refl (c ∷ s) = ground (arith, text_eq_refl s)
