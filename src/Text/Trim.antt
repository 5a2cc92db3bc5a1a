-- ===== src/Text/Trim.antt =====
-- What `trim` leaves alone.
use secret_letter.Prelude.{◌≡◌, refl, [], ◌∷◌, false, arith, All}
use secret_letter.Text.{Text, is_space, trim, trim_start, trim_end}

trim_end_of_solid : (s : Text) → All (λ c. is_space c ≡ false) s → trim_end s ≡ s
unfolding trim_end
trim_end_of_solid [] h = refl
trim_end_of_solid (c ∷ s) (h, hs) = ground (arith, trim_end_of_solid s hs)

trim_start_of_solid : (s : Text) → All (λ c. is_space c ≡ false) s → trim_start s ≡ s
unfolding trim_start
trim_start_of_solid [] h = refl
trim_start_of_solid (c ∷ s) (h, hs) = rw h

-- A text without whitespace is its own trimmed form.
pub trim_of_solid : (s : Text) → All (λ c. is_space c ≡ false) s → trim s ≡ s
unfolding trim
trim_of_solid s h = rw (trim_start_of_solid s h) (trim_end_of_solid s h)
