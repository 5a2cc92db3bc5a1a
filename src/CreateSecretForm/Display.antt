-- ===== src/CreateSecretForm/Display.antt =====
-- What the form of CreateSecretForm.tsx highlights and colours.
use secret_letter.Prelude.{
  ℕ, zero, suc, ◌*◌, ◌≤◌, ◌<◌, ◌≡◌, ◌↔◌, inl, inr, refl, List, [], ◌∷◌, Option, none, some, arith,
}
use secret_letter.CreateSecretForm.{
  FormState, initial_form, ttl_options, max_plaintext_size, progress_bar_color, selected_ttl_index,
  find_index, green, red,
}
use secret_letter.CreateSecretForm.Laws.{Reach, IsTtl, Reach-FormInv}

unfoldable pub get_elem? : List ℕ → ℕ → Option ℕ
get_elem? [] i = none
get_elem? (x ∷ xs) zero = some x
get_elem? (x ∷ xs) (suc i) = get_elem? xs i

IsTtl-selected : (t : ℕ) → IsTtl t → get_elem? ttl_options (selected_ttl_index t) ≡ some t
unfolding get_elem? selected_ttl_index find_index
IsTtl-selected t (inl h) = rw h refl
IsTtl-selected t (inr (inl h)) = rw h refl
IsTtl-selected t (inr (inr h)) = rw h refl

-- In every reachable form, the highlighted time limit is the chosen one; the bar is at most full,
-- is red exactly from 9216 bytes on, and green exactly below 6144 bytes.
pub Reach-display :
    {s : FormState}
    → Reach initial_form s
    → (get_elem? ttl_options (selected_ttl_index s.ttl) ≡ some s.ttl)
      × (s.plaintext_bytes * 100 ≤ 100 * max_plaintext_size)
      × ((progress_bar_color s.plaintext_bytes ≡ red) ↔ (9216 ≤ s.plaintext_bytes))
      × ((progress_bar_color s.plaintext_bytes ≡ green) ↔ (s.plaintext_bytes < 6144))
unfolding progress_bar_color
Reach-display {s} r =
    let inv = Reach-FormInv r in
    (
      IsTtl-selected s.ttl inv.chosen,
      omega (arith, inv.within),
      (ground arith, ground arith),
      (ground arith, ground arith),
    )
