-- ===== src/Text/Chars.antt =====
-- A text is the concatenation of its characters, and reading a prefix of the characters gives them
-- back.
use secret_letter.Prelude.{
  sym, ap, ◌∙◌, List, ◌++◌, ℕ, ◌≡◌, refl, [], ◌∷◌, true, false, ◌&&◌, Bool-cases, inl, inr, arith,
  All, concat,
}
use secret_letter.Text.{Text, is_lead, is_trail, chars}

-- What a character is: one code unit, or a surrogate pair.
pub data IsChar : Text → Type 0 where
  single : (u : ℕ) → IsChar (u ∷ [])
  pair : (u v : ℕ) → is_lead u ≡ true → is_trail v ≡ true → IsChar (u ∷ v ∷ [])

-- The two ways that `chars` takes a character from two units or more.
pub chars_pair :
    (u v : ℕ) (text : Text)
    → (is_lead u && is_trail v) ≡ true
    → chars (u ∷ v ∷ text) ≡ (u ∷ v ∷ []) ∷ chars text
unfolding chars
chars_pair u v text h = rw h

pub chars_single :
    (u v : ℕ) (text : Text)
    → (is_lead u && is_trail v) ≡ false
    → chars (u ∷ v ∷ text) ≡ (u ∷ []) ∷ chars (v ∷ text)
unfolding chars
chars_single u v text h = rw h

pub concat-chars : (text : Text) → concat (chars text) ≡ text
concat-chars [] = unfold chars in refl
concat-chars (u ∷ []) = unfold chars in refl
concat-chars (u ∷ v ∷ text) = elim (Bool-cases (is_lead u && is_trail v)) [
  | inl h ↦ rw (chars_pair u v text h) (cc (concat-chars text))
  | inr h ↦ rw (chars_single u v text h) (cc (concat-chars (v ∷ text)))
]

pub chars-IsChar : (text : Text) → All IsChar (chars text)
chars-IsChar [] = unfold chars in tt
chars-IsChar (u ∷ []) = unfold chars in (single u, tt)
chars-IsChar (u ∷ v ∷ text) = elim (Bool-cases (is_lead u && is_trail v)) [
  | inl h ↦ rw (chars_pair u v text h) (pair u v (ground arith) (ground arith), chars-IsChar text)
  | inr h ↦ rw (chars_single u v text h) (single u, chars-IsChar (v ∷ text))
]

append-eq-nil {ℓ} : {A : Type ℓ} (xs ys : List A) → xs ++ ys ≡ [] → xs ≡ []
append-eq-nil [] ys h = refl
append-eq-nil (x ∷ xs) ys h = cc

-- The first character begins with the first unit.
pub head-chars :
    (v : ℕ) (text : Text) → (d : Text) × (rest : List Text) × (chars (v ∷ text) ≡ (v ∷ d) ∷ rest)
head-chars v [] = ([], [], unfold chars in refl)
head-chars v (w ∷ text) = elim (Bool-cases (is_lead v && is_trail w)) [
  | inl h ↦ (w ∷ [], chars text, chars_pair v w text h)
  | inr h ↦ ([], chars (w ∷ text), chars_single v w text h)
]

-- A unit that did not pair with `v` does not pair with what starts with `v` either.
chars_single_front :
    (u v : ℕ) (text : Text) (front back : List Text)
    → (is_lead u && is_trail v) ≡ false
    → chars (v ∷ text) ≡ front ++ back
    → chars (concat front) ≡ front
    → chars (u ∷ concat front) ≡ (u ∷ []) ∷ front
chars_single_front u v text [] back h e ih = unfold chars in refl
chars_single_front u v text (c ∷ front) back h e ih =
    let (d, rest, first) = head-chars v text in
    let same : c ≡ v ∷ d = cc in
    rw same (chars_single u v (d ++ concat front) h ∙ ap (λ cs. (u ∷ []) ∷ cs) (rw same at ih))

-- A list of characters is read back from the text that they make up, if it is the front of what
-- `chars` gave.
pub chars-concat_front :
    (text : Text) (front back : List Text)
    → chars text ≡ front ++ back
    → chars (concat front) ≡ front
chars-concat_front text [] back h = unfold chars in refl
chars-concat_front [] (c ∷ front) back h = unfold chars in cc
chars-concat_front (u ∷ []) (c ∷ front) back h =
    let same : c ≡ u ∷ [] = unfold chars in cc in
    let none_left : front ++ back ≡ [] = unfold chars in cc in
    let done : front ≡ [] = append-eq-nil front back none_left in
    rw (same, done) (unfold chars in refl)
chars-concat_front (u ∷ v ∷ text) (c ∷ front) back h = elim (Bool-cases (is_lead u && is_trail v)) [
  | inl p ↦
      let e = sym (chars_pair u v text p) ∙ h in
      let same : c ≡ u ∷ v ∷ [] = cc in
      rw same (
        chars_pair u v (concat front) p
        ∙ ap (λ cs. (u ∷ v ∷ []) ∷ cs) (chars-concat_front text front back (cc)))
  | inr p ↦
      let e = sym (chars_single u v text p) ∙ h in
      let same : c ≡ u ∷ [] = cc in
      let tails : chars (v ∷ text) ≡ front ++ back = cc in
      rw same (
        chars_single_front u v text front back p tails
          (chars-concat_front (v ∷ text) front back tails))
]
