-- ===== src/Base64Url/Values.antt =====
-- Lists of six-bit values: regrouping to bytes and back, and reading them from text.
use secret_letter.Prelude.{
  Option-cases, inl, inr, ℕ, suc, ◌+◌, ◌*◌, ◌/◌, ◌≡◌, ◌≢◌, refl, ap, List, [], ◌∷◌, map, true,
  false, arith, All, some, all, and-eq-true, length,
}
use secret_letter.Text.{Text, is_space}
use secret_letter.Utf8.Encoder.{IsByte}
use secret_letter.Base64Url.{is_base64_url_char}
use secret_letter.Base64Url.Platform.{base64_char, base64_value, sextets, octets, values}
use secret_letter.Base64Url.Alphabet.{
  IsSextet, base64_value-char, base64_value-some, base64_value-swap, swap,
}

pub sextets-IsSextet : (bytes : List ℕ) → All IsByte bytes → All IsSextet (sextets bytes)
unfolding sextets
sextets-IsSextet [] h = tt
sextets-IsSextet (a ∷ []) h = omega arith
sextets-IsSextet (a ∷ b ∷ []) h = omega arith
sextets-IsSextet (a ∷ b ∷ c ∷ bytes) (ha, (hb, (hc, h))) =
    (omega arith, (omega arith, (omega arith, (omega arith, sextets-IsSextet bytes h))))

pub octets-sextets : (bytes : List ℕ) → All IsByte bytes → octets (sextets bytes) ≡ bytes
unfolding sextets octets
octets-sextets [] h = refl
octets-sextets (a ∷ []) h = ground arith
octets-sextets (a ∷ b ∷ []) h = ground arith
octets-sextets (a ∷ b ∷ c ∷ bytes) h = ground (arith, octets-sextets bytes)

pub length-octets : (vs : List ℕ) → length (octets vs) ≡ length vs * 3 / 4
unfolding octets
length-octets [] = omega arith
length-octets (p ∷ []) = omega arith
length-octets (p ∷ q ∷ []) = omega arith
length-octets (p ∷ q ∷ r ∷ []) = omega arith
length-octets (p ∷ q ∷ r ∷ s ∷ vs) = omega (arith, length-octets vs)

pub octets-IsByte : (vs : List ℕ) → All IsSextet vs → All IsByte (octets vs)
unfolding octets
octets-IsByte [] h = tt
octets-IsByte (p ∷ []) h = tt
octets-IsByte (p ∷ q ∷ []) h = omega arith
octets-IsByte (p ∷ q ∷ r ∷ []) h = omega arith
octets-IsByte (p ∷ q ∷ r ∷ s ∷ vs) (hp, (hq, (hr, (hs, h)))) =
    (omega arith, (omega arith, (omega arith, octets-IsByte vs h)))

pub length-sextets : (bytes : List ℕ) → length (sextets bytes) ≡ (length bytes * 4 + 2) / 3
unfolding sextets
length-sextets [] = omega arith
length-sextets (a ∷ []) = omega arith
length-sextets (a ∷ b ∷ []) = omega arith
length-sextets (a ∷ b ∷ c ∷ bytes) = omega (arith, length-sextets bytes)

values-cons :
    (c v : ℕ) (s : Text) (vs : List ℕ)
    → base64_value c ≡ some v
    → values s ≡ some vs
    → values (c ∷ s) ≡ some (v ∷ vs)
unfolding values
values-cons c v s vs h k = ground arith

pub values-map : (vs : List ℕ) → All IsSextet vs → values (map base64_char vs) ≡ some vs
values-map [] h = unfold values in refl
values-map (v ∷ vs) (h, hs) =
    values-cons (base64_char v) v (map base64_char vs) vs (base64_value-char v h) (values-map vs hs)

-- What the pattern admits has values after the replacements.
pub values_of_url :
    (s : Text)
    → all is_base64_url_char s ≡ true
    → (vs : List ℕ) × (values (map (swap b'_' b'/') (map (swap b'-' b'+') s)) ≡ some vs)
      × All IsSextet vs
      × (length vs ≡ length s)
values_of_url [] h = ([], unfold values in refl, tt, refl)
values_of_url (c ∷ s) h =
    let (here, later) = and-eq-true _ _ h in
    let (v, e, small) = base64_value-swap c here in
    let (vs, es, smalls, n) = values_of_url s later in
    (v ∷ vs, values-cons _ v _ vs e es, (small, smalls), ap suc n)

-- No padding and no whitespace has a value.
abbrev pub IsPlain : ℕ → Type 0
IsPlain c = (c ≢ b'=') × (is_space c ≡ false)

values-cons_parts :
    (c : ℕ) (s : Text) {vs : List ℕ}
    → values (c ∷ s) ≡ some vs
    → (v : ℕ) × (ws : List ℕ) × (base64_value c ≡ some v) × (values s ≡ some ws) × (vs ≡ v ∷ ws)
unfolding values
values-cons_parts c s h = elim (Option-cases (base64_value c)) [
  | inl e ↦ ground arith
  | inr (v, e) ↦ elim (Option-cases (values s)) [
    | inl es ↦ ground arith
    | inr (ws, es) ↦ (v, ws, e, es, ground arith)
  ]
]

pub values-IsPlain : (s : Text) (vs : List ℕ) → values s ≡ some vs → All IsPlain s
values-IsPlain [] vs h = tt
values-IsPlain (c ∷ s) vs h =
    let (v, ws, e, es, same) = values-cons_parts c s h in
    let (pad, space, small) = base64_value-some c v e in ((pad, space), values-IsPlain s ws es)

pub length-values : (s : Text) (vs : List ℕ) → values s ≡ some vs → length vs ≡ length s
length-values [] vs h = unfold values in ground arith
length-values (c ∷ s) vs h =
    let (v, ws, e, es, same) = values-cons_parts c s h in rw same (ap suc (length-values s ws es))
