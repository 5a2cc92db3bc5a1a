-- ===== src/Base64Url/Padding.antt =====
-- The padding that `decodeBase64Url` adds is what `atob` takes off again.
use secret_letter.Prelude.{
  if◌then◌else◌, ==-ne, ℕ, ◌%◌, ◌≡◌, ◌≢◌, refl, ap, ◌∙◌, List, [], ◌∷◌, ◌++◌, arith, All, some,
  length, ◌⊎◌, inl, inr, ◌==◌, length-append,
}
use mathlib.Core.List.{append-nil, append_assoc}
use secret_letter.Text.{Text, is_space}
use secret_letter.Base64Url.{pad_loop, pad}
use secret_letter.Base64Url.Platform.{octets, values, strip_space, drop_pad, decode_stripped, atob}
use secret_letter.Base64Url.Values.{IsPlain, values-IsPlain}

abbrev one_pad : Text → Text
one_pad s = s ++ b'=' ∷ []

pad_zero : (s : Text) → length s % 4 ≡ 0 → pad s ≡ s
unfolding pad_loop
pad_zero s h = ground arith

pad_one : (s : Text) → length s % 4 ≡ 3 → pad s ≡ one_pad s
unfolding pad_loop
pad_one s h = ground (arith, length-append s (b'=' ∷ []))

pad_two : (s : Text) → length s % 4 ≡ 2 → pad s ≡ one_pad (one_pad s)
unfolding pad_loop
pad_two s h = ground (arith, length-append s (b'=' ∷ []), length-append (one_pad s) (b'=' ∷ []))

drop_pad-plain : (s : Text) → All IsPlain s → drop_pad s ≡ s
unfolding drop_pad
drop_pad-plain [] h = refl
drop_pad-plain (c ∷ []) h = ground arith
drop_pad-plain (c ∷ d ∷ s) (hc, h) = ground (arith, drop_pad-plain (d ∷ s))

drop_pad-append : (s : Text) → drop_pad (s ++ b'=' ∷ []) ≡ s
unfolding drop_pad
drop_pad-append [] = refl
drop_pad-append (c ∷ []) = refl
drop_pad-append (c ∷ d ∷ s) = ground (arith, drop_pad-append (d ∷ s))

-- Nothing is whitespace for `atob` that is not whitespace of the language.
strip_space-plain : (s t : Text) → All IsPlain s → strip_space (s ++ t) ≡ s ++ strip_space t
unfolding strip_space is_space
strip_space-plain [] t h = refl
strip_space-plain (c ∷ s) t (hc, h) = ground (arith, strip_space-plain s t)

-- Once the padding is off, all is read by value.
decode_stripped_lem :
    (s t : Text) (vs : List ℕ)
    → values s ≡ some vs
    → length s % 4 ≢ 1
    → (if length t % 4 == 0 then drop_pad (drop_pad t) else t) ≡ s
    → decode_stripped t ≡ some (octets vs)
unfolding decode_stripped
decode_stripped_lem s t vs v n e = rw (e, v, ==-ne (length s % 4) 1 n)

-- On padding alone.
strip_space-pads :
    (strip_space [] ≡ [])
    × (strip_space (b'=' ∷ []) ≡ b'=' ∷ [])
    × (strip_space (b'=' ∷ b'=' ∷ []) ≡ b'=' ∷ b'=' ∷ [])
unfolding strip_space
strip_space-pads = (refl, refl, refl)

strip_space-padded :
    (s : Text)
    → All IsPlain s
    → (strip_space s ≡ s)
      × (strip_space (one_pad s) ≡ one_pad s)
      × (strip_space (one_pad (one_pad s)) ≡ one_pad (one_pad s))
strip_space-padded s h =
    let (nothing, one, two) = strip_space-pads in
    (
      rw append-nil at (strip_space-plain s [] h ∙ ap (λ t. s ++ t) nothing),
      strip_space-plain s (b'=' ∷ []) h ∙ ap (λ t. s ++ t) one,
      rw (append_assoc s (b'=' ∷ []) (b'=' ∷ []))
          (strip_space-plain s (b'=' ∷ b'=' ∷ []) h ∙ ap (λ t. s ++ t) two),
    )

mod4-cases : (n : ℕ) → n % 4 ≢ 1 → (n % 4 ≡ 0) ⊎ ((n % 4 ≡ 3) ⊎ (n % 4 ≡ 2))
mod4-cases n h = grind arith

-- `atob` of the padded text gives the bytes of the values.
pub atob-pad :
    (s : Text) (vs : List ℕ)
    → values s ≡ some vs
    → length s % 4 ≢ 1
    → atob (pad s) ≡ some (octets vs)
unfolding atob
atob-pad s vs v n =
    let plain = values-IsPlain s vs v in
    let (bare, one, two) = strip_space-padded s plain in
    elim (mod4-cases (length s) n) [
      | inl e ↦
          rw (pad_zero s e, bare)
            (decode_stripped_lem s s vs v n (ground (arith, drop_pad-plain s plain)))
      | inr (inl e) ↦
          rw (pad_one s e, one)
            (decode_stripped_lem s (one_pad s) vs v n (
              ground
                (arith, drop_pad-append s, drop_pad-plain s plain, length-append s (b'=' ∷ []))))
      | inr (inr e) ↦
          rw (pad_two s e, two)
            (decode_stripped_lem s (one_pad (one_pad s)) vs v n (
              ground (
                arith,
                drop_pad-append s,
                drop_pad-append (one_pad s),
                length-append s (b'=' ∷ []),
                length-append (one_pad s) (b'=' ∷ []),
              )))
    ]
