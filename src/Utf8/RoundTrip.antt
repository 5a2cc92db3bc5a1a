-- ===== src/Utf8/RoundTrip.antt =====
-- Decoding what was encoded.
use secret_letter.Prelude.{
  ◌&&◌, All-append_parts, ℕ, suc, ◌+◌, ◌-◌, ◌*◌, ◌/◌, ◌%◌, ◌≤◌, ◌<◌, ◌≡◌, refl, ap, ◌∙◌, List, [],
  ◌∷◌, ◌++◌, map, arith, All, flat_map, concat, true, false, Bool-cases, inl, inr, ltb, ◌⊎◌, ◌==◌,
  if◌then◌else◌,
}
use secret_letter.Text.{Text, chars, code_point_at0, is_lead, is_trail}
use secret_letter.Text.Chars.{IsChar, single, pair, concat-chars, chars-IsChar}
use secret_letter.Utf8.Encoder.{scalar, encode_scalar, encode_char, encode}
use secret_letter.Utf8.Decoder.{
  DecoderState, initial, decode_step, decode_loop, drop_bom, units_of, decode,
}

-- A Unicode scalar value.
abbrev pub IsScalar : ℕ → Type 0
IsScalar c = (c < 0xd800) ⊎ ((0xe000 ≤ c) × (c < 0x110000))

abbrev after : ℕ → ℕ → ℕ → ℕ → DecoderState
after c n lo hi = record { code_point = c; needed = n; lower = lo; upper = hi }

-- The four kinds of first byte.
first_one : (c : ℕ) → c < 0x80 → decode_step initial c ≡ (c ∷ [], initial)
unfolding decode_step
first_one c h = ground arith

first_two : (g : ℕ) → 2 ≤ g → g < 32 → decode_step initial (0xc0 + g) ≡ ([], after g 1 0x80 0xbf)
unfolding decode_step
first_two g l h = ground arith

first_three :
    (g : ℕ)
    → g < 16
    → decode_step initial (0xe0 + g)
      ≡ ([], after g 2 (if g == 0 then 0xa0 else 0x80) (if g == 13 then 0x9f else 0xbf))
unfolding decode_step
first_three g h = ground arith

first_four :
    (g : ℕ)
    → g < 5
    → decode_step initial (0xf0 + g)
      ≡ ([], after g 3 (if g == 0 then 0x90 else 0x80) (if g == 4 then 0x8f else 0xbf))
unfolding decode_step
first_four g h = ground arith

-- A continuation byte within the range, before and at the end of its sequence.
more_left :
    (c n lo hi x : ℕ)
    → x < 64
    → lo ≤ 0x80 + x
    → 0x80 + x ≤ hi
    → decode_step (after c (suc (suc n)) lo hi) (0x80 + x)
      ≡ ([], after (c * 64 + x) (suc n) 0x80 0xbf)
unfolding decode_step
more_left c n lo hi x h l u = ground arith

more_last :
    (c lo hi x : ℕ)
    → x < 64
    → lo ≤ 0x80 + x
    → 0x80 + x ≤ hi
    → decode_step (after c 1 lo hi) (0x80 + x) ≡ ((c * 64 + x) ∷ [], initial)
unfolding decode_step
more_last c lo hi x h l u = ground arith

loop_step :
    (s s' : DecoderState) (b : ℕ) (bytes out : List ℕ)
    → decode_step s b ≡ (out, s')
    → decode_loop s (b ∷ bytes) ≡ out ++ decode_loop s' bytes
unfolding decode_loop
loop_step s s' b bytes out h = rw h

two_bytes :
    (c : ℕ) (rest : List ℕ)
    → 0x80 ≤ c
    → c < 0x800
    → decode_loop initial ((0xc0 + c / 64) ∷ (0x80 + c % 64) ∷ rest) ≡ c ∷ decode_loop initial rest
two_bytes c rest l h =
    loop_step _ _ _ _ _ (first_two (c / 64) (omega arith) (omega arith))
    ∙ loop_step _ _ _ _ _
        (more_last (c / 64) 0x80 0xbf (c % 64) (omega arith) (omega arith) (omega arith))
    ∙ ap (λ (d : ℕ). d ∷ decode_loop initial rest) (omega arith)

three_bytes :
    (c : ℕ) (rest : List ℕ)
    → IsScalar c
    → 0x800 ≤ c
    → c < 0x10000
    → decode_loop initial ((0xe0 + c / 4096) ∷ (0x80 + c / 64 % 64) ∷ (0x80 + c % 64) ∷ rest)
      ≡ c ∷ decode_loop initial rest
three_bytes c rest sc l h =
    loop_step _ _ _ _ _ (first_three (c / 4096) (omega arith))
    ∙ loop_step _ _ _ _ _
        (more_left (c / 4096) 0 _ _ (c / 64 % 64) (omega arith) (ground arith) (ground arith))
    ∙ loop_step _ _ _ _ _ (more_last _ 0x80 0xbf (c % 64) (omega arith) (omega arith) (omega arith))
    ∙ ap (λ (d : ℕ). d ∷ decode_loop initial rest) (omega arith)

four_bytes :
    (c : ℕ) (rest : List ℕ)
    → 0x10000 ≤ c
    → c < 0x110000
    → decode_loop initial (
        (0xf0 + c / 262144)
        ∷ (0x80 + c / 4096 % 64)
        ∷ (0x80 + c / 64 % 64)
        ∷ (0x80 + c % 64)
        ∷ rest)
      ≡ c ∷ decode_loop initial rest
four_bytes c rest l h =
    loop_step _ _ _ _ _ (first_four (c / 262144) (omega arith))
    ∙ loop_step _ _ _ _ _
        (more_left (c / 262144) 1 _ _ (c / 4096 % 64) (omega arith) (ground arith) (ground arith))
    ∙ loop_step _ _ _ _ _
        (more_left _ 0 0x80 0xbf (c / 64 % 64) (omega arith) (omega arith) (omega arith))
    ∙ loop_step _ _ _ _ _ (more_last _ 0x80 0xbf (c % 64) (omega arith) (omega arith) (omega arith))
    ∙ ap (λ (d : ℕ). d ∷ decode_loop initial rest) (omega arith)

decode_loop-scalar :
    (c : ℕ) (rest : List ℕ)
    → IsScalar c
    → decode_loop initial (encode_scalar c ++ rest) ≡ c ∷ decode_loop initial rest
unfolding encode_scalar
decode_loop-scalar c rest h = elim (Bool-cases (ltb c 0x80)) [
  | inl one ↦ rw one (loop_step _ _ _ _ _ (first_one c (ground arith)))
  | inr e1 ↦ elim (Bool-cases (ltb c 0x800)) [
    | inl two ↦ rw (e1, two) (two_bytes c rest (ground arith) (ground arith))
    | inr e2 ↦ elim (Bool-cases (ltb c 0x10000)) [
      | inl three ↦ rw (e1, e2, three) (three_bytes c rest h (ground arith) (ground arith))
      | inr four ↦ rw (e1, e2, four) (four_bytes c rest (ground arith) (ground arith))
    ]
  ]
]

-- A text is well formed if it holds 16-bit units and no surrogate without its partner.
abbrev pub IsWhole : Text → Type 0
IsWhole char = IsScalar (code_point_at0 char)

abbrev pub IsWellFormed : Text → Type 0
IsWellFormed text = All (λ u. u < 0x10000) text × All IsWhole (chars text)

scalar_same : (c : ℕ) → IsScalar c → scalar c ≡ c
unfolding scalar
scalar_same c h = ground arith

encode_char-scalar :
    (char : Text) → IsWhole char → encode_char char ≡ encode_scalar (code_point_at0 char)
unfolding encode_char
encode_char-scalar char h =
    unfold encode_char in
    ap encode_scalar {y = code_point_at0 char} (scalar_same (code_point_at0 char) h)

decode_loop-encode :
    (cs : List Text)
    → All IsWhole cs
    → decode_loop initial (flat_map encode_char cs) ≡ map code_point_at0 cs
decode_loop-encode [] h = unfold decode_loop in refl
decode_loop-encode (c ∷ cs) (h, hs) = rw (encode_char-scalar c h) (
    decode_loop-scalar (code_point_at0 c) (flat_map encode_char cs) h
    ∙ ap (λ l. code_point_at0 c ∷ l) (decode_loop-encode cs hs))

units_of-code_point :
    (c : Text) → IsChar c → All (λ u. u < 0x10000) c → units_of (code_point_at0 c) ≡ c
unfolding units_of code_point_at0
units_of-code_point _ (single u) h = ground arith
units_of-code_point _ (pair u v lead trail) h = ground arith

-- The reader's text: the byte order mark at its start is lost.
unfoldable pub without_bom : Text → Text
without_bom [] = []
without_bom (u ∷ text) = if u == 0xfeff then text else u ∷ text

units_of-concat :
    (cs : List Text)
    → All IsChar cs
    → All (λ u. u < 0x10000) (concat cs)
    → flat_map units_of (map code_point_at0 cs) ≡ concat cs
units_of-concat [] h small = refl
units_of-concat (c ∷ cs) (h, hs) small =
    let (front, back) = All-append_parts (λ u. u < 0x10000) c (concat cs) small in
    rw (units_of-code_point c h front) (ap (λ t. c ++ t) (units_of-concat cs hs back))

units_of-drop_bom :
    (cs : List Text)
    → All IsChar cs
    → All (λ u. u < 0x10000) (concat cs)
    → flat_map units_of (drop_bom (map code_point_at0 cs)) ≡ without_bom (concat cs)
unfolding drop_bom without_bom code_point_at0
units_of-drop_bom [] h small = refl
units_of-drop_bom (_ ∷ cs) (single u, hs) small = elim (Bool-cases (u == 0xfeff)) [
  | inl bom ↦ rw bom (units_of-concat cs hs small.1)
  | inr other ↦ rw other (units_of-concat ((u ∷ []) ∷ cs) (single u, hs) small)
]
units_of-drop_bom (_ ∷ cs) (pair u v lead trail, hs) small =
    let paired : (is_lead u && is_trail v) ≡ true = rw (lead, trail) in
    let high : ((u - 0xd800) * 1024 + (v - 0xdc00) + 0x10000 == 0xfeff) ≡ false = ground arith in
    let low : (u == 0xfeff) ≡ false = ground arith in
    rw (paired, high, low)
      (rw paired at (units_of-concat ((u ∷ v ∷ []) ∷ cs) (pair u v lead trail, hs) small))

-- `TextDecoder` after `TextEncoder` gives a well-formed text back, but for a leading byte order
-- mark.
pub decode-encode_text : (text : Text) → IsWellFormed text → decode (encode text) ≡ without_bom text
unfolding decode encode
decode-encode_text text (small, whole) =
    let same = concat-chars text in
    ap (λ l. flat_map units_of (drop_bom l)) (decode_loop-encode (chars text) whole)
    ∙ units_of-drop_bom (chars text) (chars-IsChar text) (rw same small)
    ∙ ap without_bom same
