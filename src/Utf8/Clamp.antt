-- ===== src/Utf8/Clamp.antt =====
-- `clampUtf8Text` keeps the longest front of whole characters that fits.
use secret_letter.Prelude.{
  leb, not, is_empty, zero, ℕ, suc, ◌+◌, ◌≤◌, ◌<◌, ◌≡◌, refl, sym, ap, ◌∙◌, inl, inr, List, [], ◌∷◌,
  ◌++◌, true, false, ltb, arith, concat, Bool-cases,
}
use mathlib.Core.List.{append-nil, append_assoc}
use secret_letter.Text.{Text, chars, code_point_at0}
use secret_letter.Text.Chars.{head-chars}
use secret_letter.Utf8.{
  utf8_byte_length_for_code_point, byte_length_loop, get_utf8_byte_length, Utf8ClampResult,
  clamp_loop, clamp_utf8_text,
}

-- The UTF-8 bytes of one character, and of several.
abbrev pub width : Text → ℕ
width c = utf8_byte_length_for_code_point (code_point_at0 c)

abbrev pub widths : List Text → ℕ
widths [] = 0
widths (c ∷ cs) = width c + widths cs

byte_length_loop-widths :
    (bytes : ℕ) (cs : List Text) → byte_length_loop bytes cs ≡ bytes + widths cs
unfolding byte_length_loop
byte_length_loop-widths bytes [] = omega arith
byte_length_loop-widths bytes (c ∷ cs) = omega (arith, byte_length_loop-widths (bytes + width c) cs)

pub get_utf8_byte_length-widths : (text : Text) → get_utf8_byte_length text ≡ widths (chars text)
unfolding get_utf8_byte_length
get_utf8_byte_length-widths text = omega (arith, byte_length_loop-widths 0 (chars text))

width_pos : (c : Text) → 0 < width c
width_pos c = go (code_point_at0 c)
  where
    go : (n : ℕ) → 0 < utf8_byte_length_for_code_point n
    go n = unfold utf8_byte_length_for_code_point in ground arith

-- How the loop ends: with all characters taken, or at the first that does not fit.
pub data Ends (max_bytes : ℕ) (r : Utf8ClampResult) : List Text → Type 0 where
  all_taken : r.truncated ≡ false → Ends max_bytes r []
  cut_at :
      (c : Text) (rest : List Text)
      → r.truncated ≡ true
      → max_bytes < r.byte_length + width c
      → Ends max_bytes r (c ∷ rest)

pub record Run (max_bytes bytes : ℕ) (clamped : Text) (cs : List Text) (r : Utf8ClampResult)
    : Type 0 where
  pub front : List Text
  pub back : List Text
  pub splits : cs ≡ front ++ back
  pub text : r.text ≡ clamped ++ concat front
  pub counts : r.byte_length ≡ bytes + widths front
  pub fits : r.byte_length ≤ max_bytes
  pub ends : Ends max_bytes r back

clamp_loop-Run :
    (max_bytes bytes : ℕ) (clamped : Text) (cs : List Text)
    → bytes ≤ max_bytes
    → Run max_bytes bytes clamped cs (clamp_loop max_bytes bytes clamped cs)
unfolding clamp_loop
clamp_loop-Run max_bytes bytes clamped [] h = record {
  front = [];
  back = [];
  splits = refl;
  text = sym (append-nil clamped);
  counts = omega arith;
  fits = h;
  ends = all_taken refl;
}
clamp_loop-Run max_bytes bytes clamped (c ∷ cs) h =
    elim (Bool-cases (ltb max_bytes (bytes + width c))) [
      | inl over ↦ rw over (record {
        front = [];
        back = c ∷ cs;
        splits = refl;
        text = sym (append-nil clamped);
        counts = omega arith;
        fits = h;
        ends = cut_at c cs refl (ground arith);
      })
      | inr room ↦
          let run = clamp_loop-Run max_bytes (bytes + width c) (clamped ++ c) cs (ground arith) in
          rw room (record {
            front = c ∷ run.front;
            back = run.back;
            splits = ap (λ (l : List Text). c ∷ l) run.splits;
            text = run.text ∙ append_assoc clamped c (concat run.front);
            counts = omega (arith, run.counts);
            fits = run.fits;
            ends = run.ends;
          })
    ]

-- The early return at a limit of zero is such a run too.
zero-Run :
    (text : Text)
    → Run 0 0 []
        (chars text)
        (record { text = []; byte_length = 0; truncated = not (is_empty text) })
zero-Run [] = record {
  front = [];
  back = chars [];
  splits = refl;
  text = refl;
  counts = omega arith;
  fits = omega arith;
  ends = unfold chars in all_taken refl;
}
zero-Run (u ∷ text) =
    let (d, rest, first) = head-chars u text in
    record {
      front = [];
      back = (u ∷ d) ∷ rest;
      splits = first;
      text = refl;
      counts = omega arith;
      fits = omega arith;
      ends = cut_at (u ∷ d) rest refl (omega (arith, width_pos (u ∷ d)));
    }

pub clamp_utf8_text-Run :
    (text : Text) (max_bytes : ℕ) → Run max_bytes 0 [] (chars text) (clamp_utf8_text text max_bytes)
unfolding clamp_utf8_text
clamp_utf8_text-Run text zero = zero-Run text
clamp_utf8_text-Run text (suc k) =
    let pos : leb (suc k) 0 ≡ false = ground arith in
    rw pos (clamp_loop-Run (suc k) 0 [] (chars text) (omega arith))

pub widths-append : (xs ys : List Text) → widths (xs ++ ys) ≡ widths xs + widths ys
widths-append [] ys = omega arith
widths-append (x ∷ xs) ys = omega (arith, widths-append xs ys)
