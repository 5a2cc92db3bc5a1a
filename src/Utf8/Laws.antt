-- ===== src/Utf8/Laws.antt =====
-- What `clampUtf8Text` promises its caller, the text area of the form.
use secret_letter.Prelude.{
  ℕ, ◌+◌, ◌≤◌, ◌<◌, ◌≡◌, sym, ap, ◌∙◌, ◌⊎◌, inl, inr, List, [], ◌∷◌, ◌++◌, true, false, arith,
  concat,
}
use mathlib.Core.List.{append-nil}
use secret_letter.Text.{Text, chars}
use secret_letter.Text.Chars.{concat-chars, chars-concat_front}
use secret_letter.Utf8.{get_utf8_byte_length, Utf8ClampResult, clamp_utf8_text}
use secret_letter.Utf8.Clamp.{
  widths-append, width, widths, get_utf8_byte_length-widths, Ends, all_taken, cut_at, Run,
  clamp_utf8_text-Run, widths-append,
}

-- What a run keeps is read back as the characters that it took.
chars-text :
    (text : Text) (max_bytes : ℕ) (r : Utf8ClampResult) (run : Run max_bytes 0 [] (chars text) r)
    → chars r.text ≡ run.front
chars-text text max_bytes r run =
    rw run.text (chars-concat_front text run.front run.back run.splits)

-- The reported count is the number of UTF-8 bytes of the returned text, and is within the limit.
pub clamp_utf8_text_bounds :
    (text : Text) (max_bytes : ℕ)
    → let r = clamp_utf8_text text max_bytes in
      (r.byte_length ≡ get_utf8_byte_length r.text) × (r.byte_length ≤ max_bytes)
clamp_utf8_text_bounds text max_bytes =
    let r = clamp_utf8_text text max_bytes in
    let run = clamp_utf8_text-Run text max_bytes in
    (
      omega (
        arith,
        run.counts,
        get_utf8_byte_length-widths r.text,
        ap widths (chars-text text max_bytes r run),
      ),
      run.fits,
    )

-- The text is kept whole and its count is exact when it fits the limit.
abbrev pub Kept : Text → ℕ → Type 0
Kept text max_bytes =
    clamp_utf8_text text max_bytes
    ≡ record { text = text; byte_length = get_utf8_byte_length text; truncated = false }

-- Otherwise a front of whole characters is kept, and the next character would pass the limit.
pub record Cut (text : Text) (max_bytes : ℕ) : Type 0 where
  pub next : Text
  pub rest : List Text
  pub marked : (clamp_utf8_text text max_bytes).truncated ≡ true
  pub front : chars text ≡ chars (clamp_utf8_text text max_bytes).text ++ next ∷ rest
  pub passes : max_bytes < (clamp_utf8_text text max_bytes).byte_length + width next

Kept-of_run :
    (text : Text) (max_bytes : ℕ) (front : List Text)
    → chars text ≡ front ++ []
    → (clamp_utf8_text text max_bytes).text ≡ concat front
    → (clamp_utf8_text text max_bytes).byte_length
      ≡ get_utf8_byte_length (clamp_utf8_text text max_bytes).text
    → (clamp_utf8_text text max_bytes).truncated ≡ false
    → Kept text max_bytes
Kept-of_run text max_bytes front e t n m =
    let whole : chars text ≡ front = e ∙ append-nil front in
    let same : (clamp_utf8_text text max_bytes).text ≡ text =
      t ∙ ap concat (sym whole) ∙ concat-chars text in
    ground (arith, ap get_utf8_byte_length same)

longest_of_run :
    (text : Text) (max_bytes : ℕ) (front back : List Text)
    → chars (clamp_utf8_text text max_bytes).text ≡ front
    → chars text ≡ front ++ back
    → (clamp_utf8_text text max_bytes).text ≡ concat front
    → (clamp_utf8_text text max_bytes).byte_length
      ≡ get_utf8_byte_length (clamp_utf8_text text max_bytes).text
    → Ends max_bytes (clamp_utf8_text text max_bytes) back
    → Kept text max_bytes ⊎ Cut text max_bytes
longest_of_run text max_bytes front [] same e t n (all_taken m) =
    inl (Kept-of_run text max_bytes front e t n m)
longest_of_run text max_bytes front (c ∷ rest) same e t n (cut_at c' rest' m over) =
    inr (record { next = c; rest = rest; marked = m; front = rw same e; passes = over })

clamped_either : (text : Text) (max_bytes : ℕ) → Kept text max_bytes ⊎ Cut text max_bytes
clamped_either text max_bytes =
    let run = clamp_utf8_text-Run text max_bytes in
    longest_of_run text max_bytes run.front run.back (chars-text text max_bytes _ run) run.splits
      (run.text) (clamp_utf8_text_bounds text max_bytes).0 run.ends

-- A text cut behind a front of its characters has more bytes than the limit.
Cut-exceeds :
    (text : Text) (max_bytes : ℕ) → Cut text max_bytes → max_bytes < get_utf8_byte_length text
Cut-exceeds text max_bytes cut =
    let r = clamp_utf8_text text max_bytes in
    omega (
      arith,
      get_utf8_byte_length-widths text,
      get_utf8_byte_length-widths r.text,
      (clamp_utf8_text_bounds text max_bytes).0,
      ap widths cut.front,
      widths-append (chars r.text) (cut.next ∷ cut.rest),
      cut.passes,
    )

-- A text within the limit comes back unchanged, counted and unmarked.
pub clamp_utf8_text-Kept :
    (text : Text) (max_bytes : ℕ) → get_utf8_byte_length text ≤ max_bytes → Kept text max_bytes
clamp_utf8_text-Kept text max_bytes h = elim (clamped_either text max_bytes) [
  | inl kept ↦ kept
  | inr cut ↦ absurd (omega (arith, Cut-exceeds text max_bytes cut))
]

-- A text whose UTF-8 bytes fit the limit is returned unchanged, with its count and no mark; a text with more
-- bytes is cut, with the mark, behind the longest front of whole characters that fits, and what is returned
-- always fits and is counted right.
pub clamp_utf8_text_longest :
    (text : Text) (max_bytes : ℕ)
    → let r = clamp_utf8_text text max_bytes in
      (get_utf8_byte_length text ≤ max_bytes → Kept text max_bytes)
      × (max_bytes < get_utf8_byte_length text → Cut text max_bytes)
      × (r.byte_length ≡ get_utf8_byte_length r.text)
      × (r.byte_length ≤ max_bytes)
clamp_utf8_text_longest text max_bytes =
    let (counts, fits) = clamp_utf8_text_bounds text max_bytes in
    (
      clamp_utf8_text-Kept text max_bytes,
      λ over. elim (clamped_either text max_bytes) [
        | inl kept ↦
            let same = ap (λ (r : Utf8ClampResult). r.byte_length) kept in
            absurd (omega (arith, same, fits, over))
        | inr cut ↦ cut
      ],
      counts,
      fits,
    )

-- Clamping a clamped text to the same limit changes nothing and is never marked.
pub clamp_utf8_text_idem :
    (text : Text) (max_bytes : ℕ)
    → clamp_utf8_text (clamp_utf8_text text max_bytes).text max_bytes
      ≡ record (clamp_utf8_text text max_bytes) { truncated = false }
clamp_utf8_text_idem text max_bytes =
    let (counts, fits) = clamp_utf8_text_bounds text max_bytes in
    clamp_utf8_text-Kept (clamp_utf8_text text max_bytes).text max_bytes (omega arith) ∙ (λ i.
      record {
        text = (clamp_utf8_text text max_bytes).text;
        byte_length = sym counts i;
        truncated = false;
      })
