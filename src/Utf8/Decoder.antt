-- ===== src/Utf8/Decoder.antt =====
-- The language's `TextDecoder` with its default options, written after the Encoding Standard: a
-- malformed sequence gives U+FFFD, and a byte order mark at the start is dropped.
use secret_letter.Prelude.{
  ℕ, ◌+◌, ◌-◌, ◌*◌, ◌/◌, ◌%◌, List, [], ◌∷◌, ◌++◌, ◌&&◌, ◌||◌, leb, ltb, ◌==◌, if◌then◌else◌,
  flat_map,
}
use secret_letter.Text.{Text}

-- `needed` is the number of bytes that are still to come.
pub record DecoderState : Type 0 where
  pub code_point : ℕ
  pub needed : ℕ
  pub lower : ℕ
  pub upper : ℕ

abbrev pub initial : DecoderState
initial = record { code_point = 0; needed = 0; lower = 0x80; upper = 0xbf }

-- The first byte of a sequence: what it gives, and the state behind it.
unfoldable pub decode_first : ℕ → List ℕ × DecoderState
decode_first b =
    if leb b 0x7f
    then (b ∷ [], initial)
    else if leb 0xc2 b && leb b 0xdf
    then ([], record { code_point = b % 32; needed = 1; lower = 0x80; upper = 0xbf })
    else if leb 0xe0 b && leb b 0xef
    then (
      [],
      record {
        code_point = b % 16;
        needed = 2;
        lower = if b == 0xe0 then 0xa0 else 0x80;
        upper = if b == 0xed then 0x9f else 0xbf;
      },
    )
    else if leb 0xf0 b && leb b 0xf4
    then (
      [],
      record {
        code_point = b % 8;
        needed = 3;
        lower = if b == 0xf0 then 0x90 else 0x80;
        upper = if b == 0xf4 then 0x8f else 0xbf;
      },
    )
    else (0xfffd ∷ [], initial)

-- A later byte; one out of range ends the sequence and is read again as a first byte.
unfoldable pub decode_more : DecoderState → ℕ → List ℕ × DecoderState
unfolding decode_first
decode_more s b =
    let (out, s') = decode_first b in
    let code_point = s.code_point * 64 + b % 64 in
    if ltb b s.lower || ltb s.upper b
    then (0xfffd ∷ out, s')
    else if s.needed == 1
    then (code_point ∷ [], initial)
    else ([], record { code_point = code_point; needed = s.needed - 1; lower = 0x80; upper = 0xbf })

unfoldable pub decode_step : DecoderState → ℕ → List ℕ × DecoderState
unfolding decode_more decode_first
decode_step s b = if s.needed == 0 then decode_first b else decode_more s b

-- The code points of a byte sequence.
unfoldable pub decode_loop : DecoderState → List ℕ → List ℕ
decode_loop s [] = if s.needed == 0 then [] else 0xfffd ∷ []
decode_loop s (b ∷ bytes) = let (out, s') = decode_step s b in out ++ decode_loop s' bytes

unfoldable pub drop_bom : List ℕ → List ℕ
drop_bom [] = []
drop_bom (c ∷ cs) = if c == 0xfeff then cs else c ∷ cs

-- The code units of a code point.
unfoldable pub units_of : ℕ → Text
units_of c =
    if ltb c 0x10000
    then c ∷ []
    else (0xd800 + (c - 0x10000) / 1024) ∷ (0xdc00 + (c - 0x10000) % 1024) ∷ []

unfoldable pub decode : List ℕ → Text
unfolding decode_loop decode_step drop_bom units_of
decode bytes = flat_map units_of (drop_bom (decode_loop initial bytes))
