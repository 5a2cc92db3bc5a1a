-- ===== src/Base64Url/Platform.antt =====
-- The platform's `btoa` and `atob` on binary strings, after the HTML Standard: base64 with padding,
-- and the forgiving decoder.
use secret_letter.Prelude.{
  map, ℕ, ◌+◌, ◌-◌, ◌*◌, ◌/◌, ◌%◌, List, [], ◌∷◌, ◌++◌, ◌&&◌, ◌||◌, leb, ltb, ◌==◌, if◌then◌else◌,
  is_empty, length, Option, none, some,
}
use secret_letter.Text.{Text}

-- The alphabet, by value: `A`-`Z`, `a`-`z`, `0`-`9`, `+`, `/`.
unfoldable pub base64_char : ℕ → ℕ
base64_char v =
    if ltb v 26
    then 65 + v
    else if ltb v 52
    then 71 + v
    else if ltb v 62
    then v - 4
    else if v == 62
    then b'+'
    else b'/'

unfoldable pub base64_value : ℕ → Option ℕ
base64_value c =
    if leb b'A' c && leb c b'Z'
    then some (c - 65)
    else if leb b'a' c && leb c b'z'
    then some (c - 71)
    else if leb b'0' c && leb c b'9'
    then some (c + 4)
    else if c == b'+'
    then some 62
    else if c == b'/'
    then some 63
    else none

-- The values of six bits that a list of bytes holds.
unfoldable pub sextets : List ℕ → List ℕ
sextets [] = []
sextets (a ∷ []) = (a / 4) ∷ (a % 4 * 16) ∷ []
sextets (a ∷ b ∷ []) = (a / 4) ∷ (a % 4 * 16 + b / 16) ∷ (b % 16 * 4) ∷ []
sextets (a ∷ b ∷ c ∷ bytes) =
    (a / 4) ∷ (a % 4 * 16 + b / 16) ∷ (b % 16 * 4 + c / 64) ∷ (c % 64) ∷ sextets bytes

-- The padding behind the last group.
unfoldable pub padding : List ℕ → Text
padding [] = []
padding (a ∷ []) = b'=' ∷ b'=' ∷ []
padding (a ∷ b ∷ []) = b'=' ∷ []
padding (a ∷ b ∷ c ∷ bytes) = padding bytes

unfoldable pub btoa : List ℕ → Text
btoa bytes = map base64_char (sextets bytes) ++ padding bytes

-- The bytes that a list of such values holds; left over bits are dropped.
unfoldable pub octets : List ℕ → List ℕ
octets [] = []
octets (p ∷ []) = []
octets (p ∷ q ∷ []) = (p * 4 + q / 16) ∷ []
octets (p ∷ q ∷ r ∷ []) = (p * 4 + q / 16) ∷ (q % 16 * 16 + r / 4) ∷ []
octets (p ∷ q ∷ r ∷ s ∷ values) =
    (p * 4 + q / 16) ∷ (q % 16 * 16 + r / 4) ∷ (r % 4 * 64 + s) ∷ octets values

-- ASCII whitespace is removed first.
unfoldable pub strip_space : Text → Text
strip_space [] = []
strip_space (c ∷ s) =
    if c == 9 || c == 10 || c == 12 || c == 13 || c == 32 then strip_space s else c ∷ strip_space s

-- One `=` is taken from the end.
unfoldable pub drop_pad : Text → Text
drop_pad [] = []
drop_pad (c ∷ s) = if is_empty s && c == b'=' then [] else c ∷ drop_pad s

unfoldable pub values : Text → Option (List ℕ)
values [] = some []
values (c ∷ s) = elim (base64_value c) [
  | none ↦ none
  | some v ↦ elim (values s) [ none ↦ none | some vs ↦ some (v ∷ vs) ]
]

-- The forgiving decoder on a text without whitespace.
unfoldable pub decode_stripped : Text → Option (List ℕ)
unfolding drop_pad values octets base64_value
decode_stripped s =
    let t = if length s % 4 == 0 then drop_pad (drop_pad s) else s in
    if length t % 4 == 1 then none else elim (values t) [ none ↦ none | some vs ↦ some (octets vs) ]

unfoldable pub atob : Text → Option (List ℕ)
unfolding decode_stripped strip_space
atob s = decode_stripped (strip_space s)
