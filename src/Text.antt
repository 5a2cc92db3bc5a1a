-- ===== src/Text.antt =====
-- JavaScript strings that the program walks: lists of UTF-16 code units. What the source uses of
-- the language's own string operations is written here: `for (const c of s)`, `codePointAt(0)`,
-- `trim`, `indexOf`, `slice`.
pub mod Chars
pub mod Equality
pub mod Suffix
pub mod Trim
use Prim.Native.Char.{code}
use Prim.Native.String.{String}
use secret_letter.Prelude.{
  ℕ, zero, suc, ◌+◌, ◌-◌, ◌*◌, ◌/◌, ◌%◌, List, [], ◌∷◌, ◌++◌, Bool, true, false, ◌&&◌, ◌||◌, leb,
  ltb, ◌==◌, if◌then◌else◌, is_empty, Option, none, some,
}

abbrev pub Text : Type 0
Text = List ℕ

-- The code units of a literal, whose characters lie in the basic plane.
abbrev pub units : String → Text
units String.[] = []
units (String.◌∷◌ c s) = code c ∷ units s

abbrev pub is_lead : ℕ → Bool
is_lead u = leb 0xd800 u && ltb u 0xdc00

abbrev pub is_trail : ℕ → Bool
is_trail u = leb 0xdc00 u && ltb u 0xe000

-- `[...text]`: a lead surrogate and the trail surrogate behind it are one character.
unfoldable pub chars : Text → List Text
chars [] = []
chars (u ∷ []) = (u ∷ []) ∷ []
chars (u ∷ v ∷ text) =
    let pair = (u ∷ v ∷ []) ∷ chars text in
    let single = (u ∷ []) ∷ chars (v ∷ text) in if is_lead u && is_trail v then pair else single

-- `char.codePointAt(0)!`; the source never asks it of an empty string.
unfoldable pub code_point_at0 : Text → ℕ
code_point_at0 [] = 0
code_point_at0 (u ∷ []) = u
code_point_at0 (u ∷ v ∷ text) =
    if is_lead u && is_trail v then (u - 0xd800) * 1024 + (v - 0xdc00) + 0x10000 else u

-- WhiteSpace and LineTerminator of the language.
unfoldable pub is_space : ℕ → Bool
is_space c =
    leb 9 c && leb c 13
    || c == 32
    || c == 0xa0
    || c == 0x1680
    || leb 0x2000 c && leb c 0x200a
    || c == 0x2028
    || c == 0x2029
    || c == 0x202f
    || c == 0x205f
    || c == 0x3000
    || c == 0xfeff

unfoldable pub trim_start : Text → Text
trim_start [] = []
trim_start (c ∷ s) = if is_space c then trim_start s else c ∷ s

unfoldable pub trim_end : Text → Text
trim_end [] = []
trim_end (c ∷ s) = let rest = trim_end s in if is_empty rest && is_space c then [] else c ∷ rest

unfoldable pub trim : Text → Text
unfolding trim_start trim_end
trim s = trim_end (trim_start s)

-- `indexOf` of one code unit; `none` is -1.
unfoldable pub index_of : ℕ → Text → Option ℕ
index_of c [] = none
index_of c (d ∷ s) =
    if d == c then some 0 else elim (index_of c s) [ none ↦ none | some i ↦ some (suc i) ]

-- `slice(0, n)` and `slice(n)`.
unfoldable pub slice_to : ℕ → Text → Text
slice_to zero s = []
slice_to (suc n) [] = []
slice_to (suc n) (c ∷ s) = c ∷ slice_to n s

unfoldable pub slice_from : ℕ → Text → Text
slice_from zero s = s
slice_from (suc n) [] = []
slice_from (suc n) (c ∷ s) = slice_from n s

-- `replace(/c/g, d)` for one code unit.
unfoldable pub replace_all : ℕ → Text → Text → Text
replace_all c d [] = []
replace_all c d (u ∷ s) = (if u == c then d else u ∷ []) ++ replace_all c d s

-- `===` on strings.
unfoldable pub text_eq : Text → Text → Bool
text_eq [] [] = true
text_eq (c ∷ s) (d ∷ t) = c == d && text_eq s t
text_eq [] (_ ∷ _) = false
text_eq (_ ∷ _) [] = false

unfoldable pub starts_with : Text → Text → Bool
starts_with [] s = true
starts_with (c ∷ prefix) [] = false
starts_with (c ∷ prefix) (d ∷ s) = c == d && starts_with prefix s

unfoldable pub ends_with : Text → Text → Bool
unfolding text_eq
ends_with suffix [] = is_empty suffix
ends_with suffix (c ∷ s) = text_eq suffix (c ∷ s) || ends_with suffix s

-- `a || b`: the empty string and `undefined` are false.
abbrev pub or_else : Text → Text → Text
or_else [] b = b
or_else (c ∷ s) b = c ∷ s

abbrev pub or_undefined : Option Text → Text → Text
or_undefined none b = b
or_undefined (some a) b = or_else a b

-- A number in a template literal, with fuel for twenty digits.
unfoldable pub decimal_loop : ℕ → ℕ → Text → Text
decimal_loop zero n acc = acc
decimal_loop (suc fuel) n acc =
    let digit = 48 + n % 10 in
    let rest = decimal_loop fuel (n / 10) (digit ∷ acc) in if ltb n 10 then digit ∷ acc else rest

unfoldable pub decimal : ℕ → Text
unfolding decimal_loop
decimal n = decimal_loop 20 n []
