-- ===== src/Base64Url.antt =====
-- `encodeBase64Url` and `decodeBase64Url` of frontend/web-app/src/lib/crypto.ts, with the language's
-- `btoa` and `atob` in `Platform`.
pub mod Platform
pub mod Alphabet
pub mod Padding
pub mod Values
pub mod RoundTrip
use secret_letter.Prelude.{
  ℕ, zero, suc, ◌%◌, List, [], ◌∷◌, ◌++◌, Bool, true, false, ◌&&◌, ◌||◌, not, leb, ◌==◌,
  if◌then◌else◌, all, is_empty, length, Option, none, some,
}
use secret_letter.Prelude.Results.{Result, ok, throw}
use secret_letter.Errors.{Thrown, base64url_decode_error}
use secret_letter.Text.{Text, trim, replace_all}
use secret_letter.Base64Url.Platform.{btoa, atob}

-- A byte array's elements are numbers below 256, and `String.fromCharCode(...bytes)` and
-- `charCodeAt` pass between these and the code units of a binary string.
unfoldable pub encode_base64_url : List ℕ → Text
encode_base64_url bytes =
    replace_all b'=' [] (replace_all b'/' (b'_' ∷ []) (replace_all b'+' (b'-' ∷ []) (btoa bytes)))

-- One character of `/^[A-Za-z0-9_-]+$/`.
unfoldable pub is_base64_url_char : ℕ → Bool
is_base64_url_char c =
    leb b'A' c && leb c b'Z'
    || leb b'a' c && leb c b'z'
    || leb b'0' c && leb c b'9'
    || c == b'_'
    || c == b'-'

-- `!input || !BASE64URL_PATTERN.test(input) || input.length % 4 === 1`
unfoldable pub is_malformed : Text → Bool
is_malformed input = is_empty input || not (all is_base64_url_char input) || length input % 4 == 1

-- `while (base64.length % 4 !== 0) base64 += "="`, on fuel.
unfoldable pub pad_loop : ℕ → Text → Text
pad_loop zero base64 = base64
pad_loop (suc fuel) base64 = elim (length base64 % 4 == 0) [
  | true ↦ base64
  | false ↦ pad_loop fuel (base64 ++ b'=' ∷ [])
]

-- Three rounds bring any length to a multiple of four.
abbrev pub pad : Text → Text
pad base64 = pad_loop 3 base64

unfoldable pub to_base64 : Text → Text
to_base64 input = replace_all b'_' (b'/' ∷ []) (replace_all b'-' (b'+' ∷ []) input)

unfoldable pub decode_base64_url : Text → Result Thrown (List ℕ)
unfolding is_malformed to_base64
decode_base64_url base64url =
    let input = trim base64url in
    if is_malformed input
    then throw base64url_decode_error
    else elim (atob (pad (to_base64 input))) [
      | none ↦ throw base64url_decode_error
      | some bytes ↦ ok bytes
    ]
