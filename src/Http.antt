-- ===== src/Http.antt =====
-- What frontend/web-app/src/lib/api.ts hands to `fetch` and reads from it.
use Prim.Native.String.{String}
use text.Mathlib.Text.{◌==◌ as str_eq}
use secret_letter.Prelude.{
  ℕ, List, [], ◌∷◌, Bool, leb, ltb, ◌&&◌, Option, none, some, if◌then◌else◌,
}
use secret_letter.Prelude.Results.{Result}
use secret_letter.Errors.{Thrown}
use secret_letter.Text.{Text}

-- The fields of a parsed JSON object. The server's replies that the code reads hold texts alone.
abbrev pub JsonObject : Type 0
JsonObject = List (String × Text)

-- `data.name`; `none` is `undefined`.
unfoldable pub field : String → JsonObject → Option Text
field name [] = none
field name ((key, value) ∷ fields) = if str_eq key name then some value else field name fields

pub data JsonValue : Type 0 where
  str : Text → JsonValue
  num : ℕ → JsonValue

pub data Method : Type 0 where
  get post : Method

pub record HttpRequest : Type 0 where
  pub method : Method
  pub url : Text
  pub no_store : Bool
  pub headers : List (String × Text)
  pub body : Option (List (String × JsonValue))

-- `json` is what `response.json()` resolves to or rejects with.
pub record Response : Type 0 where
  pub status : ℕ
  pub json : Result Thrown JsonObject

-- `response.ok`
abbrev pub is_ok : Response → Bool
is_ok r = leb 200 r.status && ltb r.status 300
