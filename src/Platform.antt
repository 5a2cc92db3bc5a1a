-- ===== src/Platform.antt =====
-- What the frontend takes from the browser and from the server: the network, randomness and Web
-- Crypto. They are parameters of the model, with what the code relies on as named laws.
pub mod Steps
pub mod Laws
use secret_letter.Prelude.{ℕ, ◌≡◌, refl, List}
use secret_letter.Prelude.Results.{Result, ok, throw}
use secret_letter.Errors.{Thrown}
use secret_letter.Text.{Text}
use secret_letter.Http.{HttpRequest}
use secret_letter.Api.Fetch.{FetchEvent}

-- An action changes the world outside the page and gives a value or throws.
abbrev pub Action : Type 0 → Type 0 → Type 0
Action World A = World → World × Result Thrown A

infixl 5 ◌>>=◌
abbrev pub ◌>>=◌ :
    {World A B : Type 0}
    → (World → World × Result Thrown A)
    → (A → World → World × Result Thrown B)
    → World
    → World × Result Thrown B
◌>>=◌ m f w = let (w', r) = m w in elim r [ ok a ↦ f a w' | throw e ↦ (w', throw e) ]

-- What is already known takes no step.
abbrev pub lift : {World A : Type 0} → Result Thrown A → World → World × Result Thrown A
lift r w = (w, r)

-- Two continuations that agree on the world agree on it behind any first step.
pub >>=-world :
    {World A B : Type 0} (m : World → World × Result Thrown A)
    (f g : A → World → World × Result Thrown B)
    → ((a : A) (w : World) → (f a w).0 ≡ (g a w).0)
    → (w : World) → ((m >>= f) w).0 ≡ ((m >>= g) w).0
>>=-world {World} {A} {B} m f g h w = go (m w).1 (m w).0
  where
    go :
        (r : Result Thrown A) (w' : World)
        → (◌>>=◌ {A = A} {B = B} (λ (v : World). (w', r)) f w').0
          ≡ (◌>>=◌ {A = A} {B = B} (λ (v : World). (w', r)) g w').0
    go (ok a) w' = h a w'
    go (throw e) w' = refl

-- `exchange` sends a request, and says which event decides it.
pub record Platform : Type 1 where
  pub World : Type 0
  pub Key : Type 0
  pub random_uuid : World → World × Text
  pub exchange : HttpRequest → World → World × FetchEvent
  pub generate_key : Action World Key
  pub random_values : ℕ → World → World × List ℕ
  pub encrypt : Key → List ℕ → List ℕ → Result Thrown (List ℕ)
  pub decrypt : Key → List ℕ → List ℕ → Result Thrown (List ℕ)
  pub export_raw : Key → Result Thrown (List ℕ)
  pub import_raw : List ℕ → Result Thrown Key
