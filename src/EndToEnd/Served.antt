-- ===== src/EndToEnd/Served.antt =====
-- The frontend over the Go server: a browser whose requests to the API are answered by the routes of
-- backend/internal/httpapi, one after the other, over one Redis. What stands behind the base of the API in a URL is
-- the path.
pub mod Requests
pub mod Letter
pub mod Replies
pub mod Opening
pub mod Pages
pub mod Readers
pub mod Later
pub mod Publishing
use secret_letter.Prelude.{ℕ, suc, List, ◌∷◌, Option, length}
use secret_letter.Prelude.Results.{Result}
use secret_letter.Errors.{Thrown}
use secret_letter.Text.{Text, slice_from}
use secret_letter.Http.{HttpRequest, Response}
use secret_letter.Platform.{Platform, Action}
use secret_letter.Api.Fetch.{FetchEvent, responds}
use secret_letter.Api.Requests.{api_base_url}
use secret_letter.Backend.Secrets.{Runtime, Draw, Redis}
use secret_letter.Backend.Router.{route}

-- The world behind the page: what else is in the browser, Redis, how many requests were answered, and which.
pub record Net (World : Type 0) : Type 0 where
  pub browser : World
  pub redis : Redis
  pub turn : ℕ
  pub log : List (HttpRequest × Response)

abbrev pub logged :
    {World : Type 0} → World → HttpRequest → Net World → Redis × Response → Net World
logged browser request w (redis, response) = record {
  browser = browser;
  redis = redis;
  turn = suc w.turn;
  log = (request, response) ∷ w.log;
}

-- What an action of the browser alone does.
abbrev beside : {World A : Type 0} → (World → World × A) → Net World → Net World × A
beside action w = let (browser, a) = action w.browser in (record w { browser = browser }, a)

-- `draws` is what the server draws for each request.
module _ (p : Platform) (runtime : Runtime) (draws : ℕ → Draw) (env : Option Text) where
  abbrev pub answer : HttpRequest → Net p.World → Redis × Response
  answer request w =
      route runtime (draws w.turn) request (slice_from (length (api_base_url env)) request.url)
        w.redis

  abbrev pub exchange : HttpRequest → Net p.World → Net p.World × FetchEvent
  exchange request w =
      let reply = answer request w in (logged w.browser request w reply, responds reply.1)

  abbrev pub served : Platform
  served = record {
    World = Net p.World;
    Key = p.Key;
    random_uuid = beside p.random_uuid;
    exchange = exchange;
    generate_key = beside p.generate_key;
    random_values = λ n. beside (p.random_values n);
    encrypt = p.encrypt;
    decrypt = p.decrypt;
    export_raw = p.export_raw;
    import_raw = p.import_raw;
  }
