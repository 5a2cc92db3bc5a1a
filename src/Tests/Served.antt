-- ===== src/Tests/Served.antt =====
-- The toy browser over the routes of the server.
use secret_letter.Prelude.{
  some, ◌<◌, ◌+◌, ℕ, ◌≡◌, ◌≢◌, refl, [], ◌++◌, false, none, ◌∷◌, All, arith, length,
}
use secret_letter.Prelude.Results.{ok}
use secret_letter.Text.{Text, units, is_space, chars, starts_with, decimal}
use secret_letter.Utf8.RoundTrip.{without_bom}
use secret_letter.Http.{JsonObject}
use secret_letter.Api.Requests.{api_base_url}
use secret_letter.Backend.Secrets.{Runtime, Draw, Redis}
use secret_letter.EndToEnd.Served.{Net}
use secret_letter.E2e.Responses.{includes}
use secret_letter.E2e.Flow.{secret_text_of, guard_text_of, flow}
use secret_letter.E2e.Flow.Texts.{secret_text_of-good, guard_text_of-good}
use secret_letter.E2e.Flow.Created.{IsSetUp}
use secret_letter.E2e.Flow.Passes.{flow-passes}
use secret_letter.Utf8.Encoder.{encode, encode_char}
use secret_letter.Text.{code_point_at0, replace_all}
use secret_letter.Platform.{Platform}
use secret_letter.Base64Url.{encode_base64_url}
use secret_letter.Base64Url.Platform.{btoa, sextets, padding, base64_char}
use secret_letter.Crypto.{
  import_key_from_base64_url, export_key_to_base64_url, encrypt_secret, generate_key,
  generate_nonce,
}
use secret_letter.CreateSecretForm.Link.{Sealed, sealed_with, seal, seal_under, sealed_result}
use secret_letter.EndToEnd.Served.{served}
use secret_letter.EndToEnd.Served.Letter.{letter_of}
use secret_letter.Backend.Secrets.{letter_at}
use secret_letter.Backend.Secrets.Calls.{Keeps}
use secret_letter.Utf8.RoundTrip.{IsWellFormed, without_bom}
use secret_letter.Scene.{SceneData, sealed}
use secret_letter.Scene
use secret_letter.RevealPage.{OpenEnd, opened, finish_open, load_status, handle_open}
use secret_letter.Backend.Secrets.{Letter}
use secret_letter.Backend.Secrets.Lives.{spent_letter}
use secret_letter.EndToEnd.Served.Readers.{first_reader}
use secret_letter.EndToEnd.Served.Later.{later_reader}
use secret_letter.Tests.Pages.{
  link_key, sevens, link_key_valid as link_key_formed, link_key_import as link_key_imported,
}
use secret_letter.Tests.Browser.{
  with_tag, replicate, replicate_bytes, toy, toy-IsWebCrypto, toy-IsTagged, toy-IsAvailable,
}

-- A hash that takes the length alone: even so each letter is found.
abbrev pub toy_runtime : Runtime
toy_runtime = record { sha256 = length; id_number = length; rfc3339 = decimal }

abbrev pub toy_draws : ℕ → Draw
toy_draws turn = record { now = 100; token_bytes = replicate 16 3; id_bytes = replicate 16 4 }

abbrev pub empty_redis : Redis
empty_redis = record { letters = []; sessions = [] }

abbrev pub toy_net : Net JsonObject
toy_net = record { browser = []; redis = empty_redis; turn = 0; log = [] }

abbrev pub origin : Text
origin = units "http://127.0.0.1:4173"

origin_clean : All (λ c. c ≢ b'#') origin
origin_clean = ground arith

origin_bare : All (λ c. is_space c ≡ false) origin
unfolding is_space
origin_bare = ground arith

told_apart :
    includes (units "/api/secrets/") (api_base_url none ++ units "/api/reveal-sessions") ≡ false
unfolding includes api_base_url starts_with
told_apart = refl

toy-IsSetUp : IsSetUp toy toy_draws none origin
toy-IsSetUp = record {
  laws = toy-IsWebCrypto;
  works = toy-IsAvailable;
  tagged = toy-IsTagged;
  drawn_tokens = λ turn. replicate_bytes 16 3 (omega arith);
  drawn_ids = λ turn. replicate_bytes 16 4 (omega arith);
  brief = λ m n. omega arith;
  place = (origin_clean, origin_bare);
  apart = told_apart;
}

flow-passes_example :
    (flow toy toy_runtime toy_draws none origin (secret_text_of 1) (guard_text_of 2) toy_net).1
    ≡ ok tt
flow-passes_example =
    flow-passes toy toy_runtime toy_draws none origin toy-IsSetUp (secret_text_of 1)
      (guard_text_of 2) (secret_text_of-good 1) (guard_text_of-good 2) toy_net

-- A letter that was sealed, and Redis with it under the token.
abbrev net : Platform
net = served toy toy_runtime toy_draws none

abbrev letter : Sealed net
letter = sealed_with net sevens (replicate 12 5) 3600 (with_tag (104 ∷ 105 ∷ []))

letter_sealed : seal net (units "hi") 3600 toy_net ≡ (toy_net, ok letter)
unfolding seal sealed_with seal_under sealed_result generate_key generate_nonce encrypt_secret
    encode encode_char chars code_point_at0
letter_sealed = refl

letter_exported : export_key_to_base64_url net letter.key ≡ ok link_key
unfolding sealed_with export_key_to_base64_url encode_base64_url btoa sextets padding base64_char
    replace_all
letter_exported = refl

abbrev token : Text
token = encode_base64_url (replicate 16 3)

abbrev waiting : Net JsonObject
waiting = record toy_net {
  redis = record {
    letters = (length token, letter_of toy toy_runtime toy_draws none 90 letter.request) ∷ [];
    sessions = [];
  };
}

waiting_kept :
    Keeps toy_runtime token
      (letter_of toy toy_runtime toy_draws none 90 letter.request)
      waiting.redis
unfolding letter_at
waiting_kept = ground arith

hi_good : IsWellFormed (units "hi")
unfolding chars code_point_at0
hi_good = ground arith

abbrev waiting_letter : Letter
waiting_letter = letter_of toy toy_runtime toy_draws none 90 letter.request

abbrev expiry : ℕ
expiry = 90 + letter.request.ttl_seconds

expiry_later : 100 < 90 + letter.request.ttl_seconds
unfolding sealed_with
expiry_later = omega arith

first_reader_example :
    let loaded = load_status net none (some token) link_key waiting in
    let r = handle_open net none (some token) link_key loaded.1.state loaded.0 in
    (loaded.1.state ≡ sealed)
    × (r.1 ≡ some (opened (without_bom (units "hi"))))
    × Keeps toy_runtime token (spent_letter expiry 100 waiting_letter) r.0.redis
    × (r.0.turn ≡ 3)
first_reader_example =
    first_reader toy toy-IsWebCrypto toy_runtime toy_draws none (units "hi") 3600 toy_net toy_net
      letter link_key hi_good letter_sealed letter_exported (replicate 16 3)
      (replicate_bytes 16 3 (omega arith)) 90 waiting waiting_kept
      (replicate_bytes 16 4 (omega arith)) expiry_later expiry_later expiry_later (omega arith)

-- The same, given out at 95.
abbrev given_out : Net JsonObject
given_out = record waiting {
  redis = record {
    letters = (length token, spent_letter expiry 95 waiting_letter) ∷ [];
    sessions = [];
  };
}

given_out_kept : Keeps toy_runtime token (spent_letter expiry 95 waiting_letter) given_out.redis
unfolding letter_at
given_out_kept = ground arith

net_imports : import_key_from_base64_url net link_key ≡ ok sevens
unfolding import_key_from_base64_url
net_imports = link_key_imported

later_reader_example :
    let spent = spent_letter expiry 95 waiting_letter in
    let loaded = load_status net none (some token) link_key given_out in
    let r = handle_open net none (some token) link_key sealed given_out in
    (loaded.1.state ≡ Scene.consumed)
    × Keeps toy_runtime token spent loaded.0.redis
    × ((end : OpenEnd) × (r.1 ≡ some end)
        × ((current : SceneData)
            → ((finish_open end current).state ≡ Scene.consumed)
              × ((finish_open end current).secret_content ≡ [])))
    × Keeps toy_runtime token spent r.0.redis
later_reader_example =
    later_reader toy toy_runtime toy_draws none (replicate 16 3)
      (replicate_bytes 16 3 (omega arith)) link_key link_key_formed sevens net_imports expiry 95
      waiting_letter given_out given_out_kept
