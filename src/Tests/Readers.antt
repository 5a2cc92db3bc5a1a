-- ===== src/Tests/Readers.antt =====
-- A second reader of the letter that was given out in Server.
use Prim.Native.String.{String}
use secret_letter.Prelude.{ℕ, ◌≡◌, ◌≢◌, refl, List, [], ◌∷◌, Option, none, some}
use secret_letter.Prelude.Results.{ok}
use secret_letter.Text.{units, trim, is_space, replace_all}
use secret_letter.Http.{JsonObject, JsonValue, HttpRequest, field}
use secret_letter.Base64Url.{decode_base64_url, is_base64_url_char, pad_loop}
use secret_letter.Base64Url.Platform.{atob}
use secret_letter.Crypto.{import_key_from_base64_url}
use secret_letter.Platform.{Platform}
use secret_letter.Api.Fetch.{FetchEvent, responds, safe_fetch}
use secret_letter.Api.Requests.{create_reveal_session, open_secret, read_reply, ask}
use secret_letter.Scene.{SceneData, sealed}
use secret_letter.RevealPage.{OpenEnd, finish_open, handle_open}
use secret_letter.Backend.Letter.{claimed, claim_open, claim_active, finalize_open}
use secret_letter.Backend.Service.{consume_begins, consume_ends}
use secret_letter.Backend.Service.OneTime.{next}
use secret_letter.Backend.RevealSession.{secret_consumed}
use secret_letter.Backend.Handlers.{respond_error, open_error, consume_error}
use secret_letter.Backend.Handlers.Laws.{state_of}
use secret_letter.EndToEnd.Refused.{second_open-refused}
use secret_letter.Tests.Browser.{toy}
use secret_letter.Tests.Pages.{link_key, sevens}
use secret_letter.Tests.Server.{first_ended, both_begun-Reach, last_step, first_given_out}

-- The server refuses to open the letter, and goes on as the toy server otherwise.
abbrev refuse :
    Option (List (String × JsonValue)) → HttpRequest → JsonObject → JsonObject × FetchEvent
refuse (some []) request w = (w, responds (respond_error (open_error secret_consumed)))
refuse _ request w = toy.exchange request w

abbrev refusing : Platform
refusing = record toy { exchange = λ request w. refuse request.body request w }

refusing_import : import_key_from_base64_url refusing link_key ≡ ok sevens
unfolding import_key_from_base64_url decode_base64_url trim is_space is_base64_url_char pad_loop
    atob replace_all
refusing_import = refl

abbrev session_reply : JsonObject
session_reply = ("sessionId", units "s1") ∷ []

refusing_session : create_reveal_session refusing none (units "abc") [] ≡ ([], ok session_reply)
unfolding create_reveal_session ask safe_fetch read_reply
refusing_session = refl

refusing_opens : open_secret refusing none (units "abc") (field "sessionId" session_reply) [] ≡ (
  [],
  read_reply (respond_error (open_error (consume_error (claim_open 20 3 50 first_ended.store).1))),
)
unfolding open_secret ask safe_fetch claim_open claim_active finalize_open consume_begins
    consume_ends consume_error
refusing_opens = refl

second_open-refused_example :
    let reply = (claim_open 20 3 50 first_ended.store).1 in
    ((payload : ℕ) → reply ≢ claimed payload)
    × ((end : OpenEnd) × (handle_open refusing none (some (units "abc")) link_key sealed []
          ≡ ([], some end))
        × ((current : SceneData)
            → ((finish_open end current).state ≡ state_of (consume_error reply))
              × ((finish_open end current).secret_content ≡ [])))
second_open-refused_example =
    second_open-refused refusing none (units "abc") link_key sevens 7 100
      (next both_begun-Reach last_step) first_given_out 20 3 50 [] [] [] session_reply (λ e. cc)
      refusing_import refusing_session refusing_opens
