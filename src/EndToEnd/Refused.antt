-- ===== src/EndToEnd/Refused.antt =====
-- A letter that was given out, asked for once more by the reveal page.
use secret_letter.Prelude.{ℕ, ◌≡◌, ◌≢◌, ap, ◌∙◌, [], Option, some}
use secret_letter.Prelude.Results.{Result, ok, throw}
use secret_letter.Errors.{Thrown}
use secret_letter.Text.{Text}
use secret_letter.Http.{JsonObject, field}
use secret_letter.Scene.{SceneData, sealed}
use secret_letter.Crypto.{import_key_from_base64_url}
use secret_letter.Platform.{Platform, lift}
use secret_letter.Platform.Steps.{>>=-step, >>=-throw}
use secret_letter.Api.Requests.{create_reveal_session, open_secret, read_reply}
use secret_letter.RevealPage.{
  OpenEnd, refused, decrypt_payload, finish_open, open_payload, fetch_plaintext, handle_open,
  open_end,
}
use secret_letter.RevealPage.Errors.{map_open_error}
use secret_letter.RevealPage.Opening.{import-full}
use secret_letter.Backend.Letter.{claimed, claim_open}
use secret_letter.Backend.Service.{System, created}
use secret_letter.Backend.Service.OneTime.{Reach}
use secret_letter.Backend.Handlers.{respond_error, open_error, consume_error}
use secret_letter.Backend.Handlers.Laws.{state_of, given-refused}
use secret_letter.EndToEnd.{is_empty-false}

module _ (p : Platform) (env : Option Text) (secret_id link_key : Text) (key : p.Key) where
  -- The second request of the page fails.
  fetch_plaintext-throws :
      (v v1 v2 : p.World) (session : JsonObject) (x : Thrown)
      → create_reveal_session p env secret_id v ≡ (v1, ok session)
      → open_secret p env secret_id (field "sessionId" session) v1 ≡ (v2, throw x)
      → fetch_plaintext p env secret_id key v ≡ (v2, throw x)
  unfolding fetch_plaintext open_payload
  fetch_plaintext-throws v v1 v2 session x ready failed =
      >>=-step (create_reveal_session p env secret_id) (open_payload p env secret_id key) ready
      ∙ >>=-throw (open_secret p env secret_id (field "sessionId" session))
          (λ response. lift (decrypt_payload p env key response)) failed

  pub handle_open-throws :
      (v v2 : p.World) (x : Thrown)
      → secret_id ≢ []
      → import_key_from_base64_url p link_key ≡ ok key
      → fetch_plaintext p env secret_id key v ≡ (v2, throw x)
      → handle_open p env (some secret_id) link_key sealed v
        ≡ (v2, some (refused (map_open_error x)))
  unfolding handle_open
  handle_open-throws v v2 x full imported failed =
      rw (is_empty-false secret_id full, import-full p env link_key imported, imported)
        (ap (λ (q : p.World × Result Thrown Text). (q.0, some (open_end p env q.1))) failed)

  -- Take a letter that the server has given out, in whatever order of requests, and a reader who has the key,
  -- sees the letter as sealed, and whose page is given a reveal session. If the server answers the page's
  -- request to open the letter from its store, at whatever time, the store does not give the letter out, and the
  -- page ends in the state that goes with the server's error, which is never a letter, and holds no text.
  pub second_open-refused :
      (letter expires_at_unix : ℕ) {s : System}
      → Reach (created letter expires_at_unix) s
      → s.given ≢ []
      → (now claim_id claim_until : ℕ) (v v1 v2 : p.World) (session : JsonObject) → secret_id ≢ []
      → import_key_from_base64_url p link_key ≡ ok key
      → create_reveal_session p env secret_id v ≡ (v1, ok session)
      → let reply = (claim_open now claim_id claim_until s.store).1 in
        open_secret p env secret_id (field "sessionId" session) v1
          ≡ (v2, read_reply (respond_error (open_error (consume_error reply))))
        → ((payload : ℕ) → reply ≢ claimed payload)
          × ((end : OpenEnd) × (handle_open p env (some secret_id) link_key sealed v
                ≡ (v2, some end))
              × ((current : SceneData)
                  → ((finish_open end current).state ≡ state_of (consume_error reply))
                    × ((finish_open end current).secret_content ≡ [])))
  second_open-refused letter expires_at_unix {s} r given now claim_id claim_until v v1 v2 session
        full imported ready opening =
      let (unclaimed, (x, thrown, shown)) =
        given-refused letter expires_at_unix r given now claim_id claim_until in
      let failed =
        fetch_plaintext-throws v v1 v2 session x ready (opening ∙ ap (λ q. (v2, q)) thrown) in
      (
        unclaimed,
        (refused (map_open_error x), handle_open-throws v v2 x full imported failed, shown),
      )
