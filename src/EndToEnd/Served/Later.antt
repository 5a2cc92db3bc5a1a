-- ===== src/EndToEnd/Served/Later.antt =====
-- Every reader but the first.
use secret_letter.Prelude.{ℕ, ◌≡◌, refl, ap, List, [], Option, some, true}
use secret_letter.Prelude.Results.{ok}
use secret_letter.Text.{Text}
use secret_letter.Base64Url.{encode_base64_url}
use secret_letter.Crypto.{import_key_from_base64_url}
use secret_letter.Platform.{Platform}
use secret_letter.Platform.Steps.{>>=-throw}
use secret_letter.Scene.{SceneData, sealed}
use secret_letter.Scene
use secret_letter.Api.Requests.{create_reveal_session}
use secret_letter.RevealPage.Errors.{map_open_error}
use secret_letter.EndToEnd.Refused.{handle_open-throws}
use secret_letter.RevealPage.{
  OpenEnd, refused, open_payload, fetch_plaintext, is_valid_fragment_key_format, load_status,
  finish_open, handle_open,
}
use secret_letter.Backend.Secrets.{Runtime, Draw, Letter}
use secret_letter.Backend.Secrets.Lives.{spent_letter, spent_status}
use secret_letter.Backend.Secrets.Calls.{IsDrawn, Keeps}
use secret_letter.EndToEnd.Served.{Net, served}
use secret_letter.EndToEnd.Served.Opening.{create_reveal_session-spent}
use secret_letter.EndToEnd.Served.Pages.{token_full, load_status-spent}

module _ (p : Platform) (runtime : Runtime) (draws : ℕ → Draw) (env : Option Text) where
  abbrev net : Platform
  net = served p runtime draws env

  -- What every later reader sees. Once a letter is consumed in Redis, a page with a link key of the right format shows it
  -- as consumed; and a page that showed it sealed before, and opens it now with a key that can be imported, ends as
  -- consumed and holds no text. In both cases the letter stays as it was.
  pub later_reader :
      (bytes : List ℕ)
      → IsDrawn bytes
      → (link_key : Text) → is_valid_fragment_key_format link_key ≡ true
      → (key : p.Key) → import_key_from_base64_url net link_key ≡ ok key
      → (expiry at : ℕ) (letter : Letter) (w : Net p.World)
      → Keeps runtime (encode_base64_url bytes) (spent_letter expiry at letter) w.redis
      → let token = encode_base64_url bytes in
        let spent = spent_letter expiry at letter in
        let loaded = load_status net env (some token) link_key w in
        let r = handle_open net env (some token) link_key sealed w in
        (loaded.1.state ≡ Scene.consumed)
        × Keeps runtime token spent loaded.0.redis
        × ((end : OpenEnd) × (r.1 ≡ some end)
            × ((current : SceneData)
                → ((finish_open end current).state ≡ Scene.consumed)
                  × ((finish_open end current).secret_content ≡ [])))
        × Keeps runtime token spent r.0.redis
  unfolding fetch_plaintext finish_open
  later_reader bytes drawn link_key valid key imported expiry at letter w kept =
      let token = encode_base64_url bytes in
      let spent = spent_letter expiry at letter in
      let (unchanged, is_consumed) = spent_status expiry at ((draws w.turn).now) letter in
      let (shows, keeps, turn) =
        load_status-spent p runtime draws env bytes drawn link_key valid spent w kept is_consumed in
      let ((x, fails, shown), still, asked) =
        create_reveal_session-spent p runtime draws env bytes drawn spent w kept is_consumed in
      let w1 = (create_reveal_session net env token w).0 in
      let end =
        handle_open-throws net env token link_key key w w1 x
          (token_full p runtime draws env bytes drawn link_key valid) imported
          (>>=-throw (create_reveal_session net env token) (open_payload net env token key)
            (ap (λ r. (w1, r)) fails)) in
      (
        shows,
        rw unchanged at keeps,
        rw end (refused (map_open_error x), refl, λ current. (shown, refl)),
        rw end (rw unchanged at still),
      )
