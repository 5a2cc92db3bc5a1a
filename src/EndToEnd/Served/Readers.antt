-- ===== src/EndToEnd/Served/Readers.antt =====
-- The first reader of a letter.

use secret_letter.Prelude.{ℕ, suc, ◌+◌, ◌<◌, ◌≡◌, refl, ap, List, Option, some}
use secret_letter.Prelude.Results.{ok}
use secret_letter.Text.{Text}
use secret_letter.Utf8.RoundTrip.{IsWellFormed, without_bom}
use secret_letter.Base64Url.{encode_base64_url}
use secret_letter.Crypto.{export_key_to_base64_url}
use secret_letter.Platform.{Platform}
use secret_letter.Platform.Laws.{IsWebCrypto}
use secret_letter.Scene.{sealed}
use secret_letter.Api.Requests.{create_reveal_session, open_secret}
use secret_letter.RevealPage.{load_status, handle_open, opened}
use secret_letter.CreateSecretForm.Link.{Sealed, seal}
use secret_letter.EndToEnd.{reveal_of_seal}
use secret_letter.EndToEnd.Links.{exported_solid}
use secret_letter.Backend.Validation.{received}
use secret_letter.Backend.Secrets.{Runtime, Draw, Letter}
use secret_letter.Backend.Secrets.Lives.{spent_letter, fresh_status}
use secret_letter.Backend.Secrets.Calls.{IsDrawn, Keeps}
use secret_letter.EndToEnd.Served.{Net, served}
use secret_letter.EndToEnd.Served.Letter.{drawn-IsDigits, letter_of}
use secret_letter.EndToEnd.Served.Requests.{session_request, open_request}
use secret_letter.EndToEnd.Served.Opening.{Logs, create_reveal_session-letter, open_secret-letter}
use secret_letter.EndToEnd.Served.Pages.{
  served-IsWebCrypto, sealed-IsDigits, token_full, load_status-waiting,
}

module _ (p : Platform) (laws : IsWebCrypto p) (runtime : Runtime) (draws : ℕ → Draw)
    (env : Option Text) where
  abbrev net : Platform
  net = served p runtime draws env

  abbrev time : ℕ → ℕ
  time turn = (draws turn).now

  module _ (plaintext : Text) (ttl : ℕ) (v v1 : Net p.World) (s : Sealed net) (link_key : Text)
      (well : IsWellFormed plaintext) (sealing : seal net plaintext ttl v ≡ (v1, ok s))
      (exported : export_key_to_base64_url net s.key ≡ ok link_key) (bytes : List ℕ)
      (drawn : IsDrawn bytes) (since : ℕ) where
    abbrev token : Text
    token = encode_base64_url bytes

    abbrev expiry : ℕ
    expiry = since + s.request.ttl_seconds

    abbrev fresh : Letter
    fresh = letter_of p runtime draws env since s.request

    -- The letter is opened while it waits.
    pub opens :
        (w : Net p.World)
        → Keeps runtime token fresh w.redis
        → IsDrawn (draws w.turn).id_bytes
        → time w.turn < expiry
        → time (suc w.turn) < expiry
        → time (suc w.turn) < time w.turn + 900
        → let r = handle_open net env (some token) link_key sealed w in
          let asked = (create_reveal_session net env token w).0 in
          let session_id = encode_base64_url (draws w.turn).id_bytes in
          (r.1 ≡ some (opened (without_bom plaintext)))
          × Keeps runtime token (spent_letter (expiry) (time (suc w.turn)) fresh) r.0.redis
          × (r.0.turn ≡ suc (suc w.turn))
          × Logs p runtime draws env bytes drawn
              (session_request p runtime draws env token)
              201
              w
              asked
          × Logs p runtime draws env bytes drawn
              (open_request p runtime draws env token session_id)
              200
              asked
              r.0
    opens w kept id_drawn alive later early =
        let (c, n, same) =
          sealed-IsDigits net (served-IsWebCrypto p runtime draws env laws) plaintext ttl v v1 s
            sealing in
        let (unchanged, is_active) = fresh_status expiry (received s.request) (time w.turn) alive in
        let ((session, made, id), keeps, has, turn, first_log) =
          create_reveal_session-letter p runtime draws env bytes drawn fresh w kept id_drawn
            is_active in
        let w1 = (create_reveal_session net env token w).0 in
        let session_id = encode_base64_url (draws w.turn).id_bytes in
        let (digits, full) = drawn-IsDigits (draws w.turn).id_bytes id_drawn in
        let ((response, given, fc, fn), spent, ended, second_log) =
          open_secret-letter p runtime draws env bytes drawn s.request since (time w.turn + 900)
            session_id w1 c n (rw unchanged at keeps) digits full has (rw turn early)
            (rw turn later) in
        let w2 = (open_secret net env token (some session_id) w1).0 in
        let (solid, valid) =
          exported_solid net (served-IsWebCrypto p runtime draws env laws) s.key link_key
            exported in
        let end =
          reveal_of_seal net (served-IsWebCrypto p runtime draws env laws) plaintext ttl v v1 s
            link_key well sealing exported env token w w1 w2 session response
            (token_full p runtime draws env bytes drawn link_key valid) (ap (λ r. (w1, r)) made)
            (rw id (ap (λ r. (w2, r)) given)) fc fn in
        rw end (refl, rw turn at spent, rw turn at ended, first_log, second_log)

    -- Take a letter that the form sealed and that waits in Redis under a drawn token, on a platform that keeps the
    -- documented laws of Web Crypto. A reader with the link, whose three requests reach the Go server one after the
    -- other before the letter expires, the last within 15 minutes of the one before it, sees the letter sealed, and
    -- opening it shows the text, less a leading byte order mark; then the letter is consumed in Redis.
    pub first_reader :
        (w : Net p.World)
        → Keeps runtime token fresh w.redis
        → IsDrawn (draws (suc w.turn)).id_bytes
        → time w.turn < expiry
        → time (suc w.turn) < expiry
        → time (suc (suc w.turn)) < expiry
        → time (suc (suc w.turn)) < time (suc w.turn) + 900
        → let loaded = load_status net env (some token) link_key w in
          let r = handle_open net env (some token) link_key loaded.1.state loaded.0 in
          (loaded.1.state ≡ sealed)
          × (r.1 ≡ some (opened (without_bom plaintext)))
          × Keeps runtime token (spent_letter (expiry) (time (suc (suc w.turn))) fresh) r.0.redis
          × (r.0.turn ≡ suc (suc (suc w.turn)))
    first_reader w kept id_drawn now alive later early =
        let (solid, valid) =
          exported_solid net (served-IsWebCrypto p runtime draws env laws) s.key link_key
            exported in
        let (c, n, same) =
          sealed-IsDigits net (served-IsWebCrypto p runtime draws env laws) plaintext ttl v v1 s
            sealing in
        let (unchanged, is_active) = fresh_status expiry (received s.request) (time w.turn) now in
        let (shows, keeps, turn) =
          load_status-waiting p runtime draws env bytes drawn link_key valid fresh w kept
            is_active in
        let w1 = (load_status net env (some token) link_key w).0 in
        let (text, spent, ended, asked, answer) =
          opens w1 (rw unchanged at keeps) (rw turn id_drawn) (rw turn alive) (rw turn later)
            (rw turn early) in
        rw shows (refl, text, rw turn at spent, rw turn at ended)
