-- ===== src/E2e/Flow/Passes.antt =====
-- The flow passes.
use secret_letter.Prelude.{ℕ, ◌≡◌, ap, ◌∙◌, ◌++◌, Option}
use secret_letter.Prelude.Results.{Result, ok, throw}
use secret_letter.Text.{Text, units}
use secret_letter.Platform.{Platform}
use secret_letter.Backend.Secrets.{Runtime, Draw}
use secret_letter.EndToEnd.Served.{Net, served}
use secret_letter.E2e.Responses.{Failure, Done}
use secret_letter.E2e.Flow.{
  Script, ◌>>=◌, create_secret_via_ui, open_secret_and_verify, expect_consumed_state,
  expect_error_state, verify_fragment_guardrails, guarded, read_once, flow,
}
use secret_letter.E2e.Flow.Created.{
  IsSetUp, IsSecretText, Posted, Waits, create_secret_via_ui-posts,
}
use secret_letter.E2e.Flow.Opened.{open_secret_and_verify-passes, expect_consumed_state-passes}
use secret_letter.E2e.Flow.Guarded.{public_url, before_hash-link, expect_missing, expect_malformed}

abbrev key_missing : Text
key_missing = units "Liên kết không hợp lệ. Thiếu khóa giải mã."

abbrev key_format : Text
key_format =
    units "Khóa giải mã trong liên kết không đúng định dạng. Hãy kiểm tra lại phần sau dấu #."

script_step :
    {World A B : Type 0} (m : Script World A) (f : A → Script World B) {w w' : World} {a : A}
    → m w ≡ (w', ok a)
    → (m >>= f) w ≡ f a w'
script_step {World = World} {A = A} {B = B} m f h = ap after h
  where
    after : World × Result Failure A → World × Result Failure B
    after q = elim q.1 [ ok a ↦ f a q.0 | throw e ↦ (q.0, throw e) ]

-- The step in which only the outcome of the first part is known.
script_then :
    {World A B : Type 0} (m : Script World A) (f : A → Script World B) (w : World) (a : A)
    → (m w).1 ≡ ok a
    → (m >>= f) w ≡ f a (m w).0
script_then m f w a h = script_step m f (ap (λ r. ((m w).0, r)) h)

module _ (p : Platform) (runtime : Runtime) (draws : ℕ → Draw) (env : Option Text) (origin : Text)
    (set_up : IsSetUp p draws env origin) where
  abbrev net : Platform
  net = served p runtime draws env

  abbrev opening : Text → Text → Script (Net p.World) Done
  opening = open_secret_and_verify p runtime draws env origin

  abbrev revisit : Text → Script (Net p.World) Done
  revisit = expect_consumed_state p runtime draws env origin

  module _ {text link : Text} (good : IsSecretText text)
      (posted : Posted p runtime draws env origin text link) where
    -- A letter that waits is opened, and is consumed on a revisit.
    opens_once :
        (rest : Script (Net p.World) Done) (w : Net p.World)
        → Waits p runtime draws env origin posted w
        → ((w' : Net p.World) → (rest w').1 ≡ ok tt)
        → (((opening link text) >>= λ _. (revisit link) >>= λ _. rest) w).1 ≡ ok tt
    opens_once rest w waits next =
        let (passes, spent) =
          open_secret_and_verify-passes p runtime draws env origin set_up posted w good waits in
        let w1 = (opening link text w).0 in
        let (consumed, still) =
          expect_consumed_state-passes p runtime draws env origin set_up posted w1 spent in
        rw (script_then (opening link text) (λ _. (revisit link) >>= λ _. rest) w tt passes)
          (rw (script_then (revisit link) (λ _. rest) w1 tt consumed) (next (revisit link w1).0))

    opens_last :
        (w : Net p.World)
        → Waits p runtime draws env origin posted w
        → (((opening link text) >>= λ _. revisit link) w).1 ≡ ok tt
    opens_last w waits =
        let (passes, spent) =
          open_secret_and_verify-passes p runtime draws env origin set_up posted w good waits in
        let w1 = (opening link text w).0 in
        rw (script_then (opening link text) (λ _. revisit link) w tt passes)
          (expect_consumed_state-passes p runtime draws env origin set_up posted w1 spent).0

    guarded-passes :
        (w : Net p.World)
        → Waits p runtime draws env origin posted w
        → (guarded p runtime draws env origin text link w).1 ≡ ok tt
    unfolding guarded
    guarded-passes w waits =
        let url = public_url p runtime draws env origin set_up posted in
        let bad =
          expect_error_state p runtime draws env origin (url ++ units "#not-a-valid-key")
            key_format in
        let last = (opening link text) >>= λ _. revisit link in
        rw (guarded, before_hash-link p runtime draws env origin set_up posted)
          (ap (λ r. r.1)
              (script_step (expect_error_state p runtime draws env origin url key_missing)
                  (λ _. bad >>= λ _. last)
                  (expect_missing p runtime draws env origin set_up posted w)
                ∙ script_step bad (λ _. last)
                    (expect_malformed p runtime draws env origin set_up posted w))
            ∙ opens_last w waits)

  guardrails-pass :
      (text : Text) (w : Net p.World)
      → IsSecretText text
      → (verify_fragment_guardrails p runtime draws env origin text w).1 ≡ ok tt
  unfolding verify_fragment_guardrails
  guardrails-pass text w good =
      let (link, made, (posted, waits)) =
        create_secret_via_ui-posts p runtime draws env origin set_up text w good in
      ap (λ r. r.1)
        (script_then (create_secret_via_ui p runtime draws env origin text)
          (guarded p runtime draws env origin text) w link made)
      ∙ guarded-passes good posted _ waits

  -- The script's flow passes against the program. Take a browser that keeps the documented laws of Web Crypto, the
  -- routes of the Go server over one Redis, tokens and ids of sixteen random bytes, a run of less than
  -- fifteen minutes, and two texts that fit the form and start with no byte order mark. Then each letter is made, its
  -- link opens it, with the statuses 201 and 200 and the header of the session, shows the text, and is shown as
  -- consumed on a revisit; and the two broken links show their messages and do not use the letter up.
  pub flow-passes :
      (secret_text guard_text : Text)
      → IsSecretText secret_text
      → IsSecretText guard_text
      → (w : Net p.World) → (flow p runtime draws env origin secret_text guard_text w).1 ≡ ok tt
  unfolding flow read_once
  flow-passes secret_text guard_text good also w =
      let (link, made, (posted, waits)) =
        create_secret_via_ui-posts p runtime draws env origin set_up secret_text w good in
      ap (λ r. r.1)
        (script_then (create_secret_via_ui p runtime draws env origin secret_text)
          (read_once p runtime draws env origin secret_text guard_text) w link made)
      ∙ opens_once good posted (verify_fragment_guardrails p runtime draws env origin guard_text) _
          waits (λ w'. guardrails-pass guard_text w' also)
