-- ===== src/Backend/Service/Closed.antt =====
-- The status of a letter that was given out.
use secret_letter.Prelude.{
  ℕ, ◌+◌, ◌≡◌, ◌≢◌, refl, [], ◌++◌, Bool, true, false, not, Option, none, some, arith,
}
use secret_letter.Text.{Text, units, text_eq}
use secret_letter.Http.{JsonObject, field}
use secret_letter.Scene.{sealed}
use secret_letter.RevealPage.{scene_of_status}
use secret_letter.Backend.Letter.{
  Status, active, opening, consumed, expired, deleted, Store, Reply, claimed, done, claim_open,
  finalize_open, abort_open, claim_active,
}
use secret_letter.Backend.Service.{
  Opening, System, created, claim_answered, finalize_answered, consume_begins, consume_ends,
  status_reads, status_writes, secret_status,
}
use secret_letter.Backend.Service.Fate.{may_open}
use secret_letter.Backend.Service.OneTime.{
  LetterStep, begins, ends, reads, writes, drops_metadata, drops_payload, Reach, here, next,
}

-- The letter is not there, or marked as consumed, expired or deleted.
abbrev pub is_closed : Store → Bool
is_closed store = elim store.metadata [ none ↦ true | some meta ↦ not (may_open meta.status) ]

claim_open-closed :
    (now claim_id claim_until : ℕ) (store : Store)
    → is_closed store ≡ true
    → is_closed (claim_open now claim_id claim_until store).0 ≡ true
unfolding claim_open claim_active
claim_open-closed now claim_id claim_until store h = ground arith

abort_open-closed :
    (now claim_id : ℕ) (store : Store)
    → is_closed store ≡ true
    → is_closed (abort_open now claim_id store).0 ≡ true
unfolding abort_open
abort_open-closed now claim_id store h = ground arith

finalize_open-closed :
    (consumed_at claim_id : ℕ) (store : Store)
    → is_closed store ≡ true
    → is_closed (finalize_open consumed_at claim_id store).0 ≡ true
unfolding finalize_open
finalize_open-closed consumed_at claim_id store h = ground arith

finalize_open-closes :
    (consumed_at claim_id : ℕ) (store : Store)
    → (finalize_open consumed_at claim_id store).1 ≡ done
    → is_closed (finalize_open consumed_at claim_id store).0 ≡ true
unfolding finalize_open
finalize_open-closes consumed_at claim_id store h = ground arith

-- A letter that was given out is closed.
abbrev IsShut : System → Type 0
IsShut s = s.given ≢ [] → is_closed s.store ≡ true

claimed-IsShut :
    (s : System) (claim_id : ℕ) (store : Store) (reply : Reply)
    → (is_closed s.store ≡ true → is_closed store ≡ true)
    → IsShut s
    → IsShut (claim_answered claim_id store reply s)
claimed-IsShut s claim_id store (claimed payload) keeps h = λ given. keeps (h given)
claimed-IsShut s claim_id store _ keeps h = λ given. keeps (h given)

finalized-IsShut :
    (s : System) (arrives : Bool) (o : Opening) (store : Store) (reply : Reply)
    → (is_closed s.store ≡ true → is_closed store ≡ true)
    → (reply ≡ done → is_closed store ≡ true)
    → IsShut s
    → IsShut (finalize_answered arrives o store reply s)
finalized-IsShut s true o store done keeps closes h = λ given. closes refl
finalized-IsShut s _ o store _ keeps closes h = λ given. keeps (h given)

ends-IsShut :
    (s : System) (o : Opening) (decrypts arrives : Bool) (now : ℕ)
    → IsShut s
    → IsShut (consume_ends decrypts arrives now o s)
unfolding consume_ends
ends-IsShut s o false arrives now h = λ given. abort_open-closed now o.claim_id s.store (h given)
ends-IsShut s o true arrives now h =
    finalized-IsShut s arrives o _ _ (finalize_open-closed now o.claim_id s.store)
      (finalize_open-closes now o.claim_id s.store) h

step-IsShut : {s t : System} → LetterStep s t → IsShut s → IsShut t
unfolding consume_begins status_reads status_writes
step-IsShut (begins s now claim_id) h =
    claimed-IsShut s claim_id _ _ (claim_open-closed now claim_id (now + 30) s.store) h
step-IsShut (ends s before after o decrypts arrives now e) h =
    ends-IsShut (record s { running = before ++ after }) o decrypts arrives now h
step-IsShut (reads s now) h = h
step-IsShut (writes s before after meta e) h = λ given. refl
step-IsShut (drops_metadata s) h = λ given. refl
step-IsShut (drops_payload s) h = h

Reach-IsShut :
    (letter expires_at_unix : ℕ) {s : System} → Reach (created letter expires_at_unix) s → IsShut s
Reach-IsShut letter expires_at_unix here = λ given. absurd (given refl)
Reach-IsShut letter expires_at_unix (next r step) =
    step-IsShut step (Reach-IsShut letter expires_at_unix r)

-- The status as it is written in the reply.
abbrev pub status_text : Option Status → Text
status_text none = units "not_found"
status_text (some active) = units "active"
status_text (some opening) = units "opening"
status_text (some consumed) = units "consumed"
status_text (some expired) = units "expired"
status_text (some deleted) = units "deleted"

closed_status :
    (now : ℕ) (store : Store) → is_closed store ≡ true → secret_status now store ≢ some active
unfolding secret_status
closed_status now store h = λ e. ground arith

unsealed :
    (status : Option Status) (reply : JsonObject)
    → field "status" reply ≡ some (status_text status)
    → status ≢ some active
    → (scene_of_status reply).state ≢ sealed
unfolding scene_of_status text_eq
unsealed none reply h n = rw h (λ e. cc)
unsealed (some active) reply h n = λ e. n refl
unsealed (some opening) reply h n = rw h (λ e. cc)
unsealed (some consumed) reply h n = rw h (λ e. cc)
unsealed (some expired) reply h n = rw h (λ e. cc)
unsealed (some deleted) reply h n = rw h (λ e. cc)

-- Once a response has given a letter out, the reveal page shows no sealed letter for it any more, whenever it
-- asks for the status.
pub given-unsealed :
    (letter expires_at_unix : ℕ) {s : System}
    → Reach (created letter expires_at_unix) s
    → s.given ≢ []
    → (now : ℕ) (reply : JsonObject)
    → field "status" reply ≡ some (status_text (secret_status now s.store))
    → (scene_of_status reply).state ≢ sealed
given-unsealed letter expires_at_unix {s} r given now reply h =
    unsealed (secret_status now s.store) reply h
      (closed_status now s.store (Reach-IsShut letter expires_at_unix r given))
