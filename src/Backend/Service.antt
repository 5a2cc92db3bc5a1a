-- ===== src/Backend/Service.antt =====
-- `ConsumeSecret` and `GetSecretStatus` of backend/internal/secret/redis_service.go for one letter, with the
-- scripts of Letter, split where other requests may come between.
pub mod OneTime
pub mod Fate
pub mod Closed
use secret_letter.Prelude.{
  ℕ, ◌+◌, List, [], ◌∷◌, ◌++◌, Bool, true, false, ◌&&◌, leb, Option, none, some, if◌then◌else◌,
}
use secret_letter.Backend.Letter.{
  Status, active, expired, Metadata, unclaimed, Store, Reply, said_consumed, said_expired,
  not_found, conflict, ignored, claimed, done, claim_open, finalize_open, abort_open,
}

abbrev pub open_claim_ttl : ℕ
open_claim_ttl = 30

-- A call of `ConsumeSecret` behind its claim.
pub record Opening : Type 0 where
  pub claim_id : ℕ
  pub payload : ℕ

-- The letter's keys, the calls that are under way, the metadata that calls of `GetSecretStatus` have read and
-- found to be out of date, and the payloads that responses have given out.
pub record System : Type 0 where
  pub store : Store
  pub running : List Opening
  pub stale : List Metadata
  pub given : List ℕ

-- What `CreateSecret` stores.
abbrev pub created : ℕ → ℕ → System
created letter expires_at_unix = record {
  store = record {
    metadata = some (record {
      status = active;
      opening_id = none;
      opening_until_unix = none;
      expires_at_unix = expires_at_unix;
      consumed_at_unix = none;
      view_count = 0;
    });
    payload = some letter;
  };
  running = [];
  stale = [];
  given = [];
}

-- `switch code` behind the first script.
abbrev pub claim_answered : ℕ → Store → Reply → System → System
claim_answered claim_id store (claimed payload) s = record s {
  store = store;
  running = record { claim_id = claim_id; payload = payload } ∷ s.running;
}
claim_answered claim_id store _ s = record s { store = store }

-- `ConsumeSecret` up to there.
unfoldable pub consume_begins : ℕ → ℕ → System → System
consume_begins now claim_id s =
    let (store, reply) = claim_open now claim_id (now + open_claim_ttl) s.store in
    claim_answered claim_id store reply s

-- `finalizeOpenClaim` and the response behind it; whether the reply of the script arrives.
abbrev pub finalize_answered : Bool → Opening → Store → Reply → System → System
finalize_answered true o store done s = record s { store = store; given = o.payload ∷ s.given }
finalize_answered arrives o store _ s = record s { store = store }

-- The rest of `ConsumeSecret`; whether the payload is decrypted.
unfoldable pub consume_ends : Bool → Bool → ℕ → Opening → System → System
consume_ends decrypts arrives now o s =
    let (aborted, _) = abort_open now o.claim_id s.store in
    let (store, reply) = finalize_open now o.claim_id s.store in
    if decrypts then finalize_answered arrives o store reply s else record s { store = aborted }

abbrev is_active : Status → Bool
is_active active = true
is_active _ = false

-- `metadata.Status == StatusActive && metadata.ExpiresAtUnix <= time.Now().UTC().Unix()`
abbrev pub is_stale : ℕ → Metadata → Bool
is_stale now meta = is_active meta.status && leb meta.expires_at_unix now

abbrev pub add_stale : ℕ → Option Metadata → List Metadata → List Metadata
add_stale now none stale = stale
add_stale now (some meta) stale = if is_stale now meta then meta ∷ stale else stale

-- `GetSecretStatus` up to `persistMetadata`.
unfoldable pub status_reads : ℕ → System → System
status_reads now s = record s { stale = add_stale now s.store.metadata s.stale }

-- Its status; `none` is `"not_found"`.
unfoldable pub secret_status : ℕ → Store → Option Status
secret_status now store = elim store.metadata [
  | none ↦ none
  | some meta ↦ some (if is_stale now meta then expired else meta.status)
]

-- `persistMetadata`, of what was read before; the deletion of the payload is a step of Redis.
unfoldable pub status_writes : Metadata → System → System
status_writes meta s = record s {
  store = record s.store { metadata = some (record meta { status = expired }) };
}
