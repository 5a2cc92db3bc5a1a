-- ===== src/Backend/Letter.antt =====
-- The three Lua scripts of backend/internal/secret/redis_service.go, which Redis runs each at once, on the
-- two keys of one letter.
pub mod Claims
use secret_letter.Prelude.{
  ℕ, suc, Bool, true, false, ◌||◌, ◌&&◌, not, leb, ltb, ◌==◌, Option, none, some, if◌then◌else◌,
}

pub data Status : Type 0 where
  active opening consumed expired deleted : Status

-- `meta`, less the fields that the scripts only carry along.
pub record Metadata : Type 0 where
  pub status : Status
  pub opening_id : Option ℕ
  pub opening_until_unix : Option ℕ
  pub expires_at_unix : ℕ
  pub consumed_at_unix : Option ℕ
  pub view_count : ℕ

-- `KEYS[1]` and `KEYS[2]`; `none` is a key that is not there, and a payload is named by a number.
pub record Store : Type 0 where
  pub metadata : Option Metadata
  pub payload : Option ℕ

-- What a script returns.
pub data Reply : Type 0 where
  not_found said_consumed said_expired conflict ignored : Reply
  claimed : ℕ → Reply
  done : Reply

-- `meta` with this status and without a claim.
abbrev pub unclaimed : Status → Metadata → Metadata
unclaimed status meta = record meta {
  status = status;
  opening_id = none;
  opening_until_unix = none;
}

abbrev pub is_opening : Status → Bool
is_opening opening = true
is_opening _ = false

-- `(tonumber(meta.openingUntilUnix) or 0) > now`
abbrev pub is_held : Metadata → ℕ → Bool
is_held meta now = elim meta.opening_until_unix [ none ↦ false | some until ↦ ltb now until ]

-- From the expiry on: `meta` is active.
unfoldable pub claim_active : ℕ → ℕ → ℕ → Metadata → Store → Store × Reply
claim_active now claim_id claim_until meta store =
    if leb meta.expires_at_unix now
    then (record { metadata = some (unclaimed expired meta); payload = none }, said_expired)
    else elim store.payload [
      | none ↦ (record store { metadata = some (unclaimed expired meta) }, said_expired)
      | some payload ↦ (
        record store {
          metadata = some (record meta {
            status = opening;
            opening_id = some claim_id;
            opening_until_unix = some claim_until;
          });
        },
        claimed payload,
      )
    ]

-- `claimOpenSecretScript`
unfoldable pub claim_open : ℕ → ℕ → ℕ → Store → Store × Reply
unfolding claim_active
claim_open now claim_id claim_until store = elim store.metadata [
  | none ↦ (store, not_found)
  | some meta ↦ elim meta.status [
    | consumed ↦ (store, said_consumed)
    | expired ↦ (store, said_expired)
    | deleted ↦ (store, not_found)
    | opening ↦
        if is_held meta now
        then (store, said_consumed)
        else claim_active now claim_id claim_until (unclaimed active meta) store
    | active ↦ claim_active now claim_id claim_until meta store
  ]
]

abbrev pub holds_claim : Metadata → ℕ → Bool
holds_claim meta claim_id =
    is_opening meta.status && elim meta.opening_id [ none ↦ false | some id ↦ id == claim_id ]

-- `finalizeOpenSecretScript`
unfoldable pub finalize_open : ℕ → ℕ → Store → Store × Reply
finalize_open consumed_at claim_id store = elim store.metadata [
  | none ↦ (store, not_found)
  | some meta ↦ elim meta.status [
    | consumed ↦ (store, said_consumed)
    | expired ↦ (store, said_expired)
    | deleted ↦ (store, not_found)
    | _ ↦ if not (holds_claim meta claim_id) then (store, conflict) else elim store.payload [
      | none ↦ (record store { metadata = some (unclaimed expired meta) }, said_expired)
      | some _ ↦ (
        record {
          metadata = some (record (unclaimed consumed meta) {
            consumed_at_unix = some consumed_at;
            view_count = suc meta.view_count;
          });
          payload = none;
        },
        done,
      )
    ]
  ]
]

-- `abortOpenSecretScript`
unfoldable pub abort_open : ℕ → ℕ → Store → Store × Reply
abort_open now claim_id store = elim store.metadata [
  | none ↦ (store, not_found)
  | some meta ↦
      if not (holds_claim meta claim_id)
      then (store, ignored)
      else if leb meta.expires_at_unix now
      then (record { metadata = some (unclaimed expired meta); payload = none }, said_expired)
      else (record store { metadata = some (unclaimed active meta) }, done)
]
