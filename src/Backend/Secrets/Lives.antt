-- ===== src/Backend/Secrets/Lives.antt =====
-- One call of a method, on the letter that it is about.
use secret_letter.Prelude.{
  ℕ, ◌<◌, ◌≡◌, ◌≢◌, refl, [], ◌∷◌, true, false, none, some, arith, leb, ◌==◌,
}
use secret_letter.Backend.Letter.{
  active, consumed, Metadata, claim_open, claim_active, finalize_open,
}
use secret_letter.Backend.Service.{secret_status}
use secret_letter.Backend.RevealSession.{secret_consumed}
use secret_letter.Backend.Validation.{CreateSecretRequest}
use secret_letter.Backend.Handlers.{consume_error}
use secret_letter.Backend.Secrets.{
  Letter, Letters, letter_at, set_letter, created_letter, status_store, consume_store,
}

pub letter_at-set_letter :
    (hash : ℕ) (letter : Letter) (letters : Letters)
    → letter_at hash (set_letter hash letter letters) ≡ some letter
unfolding letter_at set_letter
letter_at-set_letter hash letter [] = ground arith
letter_at-set_letter hash letter (x ∷ letters) =
    ground (arith, letter_at-set_letter hash letter letters)

pub letter_at-set_letter_ne :
    (hash other : ℕ) (letter : Letter) (letters : Letters)
    → other ≢ hash
    → letter_at other (set_letter hash letter letters) ≡ letter_at other letters
unfolding letter_at set_letter
letter_at-set_letter_ne hash other letter [] ne = ground arith
letter_at-set_letter_ne hash other letter (x ∷ letters) ne =
    ground (arith, letter_at-set_letter_ne hash other letter letters ne)

-- The metadata of a letter that was given out at a time.
abbrev pub spent_metadata : ℕ → ℕ → Metadata
spent_metadata expires_at_unix now = record {
  status = consumed;
  opening_id = none;
  opening_until_unix = none;
  expires_at_unix = expires_at_unix;
  consumed_at_unix = some now;
  view_count = 1;
}

abbrev pub spent_letter : ℕ → ℕ → Letter → Letter
spent_letter expires_at_unix now letter = record letter {
  store = record { metadata = some (spent_metadata expires_at_unix now); payload = none };
}

module _ (expires_at_unix : ℕ) (req : CreateSecretRequest) where
  pub fresh_status :
      (now : ℕ)
      → now < expires_at_unix
      → (status_store now (created_letter expires_at_unix req).store
          ≡ (created_letter expires_at_unix req).store)
        × (secret_status now (created_letter expires_at_unix req).store ≡ some active)
  unfolding status_store secret_status created_letter
  fresh_status now early = (ground arith, ground arith)

  pub fresh_consume :
      (now claim_id : ℕ)
      → now < expires_at_unix
      → consume_store now claim_id (created_letter expires_at_unix req).store
        ≡ ((spent_letter expires_at_unix now (created_letter expires_at_unix req)).store, none)
  unfolding consume_store created_letter claim_open claim_active finalize_open
  fresh_consume now claim_id early =
      let open_yet : leb expires_at_unix now ≡ false = ground arith in
      let own : (claim_id == claim_id) ≡ true = ground arith in rw (open_yet, own) refl

pub spent_status :
    (expires_at_unix at now : ℕ) (letter : Letter)
    → let spent = spent_letter expires_at_unix at letter in
      (status_store now spent.store ≡ spent.store) × (secret_status now spent.store ≡ some consumed)
unfolding status_store secret_status
spent_status expires_at_unix at now letter = (refl, refl)

pub spent_consume :
    (expires_at_unix at now claim_id : ℕ) (letter : Letter)
    → let spent = spent_letter expires_at_unix at letter in
      consume_store now claim_id spent.store ≡ (spent.store, some secret_consumed)
unfolding consume_store claim_open consume_error
spent_consume expires_at_unix at now claim_id letter = refl
