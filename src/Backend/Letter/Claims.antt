-- ===== src/Backend/Letter/Claims.antt =====
-- What a claim on a letter holds off, and what becomes of it.
use secret_letter.Prelude.{ℕ, ◌≤◌, ◌<◌, ◌≡◌, ◌≢◌, some, arith}
use secret_letter.Backend.Letter.{
  active, opening, Metadata, unclaimed, Store, claimed, said_consumed, conflict, done, claim_active,
  claim_open, finalize_open, abort_open,
}

-- A letter that may be opened.
abbrev pub waiting_store : Metadata → ℕ → Store
waiting_store meta letter = record {
  metadata = some (unclaimed active meta);
  payload = some letter;
}

module _ (meta : Metadata) (letter now claim_id claim_until : ℕ) where
  -- The same letter under a claim.
  abbrev pub held : Store
  held = record {
    metadata = some (record meta {
      status = opening;
      opening_id = some claim_id;
      opening_until_unix = some claim_until;
    });
    payload = some letter;
  }

  -- A claim on a waiting letter before its expiry gets the letter. While the claim lasts, every other claim is
  -- told that the letter is consumed, and changes nothing; when it has run out, the letter can be claimed
  -- again until it expires. Only the claim that holds the letter can finish, and this consumes
  -- it; if it is given up before the expiry, the letter waits as before.
  pub claim_open-held :
      now < meta.expires_at_unix
      → (claim_open now claim_id claim_until (waiting_store meta letter) ≡ (held, claimed letter))
        × ((later other until : ℕ)
            → later < claim_until
            → claim_open later other until held ≡ (held, said_consumed))
        × ((later other until : ℕ)
            → claim_until ≤ later
            → later < meta.expires_at_unix
            → (claim_open later other until held).1 ≡ claimed letter)
        × ((consumed_at other : ℕ)
            → other ≢ claim_id
            → finalize_open consumed_at other held ≡ (held, conflict))
        × ((consumed_at : ℕ)
            → ((finalize_open consumed_at claim_id held).1 ≡ done)
              × ((later other until : ℕ)
                  → claim_open later other until (finalize_open consumed_at claim_id held).0
                    ≡ ((finalize_open consumed_at claim_id held).0, said_consumed)))
        × ((later : ℕ)
            → later < meta.expires_at_unix
            → abort_open later claim_id held ≡ (waiting_store meta letter, done))
  unfolding claim_open claim_active finalize_open abort_open
  claim_open-held early = (
    ground (arith, early),
    λ later other until h. ground (arith, h),
    λ later other until h k. ground (arith, h, k),
    λ consumed_at other h. ground (arith, h),
    λ consumed_at. (ground arith, λ later other until. ground arith),
    λ later h. ground (arith, h),
  )
