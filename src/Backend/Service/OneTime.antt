-- ===== src/Backend/Service/OneTime.antt =====
-- A letter is given out at most once, whatever requests run at the same time.
use secret_letter.Prelude.{
  ℕ, ◌+◌, ◌≡◌, ◌≢◌, ◌⊎◌, inl, inr, refl, sym, List, [], ◌∷◌, ◌++◌, Bool, true, false, none, some,
  arith, All, All-append, All-append_parts,
}
use secret_letter.Backend.Letter.{
  Metadata, Store, Reply, claimed, done, claim_open, finalize_open, abort_open, claim_active,
}
use secret_letter.Backend.Service.{
  Opening, System, created, claim_answered, finalize_answered, consume_begins, consume_ends,
  status_reads, status_writes,
}

-- Requests come and go on, and fail or are cut off, in any order and with any clocks; Redis may drop a key at any
-- time, as it does when the key expires.
pub data LetterStep : System → System → Type 0 where
  begins : (s : System) (now claim_id : ℕ) → LetterStep s (consume_begins now claim_id s)
  ends :
      (s : System) (before after : List Opening) (o : Opening) (decrypts arrives : Bool) (now : ℕ)
      → s.running ≡ before ++ o ∷ after
      → LetterStep s (consume_ends decrypts arrives now o (record s { running = before ++ after }))
  reads : (s : System) (now : ℕ) → LetterStep s (status_reads now s)
  writes :
      (s : System) (before after : List Metadata) (meta : Metadata)
      → s.stale ≡ before ++ meta ∷ after
      → LetterStep s (status_writes meta (record s { stale = before ++ after }))
  drops_metadata :
      (s : System) → LetterStep s (record s { store = record s.store { metadata = none } })
  drops_payload :
      (s : System) → LetterStep s (record s { store = record s.store { payload = none } })

pub data Reach (s : System) : System → Type 0 where
  here : Reach s s
  next : {t u : System} → Reach s t → LetterStep t u → Reach s u

module _ (letter : ℕ) where
  abbrev IsCarried : Opening → Type 0
  IsCarried o = o.payload ≡ letter

  -- The payload is the letter wherever it is, and is in the store only before it is given out.
  pub record OneTime (s : System) : Type 0 where
    pub kept : (s.store.payload ≡ none) ⊎ (s.store.payload ≡ some letter)
    pub carried : All IsCarried s.running
    pub once : (s.given ≡ []) ⊎ ((s.given ≡ letter ∷ []) × (s.store.payload ≡ none))

  -- A script keeps the payload or deletes it.
  abbrev Keeps : Store → Store → Type 0
  Keeps store after = (after.payload ≡ none) ⊎ (after.payload ≡ store.payload)

  claim_open-Keeps :
      (now claim_id claim_until : ℕ) (store : Store)
      → Keeps store (claim_open now claim_id claim_until store).0
  unfolding claim_open claim_active
  claim_open-Keeps now claim_id claim_until store = ground arith

  pub claim_open-claimed :
      (now claim_id claim_until : ℕ) (store : Store) (payload : ℕ)
      → (claim_open now claim_id claim_until store).1 ≡ claimed payload
      → store.payload ≡ some payload
  unfolding claim_open claim_active
  claim_open-claimed now claim_id claim_until store payload h = ground arith

  finalize_open-Keeps :
      (consumed_at claim_id : ℕ) (store : Store)
      → Keeps store (finalize_open consumed_at claim_id store).0
  unfolding finalize_open
  finalize_open-Keeps consumed_at claim_id store = ground arith

  pub finalize_open-done :
      (consumed_at claim_id : ℕ) (store : Store)
      → (finalize_open consumed_at claim_id store).1 ≡ done
      → ((finalize_open consumed_at claim_id store).0.payload ≡ none) × (store.payload ≢ none)
  unfolding finalize_open
  finalize_open-done consumed_at claim_id store h = ground arith

  abort_open-Keeps :
      (now claim_id : ℕ) (store : Store) → Keeps store (abort_open now claim_id store).0
  unfolding abort_open
  abort_open-Keeps now claim_id store = ground arith

  -- The store may change as a script changes it.
  store-OneTime :
      (s : System) (store : Store)
      → Keeps s.store store
      → OneTime s
      → OneTime (record s { store = store })
  store-OneTime s store k h = record {
    kept = ground (arith, h.kept);
    carried = h.carried;
    once = ground (arith, h.once);
  }

  created-OneTime : (expires_at_unix : ℕ) → OneTime (created letter expires_at_unix)
  created-OneTime expires_at_unix = record { kept = inr refl; carried = tt; once = inl refl }

  claimed-OneTime :
      (s : System) (claim_id : ℕ) (store : Store) (reply : Reply)
      → ((payload : ℕ) → reply ≡ claimed payload → s.store.payload ≡ some payload)
      → Keeps s.store store
      → OneTime s
      → OneTime (claim_answered claim_id store reply s)
  claimed-OneTime s claim_id store (claimed payload) source k h =
      let found = source payload refl in
      let kept = (store-OneTime s store k h).kept in
      let once = (store-OneTime s store k h).once in
      record { kept = kept; carried = (ground (arith, h.kept), h.carried); once = once }
  claimed-OneTime s claim_id store _ source k h = store-OneTime s store k h

  finalized-OneTime :
      (s : System) (arrives : Bool) (o : Opening) (store : Store) (reply : Reply)
      → o.payload ≡ letter
      → (reply ≡ done → (store.payload ≡ none) × (s.store.payload ≢ none))
      → Keeps s.store store
      → OneTime s
      → OneTime (finalize_answered arrives o store reply s)
  finalized-OneTime s true o store done carried ended k h =
      let (gone, there) = ended refl in
      record { kept = inl gone; carried = h.carried; once = ground (arith, h.once) }
  finalized-OneTime s _ o store _ carried ended k h = store-OneTime s store k h

  ends-OneTime :
      (s : System) (o : Opening) (decrypts arrives : Bool) (now : ℕ)
      → o.payload ≡ letter
      → OneTime s
      → OneTime (consume_ends decrypts arrives now o s)
  unfolding consume_ends
  ends-OneTime s o false arrives now carried h =
      store-OneTime s _ (abort_open-Keeps now o.claim_id s.store) h
  ends-OneTime s o true arrives now carried h =
      finalized-OneTime s arrives o _ _ carried (finalize_open-done now o.claim_id s.store)
        (finalize_open-Keeps now o.claim_id s.store) h

  -- A call that ends is taken from those that run.
  pub taken :
      (s : System) (before after : List Opening) (o : Opening)
      → s.running ≡ before ++ o ∷ after
      → OneTime s
      → IsCarried o × OneTime (record s { running = before ++ after })
  taken s before after o e h =
      let (front, (own, back)) =
        All-append_parts IsCarried before (o ∷ after) (rw (sym e) h.carried) in
      let left = All-append IsCarried before after front back in
      (own, record { kept = h.kept; carried = left; once = h.once })

  step-OneTime : {s t : System} → LetterStep s t → OneTime s → OneTime t
  unfolding consume_begins status_reads status_writes
  step-OneTime (begins s now claim_id) h =
      claimed-OneTime s claim_id _ _ (claim_open-claimed now claim_id (now + 30) s.store)
        (claim_open-Keeps now claim_id (now + 30) s.store) h
  step-OneTime (ends s before after o decrypts arrives now e) h =
      let (own, rest) = taken s before after o e h in
      ends-OneTime (record s { running = before ++ after }) o decrypts arrives now own rest
  step-OneTime (reads s now) h = record { kept = h.kept; carried = h.carried; once = h.once }
  step-OneTime (writes s before after meta e) h = record {
    kept = h.kept;
    carried = h.carried;
    once = h.once;
  }
  step-OneTime (drops_metadata s) h = record { kept = h.kept; carried = h.carried; once = h.once }
  step-OneTime (drops_payload s) h = store-OneTime s _ (inl refl) h

  pub Reach-OneTime :
      (expires_at_unix : ℕ) {s : System} → Reach (created letter expires_at_unix) s → OneTime s
  Reach-OneTime expires_at_unix here = created-OneTime expires_at_unix
  Reach-OneTime expires_at_unix (next r step) = step-OneTime step (Reach-OneTime expires_at_unix r)

  -- However requests for a letter run into one another, fail or are cut off, whatever their clocks say and
  -- whichever keys Redis drops: no response gives out anything but the letter, at most one
  -- does, and from then on the letter is in the store no more.
  pub Reach-once :
      (expires_at_unix : ℕ) {s : System}
      → Reach (created letter expires_at_unix) s
      → (s.given ≡ []) ⊎ ((s.given ≡ letter ∷ []) × (s.store.payload ≡ none))
  Reach-once expires_at_unix r = (Reach-OneTime expires_at_unix r).once
