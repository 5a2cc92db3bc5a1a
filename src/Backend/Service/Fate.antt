-- ===== src/Backend/Service/Fate.antt =====
-- What is promised of a letter in the abstract, and that the service keeps it.
use secret_letter.Prelude.{
  ℕ, ◌+◌, ◌≡◌, ◌≢◌, inl, inr, refl, sym, ap, ◌∙◌, List, [], ◌∷◌, ◌++◌, Bool, true, false, ◌&&◌,
  none, some, arith,
}
use secret_letter.Backend.Letter.{
  Status, expired, active, opening, Metadata, Store, Reply, claimed, done, claim_open,
  finalize_open, abort_open, claim_active,
}
use secret_letter.Backend.Service.{
  Opening, System, created, claim_answered, finalize_answered, consume_begins, consume_ends,
  status_reads, status_writes,
}
use secret_letter.Backend.Service.OneTime.{
  LetterStep, begins, ends, reads, writes, drops_metadata, drops_payload, Reach, OneTime,
  Reach-OneTime, taken, finalize_open-done,
}

-- A letter waits, has been delivered, or is lost.
pub data Fate : Type 0 where
  waiting delivered lost : Fate

-- A step of the abstract letter, with what it gives out: it is delivered at most once, and only while it waits.
pub data FateStep (letter : ℕ) : Fate → List ℕ → Fate → Type 0 where
  stays : {f : Fate} → FateStep letter f [] f
  delivers : FateStep letter waiting (letter ∷ []) delivered
  loses : FateStep letter waiting [] lost

abbrev pub may_open : Status → Bool
may_open active = true
may_open opening = true
may_open _ = false

-- Whether the store may still give the letter out.
abbrev pub is_open : Store → Bool
is_open store = elim store.metadata [
  | none ↦ false
  | some meta ↦ may_open meta.status && elim store.payload [ none ↦ false | some _ ↦ true ]
]

abbrev fate_of : List ℕ → Bool → Fate
fate_of (_ ∷ _) _ = delivered
fate_of [] true = waiting
fate_of [] false = lost

abbrev pub fate : System → Fate
fate s = fate_of s.given (is_open s.store)

closed-ne-open : false ≡ true → ⊥
closed-ne-open h = ground arith

no_payload : (store : Store) → is_open (record store { payload = none }) ≡ false
no_payload store = ground arith

module _ (letter : ℕ) where
  keeps-FateStep :
      (given : List ℕ) (before after : Bool)
      → (after ≡ true → before ≡ true)
      → FateStep letter (fate_of given before) [] (fate_of given after)
  keeps-FateStep (x ∷ given) before after h = stays
  keeps-FateStep [] true true h = stays
  keeps-FateStep [] false false h = stays
  keeps-FateStep [] true false h = loses
  keeps-FateStep [] false true h = absurd (closed-ne-open (h refl))

  -- What a step gives out, and how it moves the abstract letter.
  abbrev pub Refines : System → System → Type 0
  Refines s t = (out : List ℕ) × (t.given ≡ out ++ s.given) × FateStep letter (fate s) out (fate t)

  store-Refines :
      (s : System) (store : Store) (running : List Opening) (stale : List Metadata)
      → (is_open store ≡ true → is_open s.store ≡ true)
      → Refines s (record { store = store; running = running; stale = stale; given = s.given })
  store-Refines s store running stale h =
      ([], refl, keeps-FateStep s.given (is_open s.store) (is_open store) h)

  claim_open-opens :
      (now claim_id claim_until : ℕ) (store : Store)
      → is_open (claim_open now claim_id claim_until store).0 ≡ true
      → is_open store ≡ true
  unfolding claim_open claim_active
  claim_open-opens now claim_id claim_until store h = ground arith

  abort_open-opens :
      (now claim_id : ℕ) (store : Store)
      → is_open (abort_open now claim_id store).0 ≡ true
      → is_open store ≡ true
  unfolding abort_open
  abort_open-opens now claim_id store h = ground arith

  finalize_open-opens :
      (consumed_at claim_id : ℕ) (store : Store)
      → is_open (finalize_open consumed_at claim_id store).0 ≡ true
      → is_open store ≡ true
  unfolding finalize_open
  finalize_open-opens consumed_at claim_id store h = ground arith

  finalize_open-open :
      (consumed_at claim_id : ℕ) (store : Store)
      → (finalize_open consumed_at claim_id store).1 ≡ done
      → is_open store ≡ true
  unfolding finalize_open
  finalize_open-open consumed_at claim_id store h = ground arith

  claimed-Refines :
      (s : System) (claim_id : ℕ) (store : Store) (reply : Reply)
      → (is_open store ≡ true → is_open s.store ≡ true)
      → Refines s (claim_answered claim_id store reply s)
  claimed-Refines s claim_id store (claimed payload) h =
      store-Refines s store (record { claim_id = claim_id; payload = payload } ∷ s.running) s.stale
        h
  claimed-Refines s claim_id store _ h = store-Refines s store s.running s.stale h

  finalized-Refines :
      (s : System) (arrives : Bool) (o : Opening) (store : Store) (reply : Reply)
      → o.payload ≡ letter
      → OneTime letter s
      → (reply ≡ done → (is_open s.store ≡ true) × (s.store.payload ≢ none))
      → (is_open store ≡ true → is_open s.store ≡ true)
      → Refines s (finalize_answered arrives o store reply s)
  finalized-Refines s true o store done carried inv ended h =
      let (waits, there) = ended refl in
      elim inv.once [
        | inr (old, gone) ↦ absurd (there gone)
        | inl fresh ↦ (letter ∷ [], ap (λ x. x ∷ s.given) carried, rw (fresh, waits) delivers)
      ]
  finalized-Refines s _ o store _ carried inv ended h = store-Refines s store s.running s.stale h

  ends-Refines :
      (s : System) (o : Opening) (decrypts arrives : Bool) (now : ℕ)
      → o.payload ≡ letter
      → OneTime letter s
      → Refines s (consume_ends decrypts arrives now o s)
  unfolding consume_ends
  ends-Refines s o false arrives now carried inv =
      store-Refines s _ s.running s.stale (abort_open-opens now o.claim_id s.store)
  ends-Refines s o true arrives now carried inv =
      finalized-Refines s arrives o _ _ carried inv
        (λ e. (
          finalize_open-open now o.claim_id s.store e,
          (finalize_open-done letter now o.claim_id s.store e).1,
        ))
        (finalize_open-opens now o.claim_id s.store)

  lost-Refines :
      (s : System) (store : Store) (running : List Opening) (stale : List Metadata)
      → is_open store ≡ false
      → Refines s (record { store = store; running = running; stale = stale; given = s.given })
  lost-Refines s store running stale closed =
      store-Refines s store running stale (λ h. absurd (closed-ne-open (sym closed ∙ h)))

  step-Refines : {s t : System} → OneTime letter s → LetterStep s t → Refines s t
  unfolding consume_begins status_reads status_writes
  step-Refines inv (begins s now claim_id) =
      claimed-Refines s claim_id _ _ (claim_open-opens now claim_id (now + 30) s.store)
  step-Refines inv (ends s before after o decrypts arrives now e) =
      let (own, rest) = taken letter s before after o e inv in
      ends-Refines (record s { running = before ++ after }) o decrypts arrives now own rest
  step-Refines inv (reads s now) = ([], refl, stays)
  step-Refines inv (writes s before after meta e) =
      lost-Refines s (record s.store { metadata = some (record meta { status = expired }) })
        s.running (before ++ after) refl
  step-Refines inv (drops_metadata s) =
      lost-Refines s (record s.store { metadata = none }) s.running s.stale refl
  step-Refines inv (drops_payload s) =
      lost-Refines s (record s.store { payload = none }) s.running s.stale (no_payload s.store)

  -- The service refines the abstract letter: from a created letter on, every step of any request, and every
  -- key that Redis drops, either leaves the abstract letter as it is and gives out nothing, or loses it while it
  -- waits, or delivers it while it waits and gives out just the letter.
  pub Reach-Refines :
      (expires_at_unix : ℕ) {s t : System}
      → Reach (created letter expires_at_unix) s
      → LetterStep s t
      → (out : List ℕ) × (t.given ≡ out ++ s.given) × FateStep letter (fate s) out (fate t)
  Reach-Refines expires_at_unix r step = step-Refines (Reach-OneTime letter expires_at_unix r) step
