-- ===== src/Probes/Laws.antt =====
-- The loops of Probes end, and what they find.
use secret_letter.Prelude.{
  ℕ, zero, suc, ◌+◌, ◌*◌, ◌/◌, ◌≤◌, ◌<◌, ◌≡◌, inl, inr, refl, ap, ◌∙◌, sym, Bool, true, false, ltb,
  Option, none, some, arith, Bool-cases, ◌==◌, ==_iff,
}
use secret_letter.Probes.{
  ports_loop, find_free_port, Probe, Wait, ready, timed_out, wait_loop, wait_for_server,
}

-- The first free port of a range, or none if all are taken.
abbrev pub IsFirstFree : (ℕ → Bool) → ℕ → ℕ → Option ℕ → Type 0
IsFirstFree is_free start end none = (q : ℕ) → start ≤ q → q < end → is_free q ≡ false
IsFirstFree is_free start end (some p) =
    (start ≤ p) × (p < end) × (is_free p ≡ true) × ((q : ℕ) → start ≤ q → q < p → is_free q ≡ false)

below-suc :
    (f : ℕ → Bool) (start : ℕ) {end : ℕ}
    → f start ≡ false
    → ((q : ℕ) → start + 1 ≤ q → q < end → f q ≡ false)
    → (q : ℕ) → start ≤ q
    → q < end
    → f q ≡ false
below-suc f start h later q l u = elim (Bool-cases (q == start)) [
  | inl e ↦ rw ((==_iff q start).0 e) h
  | inr other ↦ later q (ground arith) u
]

IsFirstFree-suc :
    (is_free : ℕ → Bool) (start end : ℕ) (r : Option ℕ)
    → is_free start ≡ false
    → IsFirstFree is_free (start + 1) end r
    → IsFirstFree is_free start end r
IsFirstFree-suc is_free start end none taken h = below-suc is_free start taken h
IsFirstFree-suc is_free start end (some p) taken (l, u, free, before) =
    (omega arith, u, free, below-suc is_free start taken before)

ports_loop-IsFirstFree :
    (is_free : ℕ → Bool) (rounds start end : ℕ)
    → start + rounds ≡ end
    → IsFirstFree is_free start end (ports_loop is_free rounds start)
unfolding ports_loop
ports_loop-IsFirstFree is_free zero start end e = λ q l u. absurd (omega arith)
ports_loop-IsFirstFree is_free (suc rounds) start end e = elim (Bool-cases (is_free start)) [
  | inl free ↦ rw (free, ports_loop) (omega arith, omega arith, free, λ q l u. absurd (omega arith))
  | inr taken ↦
      rw (taken, ports_loop)
        (IsFirstFree-suc is_free start end (ports_loop is_free rounds (start + 1)) taken
          (ports_loop-IsFirstFree is_free rounds (start + 1) end (omega arith)))
]

-- A port that is found is free and is the first of the twenty from the start on; the error is thrown
-- only if all twenty are taken.
pub find_free_port-first :
    (is_free : ℕ → Bool) (start_port : ℕ)
    → IsFirstFree is_free start_port (start_port + 20) (find_free_port is_free start_port)
unfolding find_free_port
find_free_port-first is_free start_port =
    ports_loop-IsFirstFree is_free 20 start_port (start_port + 20) refl

module _ (probe : ℕ → Probe) (pause : ℕ → ℕ) (sleeps : (k : ℕ) → 250 ≤ pause k) where
  -- The probes before the k-th were not answered.
  abbrev pub Silent : ℕ → Type 0
  Silent k = (j : ℕ) → j < k → (probe j).answered ≡ false

  -- How long the first k rounds take, their probes and their pauses.
  abbrev pub spent : ℕ → ℕ
  spent zero = 0
  spent (suc k) = spent k + (probe k).took + pause k

  spent-suc : (k : ℕ) → spent (k + 1) ≡ spent k + (probe k).took + pause k
  spent-suc k = let one : k + 1 ≡ suc k = omega arith in ap spent one

  -- Each of the first k rounds began in time.
  abbrev pub InTime : ℕ → ℕ → Type 0
  InTime timeout_ms k = (j : ℕ) → j < k → spent j < timeout_ms

  -- How a wait ends, with the number of probes that it took.
  abbrev pub IsOutcome : ℕ → Wait → Type 0
  IsOutcome timeout_ms (ready n) =
      (j : ℕ) × (n ≡ j + 1) × ((probe j).answered ≡ true) × Silent j × InTime timeout_ms n
  IsOutcome timeout_ms (timed_out n) =
      Silent n × InTime timeout_ms n × (timeout_ms ≤ spent n) × (n * 250 < timeout_ms + 250)

  extends : (P : ℕ → Type 0) (k : ℕ) → ((j : ℕ) → j < k → P j) → P k → (j : ℕ) → j < k + 1 → P j
  extends P k before here j h = elim (Bool-cases (j == k)) [
    | inl same ↦ rw ((==_iff j k).0 same) here
    | inr other ↦ before j (ground arith)
  ]

  wait_loop_ends :
      (fuel timeout_ms k : ℕ)
      → k * 250 ≤ spent k
      → timeout_ms + 250 ≤ (k + fuel) * 250
      → k * 250 < timeout_ms + 250
      → Silent k
      → InTime timeout_ms k
      → (w : Wait) × (wait_loop probe pause fuel timeout_ms k (spent k) ≡ some w)
        × IsOutcome timeout_ms w
  unfolding wait_loop
  wait_loop_ends zero timeout_ms k slow enough within silent timely = absurd (omega arith)
  wait_loop_ends (suc fuel) timeout_ms k slow enough within silent timely =
      elim (Bool-cases (ltb (spent k) timeout_ms)) [
        | inr over ↦ (timed_out k, rw over refl, (silent, timely, ground arith, within))
        | inl more ↦
            let later = extends (λ j. spent j < timeout_ms) k timely (ground arith) in
            elim (Bool-cases (probe k).answered) [
              | inl answer ↦
                  (ready (k + 1), rw (more, answer) refl, (k, refl, answer, silent, later))
              | inr silence ↦
                  let next = extends (λ j. (probe j).answered ≡ false) k silent silence in
                  let slept = sleeps k in
                  let step = spent-suc k in
                  let (w, e, outcome) =
                    wait_loop_ends fuel timeout_ms (k + 1) (omega arith) (omega arith)
                      (ground arith) next later in
                  (
                    w,
                    rw (more, silence)
                        (ap (wait_loop probe pause fuel timeout_ms (k + 1)) (sym step) ∙ e),
                    outcome,
                  )
            ]
      ]

  -- If no pause of 250 milliseconds is shorter than that, waiting ends: with the first probe that is
  -- answered, if it and all probes before it began before the time was up; or with the error, if all probes
  -- that began in time were silent and the time, with that of the probes and the pauses, is then up. The error
  -- comes behind at most one probe for each 250 milliseconds of the time limit that have begun.
  pub wait_for_server_ends :
      (timeout_ms : ℕ)
      → (w : Wait) × (wait_for_server probe pause timeout_ms ≡ some w) × IsOutcome timeout_ms w
  unfolding wait_for_server
  wait_for_server_ends timeout_ms =
      wait_loop_ends (timeout_ms / 250 + 2) timeout_ms 0 (omega arith) (omega arith) (omega arith)
        (λ j h. absurd (omega arith)) (λ j h. absurd (omega arith))
