-- ===== src/TactilePress.antt =====
-- frontend/web-app/src/hooks/useTactilePress.ts: the press of one control, and the pointers that the
-- browser has captured for it.
use secret_letter.Prelude.{
  sym, ◌∙◌, ℕ, ◌≡◌, refl, List, [], ◌∷◌, Bool, true, false, ◌||◌, ◌&&◌, not, ◌==◌, Option, none,
  some, arith, if◌then◌else◌, Bool-cases, inl, inr,
}

-- `target`: `targetRef` holds the control. `captured` is the browser's.
pub record PressState : Type 0 where
  pub disabled : Bool
  pub is_pressing : Bool
  pub target : Bool
  pub pointer_id : Option ℕ
  pub captured : List ℕ

abbrev pub initial_press : PressState
initial_press = record {
  disabled = false;
  is_pressing = false;
  target = false;
  pointer_id = none;
  captured = [];
}

unfoldable pub has_pointer_capture : ℕ → List ℕ → Bool
has_pointer_capture id [] = false
has_pointer_capture id (captured_id ∷ ids) = id == captured_id || has_pointer_capture id ids

unfoldable pub release_pointer_capture : ℕ → List ℕ → List ℕ
release_pointer_capture id [] = []
release_pointer_capture id (captured_id ∷ ids) =
    let rest = release_pointer_capture id ids in
    if id == captured_id then rest else captured_id ∷ rest

abbrev released : Bool → Option ℕ → List ℕ → List ℕ
released target none ids = ids
released target (some id) ids =
    if target && has_pointer_capture id ids then release_pointer_capture id ids else ids

unfoldable pub clear_press : PressState → PressState
clear_press s = record s {
  captured = released s.target s.pointer_id s.captured;
  pointer_id = none;
  target = false;
  is_pressing = false;
}

-- Button 0 is the main one.
unfoldable pub on_pointer_down : ℕ → ℕ → PressState → PressState
on_pointer_down button id s = if s.disabled || not (button == 0) then s else record s {
  target = true;
  pointer_id = some id;
  captured = id ∷ s.captured;
  is_pressing = true;
}

-- A render with another `disabled`, and the effect on it.
unfoldable pub set_disabled : Bool → PressState → PressState
unfolding clear_press
set_disabled disabled s =
    let s' = record s { disabled = disabled } in if disabled then clear_press s' else s'

-- `clears` is a pointer that goes up, is cancelled, leaves or loses its capture, a control or window
-- that loses its focus, and a page that is hidden. `drops` is the browser giving up a capture.
pub data PressEvent : Type 0 where
  presses : ℕ → ℕ → PressEvent
  clears : PressEvent
  drops : ℕ → PressEvent
  renders : Bool → PressEvent

unfoldable pub press_step : PressEvent → PressState → PressState
unfolding on_pointer_down clear_press set_disabled
press_step (presses button id) s = on_pointer_down button id s
press_step clears s = clear_press s
press_step (drops id) s =
    clear_press (record s { captured = release_pointer_capture id s.captured })
press_step (renders disabled) s = set_disabled disabled s

unfoldable pub press_run : List PressEvent → PressState → PressState
press_run [] s = s
press_run (e ∷ es) s = press_run es (press_step e s)

abbrev is_held : Option ℕ → Bool
is_held none = false
is_held (some _) = true

record PressInv (s : PressState) : Type 0 where
  aimed : s.is_pressing ≡ s.target
  held : s.is_pressing ≡ is_held s.pointer_id
  idle : s.disabled ≡ true → s.is_pressing ≡ false

step-PressInv : (e : PressEvent) {s : PressState} → PressInv s → PressInv (press_step e s)
unfolding press_step on_pointer_down clear_press set_disabled
step-PressInv (presses button id) h = ground arith
step-PressInv clears h = ground arith
step-PressInv (drops id) h = ground arith
step-PressInv (renders disabled) h = ground arith

run-PressInv : (es : List PressEvent) {s : PressState} → PressInv s → PressInv (press_run es s)
unfolding press_run
run-PressInv [] h = h
run-PressInv (e ∷ es) h = run-PressInv es (step-PressInv e h)

release_lem :
    (id : ℕ) (ids : List ℕ) → has_pointer_capture id (release_pointer_capture id ids) ≡ false
unfolding has_pointer_capture release_pointer_capture
release_lem id [] = refl
release_lem id (captured_id ∷ ids) = elim (Bool-cases (id == captured_id)) [
  | inl e ↦ rw e (release_lem id ids)
  | inr e ↦ rw (e, e) (release_lem id ids)
]

released_lem :
    (id : ℕ) (ids : List ℕ) → has_pointer_capture id (released true (some id) ids) ≡ false
released_lem id ids = elim (Bool-cases (has_pointer_capture id ids)) [
  | inl e ↦ rw e (release_lem id ids)
  | inr e ↦ rw (e, e) refl
]

-- In every order of events: a disabled control is not pressed, nor is one that no pointer holds;
-- one that a pointer holds is pressed, and ending the press takes it back and gives up the capture
-- of that pointer.
pub press_run-released :
    (es : List PressEvent)
    → let s = press_run es initial_press in
      (s.disabled ≡ true → s.is_pressing ≡ false)
      × (s.pointer_id ≡ none → s.is_pressing ≡ false)
      × ((id : ℕ)
          → s.pointer_id ≡ some id
          → (s.is_pressing ≡ true)
            × ((clear_press s).is_pressing ≡ false)
            × (has_pointer_capture id (clear_press s).captured ≡ false))
unfolding clear_press
press_run-released es =
    let inv = run-PressInv es (record { aimed = refl; held = refl; idle = λ h. refl }) in
    (
      inv.idle,
      (λ e. ground arith),
      λ id e.
          let pressed : (press_run es initial_press).is_pressing ≡ true = ground arith in
          let aimed : (press_run es initial_press).target ≡ true = sym inv.aimed ∙ pressed in
          (pressed, refl, rw (e, aimed) (released_lem id _)),
    )
