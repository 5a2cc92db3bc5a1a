-- ===== src/CreateSecretForm/Qr/Laws.antt =====
-- The QR code in all orders of its events.
use secret_letter.Prelude.{
  ℕ, ◌≡◌, ◌≢◌, ◌⊎◌, inl, inr, refl, sym, ap, List, [], ◌∷◌, ◌++◌, true, Option, none, some,
  Bool-cases, ==_iff, All, All-append, All-append_parts,
}
use secret_letter.Text.{Text}
use secret_letter.CreateSecretForm.Qr.{
  QrState, initial_qr, is_current, handle_qr_pointer_up_or_leave, qr_timer_fires, module_loads,
}
use secret_letter.CreateSecretForm.Qr.Steps.{
  QrStep, presses, lifts, fires, renders, loads_module, Reach, here, next, IsLoad, QrInv, no_timers,
  presses-QrInv, lifts-QrInv, fires-QrInv, effect-QrInv, initial-QrInv, lifted,
}

-- The import that is there is taken from those that are under way.
loaded :
    (s : QrState) (before after : List (ℕ × Text)) (id : ℕ) (link : Text)
    → s.loads ≡ before ++ (id, link) ∷ after
    → QrInv s
    → IsLoad s (id, link) × All (IsLoad s) (before ++ after)
loaded s before after id link e h =
    let (front, (own, back)) =
      All-append_parts (IsLoad s) before ((id, link) ∷ after) (rw (sym e) h.loading) in
    (own, All-append (IsLoad s) before after front back)

loads-QrInv :
    (s : QrState) (loads : List (ℕ × Text)) (id : ℕ) (link : Text)
    → All (IsLoad s) loads
    → QrInv s
    → QrInv (module_loads id link (record s { loads = loads }))
unfolding module_loads
loads-QrInv s loads id link rest h = record {
  pressed = h.pressed;
  loading = rest;
  numbered = h.numbered;
  shown = h.shown;
}

step-QrInv : {s t : QrState} → QrStep s t → QrInv s → QrInv t
step-QrInv (presses s up) h = presses-QrInv s up h
step-QrInv (lifts s) h = lifts-QrInv s h
step-QrInv (fires s timer) h = fires-QrInv s timer h
step-QrInv (renders s secret_link show_qr should_render has_canvas) h =
    effect-QrInv s secret_link show_qr should_render has_canvas h
step-QrInv (loads_module s before after id link e) h =
    loads-QrInv s (before ++ after) id link (loaded s before after id link e h).1 h

Reach-QrInv : {s : QrState} → Reach initial_qr s → QrInv s
Reach-QrInv here = initial-QrInv
Reach-QrInv (next r step) = step-QrInv step (Reach-QrInv r)

is_current-some : (id : ℕ) (effect : Option ℕ) → is_current id effect ≡ true → effect ≡ some id
is_current-some id none h = cc
is_current-some id (some current) h = ap some ((==_iff current id).0 h)

drawn :
    (s : QrState) (id : ℕ) (link : Text)
    → IsLoad s (id, link)
    → QrInv s
    → ((module_loads id link s).canvas ≡ s.canvas)
      ⊎ (((module_loads id link s).canvas ≡ some s.secret_link)
          × (s.show_qr ≡ true)
          × (s.secret_link ≢ []))
unfolding module_loads
drawn s id link (numbered, own) h = elim (Bool-cases (is_current id s.effect)) [
  | inr other ↦ inl (rw other refl)
  | inl same ↦
      let current = is_current-some id s.effect same in
      elim (Bool-cases s.has_canvas) [
        | inr gone ↦ inl (rw (same, gone) refl)
        | inl there ↦
            let (shown, full) = h.shown (λ e. cc) in
            inr (rw (same, there) (ap some (own current)), shown, full)
      ]
]

no_timer_fires : (s : QrState) (timer : ℕ) → s.timers ≡ [] → qr_timer_fires timer s ≡ s
unfolding qr_timer_fires
no_timer_fires s timer h = rw h refl

-- With one pointer, and however imports and renderings overtake one another: when an import is there, it draws nothing
-- new, or draws the link that the form shows while the QR code is shown; and once the pointer is lifted or has
-- left, no timer is pending, so that nothing is downloaded behind it.
pub Reach-qr :
    {s : QrState}
    → Reach initial_qr s
    → ((before after : List (ℕ × Text)) (id : ℕ) (link : Text)
        → s.loads ≡ before ++ (id, link) ∷ after
        → ((module_loads id link s).canvas ≡ s.canvas)
          ⊎ (((module_loads id link s).canvas ≡ some s.secret_link)
              × (s.show_qr ≡ true)
              × (s.secret_link ≢ [])))
      × ((handle_qr_pointer_up_or_leave s).timers ≡ [])
      × (s.press_timer ≡ none → (timer : ℕ) → qr_timer_fires timer s ≡ s)
unfolding handle_qr_pointer_up_or_leave
Reach-qr {s} r =
    let inv = Reach-QrInv r in
    (
      λ before after id link e. drawn s id link (loaded s before after id link e inv).0 inv,
      lifted s.press_timer s.timers inv.pressed,
      λ up timer. no_timer_fires s timer (no_timers s up inv),
    )
