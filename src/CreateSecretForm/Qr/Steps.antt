-- ===== src/CreateSecretForm/Qr/Steps.antt =====
-- The steps of the QR code, and what they keep.
use secret_letter.Prelude.{
  ℕ, suc, ◌<◌, ◌≡◌, ◌≢◌, ◌⊎◌, inl, inr, refl, ap, List, [], ◌∷◌, ◌++◌, Bool, true, false, Option,
  none, some, arith, Bool-cases, All, All-append, All-weaken,
}
use secret_letter.Text.{Text}
use secret_letter.CreateSecretForm.Qr.{
  QrState, initial_qr, mem, without, lifted_timers, handle_qr_pointer_down,
  handle_qr_pointer_up_or_leave, qr_timer_fires, qr_effect, module_loads,
}

-- One pointer, which is lifted before it comes down again.
pub data QrStep : QrState → QrState → Type 0 where
  presses : (s : QrState) → s.press_timer ≡ none → QrStep s (handle_qr_pointer_down s)
  lifts : (s : QrState) → QrStep s (handle_qr_pointer_up_or_leave s)
  fires : (s : QrState) (timer : ℕ) → QrStep s (qr_timer_fires timer s)
  renders :
      (s : QrState) (secret_link : Text) (show_qr should_render has_canvas : Bool)
      → QrStep s (qr_effect secret_link show_qr should_render has_canvas s)
  loads_module :
      (s : QrState) (before after : List (ℕ × Text)) (id : ℕ) (link : Text)
      → s.loads ≡ before ++ (id, link) ∷ after
      → QrStep s (module_loads id link (record s { loads = before ++ after }))

pub data Reach (s : QrState) : QrState → Type 0 where
  here : Reach s s
  next : {t u : QrState} → Reach s t → QrStep t u → Reach s u

-- An import knows the link of its effect, if that effect is the current one; and effects are numbered.
abbrev pub IsLoad : QrState → ℕ × Text → Type 0
IsLoad s (id, link) = (id < s.next_effect) × (s.effect ≡ some id → link ≡ s.secret_link)

pub record QrInv (s : QrState) : Type 0 where
  pub pressed : (s.timers ≡ []) ⊎ ((t : ℕ) × (s.press_timer ≡ some t) × (s.timers ≡ t ∷ []))
  pub loading : All (IsLoad s) s.loads
  pub numbered : (id : ℕ) → s.effect ≡ some id → id < s.next_effect
  pub shown : s.effect ≢ none → (s.show_qr ≡ true) × (s.secret_link ≢ [])

pub initial-QrInv : QrInv initial_qr
initial-QrInv = record {
  pressed = inl refl;
  loading = tt;
  numbered = λ id e. cc;
  shown = λ n. absurd (n refl);
}

pub no_timers : (s : QrState) → s.press_timer ≡ none → QrInv s → s.timers ≡ []
no_timers s up h = ground (arith, h.pressed)

pub presses-QrInv :
    (s : QrState) → s.press_timer ≡ none → QrInv s → QrInv (handle_qr_pointer_down s)
unfolding handle_qr_pointer_down
presses-QrInv s up h = record {
  pressed = inr (s.next_timer, refl, ap (λ ts. ts ++ s.next_timer ∷ []) (no_timers s up h));
  loading = h.loading;
  numbered = h.numbered;
  shown = h.shown;
}

pub lifted :
    (press : Option ℕ) (timers : List ℕ)
    → (timers ≡ []) ⊎ ((t : ℕ) × (press ≡ some t) × (timers ≡ t ∷ []))
    → lifted_timers press timers ≡ []
lifted none timers h = ground (arith, h)
lifted (some t) timers h = ground (arith, h)

fired :
    (press : Option ℕ) (timers : List ℕ) (timer : ℕ)
    → (timers ≡ []) ⊎ ((t : ℕ) × (press ≡ some t) × (timers ≡ t ∷ []))
    → mem timer timers ≡ true
    → without timer timers ≡ []
fired press timers timer h k = ground (arith, h, k)

pub lifts-QrInv : (s : QrState) → QrInv s → QrInv (handle_qr_pointer_up_or_leave s)
unfolding handle_qr_pointer_up_or_leave
lifts-QrInv s h = record {
  pressed = inl (lifted s.press_timer s.timers h.pressed);
  loading = h.loading;
  numbered = h.numbered;
  shown = h.shown;
}

pub fires-QrInv : (s : QrState) (timer : ℕ) → QrInv s → QrInv (qr_timer_fires timer s)
unfolding qr_timer_fires
fires-QrInv s timer h = elim (Bool-cases (mem timer s.timers)) [
  | inr missing ↦ rw (missing, qr_timer_fires) h
  | inl there ↦
      let none_left = fired s.press_timer s.timers timer h.pressed there in
      rw (there, qr_timer_fires)
        (record {
          pressed = inl none_left;
          loading = h.loading;
          numbered = h.numbered;
          shown = h.shown;
        })
]

-- A cancelled import stays one.
stale :
    (s t : QrState)
    → t.effect ≡ none
    → t.next_effect ≡ s.next_effect
    → (load : ℕ × Text) → IsLoad s load
    → IsLoad t load
stale s t off same (id, link) (l, _) = (rw same l, λ e. cc)

-- So does one that is older than the new effect.
older :
    (s t : QrState)
    → t.effect ≡ some s.next_effect
    → t.next_effect ≡ suc s.next_effect
    → (load : ℕ × Text) → IsLoad s load
    → IsLoad t load
older s t on more (id, link) (l, _) =
    (rw more (omega (arith, l)), λ e. absurd (ground (arith, l, e, on)))

cancelled-QrInv :
    (s : QrState) (secret_link : Text) (show_qr should_render has_canvas : Bool)
    (canvas : Option Text)
    → QrInv s
    → QrInv (record s {
      effect = none;
      has_canvas = has_canvas;
      secret_link = secret_link;
      show_qr = show_qr;
      should_render = should_render;
      canvas = canvas;
    })
cancelled-QrInv s secret_link show_qr should_render has_canvas canvas h =
    let t : QrState = record s {
      effect = none;
      has_canvas = has_canvas;
      secret_link = secret_link;
      show_qr = show_qr;
      should_render = should_render;
      canvas = canvas;
    } in
    record {
      pressed = h.pressed;
      loading = All-weaken (IsLoad s) (IsLoad t) (stale s t refl refl) s.loads h.loading;
      numbered = λ id e. cc;
      shown = λ n. absurd (n refl);
    }

pub effect-QrInv :
    (s : QrState) (secret_link : Text) (show_qr should_render has_canvas : Bool)
    → QrInv s
    → QrInv (qr_effect secret_link show_qr should_render has_canvas s)
unfolding qr_effect
effect-QrInv s [] show_qr should_render has_canvas h =
    cancelled-QrInv s [] show_qr should_render has_canvas _ h
effect-QrInv s (c ∷ link) false should_render has_canvas h =
    cancelled-QrInv s (c ∷ link) false should_render has_canvas _ h
effect-QrInv s (c ∷ link) true false has_canvas h =
    cancelled-QrInv s (c ∷ link) true false has_canvas _ h
effect-QrInv s (c ∷ link) true true false h = cancelled-QrInv s (c ∷ link) true true false _ h
effect-QrInv s (c ∷ link) true true true h =
    let t = qr_effect (c ∷ link) true true true s in
    record {
      pressed = h.pressed;
      loading =
          All-append (IsLoad t) s.loads ((s.next_effect, c ∷ link) ∷ [])
            (All-weaken (IsLoad s) (IsLoad t) (older s t refl refl) s.loads h.loading)
            ((omega arith, λ e. refl), tt);
      numbered = λ id e. ground (arith, e);
      shown = λ n. (refl, λ e. cc);
    }
