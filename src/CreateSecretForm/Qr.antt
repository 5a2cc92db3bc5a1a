-- ===== src/CreateSecretForm/Qr.antt =====
-- The QR code of CreateSecretForm.tsx: the effect that draws it, the long press that downloads it, and the key that
-- copies the link.
pub mod Steps
pub mod Laws
use secret_letter.Prelude.{
  ℕ, suc, ◌+◌, List, [], ◌∷◌, ◌++◌, Bool, true, false, ◌||◌, ◌&&◌, not, ◌==◌, Option, none, some,
  if◌then◌else◌, is_empty,
}
use secret_letter.Text.{Text, units, text_eq}

-- `press_timer` is `qrPressTimerRef`, and `timers` are the timers that are pending in the window. `loads` are the imports of
-- the module that are under way, each with the number of its effect and its link; an effect that is cleaned up is
-- cancelled, so that only the last, `effect`, may draw. `canvas` is the link that the canvas shows.
pub record QrState : Type 0 where
  pub next_timer : ℕ
  pub press_timer : Option ℕ
  pub timers : List ℕ
  pub downloads : ℕ
  pub next_effect : ℕ
  pub effect : Option ℕ
  pub loads : List (ℕ × Text)
  pub has_canvas : Bool
  pub secret_link : Text
  pub show_qr : Bool
  pub should_render : Bool
  pub canvas : Option Text

abbrev pub initial_qr : QrState
initial_qr = record {
  next_timer = 0;
  press_timer = none;
  timers = [];
  downloads = 0;
  next_effect = 0;
  effect = none;
  loads = [];
  has_canvas = false;
  secret_link = [];
  show_qr = false;
  should_render = false;
  canvas = none;
}

abbrev pub without : ℕ → List ℕ → List ℕ
without id [] = []
without id (x ∷ xs) = let rest = without id xs in if x == id then rest else x ∷ rest

abbrev pub mem : ℕ → List ℕ → Bool
mem id [] = false
mem id (x ∷ xs) = x == id || mem id xs

unfoldable pub handle_qr_pointer_down : QrState → QrState
handle_qr_pointer_down s = record s {
  next_timer = suc s.next_timer;
  press_timer = some s.next_timer;
  timers = s.timers ++ s.next_timer ∷ [];
}

abbrev pub lifted_timers : Option ℕ → List ℕ → List ℕ
lifted_timers none timers = timers
lifted_timers (some timer) timers = without timer timers

-- Without a timer, nothing changes.
unfoldable pub handle_qr_pointer_up_or_leave : QrState → QrState
handle_qr_pointer_up_or_leave s = record s {
  press_timer = none;
  timers = lifted_timers s.press_timer s.timers;
}

-- The callback after 600 ms, with `downloadQrCode`.
unfoldable pub qr_timer_fires : ℕ → QrState → QrState
qr_timer_fires timer s =
    if mem timer s.timers
    then record s {
      timers = without timer s.timers;
      downloads = if s.has_canvas then suc s.downloads else s.downloads;
    }
    else s

-- The effect, with its cleanup, after a rendering in which one of its dependencies has changed; `has_canvas`
-- is whether `qrCanvasRef.current` is set by then.
unfoldable pub qr_effect : Text → Bool → Bool → Bool → QrState → QrState
qr_effect secret_link show_qr should_render has_canvas s =
    let s' = record s {
      effect = none;
      has_canvas = has_canvas;
      secret_link = secret_link;
      show_qr = show_qr;
      should_render = should_render;
      canvas = if has_canvas then s.canvas else none;
    } in
    if is_empty secret_link || not show_qr || not should_render || not has_canvas
    then s'
    else record s' {
      next_effect = suc s.next_effect;
      effect = some s.next_effect;
      loads = s.loads ++ (s.next_effect, secret_link) ∷ [];
    }

abbrev pub is_current : ℕ → Option ℕ → Bool
is_current id none = false
is_current id (some current) = current == id

-- The import of an effect is there: drawn unless the effect is cancelled or the canvas is gone.
unfoldable pub module_loads : ℕ → Text → QrState → QrState
module_loads id link s = record s {
  canvas = if not (is_current id s.effect) || not s.has_canvas then s.canvas else some link;
}

-- `copySecretLinkFromKeyboard`: whether the link is copied.
unfoldable pub copy_secret_link_from_keyboard : Text → Bool
copy_secret_link_from_keyboard key = text_eq key (units "Enter") || text_eq key (units " ")
