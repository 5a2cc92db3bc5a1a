-- ===== src/CreateSecretForm/Presence.antt =====
-- `useDelayedPresence` of frontend/web-app/src/components/CreateSecretForm.tsx: what was closed stays for the
-- time of its exit.
use secret_letter.Prelude.{
  ◌≡◌, List, [], ◌∷◌, Bool, true, false, ◌||◌, ◌&&◌, not, arith, if◌then◌else◌,
}

-- `timer`: the timer of the exit is pending.
pub record Presence : Type 0 where
  pub is_open : Bool
  pub should_render : Bool
  pub is_exiting : Bool
  pub timer : Bool

abbrev pub initial_presence : Bool → Presence
initial_presence is_open = record {
  is_open = is_open;
  should_render = is_open;
  is_exiting = false;
  timer = false;
}

-- The effect, behind the cleanup of the one before.
unfoldable pub presence_effect : Presence → Presence
presence_effect v =
    let cleared = record v { timer = false } in
    if v.is_open
    then record cleared { should_render = true; is_exiting = false }
    else if not v.should_render
    then cleared
    else record cleared { is_exiting = true; timer = true }

unfoldable pub presence_timer_fires : Presence → Presence
presence_timer_fires v =
    if v.timer then record v { timer = false; should_render = false; is_exiting = false } else v

pub data PresenceEvent : Type 0 where
  renders : Bool → PresenceEvent
  fires : PresenceEvent

-- The effect runs again after every change of `open` or `shouldRender`.
unfoldable pub presence_step : PresenceEvent → Presence → Presence
unfolding presence_effect presence_timer_fires
presence_step (renders is_open) v =
    if (is_open && v.is_open) || not (is_open || v.is_open)
    then v
    else let next = presence_effect (record v { is_open = is_open }) in
      if next.should_render && not v.should_render then presence_effect next else next
presence_step fires v = if v.timer then presence_effect (presence_timer_fires v) else v

unfoldable pub presence_run : List PresenceEvent → Presence → Presence
presence_run [] v = v
presence_run (e ∷ es) v = presence_run es (presence_step e v)

record PresenceInv (v : Presence) : Type 0 where
  shown : v.should_render ≡ (v.is_open || v.timer)
  exiting : v.is_exiting ≡ v.timer
  apart : v.is_open && v.timer ≡ false

step-PresenceInv :
    (e : PresenceEvent) {v : Presence} → PresenceInv v → PresenceInv (presence_step e v)
unfolding presence_step presence_effect presence_timer_fires
step-PresenceInv (renders is_open) h = ground arith
step-PresenceInv fires h = ground arith

run-PresenceInv :
    (es : List PresenceEvent) {v : Presence} → PresenceInv v → PresenceInv (presence_run es v)
unfolding presence_run
run-PresenceInv [] h = h
run-PresenceInv (e ∷ es) h = run-PresenceInv es (step-PresenceInv e h)

-- Whatever opens and closes it and whenever its timer fires, a panel is rendered exactly while it is
-- open or its exit timer is pending, is marked as exiting exactly while the timer is pending, and no
-- timer is pending while it is open.
pub presence_run-shown :
    (start : Bool) (es : List PresenceEvent)
    → let v = presence_run es (initial_presence start) in
      (v.should_render ≡ (v.is_open || v.timer))
      × (v.is_exiting ≡ v.timer)
      × (v.is_open && v.timer ≡ false)
presence_run-shown start es =
    let first : PresenceInv (initial_presence start) = ground arith in
    let inv = run-PresenceInv es first in (inv.shown, inv.exiting, inv.apart)
