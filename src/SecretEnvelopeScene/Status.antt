-- ===== src/SecretEnvelopeScene/Status.antt =====
-- The effect of SecretEnvelopeScene.tsx that changes from one status screen to the next, and its timer, and
-- what the scene returns.
pub mod Settling
use secret_letter.Prelude.{
  ◌⊎◌, ℕ, ◌≡◌, ◌≢◌, refl, Bool, true, false, not, ◌==◌, ==_iff, Option, none, some, arith,
  if◌then◌else◌, ap, sym, ◌∙◌, Bool-cases, inl, inr,
}
use secret_letter.Text.{Text, text_eq}
use secret_letter.Text.Equality.{text_eq→eq, text_eq_refl}
use secret_letter.Scene.{
  SecretSceneState, loading, sealed, opening, revealed, closing, burning, vanished, expired,
  consumed, error,
}
use secret_letter.SecretEnvelopeScene.{
  StatusData, is_status_state, get_status_data, is_envelope_state,
}

pub data Transition : Type 0 where
  enter exit : Transition

-- `timer` holds what the callback of the pending timer will show.
pub record StatusView : Type 0 where
  pub current : Option StatusData
  pub visible : Option StatusData
  pub transition : Transition
  pub timer : Option (Option StatusData)

abbrev pub rank : SecretSceneState → ℕ
rank loading = 0
rank sealed = 1
rank opening = 2
rank revealed = 3
rank closing = 4
rank burning = 5
rank vanished = 6
rank expired = 7
rank consumed = 8
rank error = 9

abbrev pub state_eq : SecretSceneState → SecretSceneState → Bool
state_eq a b = rank a == rank b

abbrev pub message_eq : Option Text → Option Text → Bool
message_eq none none = true
message_eq (some a) (some b) = text_eq a b
message_eq _ _ = false

-- Both status data are there.
unfoldable pub compare_effect : StatusData → StatusData → StatusView → StatusView
compare_effect visible current v =
    if not (state_eq visible.state current.state)
    then record v { transition = exit; timer = some (some current) }
    else if not (message_eq visible.message current.message)
    then record v { visible = some current; transition = enter }
    else record v { transition = enter }

-- The whole effect; it first clears the timer.
unfoldable pub status_effect : StatusView → StatusView
unfolding compare_effect
status_effect v =
    let cleared = record v { timer = none } in
    elim v.current [
      | none ↦ elim v.visible [
        | none ↦ cleared
        | some _ ↦ record cleared { transition = exit; timer = some none }
      ]
      | some current ↦ elim v.visible [
        | none ↦ record cleared { visible = some current; transition = enter }
        | some visible ↦ compare_effect visible current cleared
      ]
    ]

unfoldable pub status_timer_fires : StatusView → StatusView
status_timer_fires v = elim v.timer [
  | none ↦ v
  | some shown ↦ elim shown [
    | none ↦ record v { timer = none; visible = none }
    | some current ↦ record v { timer = none; visible = some current; transition = enter }
  ]
]

-- What the scene returns; a status screen without a `transitionState` enters.
pub data Screen : Type 0 where
  status_screen : StatusData → Transition → Screen
  envelope nothing : Screen

unfoldable pub screen : SecretSceneState → StatusView → Screen
screen state v = elim v.visible [
  | some visible ↦ status_screen visible v.transition
  | none ↦ elim v.current [
    | some current ↦ status_screen current enter
    | none ↦ if is_envelope_state state then envelope else nothing
  ]
]
