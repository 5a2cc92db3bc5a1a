-- ===== src/SecretEnvelopeScene/Status/Settling.antt =====
-- How the change between the status screens of SecretEnvelopeScene.tsx comes to rest.
use secret_letter.Prelude.{
  ◌⊎◌, ℕ, ◌≡◌, ◌≢◌, refl, true, false, not, ◌==◌, ==_iff, Option, none, some, arith, if◌then◌else◌,
  ap, sym, ◌∙◌, Bool-cases, inl, inr,
}
use secret_letter.Text.{Text}
use secret_letter.Text.Equality.{text_eq→eq, text_eq_refl}
use secret_letter.Scene.{
  SecretSceneState, loading, sealed, opening, revealed, closing, burning, vanished, expired,
  consumed, error,
}
use secret_letter.SecretEnvelopeScene.{
  StatusData, is_status_state, get_status_data, is_envelope_state,
}
use secret_letter.SecretEnvelopeScene.Status.{
  Transition, enter, StatusView, rank, state_eq, message_eq, compare_effect, status_effect,
  status_timer_fires, status_screen, envelope, screen,
}

state_of_rank : ℕ → SecretSceneState
state_of_rank n =
    if n == 0
    then loading
    else if n == 1
    then sealed
    else if n == 2
    then opening
    else if n == 3
    then revealed
    else if n == 4
    then closing
    else if n == 5
    then burning
    else if n == 6
    then vanished
    else if n == 7
    then expired
    else if n == 8
    then consumed
    else error

state_of_rank-rank : (a : SecretSceneState) → state_of_rank (rank a) ≡ a
unfolding state_of_rank
state_of_rank-rank loading = refl
state_of_rank-rank sealed = refl
state_of_rank-rank opening = refl
state_of_rank-rank revealed = refl
state_of_rank-rank closing = refl
state_of_rank-rank burning = refl
state_of_rank-rank vanished = refl
state_of_rank-rank expired = refl
state_of_rank-rank consumed = refl
state_of_rank-rank error = refl

state_eq→eq : (a b : SecretSceneState) → state_eq a b ≡ true → a ≡ b
state_eq→eq a b h =
    sym (state_of_rank-rank a) ∙ ap state_of_rank ((==_iff _ _).0 h) ∙ state_of_rank-rank b

message_eq→eq : (a b : Option Text) → message_eq a b ≡ true → a ≡ b
message_eq→eq none none h = refl
message_eq→eq (some a) (some b) h = ap some (text_eq→eq a b h)
message_eq→eq none (some b) h = cc
message_eq→eq (some a) none h = cc

abbrev pub IsSettled : StatusView → StatusView → Type 0
IsSettled v u =
    (u.current ≡ v.current)
    × (u.visible ≡ v.current)
    × (u.timer ≡ none)
    × (v.current ≢ none → u.transition ≡ enter)

state_eq_refl : (a : SecretSceneState) → state_eq a a ≡ true
state_eq_refl a = (==_iff _ _).1 refl

message_eq_refl : (a : Option Text) → message_eq a a ≡ true
message_eq_refl none = refl
message_eq_refl (some a) = text_eq_refl a

same_data :
    (a b : StatusData)
    → state_eq a.state b.state ≡ true
    → message_eq a.message b.message ≡ true
    → a ≡ b
same_data a b s m = let e = state_eq→eq _ _ s in let f = message_eq→eq _ _ m in ground arith

compare_same :
    (c : StatusData) (v : StatusView) → compare_effect c c v ≡ record v { transition = enter }
unfolding compare_effect
compare_same c v = rw (state_eq_refl c.state, message_eq_refl c.message) refl

settles_from :
    (current visible : Option StatusData) (transition : Transition)
    (timer : Option (Option StatusData))
    → let v : StatusView = record {
      current = current;
      visible = visible;
      transition = transition;
      timer = timer;
    } in
      let u = status_effect (status_timer_fires (status_effect v)) in IsSettled v u
unfolding status_effect status_timer_fires compare_effect
settles_from none none transition timer = ground arith
settles_from none (some visible) transition timer = ground arith
settles_from (some current) none transition timer = ground (arith, compare_same current)
settles_from (some current) (some visible) transition timer =
    elim (Bool-cases (state_eq visible.state current.state)) [
      | inr other ↦ ground (arith, compare_same current)
      | inl e ↦ elim (Bool-cases (message_eq visible.message current.message)) [
        | inr other ↦ ground (arith, compare_same current)
        | inl f ↦ let d = same_data visible current e f in ground arith
      ]
    ]

screen_part : (state : SecretSceneState) → is_envelope_state state ≡ not (is_status_state state)
unfolding is_envelope_state
screen_part loading = refl
screen_part sealed = refl
screen_part opening = refl
screen_part revealed = refl
screen_part closing = refl
screen_part burning = refl
screen_part vanished = refl
screen_part expired = refl
screen_part consumed = refl
screen_part error = refl

screen-IsSettled :
    (state : SecretSceneState) (message : Option Text) (v u : StatusView)
    → v.current ≡ get_status_data state message
    → IsSettled v u
    → ((is_envelope_state state ≡ true) × (screen state u ≡ envelope))
      ⊎ ((is_envelope_state state ≡ false)
          × (screen state u ≡ status_screen (record { state = state; message = message }) enter))
unfolding get_status_data screen
screen-IsSettled state message v u h (current, visible, timer, entered) =
    elim (Bool-cases (is_status_state state)) [
      | inl e ↦
          let shown : v.current ≡ some (record { state = state; message = message }) =
            ground arith in
          inr (rw (screen_part state, e) refl, rw (visible, shown, entered (λ k. cc)) refl)
      | inr e ↦
          let shown : v.current ≡ none = ground arith in
          let part : is_envelope_state state ≡ true = rw (screen_part state, e) refl in
          let gone : u.visible ≡ none = visible ∙ shown in
          let empty : u.current ≡ none = current ∙ shown in inl (part, ground arith)
    ]

-- Whatever is on the screen and whatever timer runs, once the effect ran for the present state, its timer fired and
-- the effect ran again, the screen shows the envelope if the state belongs to it, and otherwise the
-- status screen of this very state and message, entering; no timer is left.
pub screen_settles :
    (state : SecretSceneState) (message : Option Text) (v : StatusView)
    → v.current ≡ get_status_data state message
    → let u = status_effect (status_timer_fires (status_effect v)) in
      (((is_envelope_state state ≡ true) × (screen state u ≡ envelope))
        ⊎ ((is_envelope_state state ≡ false)
            × (screen state u ≡ status_screen (record { state = state; message = message }) enter)))
      × (u.timer ≡ none)
screen_settles state message v h =
    let settled = settles_from v.current v.visible v.transition v.timer in
    (screen-IsSettled state message v _ h settled, settled.2)
