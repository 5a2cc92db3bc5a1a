-- ===== src/EnvelopeTimeline.antt =====
-- frontend/web-app/src/hooks/useEnvelopeTimeline.ts: what the two animations schedule. Of a tween's values
-- only the opacity is kept, in hundredths; times are in milliseconds.
use secret_letter.Prelude.{
  ℕ, ◌+◌, ◌≡◌, refl, List, [], ◌∷◌, ◌++◌, Bool, true, false, ◌||◌, ◌&&◌, not, leb, Option, none,
  some, arith, if◌then◌else◌,
}

pub data Piece : Type 0 where
  scene envelope flap letter content dissolve pieces : Piece

pub data Callback : Type 0 where
  on_burning on_complete : Callback

-- Which of the refs hold an element.
pub record TimelineElements : Type 0 where
  pub has_scene : Bool
  pub has_envelope : Bool
  pub has_flap : Bool
  pub has_letter : Bool
  pub has_content : Bool
  pub has_dissolve : Bool

-- A `set` lasts no time.
pub record Move : Type 0 where
  pub targets : List Piece
  pub opacity : Option ℕ
  pub start : ℕ
  pub lasts : ℕ

-- `now`: the callbacks called before the function returns; `calls` and `ends`: the `.call` entries at the
-- start of the timeline, and its `onComplete`.
pub record Plan : Type 0 where
  pub kills_idle : Bool
  pub now : List Callback
  pub calls : List Callback
  pub moves : List Move
  pub ends : List Callback

abbrev move : List Piece → Option ℕ → ℕ → ℕ → Move
move targets opacity start lasts = record {
  targets = targets;
  opacity = opacity;
  start = start;
  lasts = lasts;
}

-- `cond ? a : b`
abbrev pick : Bool → ℕ → ℕ → ℕ
pick is_mobile a b = if is_mobile then a else b

-- The effect that starts the idle timeline.
unfoldable pub idle_starts : TimelineElements → Bool → Bool → Bool
idle_starts elements reduced_motion prefers_touch =
    if not elements.has_envelope || reduced_motion then false else not prefers_touch

unfoldable pub open_moves : Bool → List Move
open_moves is_mobile =
    move (envelope ∷ letter ∷ content ∷ pieces ∷ []) none 0 0
    ∷ move (envelope ∷ []) none 0 0
    ∷ move (letter ∷ []) (some 0) 0 0
    ∷ move (pieces ∷ []) (some 0) 80 (pick is_mobile 220 280)
    ∷ move (letter ∷ []) (some 100) 60 (pick is_mobile 480 620)
    ∷ move (content ∷ []) (some 100) (pick is_mobile 360 480) (pick is_mobile 260 340)
    ∷ []

unfoldable pub play_open : Bool → Bool → TimelineElements → Plan
unfolding open_moves
play_open reduced_motion is_mobile e =
    if not e.has_scene
      || not e.has_envelope
      || not e.has_flap
      || not e.has_letter
      || not e.has_content
    then record { kills_idle = false; now = on_complete ∷ []; calls = []; moves = []; ends = [] }
    else if reduced_motion
    then record {
      kills_idle = true;
      now = on_complete ∷ [];
      calls = [];
      moves =
          move (flap ∷ letter ∷ content ∷ []) none 0 0
          ∷ move (letter ∷ []) (some 100) 0 0
          ∷ move (content ∷ []) (some 100) 0 0
          ∷ move (pieces ∷ []) (some 0) 0 0
          ∷ [];
      ends = [];
    }
    else record {
      kills_idle = true;
      now = [];
      calls = [];
      moves = open_moves is_mobile;
      ends = on_complete ∷ [];
    }

unfoldable pub burn_moves : Bool → List Move
burn_moves is_mobile =
    move (envelope ∷ letter ∷ content ∷ dissolve ∷ []) none 0 0
    ∷ move (dissolve ∷ []) (some (pick is_mobile 68 100)) 0 (pick is_mobile 160 300)
    ∷ move (content ∷ []) (some 0) (pick is_mobile 0 80) (pick is_mobile 300 620)
    ∷ move (letter ∷ []) (some 0) (pick is_mobile 40 80) (pick is_mobile 580 1220)
    ∷ move (envelope ∷ []) (if is_mobile then some 94 else none) 120 (pick is_mobile 280 440)
    ∷ move (scene ∷ []) none 0 (pick is_mobile 240 380)
    ∷ move (dissolve ∷ []) (some 0) (pick is_mobile 640 1200) (pick is_mobile 340 720)
    ∷ move (scene ∷ []) none (pick is_mobile 700 1250) (pick is_mobile 340 550)
    ∷ move (envelope ∷ []) (some 0) (pick is_mobile 820 1380) (pick is_mobile 180 200)
    ∷ []

unfoldable pub play_close_and_burn : Bool → Bool → TimelineElements → Plan
unfolding burn_moves
play_close_and_burn reduced_motion is_mobile e =
    if not e.has_scene
      || not e.has_envelope
      || not e.has_letter
      || not e.has_content
      || not e.has_dissolve
    then record {
      kills_idle = false;
      now = on_burning ∷ on_complete ∷ [];
      calls = [];
      moves = [];
      ends = [];
    }
    else if reduced_motion
    then record {
      kills_idle = false;
      now = [];
      calls = on_burning ∷ [];
      moves = move (content ∷ letter ∷ envelope ∷ []) (some 0) 0 200 ∷ [];
      ends = on_complete ∷ [];
    }
    else record {
      kills_idle = false;
      now = [];
      calls = on_burning ∷ [];
      moves = burn_moves is_mobile;
      ends = on_complete ∷ [];
    }

-- All that a plan calls, in its order.
abbrev pub callbacks : Plan → List Callback
callbacks plan = plan.now ++ plan.calls ++ plan.ends

piece_eq : Piece → Piece → Bool
piece_eq scene scene = true
piece_eq envelope envelope = true
piece_eq flap flap = true
piece_eq letter letter = true
piece_eq content content = true
piece_eq dissolve dissolve = true
piece_eq pieces pieces = true
piece_eq _ _ = false

is_target : Piece → List Piece → Bool
unfolding piece_eq
is_target part [] = false
is_target part (target ∷ targets) =
    let rest = is_target part targets in piece_eq part target || rest

-- The opacity that a piece is left with: that of the move of it that ends last. `ended` is the end of
-- the move that gave `opacity`.
unfoldable pub rest_from : Piece → ℕ → Option ℕ → List Move → Option ℕ
unfolding is_target
rest_from part ended opacity [] = opacity
rest_from part ended opacity (m ∷ moves) = elim m.opacity [
  | none ↦ rest_from part ended opacity moves
  | some value ↦ elim (is_target part m.targets && leb ended (m.start + m.lasts)) [
    | true ↦ rest_from part (m.start + m.lasts) (some value) moves
    | false ↦ rest_from part ended opacity moves
  ]
]

abbrev pub rest_opacity : Piece → Plan → Option ℕ
rest_opacity part plan = rest_from part 0 none plan.moves

-- With or without the elements, on every screen and with every preference for motion, the
-- callbacks of the opening, called at once or scheduled, are one `onComplete`, and those of the
-- burning are one `onBurning` and behind it one `onComplete`.
pub timelines_call :
    (reduced_motion is_mobile : Bool) (e : TimelineElements)
    → (callbacks (play_open reduced_motion is_mobile e) ≡ on_complete ∷ [])
      × (callbacks (play_close_and_burn reduced_motion is_mobile e) ≡ on_burning ∷ on_complete ∷ [])
unfolding play_open play_close_and_burn
timelines_call reduced_motion is_mobile e = (ground arith, ground arith)

abbrev pub all_elements : TimelineElements
all_elements = record {
  has_scene = true;
  has_envelope = true;
  has_flap = true;
  has_letter = true;
  has_content = true;
  has_dissolve = true;
}

-- With all elements there, on every screen and with every preference for motion, the move that
-- ends last among those that set the opacity makes the letter and its content fully visible and
-- the pieces of the envelope invisible in the opening, and makes letter, content and envelope
-- invisible in the burning.
pub timelines_rest :
    (reduced_motion is_mobile : Bool)
    → let opened = play_open reduced_motion is_mobile all_elements in
      let burnt = play_close_and_burn reduced_motion is_mobile all_elements in
      (rest_opacity letter opened ≡ some 100)
      × (rest_opacity content opened ≡ some 100)
      × (rest_opacity pieces opened ≡ some 0)
      × (rest_opacity letter burnt ≡ some 0)
      × (rest_opacity content burnt ≡ some 0)
      × (rest_opacity envelope burnt ≡ some 0)
unfolding play_open play_close_and_burn open_moves burn_moves rest_from is_target piece_eq
timelines_rest true true = (refl, refl, refl, refl, refl, refl)
timelines_rest true false = (refl, refl, refl, refl, refl, refl)
timelines_rest false true = (refl, refl, refl, refl, refl, refl)
timelines_rest false false = (refl, refl, refl, refl, refl, refl)
