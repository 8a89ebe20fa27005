-- ===== src/Pet.antt =====
-- The pet's animation policy, a pure reducer: app/src/shared/pet-state-machine.ts, with the row
-- names of app/src/shared/animation-manifest.ts. The two membership lists of the source are
-- functions by clauses.
pub mod Consistent
pub mod Drag
mod Tests
use sandi.Prelude.{Bool, true, false, ◌||◌, if◌then◌else◌, List, [], ◌∷◌}

pub data PetRow : Type 0 where
  idle breathing walking_right walking_left listening thinking typing : PetRow
  celebrating startled casting dozing sleeping waking dragging : PetRow

pub data PetBackground : Type 0 where
  idle waiting running review : PetBackground

pub data PetOneShot : Type 0 where
  celebrating startled casting breathing dozing : PetOneShot

pub data WanderDirection : Type 0 where
  left right : WanderDirection

-- `BACKGROUND_ROW`
abbrev pub background_row : PetBackground → PetRow
background_row PetBackground.idle = PetRow.idle
background_row waiting = listening
background_row running = typing
background_row review = thinking

pub record PetState : Type 0 where
  pub row : PetRow
  pub background : PetBackground

pub data PetEvent : Type 0 where
  background : PetBackground → PetEvent
  one_shot : PetOneShot → PetEvent
  animation_complete wake : PetEvent
  wander : WanderDirection → PetEvent
  wander_stop drag drag_stop : PetEvent

abbrev pub initial_pet_state : PetState
initial_pet_state = record { row = PetRow.idle; background = PetBackground.idle }

abbrev pub one_shot_row : PetOneShot → PetRow
one_shot_row PetOneShot.celebrating = PetRow.celebrating
one_shot_row PetOneShot.startled = PetRow.startled
one_shot_row PetOneShot.casting = PetRow.casting
one_shot_row PetOneShot.breathing = PetRow.breathing
one_shot_row PetOneShot.dozing = PetRow.dozing

abbrev pub wander_row : WanderDirection → PetRow
wander_row left = walking_left
wander_row right = walking_right

abbrev pub is_one_shot_row : PetRow → Bool
is_one_shot_row PetRow.celebrating = true
is_one_shot_row PetRow.startled = true
is_one_shot_row PetRow.casting = true
is_one_shot_row PetRow.breathing = true
is_one_shot_row PetRow.dozing = true
is_one_shot_row waking = true
is_one_shot_row _ = false

abbrev pub is_wander_row : PetRow → Bool
is_wander_row walking_left = true
is_wander_row walking_right = true
is_wander_row _ = false

-- `row === "sleeping"` and the other comparisons of the reducer.
abbrev pub is_sleeping : PetRow → Bool
is_sleeping sleeping = true
is_sleeping _ = false

abbrev pub is_dragging : PetRow → Bool
is_dragging dragging = true
is_dragging _ = false

abbrev is_dozing : PetRow → Bool
is_dozing PetRow.dozing = true
is_dozing _ = false

abbrev is_idle_row : PetRow → Bool
is_idle_row PetRow.idle = true
is_idle_row _ = false

abbrev is_idle : PetBackground → Bool
is_idle PetBackground.idle = true
is_idle _ = false

-- The state falls back to the row of its background.
abbrev pub rest : PetState → PetState
rest state = record { row = background_row state.background; background = state.background }

pub reduce_pet_state : PetState → PetEvent → PetState
reduce_pet_state state (background b) =
    if is_sleeping state.row
    then (if is_idle b then state else record { row = waking; background = b })
    else if is_one_shot_row state.row || is_dragging state.row
    then record { row = state.row; background = b }
    else record { row = background_row b; background = b }
reduce_pet_state state (one_shot o) =
    if is_dragging state.row
    then state
    else record { row = one_shot_row o; background = state.background }
reduce_pet_state state animation_complete =
    if is_dozing state.row
    then record {
      row = if is_idle state.background then sleeping else waking;
      background = state.background;
    }
    else if is_one_shot_row state.row
    then rest state
    else state
reduce_pet_state state wake =
    if is_sleeping state.row then record { row = waking; background = state.background } else state
reduce_pet_state state (wander d) =
    if is_idle_row state.row
    then (if is_idle state.background
        then record { row = wander_row d; background = state.background }
        else state)
    else state
reduce_pet_state state wander_stop = if is_wander_row state.row then rest state else state
reduce_pet_state state drag = record { row = dragging; background = state.background }
reduce_pet_state state drag_stop = if is_dragging state.row then rest state else state

-- A history of events, oldest first.
pub run : PetState → List PetEvent → PetState
run state [] = state
run state (e ∷ es) = run (reduce_pet_state state e) es
