-- ===== src/Pet/Consistent.antt =====
-- Which row may be on the stage for which background, and that no sequence of events breaks it.
use sandi.Prelude.{◌≡◌, ap, ◌∙◌, ◌⊎◌, refl, true, List, [], ◌∷◌, arith}
use sandi.Pet.{
  PetRow, PetBackground, PetState, PetEvent, background, one_shot, animation_complete, wake, wander,
  wander_stop, drag, drag_stop, background_row, is_one_shot_row, initial_pet_state,
  reduce_pet_state, run, walking_left, walking_right, listening, thinking, typing, sleeping,
  PetOneShot, left,
}

-- The four background rows stand for their background, a wander and a sleep need an idle one, and
-- a one-shot or a drag may cover any background.
abbrev pub Fits : PetRow → PetBackground → Type 0
Fits PetRow.idle b = b ≡ PetBackground.idle
Fits listening b = b ≡ PetBackground.waiting
Fits typing b = b ≡ PetBackground.running
Fits thinking b = b ≡ PetBackground.review
Fits walking_left b = b ≡ PetBackground.idle
Fits walking_right b = b ≡ PetBackground.idle
Fits sleeping b = b ≡ PetBackground.idle
Fits _ b = Unit

abbrev pub IsConsistent : PetState → Type 0
IsConsistent s = Fits s.row s.background

background_row-Fits : (b : PetBackground) → Fits (background_row b) b
background_row-Fits PetBackground.idle = refl
background_row-Fits _ = refl

reduce-Fits :
    (r : PetRow) (b : PetBackground) (e : PetEvent)
    → Fits r b
    → IsConsistent (reduce_pet_state (record { row = r; background = b }) e)
unfolding reduce_pet_state
reduce-Fits r b (background c) h = ground (arith, background_row-Fits c)
reduce-Fits r b (one_shot PetOneShot.dozing) h = ground arith
reduce-Fits r b (one_shot _) h = ground arith
reduce-Fits r b animation_complete h = ground (arith, background_row-Fits b)
reduce-Fits r b wake h = ground arith
reduce-Fits r b (wander left) h = ground arith
reduce-Fits r b (wander _) h = ground arith
reduce-Fits r b wander_stop h = ground (arith, background_row-Fits b)
reduce-Fits r b drag h = tt
reduce-Fits r b drag_stop h = ground (arith, background_row-Fits b)

run-Fits : (s : PetState) (es : List PetEvent) → IsConsistent s → IsConsistent (run s es)
unfolding run
run-Fits s [] h = h
run-Fits s (e ∷ es) h = run-Fits (reduce_pet_state s e) es (reduce-Fits s.row s.background e h)

-- After any sequence of events from the initial state, a background row is on the stage only for
-- its own background, and the pet wanders or sleeps only while its background is idle.
pub run-IsConsistent : (es : List PetEvent) → IsConsistent (run initial_pet_state es)
run-IsConsistent es = run-Fits initial_pet_state es refl

-- What the background events of a history leave, whatever happens between them.
abbrev pub last_background : PetBackground → List PetEvent → PetBackground
last_background b [] = b
last_background b (background c ∷ es) = last_background c es
last_background b (_ ∷ es) = last_background b es

reduce-background :
    (r : PetRow) (b : PetBackground) (e : PetEvent)
    → Fits r b
    → (reduce_pet_state (record { row = r; background = b }) e).background
      ≡ last_background b (e ∷ [])
unfolding reduce_pet_state
reduce-background r b (background PetBackground.idle) h = ground arith
reduce-background r b (background _) h = ground arith
reduce-background r b _ h = ground arith

last_background-cons :
    (b : PetBackground) (e : PetEvent) (es : List PetEvent)
    → last_background (last_background b (e ∷ [])) es ≡ last_background b (e ∷ es)
last_background-cons b (background c) es = refl
last_background-cons b _ es = refl

run-last_background :
    (s : PetState) (es : List PetEvent)
    → IsConsistent s
    → (run s es).background ≡ last_background s.background es
unfolding run
run-last_background s [] h = refl
run-last_background s (e ∷ es) h =
    run-last_background (reduce_pet_state s e) es (reduce-Fits s.row s.background e h)
    ∙ ap (λ b. last_background b es) (reduce-background s.row s.background e h)
    ∙ last_background-cons s.background e es

-- No background event is lost: after any sequence of events the background is the one that the
-- last background event named, or idle if there was none.
pub run-background :
    (es : List PetEvent)
    → (run initial_pet_state es).background ≡ last_background PetBackground.idle es
run-background es = run-last_background initial_pet_state es refl

-- Whatever one-shot is playing, over whatever background, two completed animations end it: the
-- row of the background is on the stage, or the pet sleeps over an idle background. The background
-- is the one from before.
pub animation_complete_twice :
    (s : PetState)
    → is_one_shot_row s.row ≡ true
    → let t = run s (animation_complete ∷ animation_complete ∷ []) in
      (t.background ≡ s.background)
      × ((t.row ≡ background_row s.background)
          ⊎ ((t.row ≡ sleeping) × (s.background ≡ PetBackground.idle)))
unfolding run reduce_pet_state
animation_complete_twice s h = ground arith
