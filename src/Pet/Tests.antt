-- ===== src/Pet/Tests.antt =====
-- Runs of the pet's reducer, and its theorems at concrete histories.
use sandi.Prelude.{◌≡◌, ◌⊎◌, refl, List, [], ◌∷◌, arith}
use sandi.Pet.{
  PetState, PetBackground, PetOneShot, PetRow, background, one_shot, animation_complete, wake,
  wander, drag, drag_stop, left, initial_pet_state, reduce_pet_state, run, running, waking, typing,
  walking_left, sleeping, PetEvent,
}
use sandi.Pet.Consistent.{IsConsistent, run-IsConsistent, run-background, animation_complete_twice}
use sandi.Pet.Drag.{drag_until_drop}

abbrev nap : List PetEvent
nap = one_shot PetOneShot.dozing ∷ animation_complete ∷ []

sleeps_then_works :
    run initial_pet_state
      (one_shot PetOneShot.dozing ∷ animation_complete ∷ background running ∷ [])
    ≡ record { row = waking; background = running }
unfolding run reduce_pet_state
sleeps_then_works = refl

wanders : (run initial_pet_state (wander left ∷ [])).row ≡ walking_left
unfolding run reduce_pet_state
wanders = refl

run-IsConsistent_example : IsConsistent (run initial_pet_state nap)
run-IsConsistent_example = run-IsConsistent nap

run-background_example :
    (run initial_pet_state (background running ∷ drag ∷ wake ∷ [])).background ≡ running
run-background_example = run-background (background running ∷ drag ∷ wake ∷ [])

abbrev dozing_at_work : PetState
dozing_at_work = record { row = PetRow.dozing; background = running }

animation_complete_twice_example :
    let t = run dozing_at_work (animation_complete ∷ animation_complete ∷ []) in
    (t.background ≡ running)
    × ((t.row ≡ typing) ⊎ ((t.row ≡ sleeping) × (running ≡ PetBackground.idle)))
animation_complete_twice_example = animation_complete_twice dozing_at_work refl

drag_until_drop_example :
    ((run initial_pet_state (drag ∷ background running ∷ [])).row ≡ PetRow.dragging)
    × (run initial_pet_state (drag ∷ background running ∷ drag_stop ∷ [])
        ≡ record { row = typing; background = running })
drag_until_drop_example =
    drag_until_drop initial_pet_state (background running ∷ []) (ground arith, tt)
