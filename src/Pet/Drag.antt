-- ===== src/Pet/Drag.antt =====
-- A drag holds the stage until it is dropped.
use sandi.Prelude.{◌≡◌, ◌≢◌, ◌∙◌, refl, ap, List, [], ◌∷◌, ◌++◌}
use sandi.Prelude.{All}
use sandi.Pet.{
  PetBackground, PetState, PetEvent, background, drag, drag_stop, background_row, reduce_pet_state,
  run, dragging,
}

-- One event other than a drop keeps a dragged pet in the hand, and only a background event changes
-- what is under it.
abbrev pub under : PetBackground → List PetEvent → PetBackground
under b [] = b
under b (background c ∷ es) = under c es
under b (_ ∷ es) = under b es

abbrev held : PetBackground → PetState
held b = record { row = dragging; background = b }

run-held :
    (b : PetBackground) (es : List PetEvent)
    → All (λ e. e ≢ drag_stop) es
    → run (held b) es ≡ held (under b es)
unfolding run reduce_pet_state
run-held b [] h = refl
run-held b (drag_stop ∷ es) h = absurd (h.0 refl)
run-held b (background c ∷ es) h = run-held c es h.1
run-held b (_ ∷ es) h = run-held b es h.1

run-append : (s : PetState) (xs ys : List PetEvent) → run s (xs ++ ys) ≡ run (run s xs) ys
unfolding run
run-append s [] ys = refl
run-append s (e ∷ xs) ys = run-append (reduce_pet_state s e) xs ys

-- Picked up from any state, the pet stays in the hand through any events but a drop, and the drop
-- then shows the row of the background that the events in between have left.
pub drag_until_drop :
    (s : PetState) (es : List PetEvent)
    → All (λ e. e ≢ drag_stop) es
    → ((run s (drag ∷ es)).row ≡ dragging)
      × (run s (drag ∷ es ++ drag_stop ∷ []) ≡ record {
        row = background_row (under s.background es);
        background = under s.background es;
      })
unfolding run reduce_pet_state
drag_until_drop s es h = (
  ap (λ t. t.row) (run-held s.background es h),
  run-append (held s.background) es (drag_stop ∷ [])
      ∙ ap (λ t. run t (drag_stop ∷ [])) (run-held s.background es h),
)
