-- ===== src/ThreadQueue/Tests.antt =====
-- Runs of the thread queue, and its theorem at a concrete history.
use sandi.Prelude.{◌≡◌, refl, false, List, [], ◌∷◌, String, map, take_first, arith}
use sandi.Prelude.Dict.{lookup, insert, erase}
use sandi.ThreadQueue.{
  ThreadQueue, new_queue, status, Event, enqueues, cancels, aborts, ends, run, enqueue, cancel,
  job_ends, abort_active,
}
use sandi.ThreadQueue.Working.{Working}
use sandi.ThreadQueue.Drained.{run-Drained}

abbrev queued : List Event
queued = enqueues "t" "one" ∷ enqueues "t" "two" ∷ enqueues "u" "other" ∷ enqueues "t" "three" ∷ []

abbrev then_done : List Event
then_done = ends "t" ∷ cancels "t" 3 ∷ aborts "u" ∷ ends "t" ∷ enqueues "u" "more" ∷ ends "t" ∷ []

abbrev started_names : ThreadQueue → List String
started_names t = map (λ entry. entry.1.name) t.started

starts_in_order :
    started_names (run then_done (run queued new_queue)) ≡ "one" ∷ "other" ∷ "two" ∷ []
unfolding run enqueue cancel job_ends abort_active lookup insert erase take_first
starts_in_order = refl

cancels_waiting_only : (cancel "t" 0 (run queued new_queue)).1 ≡ false
unfolding run enqueue cancel lookup insert take_first
cancels_waiting_only = refl

waits_behind : (status "t" (run queued new_queue)).1 ≡ 2
unfolding run enqueue lookup insert
waits_behind = refl

run-Drained_example :
    Working (lookup "t" (run queued new_queue).queues)
    × (status "t" (run then_done (run queued new_queue)) ≡ (false, 0))
run-Drained_example = run-Drained "t" queued then_done refl (ground (arith, waits_behind))
