-- ===== src/TurnManager/Tests.antt =====
-- Runs of the turn manager, and its theorem at a concrete history.
use sandi.Prelude.{any, All, ◌≡◌, refl, true, List, [], ◌∷◌, String, map, take_first}
use sandi.Prelude.Dict.{lookup, insert, erase, keys}
use sandi.TurnManager.{
  QueuedTurn, TurnManager, new_manager, answered, failed, Event, submits, answers, finishes, stops,
  cancels, run, is_idle, cancel_queued, submit, settle, finish, stop,
}
use sandi.TurnManager.Queue.{Orderly, view}
use sandi.TurnManager.Logs.{submissions, cancels_turn}
use sandi.TurnManager.Ordered.{run-Orderly}

abbrev turn : String → QueuedTurn
turn id = record { turn_id = id; text = id; attachment_ids = [] }

-- Three turns of one conversation and one of another; the second is cancelled, the first stopped.
abbrev busy : List Event
busy =
    submits "c" (turn "t1")
    ∷ submits "c" (turn "t2")
    ∷ submits "d" (turn "u1")
    ∷ submits "c" (turn "t3")
    ∷ cancels "t2"
    ∷ stops "t1"
    ∷ answers "c" (failed "aborted")
    ∷ finishes "c"
    ∷ []

abbrev sent_ids : TurnManager → List String
sent_ids m = map (λ entry. entry.1.turn_id) m.sent

sends_in_order : sent_ids (run busy new_manager) ≡ "t1" ∷ "u1" ∷ "t3" ∷ []
unfolding run submit settle finish stop cancel_queued keys lookup insert erase take_first
sends_in_order = refl

tells_stopped :
    (run busy new_manager).settled
    ≡ record { conversation_id = "c"; turn_id = "t1"; outcome = failed "stopped" } ∷ []
unfolding run submit settle finish stop cancel_queued keys lookup insert erase take_first
tells_stopped = refl

idle_at_last :
    is_idle (
      run
        (submits "c" (turn "t1") ∷ answers "c" (answered "hello") ∷ finishes "c" ∷ [])
        new_manager)
    ≡ true
unfolding run submit settle finish lookup insert erase
idle_at_last = refl

run-Orderly_example :
    let m = run busy new_manager in
    Orderly (view "c" m)
    × (m.submitted ≡ submissions busy)
    × All (λ entry. any (cancels_turn entry.1.turn_id) busy ≡ true) m.cancelled
run-Orderly_example = run-Orderly "c" busy
