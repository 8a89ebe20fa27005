-- ===== src/Capacity/Tests.antt =====
-- Runs of the controller, and its theorems at concrete histories.
use mathlib.Core.Option
use sandi.Prelude.{
  map, ◌++◌, ◌≡◌, ◌⊎◌, ◌<◌, ◌+◌, refl, false, none, some, List, [], ◌∷◌, Taken, take_at, take_first,
  length,
}
use sandi.Capacity.Work.{
  Config, Request, QueuedWork, Provider, new_provider, work_kind, oldest_index, shutting_down,
  passive_coalesced,
}
use sandi.Capacity.{
  take_next, can_start, pump, notify_idle, refusal, generate_turn, abort_request, finish, shutdown,
  grace_expired, refused, Event, submits, responds, shuts_down, step, run, eligible, under_pressure,
}
use sandi.Capacity.Streak.{FollowsRule, take_next-FollowsRule}
use sandi.Capacity.Bounds.{WithinLimits, run-WithinLimits}
use sandi.Capacity.Accounting.{Accounted, run-Accounted}
use sandi.Capacity.Shutdown.{run-shutdown, run-Returns}

abbrev chat : Request
chat = record { conversation_id = "discord:1"; identity_id = some "ada"; signal_aborted = false }

abbrev dream : Request
dream = record { conversation_id = "dream:7"; identity_id = none; signal_aborted = false }

abbrev gate : Request
gate = record {
  conversation_id = "passive-gate:1";
  identity_id = some "ada";
  signal_aborted = false;
}

abbrev one_at_a_time : Config
one_at_a_time = record {
  max_concurrent = 1;
  max_queued = 4;
  max_queued_per_identity = 2;
  shutdown_grace_ms = 5000;
}

controller : Unit {0}
unfolding run step take_at take_first generate_turn refusal pump take_next oldest_index eligible
    can_start work_kind under_pressure notify_idle finish shutdown abort_request grace_expired
controller = tt

abbrev busy : List Event
busy = submits chat ∷ submits dream ∷ submits chat ∷ submits gate ∷ []

start : Provider
start = new_provider one_at_a_time

-- The first turn runs; when it ends the interactive one goes before the dream and the gate.
second_turn : map (λ a. a.work.sequence) (run start (busy ++ responds 0 ∷ [])).active ≡ 2 ∷ []
unfolding start controller
second_turn = refl

-- A second passive turn of one identity is coalesced.
second_gate : (generate_turn (run start busy) gate).1 ≡ refused passive_coalesced
unfolding start controller
second_gate = refl

abbrev streak : Provider
streak = record (run start busy) { interactive_streak = 4; active = [] }

-- After four interactive turns the dream, the oldest of the others, is taken.
after_four : Option.map (λ t. t.0.sequence) (take_next streak) ≡ some 1
unfolding start controller
after_four = refl

abbrev roomy : Config
roomy = record {
  max_concurrent = 1;
  max_queued = 8;
  max_queued_per_identity = 8;
  shutdown_grace_ms = 5000;
}

abbrev chatty : List Event
chatty =
    submits chat
    ∷ submits dream
    ∷ submits chat
    ∷ submits gate
    ∷ submits chat
    ∷ submits chat
    ∷ submits chat
    ∷ responds 0
    ∷ responds 2
    ∷ responds 4
    ∷ []

crowded : Provider
crowded = run (new_provider roomy) chatty

-- Four interactive turns were passed on in a row; a fifth waits with the dream and the gate.
four_passed : map (λ w. w.sequence) crowded.passed_on ≡ 5 ∷ 4 ∷ 2 ∷ 0 ∷ []
unfolding crowded controller
four_passed = refl

fifth_waits : map (λ w. w.sequence) crowded.queue ≡ 1 ∷ 3 ∷ 6 ∷ []
unfolding crowded controller
fifth_waits = refl

crowd : (w : QueuedWork) × (works : List QueuedWork) × (crowded.queue ≡ w ∷ works)
unfolding crowded controller
crowd = (_, _, refl)

take_next-FollowsRule_example :
    (chosen : QueuedWork) × (rest : List QueuedWork) × (q : Provider) × (take_next crowded
      ≡ some (chosen, q))
    × (q ≡ record crowded { queue = rest; interactive_streak = q.interactive_streak })
    × Taken crowded.queue chosen rest
    × FollowsRule crowded.passed_on crowded.queue chosen
unfolding crowded
take_next-FollowsRule_example =
    take_next-FollowsRule roomy chatty crowded crowd.0 crowd.1 refl refl crowd.2

run-WithinLimits_example :
    WithinLimits one_at_a_time "ada" (run (new_provider one_at_a_time) busy)
    × (can_start (run (new_provider one_at_a_time) busy) ≡ false)
run-WithinLimits_example = run-WithinLimits one_at_a_time "ada" busy

run-Accounted_example :
    Accounted 2 (run (new_provider one_at_a_time) (busy ++ shuts_down ∷ responds 0 ∷ []))
run-Accounted_example = run-Accounted one_at_a_time 2 (busy ++ shuts_down ∷ responds 0 ∷ [])

run-shutdown_example :
    let q = run (shutdown (run start busy)) (responds 0 ∷ []) in
    (length q.queue ≡ 0)
    × (q.sequence ≡ (run start busy).sequence)
    × (generate_turn q chat ≡ (q, refused shutting_down))
run-shutdown_example = run-shutdown (run start busy) (responds 0 ∷ []) chat

run-Returns_example :
    let q = run (new_provider one_at_a_time) (busy ++ shuts_down ∷ responds 0 ∷ []) in
    (q.shutdowns_done + q.idle_waiters ≡ 1) × ((q.idle_waiters ≡ 0) ⊎ (0 < length q.active))
run-Returns_example = run-Returns one_at_a_time (busy ++ shuts_down ∷ responds 0 ∷ [])
