-- ===== src/TurnManager/Ordered.antt =====
-- Every history of the turn manager keeps each conversation's turns in order:
-- app/src/main/turn-manager.ts.
use sandi.Prelude.{
  any, All, ◌≡◌, refl, sym, ap, subst, ◌∙◌, String, ◌==◌, eq_iff, true, Option, none, some, List,
  [], ◌∷◌, ◌++◌, if_ind, take_first, take_first-Taken, is_some, arith,
}
use sandi.Prelude.Dict.{lookup, keys, lookup-insert}
use sandi.TurnManager.{
  QueuedTurn, Inflight, TurnManager, new_manager, inflight_of, pending_of, put, stop_in, stop_loop,
  stop, cancel_in, cancel_loop, cancel_queued, Event, submits, answers, finishes, stops, cancels,
  step, run,
}
use mathlib.Core.List.{Sublistᴰ}
use sandi.TurnManager.Queue.{
  turns_of, settled_of, turns_of-append, view, sending_of, Behind, Orderly, put_view,
  inflight-Ordered, cancel-Ordered,
}
use sandi.TurnManager.Views.{conversation_ind, view-put, other-put, other-cancelled}
use sandi.TurnManager.Logs.{submissions, cancels_turn, run-logs}
use sandi.TurnManager.Steps.{AllOrderly, submit-Orderly, settle-Orderly, finish-Orderly}

-- `stop` and `cancelQueued`, for one conversation at a time
stop_loop-Orderly :
    (turn_id : String) (conversations : List String) (m : TurnManager)
    → AllOrderly m
    → AllOrderly (stop_loop turn_id conversations m)
unfolding stop_loop
stop_loop-Orderly turn_id [] m h c = h c
stop_loop-Orderly turn_id (own ∷ more) m h c =
    go (inflight_of (lookup own m.queues)) refl (stop_loop-Orderly turn_id more m h c)
  where
    waiting : List QueuedTurn
    waiting = pending_of (lookup own m.queues)

    go :
        (inflight : Option Inflight)
        → inflight_of (lookup own m.queues) ≡ inflight
        → Orderly (view c (stop_loop turn_id more m))
        → Orderly (view c (stop_in turn_id own inflight waiting (stop_loop turn_id more m) m))
    go none e later = later
    go (some turn) e later =
        let stopped : Option Inflight = some (record turn { aborted = true }) in
        if_ind (λ n. Orderly (view c n)) (turn.turn_id == turn_id)
          (λ _.
            conversation_ind (λ c. Orderly (view c (put own stopped waiting m))) own c
              (subst Orderly (sym (view-put own m stopped waiting))
                (inflight-Ordered (view own m) stopped (ap sending_of e) (h own).0, refl))
              (λ differs. subst Orderly (sym (other-put c m own differs stopped waiting)) (h c)))
          (λ _. later)

cancel_loop-Orderly :
    (turn_id : String) (conversations : List String) (m : TurnManager)
    → AllOrderly m
    → AllOrderly (cancel_loop turn_id conversations m)
unfolding cancel_loop take_first
cancel_loop-Orderly turn_id [] m h c = h c
cancel_loop-Orderly turn_id (own ∷ more) m h c =
    go (inflight_of (lookup own m.queues)) refl
      (take_first (λ turn. turn.turn_id == turn_id) (pending_of (lookup own m.queues))) refl
      (cancel_loop-Orderly turn_id more m h c)
  where
    taken : Inflight → QueuedTurn → List QueuedTurn → TurnManager
    taken turn gone rest =
        put own (some turn) rest (record m { cancelled = m.cancelled ++ (own, gone) ∷ [] })

    view-taken :
        (turn : Inflight) (gone : QueuedTurn) (rest : List QueuedTurn)
        → inflight_of (lookup own m.queues) ≡ some turn
        → view own (taken turn gone rest)
          ≡ record (put_view (inflight_of (lookup own m.queues)) rest (view own m)) {
            cancelled = turns_of own m.cancelled ++ gone ∷ [];
          }
    view-taken turn gone rest e = ground (
      arith,
      eq_iff own own,
      e,
      turns_of-append own own gone m.cancelled,
      lookup-insert own own (record { inflight = some turn; pending = rest }) m.queues,
    )

    go :
        (inflight : Option Inflight)
        → inflight_of (lookup own m.queues) ≡ inflight
        → (take : Option (QueuedTurn × List QueuedTurn))
        → take_first (λ turn. turn.turn_id == turn_id) (pending_of (lookup own m.queues)) ≡ take
        → Orderly (view c (cancel_loop turn_id more m))
        → Orderly (view c (cancel_in own inflight take (cancel_loop turn_id more m) m))
    go inflight e none f later = later
    go none e (some (gone, rest)) f later =
        let behind =
          subst (λ o. Behind (is_some (lookup own m.queues)) o (pending_of (lookup own m.queues))) e
            (h own).1 in
        absurd (ground (arith, f, behind.1))
    go (some turn) e (some (gone, rest)) f later =
        conversation_ind (λ c. Orderly (view c (taken turn gone rest))) own c
          (subst Orderly (sym (view-taken turn gone rest e)) (
            cancel-Ordered (view own m) gone rest
                (take_first-Taken (λ turn. turn.turn_id == turn_id)
                  (pending_of (lookup own m.queues)) f).0
                (h own).0,
            subst (λ o. Behind true o rest) (sym e) refl,
          ))
          (λ differs.
            subst Orderly
              (sym (
                other-put c (record m { cancelled = m.cancelled ++ (own, gone) ∷ [] }) own differs
                  (some turn) rest
                ∙ other-cancelled c m own differs gone))
              (h c))

step-Orderly : (event : Event) (m : TurnManager) → AllOrderly m → AllOrderly (step event m)
unfolding step stop cancel_queued
step-Orderly (submits own turn) m h = submit-Orderly own turn m h
step-Orderly (answers own outcome) m h = settle-Orderly own outcome m h
step-Orderly (finishes own) m h = finish-Orderly own m h
step-Orderly (stops turn_id) m h = stop_loop-Orderly turn_id (keys m.queues) m h
step-Orderly (cancels turn_id) m h = cancel_loop-Orderly turn_id (keys m.queues) m h

run_from-Orderly :
    (events : List Event) (m : TurnManager) → AllOrderly m → AllOrderly (run events m)
unfolding run
run_from-Orderly [] m h = h
run_from-Orderly (event ∷ events) m h =
    run_from-Orderly events (step event m) (step-Orderly event m h)

new-Orderly : AllOrderly new_manager
unfolding lookup turns_of settled_of
new-Orderly c = (
  record { in_order = Sublistᴰ.slnil; conserved = λ fits. refl; settled_in_order = refl },
  (refl, refl),
)

-- After any sequence of submissions, answers, ends of turns, stops and cancellations, each conversation's
-- turns were sent in the order of their submission, and the others wait in this order. Each submitted turn
-- was sent, waits or was cancelled, exactly as often as the events submit it; only turns that some
-- cancellation names by their id were cancelled. The turns that were sent are settled once each and in this
-- order, but for at most one that still waits for its answer. A queue that is kept has a turn in flight, so
-- no turn waits behind none.
pub run-Orderly :
    (c : String) (events : List Event)
    → let m = run events new_manager in
      Orderly (view c m)
      × (m.submitted ≡ submissions events)
      × All (λ entry. any (cancels_turn entry.1.turn_id) events ≡ true) m.cancelled
run-Orderly c events =
    let (noted, named) =
      run-logs (λ id. any (cancels_turn id) events ≡ true) events new_manager (λ id e. e) tt in
    (run_from-Orderly events new_manager new-Orderly c, noted, named)
