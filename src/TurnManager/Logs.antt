-- ===== src/TurnManager/Logs.antt =====
-- What the turn manager notes as submitted and as cancelled: app/src/main/turn-manager.ts.
use sandi.Prelude.{
  ◌≡◌, refl, sym, ap, subst, ◌∙◌, String, ◌==◌, eq_iff, Bool, true, false, Option, none, some, List,
  [], ◌∷◌, ◌++◌, if_ind, any, All, All-append, take_first, take_first-Taken, arith,
}
use sandi.Prelude.Dict.{lookup, keys}
use mathlib.Core.List.{append_assoc}
use sandi.Prelude.Sublists.{append-nil}
use sandi.TurnManager.{
  QueuedTurn, Inflight, Phase, sending, settling, TurnOutcome, TurnManager, inflight_of, pending_of,
  put, start_next, drain_queue, drain, push, submit, settle_turn, settle_queue, settle, finish_turn,
  finish_queue, finish, stop_in, stop_loop, stop, drop_idle, cancel_in, cancel_loop, cancel_queued,
  Event, submits, answers, finishes, stops, cancels, step, run,
}

-- The submissions of a history, and whether one of its cancellations names a turn.
abbrev pub submission : Event → List (String × QueuedTurn)
submission (submits conversation turn) = (conversation, turn) ∷ []
submission (answers conversation outcome) = []
submission (finishes conversation) = []
submission (stops turn_id) = []
submission (cancels turn_id) = []

abbrev pub submissions : List Event → List (String × QueuedTurn)
submissions [] = []
submissions (event ∷ events) = submission event ++ submissions events

abbrev pub cancels_turn : String → Event → Bool
cancels_turn turn_id (submits conversation turn) = false
cancels_turn turn_id (answers conversation outcome) = false
cancels_turn turn_id (finishes conversation) = false
cancels_turn turn_id (stops other) = false
cancels_turn turn_id (cancels other) = turn_id == other

-- Neither log changes.
abbrev SameLogs : TurnManager → TurnManager → Type 0
SameLogs before after = (after.submitted ≡ before.submitted) × (after.cancelled ≡ before.cancelled)

start_next-SameLogs :
    (own : String) (waiting : List QueuedTurn) (m : TurnManager)
    → SameLogs m (start_next own waiting m)
start_next-SameLogs own [] m = (refl, refl)
start_next-SameLogs own (next ∷ rest) m = (refl, refl)

drain-SameLogs : (own : String) (m : TurnManager) → SameLogs m (drain own m)
unfolding drain
drain-SameLogs own m = go (inflight_of (lookup own m.queues))
  where
    go :
        (inflight : Option Inflight)
        → SameLogs m (drain_queue own inflight (pending_of (lookup own m.queues)) m)
    go none = start_next-SameLogs own (pending_of (lookup own m.queues)) m
    go (some turn) = (refl, refl)

settle-SameLogs :
    (own : String) (outcome : TurnOutcome) (m : TurnManager) → SameLogs m (settle own outcome m)
unfolding settle
settle-SameLogs own outcome m = go (inflight_of (lookup own m.queues))
  where
    waiting : List QueuedTurn
    waiting = pending_of (lookup own m.queues)

    last :
        (turn : Inflight) (phase : Phase)
        → SameLogs m (settle_turn phase own outcome turn waiting m)
    last turn sending = (refl, refl)
    last turn settling = (refl, refl)

    go : (inflight : Option Inflight) → SameLogs m (settle_queue own outcome inflight waiting m)
    go none = (refl, refl)
    go (some turn) = last turn turn.phase

finish-SameLogs : (own : String) (m : TurnManager) → SameLogs m (finish own m)
unfolding finish
finish-SameLogs own m = go (inflight_of (lookup own m.queues))
  where
    waiting : List QueuedTurn
    waiting = pending_of (lookup own m.queues)

    last : (phase : Phase) → SameLogs m (finish_turn phase own waiting m)
    last sending = (refl, refl)
    last settling = drain-SameLogs own (put own none waiting m)

    go : (inflight : Option Inflight) → SameLogs m (finish_queue own inflight waiting m)
    go none = (refl, refl)
    go (some turn) = last turn.phase

stop_loop-SameLogs :
    (turn_id : String) (conversations : List String) (m : TurnManager)
    → SameLogs m (stop_loop turn_id conversations m)
unfolding stop_loop
stop_loop-SameLogs turn_id [] m = (refl, refl)
stop_loop-SameLogs turn_id (own ∷ more) m =
    go (inflight_of (lookup own m.queues)) (stop_loop-SameLogs turn_id more m)
  where
    go :
        (inflight : Option Inflight)
        → SameLogs m (stop_loop turn_id more m)
        → SameLogs m (
            stop_in turn_id own inflight
              (pending_of (lookup own m.queues))
              (stop_loop turn_id more m)
              m)
    go none later = later
    go (some turn) later =
        if_ind (SameLogs m) (turn.turn_id == turn_id) (λ _. (refl, refl)) (λ _. later)

submit-logs :
    (own : String) (turn : QueuedTurn) (m : TurnManager)
    → ((submit own turn m).submitted ≡ m.submitted ++ (own, turn) ∷ [])
      × ((submit own turn m).cancelled ≡ m.cancelled)
unfolding submit push
submit-logs own turn m = drain-SameLogs own (push own turn m)

-- What is noted as cancelled.
abbrev CancelledAll : (String → Type 0) → TurnManager → Type 0
CancelledAll Asked m = All (λ entry. Asked entry.1.turn_id) m.cancelled

drop_idle-SameLogs :
    (own : String) (inflight : Option Inflight) (waiting : List QueuedTurn) (m : TurnManager)
    → SameLogs m (drop_idle own inflight waiting m)
drop_idle-SameLogs own none [] m = (refl, refl)
drop_idle-SameLogs own none (next ∷ rest) m = (refl, refl)
drop_idle-SameLogs own (some turn) waiting m = (refl, refl)

cancel_loop-logs :
    (Asked : String → Type 0) (turn_id : String) (conversations : List String) (m : TurnManager)
    → Asked turn_id
    → CancelledAll Asked m
    → ((cancel_loop turn_id conversations m).submitted ≡ m.submitted)
      × CancelledAll Asked (cancel_loop turn_id conversations m)
unfolding cancel_loop
cancel_loop-logs Asked turn_id [] m asked h = (refl, h)
cancel_loop-logs Asked turn_id (own ∷ more) m asked h =
    go (inflight_of (lookup own m.queues)) (take_first fits (pending_of (lookup own m.queues))) refl
      (cancel_loop-logs Asked turn_id more m asked h)
  where
    fits : QueuedTurn → Bool
    fits turn = turn.turn_id == turn_id

    go :
        (inflight : Option Inflight) (take : Option (QueuedTurn × List QueuedTurn))
        → take_first fits (pending_of (lookup own m.queues)) ≡ take
        → ((cancel_loop turn_id more m).submitted ≡ m.submitted)
          × CancelledAll Asked (cancel_loop turn_id more m)
        → ((cancel_in own inflight take (cancel_loop turn_id more m) m).submitted ≡ m.submitted)
          × CancelledAll Asked (cancel_in own inflight take (cancel_loop turn_id more m) m)
    go inflight none e later = later
    go inflight (some (turn, rest)) e later =
        let (same_submitted, same_cancelled) = drop_idle-SameLogs own inflight rest _ in
        let named : turn.turn_id ≡ turn_id =
          (eq_iff turn.turn_id turn_id).0
            (take_first-Taken fits (pending_of (lookup own m.queues)) e).1 in
        (
          same_submitted,
          subst (All (λ entry. Asked entry.1.turn_id)) (sym same_cancelled) (
              All-append (λ entry. Asked entry.1.turn_id) m.cancelled ((own, turn) ∷ [])
                (subst Asked (sym named) asked, tt) h),
        )

step-logs :
    (Asked : String → Type 0) (event : Event) (m : TurnManager)
    → ((id : String) → cancels_turn id event ≡ true → Asked id)
    → CancelledAll Asked m
    → ((step event m).submitted ≡ m.submitted ++ submission event)
      × CancelledAll Asked (step event m)
unfolding step stop cancel_queued
step-logs Asked (submits own turn) m asks h =
    let (noted, same) = submit-logs own turn m in
    (noted, subst (All (λ entry. Asked entry.1.turn_id)) (sym same) h)
step-logs Asked (answers own outcome) m asks h =
    let (same_submitted, same) = settle-SameLogs own outcome m in
    (
      same_submitted ∙ sym (append-nil m.submitted),
      subst (All (λ entry. Asked entry.1.turn_id)) (sym same) h,
    )
step-logs Asked (finishes own) m asks h =
    let (same_submitted, same) = finish-SameLogs own m in
    (
      same_submitted ∙ sym (append-nil m.submitted),
      subst (All (λ entry. Asked entry.1.turn_id)) (sym same) h,
    )
step-logs Asked (stops turn_id) m asks h =
    let (same_submitted, same) = stop_loop-SameLogs turn_id (keys m.queues) m in
    (
      same_submitted ∙ sym (append-nil m.submitted),
      subst (All (λ entry. Asked entry.1.turn_id)) (sym same) h,
    )
step-logs Asked (cancels turn_id) m asks h =
    let (same_submitted, all) =
      cancel_loop-logs Asked turn_id (keys m.queues) m
        (asks turn_id ((eq_iff turn_id turn_id).1 refl)) h in
    (same_submitted ∙ sym (append-nil m.submitted), all)

-- A history notes its submissions, and as cancelled only turns that one of its cancellations names.
pub run-logs :
    (Asked : String → Type 0) (events : List Event) (m : TurnManager)
    → ((id : String) → any (cancels_turn id) events ≡ true → Asked id)
    → CancelledAll Asked m
    → ((run events m).submitted ≡ m.submitted ++ submissions events)
      × CancelledAll Asked (run events m)
unfolding run
run-logs Asked [] m asks h = (sym (append-nil m.submitted), h)
run-logs Asked (event ∷ events) m asks h =
    let (noted, all) = step-logs Asked event m (λ id e. asks id (ground (arith, e))) h in
    let (later, all_later) =
      run-logs Asked events (step event m) (λ id e. asks id (ground (arith, e))) all in
    (
      later
          ∙ ap (λ log. log ++ submissions events) noted
          ∙ append_assoc m.submitted (submission event) (submissions events),
      all_later,
    )
