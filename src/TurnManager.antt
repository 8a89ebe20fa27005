-- ===== src/TurnManager.antt =====
-- The desktop app's queue of turns for each conversation: app/src/main/turn-manager.ts.
-- A turn's closure runs until it waits for the answer of `sendTurn`, from there until it waits for the
-- settlement handler, and from there to its end; `phase` is where it stands. The running turn keeps its
-- queue in the map, so the queue that a closure holds is the one in the map. An error that `sendTurn` throws
-- at once is an answer that comes next.
pub mod Queue
pub mod Views
pub mod Steps
pub mod Logs
pub mod Ordered
mod Tests
use sandi.Prelude.{
  String, ◌==◌, Bool, true, false, not, ◌&&◌, ◌||◌, Option, none, some, List, [], ◌∷◌, ◌++◌, map,
  is_some, if◌then◌else◌, take_first,
}
use sandi.Prelude.Dict.{Dict, lookup, insert, erase, keys}

pub record QueuedTurn : Type 0 where
  pub turn_id : String
  pub text : String
  pub attachment_ids : List String

pub data Phase : Type 0 where
  sending settling : Phase

pub record Inflight : Type 0 where
  pub turn_id : String
  pub aborted : Bool
  pub phase : Phase

pub record ConversationQueue : Type 0 where
  pub inflight : Option Inflight
  pub pending : List QueuedTurn

pub data TurnOutcome : Type 0 where
  answered failed : String → TurnOutcome

pub record TurnSettledEvent : Type 0 where
  pub conversation_id : String
  pub turn_id : String
  pub outcome : TurnOutcome

pub record QueueState : Type 0 where
  pub conversation_id : String
  pub inflight_turn_id : Option String
  pub pending : List (String × String)

-- `submitted` and `cancelled` are the calls that were made, `sent` the turns that `sendTurn` was given,
-- `settled` and `shown` the events that were fired.
pub record TurnManager : Type 0 where
  pub queues : Dict ConversationQueue
  pub submitted : List (String × QueuedTurn)
  pub sent : List (String × QueuedTurn)
  pub cancelled : List (String × QueuedTurn)
  pub settled : List TurnSettledEvent
  pub shown : List QueueState

abbrev pub new_manager : TurnManager
new_manager = record {
  queues = [];
  submitted = [];
  sent = [];
  cancelled = [];
  settled = [];
  shown = [];
}

-- The parts of a queue that may not be there; `queueFor` makes an empty one.
abbrev pub inflight_of : Option ConversationQueue → Option Inflight
inflight_of none = none
inflight_of (some queue) = queue.inflight

abbrev pub pending_of : Option ConversationQueue → List QueuedTurn
pending_of none = []
pending_of (some queue) = queue.pending

abbrev pub put : String → Option Inflight → List QueuedTurn → TurnManager → TurnManager
put conversation turn waiting m = record m {
  queues = insert conversation (record { inflight = turn; pending = waiting }) m.queues;
}

abbrev pub forget : String → TurnManager → TurnManager
forget conversation m = record m { queues = erase conversation m.queues }

-- `stateOf`, and the event of a queue's state.
abbrev inflight_id : Option Inflight → Option String
inflight_id none = none
inflight_id (some turn) = some turn.turn_id

abbrev summary : QueuedTurn → String × String
summary turn = (turn.turn_id, turn.text)

pub state_of : String → Dict ConversationQueue → QueueState
unfolding lookup
state_of conversation queues = record {
  conversation_id = conversation;
  inflight_turn_id = inflight_id (inflight_of (lookup conversation queues));
  pending = map summary (pending_of (lookup conversation queues));
}

abbrev pub emit_queue_state : String → TurnManager → TurnManager
emit_queue_state conversation m = record m {
  shown = m.shown ++ state_of conversation m.queues ∷ [];
}

-- `drain` up to its wait for the answer.
abbrev pub start_next : String → List QueuedTurn → TurnManager → TurnManager
start_next conversation [] m =
    forget conversation (emit_queue_state conversation (put conversation none [] m))
start_next conversation (next ∷ rest) m =
    let shown = emit_queue_state conversation (
      put conversation (some (record { turn_id = next.turn_id; aborted = false; phase = sending }))
        rest m) in
    record shown { sent = shown.sent ++ (conversation, next) ∷ [] }

abbrev pub drain_queue : String → Option Inflight → List QueuedTurn → TurnManager → TurnManager
drain_queue conversation none waiting m = start_next conversation waiting m
drain_queue conversation (some turn) waiting m = m

unfoldable pub drain : String → TurnManager → TurnManager
drain conversation m =
    drain_queue conversation (inflight_of (lookup conversation m.queues))
      (pending_of (lookup conversation m.queues)) m

-- `submit`
unfoldable pub push : String → QueuedTurn → TurnManager → TurnManager
push conversation turn m =
    put conversation (inflight_of (lookup conversation m.queues))
      (pending_of (lookup conversation m.queues) ++ turn ∷ [])
      (record m { submitted = m.submitted ++ (conversation, turn) ∷ [] })

unfoldable pub submit : String → QueuedTurn → TurnManager → TurnManager
unfolding push drain
submit conversation turn m =
    emit_queue_state conversation (drain conversation (push conversation turn m))

-- `settle`, once the answer is there: the event, up to the wait for its handler.
abbrev pub told : Bool → TurnOutcome → TurnOutcome
told aborted (answered text) = answered text
told aborted (failed error) = if aborted then failed "stopped" else failed error

abbrev pub settle_turn :
    Phase → String → TurnOutcome → Inflight → List QueuedTurn → TurnManager → TurnManager
settle_turn settling conversation outcome turn waiting m = m
settle_turn sending conversation outcome turn waiting m =
    put conversation (some (record turn { phase = settling })) waiting (record m {
      settled =
          m.settled
          ++ record {
            conversation_id = conversation;
            turn_id = turn.turn_id;
            outcome = told turn.aborted outcome;
          }
            ∷ [];
    })

abbrev pub settle_queue :
    String → TurnOutcome → Option Inflight → List QueuedTurn → TurnManager → TurnManager
settle_queue conversation outcome none waiting m = m
settle_queue conversation outcome (some turn) waiting m =
    settle_turn turn.phase conversation outcome turn waiting m

unfoldable pub settle : String → TurnOutcome → TurnManager → TurnManager
settle conversation outcome m =
    settle_queue conversation outcome (inflight_of (lookup conversation m.queues))
      (pending_of (lookup conversation m.queues)) m

-- The end of `settle`, once the handler of the event is done.
abbrev pub finish_turn : Phase → String → List QueuedTurn → TurnManager → TurnManager
finish_turn sending conversation waiting m = m
finish_turn settling conversation waiting m = drain conversation (put conversation none waiting m)

abbrev pub finish_queue : String → Option Inflight → List QueuedTurn → TurnManager → TurnManager
finish_queue conversation none waiting m = m
finish_queue conversation (some turn) waiting m = finish_turn turn.phase conversation waiting m

unfoldable pub finish : String → TurnManager → TurnManager
unfolding drain
finish conversation m =
    finish_queue conversation (inflight_of (lookup conversation m.queues))
      (pending_of (lookup conversation m.queues)) m

-- `stop`, in the first queue where the turn is in flight.
abbrev pub stop_in :
    String → String → Option Inflight → List QueuedTurn → TurnManager → TurnManager → TurnManager
stop_in turn_id conversation none waiting later m = later
stop_in turn_id conversation (some turn) waiting later m =
    if turn.turn_id == turn_id
    then put conversation (some (record turn { aborted = true })) waiting m
    else later

unfoldable pub stop_loop : String → List String → TurnManager → TurnManager
stop_loop turn_id [] m = m
stop_loop turn_id (conversation ∷ more) m =
    stop_in turn_id conversation (inflight_of (lookup conversation m.queues))
      (pending_of (lookup conversation m.queues)) (stop_loop turn_id more m) m

unfoldable pub stop : String → TurnManager → TurnManager
unfolding stop_loop
stop turn_id m = stop_loop turn_id (keys m.queues) m

-- `cancelQueued`, in the first queue where the turn waits.
abbrev pub drop_idle : String → Option Inflight → List QueuedTurn → TurnManager → TurnManager
drop_idle conversation none [] m = forget conversation m
drop_idle conversation none (next ∷ rest) m = m
drop_idle conversation (some turn) waiting m = m

abbrev pub cancel_in :
    String
    → Option Inflight
    → Option (QueuedTurn × List QueuedTurn)
    → TurnManager
    → TurnManager
    → TurnManager
cancel_in conversation inflight none later m = later
cancel_in conversation inflight (some (turn, rest)) later m = drop_idle conversation inflight rest (
    emit_queue_state conversation (
      put conversation inflight rest
        (record m { cancelled = m.cancelled ++ (conversation, turn) ∷ [] })))

unfoldable pub cancel_loop : String → List String → TurnManager → TurnManager
cancel_loop turn_id [] m = m
cancel_loop turn_id (conversation ∷ more) m =
    cancel_in conversation (inflight_of (lookup conversation m.queues))
      (take_first (λ turn. turn.turn_id == turn_id) (pending_of (lookup conversation m.queues)))
      (cancel_loop turn_id more m) m

unfoldable pub cancel_queued : String → TurnManager → TurnManager
unfolding cancel_loop
cancel_queued turn_id m = cancel_loop turn_id (keys m.queues) m

-- `hasWork` and `isIdle`.
abbrev no_items {ℓ} : {A : Type ℓ} → List A → Bool
no_items [] = true
no_items (a ∷ more) = false

abbrev pub has_work : String → TurnManager → Bool
has_work conversation m =
    is_some (inflight_of (lookup conversation m.queues))
    || not (no_items (pending_of (lookup conversation m.queues)))

abbrev pub is_idle : TurnManager → Bool
is_idle m = no_items m.queues

pub data Event : Type 0 where
  submits : (conversation : String) (turn : QueuedTurn) → Event
  answers : (conversation : String) (outcome : TurnOutcome) → Event
  finishes : (conversation : String) → Event
  stops cancels : (turn_id : String) → Event

unfoldable pub step : Event → TurnManager → TurnManager
step (submits conversation turn) m = submit conversation turn m
step (answers conversation outcome) m = settle conversation outcome m
step (finishes conversation) m = finish conversation m
step (stops turn_id) m = stop turn_id m
step (cancels turn_id) m = cancel_queued turn_id m

unfoldable pub run : List Event → TurnManager → TurnManager
unfolding step
run [] m = m
run (event ∷ events) m = run events (step event m)
