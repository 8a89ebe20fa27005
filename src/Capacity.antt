-- ===== src/Capacity.antt =====
-- The admission controller in front of the model provider: src/lib/provider/capacity-controller.ts.
-- A provider turn runs between two events: a promise is settled by an event, and what the class
-- does in between, without a wait, is one step. The AbortController of a running turn is named by
-- the sequence number of its work, since there is one for each; an abort sets a flag. The promise
-- of each accepted turn is settled by an entry of `settled`. `idle_waiters` counts the callers of
-- `shutdown` that still wait, `shutdowns_done` those that have returned.
pub mod Work
pub mod Choice
pub mod Streak
pub mod Pump
pub mod Bounds
pub mod Accounting
pub mod Shutdown
mod Tests
use sandi.Prelude.{
  ℕ, zero, suc, ◌+◌, ◌-◌, ◌/◌, min, String, ◌==◌, Bool, true, false, not, ◌&&◌, ◌||◌, Option, none,
  some, List, [], ◌∷◌, ◌++◌, map, ltb, leb, eqb, if◌then◌else◌, length, count, any, take_at,
  take_first,
}
use Work.{
  Config, Rejection, shutting_down, aborted, passive_coalesced, title_discarded, overloaded,
  identity_overloaded, WorkKind, Request, QueuedWork, Active, Settlement, resolved, failed,
  rejected, Provider, work_kind, is_interactive, is_passive, is_title, non_interactive, of_identity,
  passive_of, min_priority, has_priority, oldest_index, identity_of,
}

under_pressure : Provider → Bool
under_pressure p =
    any (λ work. is_interactive work.kind) p.queue
    || leb ((p.config.max_queued + 1) / 2) (length p.queue)

-- The turn's class: after four interactive turns in a row any other kind comes first.
pub yields_turn : Provider → Bool
yields_turn p = leb 4 p.interactive_streak && any non_interactive p.queue

pub eligible : Provider → QueuedWork → Bool
unfolding yields_turn
eligible p = if yields_turn p then non_interactive else has_priority (min_priority p.queue)

-- `splice(index, 1)`, which at -1 takes the last item.
abbrev splice_chosen : Option (ℕ × ℕ) → List QueuedWork → Option (QueuedWork × List QueuedWork)
splice_chosen none queue = take_at (length queue - 1) queue
splice_chosen (some (index, _)) queue = take_at index queue

abbrev after_taking : Provider → QueuedWork → List QueuedWork → Provider
after_taking p work queue = record p {
  queue = queue;
  interactive_streak = if is_interactive work.kind then p.interactive_streak + 1 else 0;
}

abbrev with_taken :
    Provider → Option (QueuedWork × List QueuedWork) → Option (QueuedWork × Provider)
with_taken p none = none
with_taken p (some (work, queue)) = some (work, after_taking p work queue)

pub take_next : Provider → Option (QueuedWork × Provider)
take_next p = with_taken p (splice_chosen (oldest_index (eligible p) p.queue) p.queue)

-- One round of the loop of `#pump`: its condition and its body.
pub can_start : Provider → Bool
can_start p = p.accepting && ltb (length p.active) p.config.max_concurrent && ltb 0 (length p.queue)

abbrev started : QueuedWork → Provider → Provider
started work p = record p {
  active = p.active ++ record { work = work; signal_aborted = false } ∷ [];
  passed_on = work ∷ p.passed_on;
}

abbrev start : Option (QueuedWork × Provider) → Option Provider
start none = none
start (some (work, q)) = some (started work q)

pump_loop : ℕ → Provider → Provider
pump_loop zero p = p
pump_loop (suc fuel) p = elim (can_start p) [
  | true ↦ elim (start (take_next p)) [ none ↦ p | some q ↦ pump_loop fuel q ]
  | false ↦ p
]

-- Each round takes one item off the queue, so its length is fuel enough.
pub pump : Provider → Provider
unfolding pump_loop
pump p = pump_loop (length p.queue) p

pub notify_idle : Provider → Provider
notify_idle p =
    if ltb 0 (length p.active) || ltb 0 (length p.queue)
    then p
    else record p { idle_waiters = 0; shutdowns_done = p.shutdowns_done + p.idle_waiters }

pub data Submission : Type 0 where
  refused : Rejection → Submission
  queued : ℕ → Submission

abbrev new_work : Provider → Request → QueuedWork
new_work p r = record {
  sequence = p.sequence;
  kind = work_kind r;
  identity_id = identity_of r;
  request = r;
}

abbrev enqueue : Provider → Request → Provider
enqueue p r = record p { sequence = p.sequence + 1; queue = p.queue ++ new_work p r ∷ [] }

-- The early returns of `generateTurn`; `none` is none of them.
pub refusal : Provider → Request → Option Rejection
refusal p r =
    if not p.accepting
    then some shutting_down
    else if r.signal_aborted
    then some aborted
    else if is_passive (work_kind r) && any (passive_of (identity_of r)) p.queue
    then some passive_coalesced
    else if is_title (work_kind r) && under_pressure p
    then some title_discarded
    else if leb p.config.max_queued (length p.queue)
    then some overloaded
    else if leb p.config.max_queued_per_identity (count (of_identity (identity_of r)) p.queue)
    then some identity_overloaded
    else none

pub generate_turn : Provider → Request → Provider × Submission
generate_turn p r = elim (refusal p r) [
  | some reason ↦ (p, refused reason)
  | none ↦ (pump (enqueue p r), queued p.sequence)
]

abbrev pub settle : ℕ → Settlement → Provider → Provider
settle sequence how p = record p { settled = p.settled ++ (sequence, how) ∷ [] }

abbrev pub has_sequence : ℕ → QueuedWork → Bool
has_sequence n work = eqb work.sequence n

abbrev pub runs_sequence : ℕ → Active → Bool
runs_sequence n a = has_sequence n a.work

abbrev abort_running : ℕ → Active → Active
abort_running n a = if runs_sequence n a then record a { signal_aborted = true } else a

-- The request's signal fires: `onAbort` while the turn waits, the joined signal while it runs.
pub abort_request : ℕ → Provider → Provider
abort_request n p = elim (take_first (has_sequence n) p.queue) [
  | none ↦ record p { active = map (abort_running n) p.active }
  | some (work, queue) ↦ notify_idle (settle n (rejected aborted) (record p { queue = queue }))
]

-- The provider's promise settles: `resolve` or `reject`, then `#finish`.
pub finish : ℕ → Settlement → Provider → Provider
finish n how p = elim (take_first (runs_sequence n) p.active) [
  | none ↦ p
  | some (a, active) ↦ notify_idle (pump (settle n how (record p { active = active })))
]

abbrev pub reject_queued : QueuedWork → ℕ × Settlement
reject_queued work = (work.sequence, rejected shutting_down)

abbrev drained : Provider → Provider
drained p = record p {
  accepting = false;
  queue = [];
  settled = p.settled ++ map reject_queued p.queue;
}

-- `shutdown` up to its wait.
pub shutdown : Provider → Provider
shutdown p =
    if ltb 0 (length p.active)
    then record (drained p) { idle_waiters = p.idle_waiters + 1 }
    else record (drained p) { shutdowns_done = p.shutdowns_done + 1 }

abbrev abort_active : Active → Active
abort_active a = record a { signal_aborted = true }

-- The timer of a `shutdown` that still waits.
pub grace_expired : Provider → Provider
grace_expired p =
    if ltb 0 p.idle_waiters then record p { active = map abort_active p.active } else p

pub data Event : Type 0 where
  submits : Request → Event
  aborts : ℕ → Event
  responds fails : ℕ → Event
  shuts_down expires : Event

pub step : Provider → Event → Provider
step p (submits r) = (generate_turn p r).0
step p (aborts n) = abort_request n p
step p (responds n) = finish n resolved p
step p (fails n) = finish n failed p
step p shuts_down = shutdown p
step p expires = grace_expired p

pub run : Provider → List Event → Provider
run p [] = p
run p (e ∷ es) = run (step p e) es
