-- ===== src/Devices/Calls.antt =====
-- The tool calls of the device registry: src/surfaces/api/devices/device-registry.ts.
use sandi.Prelude.{
  ℕ, ◌+◌, String, Bool, true, false, not, ◌||◌, Option, none, some, [], ◌∷◌, ◌++◌, if◌then◌else◌,
  eqb, leb, any, length,
}
use sandi.Prelude.Dict.{lookup}
use sandi.Devices.Link.{
  ToolCallOutcome, CallEnd, resolved, device_unavailable, turn_aborted, ConnectionState, tool_call,
  tool_cancel, response_event, WriteResult, DeviceRegistry, max_pending_calls_per_device, state_at,
  set_state, settle_once,
}
use sandi.Devices.{is_serial, teardown, write_event, connection, delete_call}

-- `dispatch` up to its `await`: the link object that it goes on with, or `none` for its refusal.
abbrev pub open_state : Option ConnectionState → Option ℕ
open_state none = none
open_state (some state) = if state.closed then none else some state.serial

abbrev pub dispatch_target : String → DeviceRegistry → Option ℕ
dispatch_target key r = open_state (connection key r)

-- What `dispatch` gives: an error at once, or a pending call.
pub data Dispatch : Type 0 where
  refused : CallEnd → Dispatch
  dispatched : ℕ → Dispatch

-- The part of the promise after the write of the event.
unfoldable pub finish_dispatch : ℕ → ℕ → DeviceRegistry × Bool → DeviceRegistry
unfolding teardown delete_call
finish_dispatch serial id (r, true) = r
finish_dispatch serial id (r, false) =
    let closed = teardown serial (delete_call serial id r) in
    record closed { settled = settle_once id device_unavailable closed.settled }

unfoldable pub start_call : WriteResult → ConnectionState → DeviceRegistry → DeviceRegistry
unfolding write_event finish_dispatch
start_call w state r = finish_dispatch state.serial r.next_call (
    write_event w state.serial (tool_call r.next_call) (record r {
      next_call = r.next_call + 1;
      states = set_state (record state { pending = state.pending ++ r.next_call ∷ [] }) r.states;
    }))

unfoldable pub resume_state :
    String
    → (authorized aborted : Bool) → WriteResult
    → Option ConnectionState
    → DeviceRegistry
    → DeviceRegistry × Dispatch
unfolding teardown start_call
resume_state key authorized aborted w none r = (r, refused device_unavailable)
resume_state key authorized aborted w (some state) r =
    if not authorized
    then (teardown state.serial r, refused device_unavailable)
    else if state.closed
        || not (is_serial state.serial (lookup key r.connections))
        || state.backpressured
        || leb max_pending_calls_per_device (length state.pending)
    then (r, refused device_unavailable)
    else if aborted
    then (r, refused turn_aborted)
    else (start_call w state r, dispatched r.next_call)

-- `dispatch` from its `await` on, with the answer of `#authorized` and the signal's state.
unfoldable pub dispatch_resume :
    String
    → ℕ
    → (authorized aborted : Bool) → WriteResult
    → DeviceRegistry
    → DeviceRegistry × Dispatch
unfolding resume_state
dispatch_resume key serial authorized aborted w r =
    resume_state key authorized aborted w (state_at serial r.states) r

-- `#cancel`
unfoldable pub finish_cancel : ℕ → DeviceRegistry × Bool → DeviceRegistry
unfolding teardown
finish_cancel serial (r, true) = r
finish_cancel serial (r, false) = teardown serial r

unfoldable pub cancel_state :
    WriteResult → ℕ → Option ConnectionState → DeviceRegistry → DeviceRegistry
unfolding write_event finish_cancel
cancel_state w id none r = r
cancel_state w id (some state) r =
    if state.closed
    then r
    else finish_cancel state.serial (write_event w state.serial (tool_cancel id) r)

unfoldable pub cancel : WriteResult → ℕ → ℕ → DeviceRegistry → DeviceRegistry
unfolding cancel_state
cancel w serial id r = cancel_state w id (state_at serial r.states) r

-- What the abort listener and the backstop timer do to a pending call.
unfoldable pub give_up_state :
    WriteResult → ℕ → CallEnd → Option ConnectionState → DeviceRegistry → DeviceRegistry
unfolding cancel delete_call
give_up_state w id how none r = r
give_up_state w id how (some state) r =
    if any (eqb id) state.pending
    then (let cancelled = cancel w state.serial id (delete_call state.serial id r) in
        record cancelled { settled = settle_once id how cancelled.settled })
    else r

unfoldable pub give_up : WriteResult → ℕ → ℕ → CallEnd → DeviceRegistry → DeviceRegistry
unfolding give_up_state
give_up w serial id how r = give_up_state w id how (state_at serial r.states) r

-- `settleResult`
unfoldable pub settle_state :
    ℕ → ToolCallOutcome → Option ConnectionState → DeviceRegistry → DeviceRegistry × Bool
unfolding delete_call
settle_state id outcome none r = (r, false)
settle_state id outcome (some state) r =
    if any (eqb id) state.pending
    then (let left = delete_call state.serial id r in
        (record left { settled = settle_once id (resolved outcome) left.settled }, true))
    else (r, false)

unfoldable pub settle_result : String → ℕ → ToolCallOutcome → DeviceRegistry → DeviceRegistry × Bool
unfolding settle_state
settle_result key id outcome r = settle_state id outcome (connection key r) r

-- `#emit`
unfoldable pub emit_state : WriteResult → String → Option ℕ → DeviceRegistry → DeviceRegistry × Bool
unfolding write_event
emit_state w payload none r = (r, false)
emit_state w payload (some serial) r = write_event w serial (response_event payload) r

unfoldable pub emit : WriteResult → String → String → DeviceRegistry → DeviceRegistry × Bool
unfolding emit_state
emit w key payload r = emit_state w payload (open_state (connection key r)) r
