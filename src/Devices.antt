-- ===== src/Devices.antt =====
-- The desktops that hold a link and the tool calls sent to them:
-- src/surfaces/api/devices/device-registry.ts. A method runs up to its first `await` as one step, and from
-- there as another, so other steps come between. What a write to a link's stream does is an argument.
pub mod Link
pub mod Calls
pub mod Upkeep
pub mod History
pub mod States
pub mod Keeps
pub mod Accounting
pub mod Moves
pub mod CallMoves
pub mod CallKeeps
pub mod Consistent
pub mod Linked
mod Tests
use sandi.Prelude.{
  ℕ, zero, suc, ◌+◌, String, ◌==◌, Bool, true, false, not, ◌&&◌, ◌||◌, Option, none, some, List, [],
  ◌∷◌, ◌++◌, if◌then◌else◌, eqb, leb, any, length,
}
use sandi.Prelude.Dict.{Dict, lookup, insert, erase, values}
use Link.{
  ToolCallOutcome, CallEnd, resolved, device_unavailable, turn_aborted, timed_out, ConnectionState,
  DeviceEvent, tool_call, tool_cancel, response_event, WriteResult, flushed, buffered, threw,
  DeviceRegistry, max_pending_calls_per_device, state_at, set_state, settles_call, settle_once,
  reject_all, without,
}

abbrev pub is_serial : ℕ → Option ℕ → Bool
is_serial serial none = false
is_serial serial (some other) = eqb other serial

-- `#teardown` of an open link.
abbrev pub close_state : ConnectionState → DeviceRegistry → DeviceRegistry
close_state state r = record r {
  connections =
      if is_serial state.serial (lookup state.key r.connections)
      then erase state.key r.connections
      else r.connections;
  states = set_state (record state { closed = true; pending = [] }) r.states;
  settled = reject_all state.pending r.settled;
}

abbrev pub teardown_state : Option ConnectionState → DeviceRegistry → DeviceRegistry
teardown_state none r = r
teardown_state (some state) r = if state.closed then r else close_state state r

unfoldable pub teardown : ℕ → DeviceRegistry → DeviceRegistry
teardown serial r = teardown_state (state_at serial r.states) r

-- `#writeEvent`, and whether it took the event.
abbrev pub took : ConnectionState → DeviceEvent → DeviceRegistry → DeviceRegistry
took state event r = record r { sent = r.sent ++ (state.serial, event) ∷ [] }

unfoldable pub write_open :
    WriteResult → ConnectionState → DeviceEvent → DeviceRegistry → DeviceRegistry × Bool
unfolding teardown
write_open flushed state event r = (took state event r, true)
write_open buffered state event r = (
  took state event
      (record r { states = set_state (record state { backpressured = true }) r.states }),
  true,
)
write_open threw state event r = (teardown state.serial r, false)

abbrev pub write_state :
    WriteResult → Option ConnectionState → DeviceEvent → DeviceRegistry → DeviceRegistry × Bool
unfolding write_open
write_state w none event r = (r, false)
write_state w (some state) event r =
    if state.closed || state.backpressured then (r, false) else write_open w state event r

unfoldable pub write_event : WriteResult → ℕ → DeviceEvent → DeviceRegistry → DeviceRegistry × Bool
unfolding write_state
write_event w serial event r = write_state w (state_at serial r.states) event r

-- `connect`; the handle's `close` is `teardown` of the serial number that it gives back.
abbrev pub supersede : Option ℕ → DeviceRegistry → DeviceRegistry
unfolding teardown
supersede none r = r
supersede (some existing) r = teardown existing r

abbrev pub add_link :
    (key device_id identity_id : String) (backpressured : Bool) → DeviceRegistry → DeviceRegistry
add_link key device_id identity_id backpressured r = record r {
  connections = insert key r.next_serial r.connections;
  states =
      record {
        serial = r.next_serial;
        key = key;
        device_id = device_id;
        identity_id = identity_id;
        pending = [];
        backpressured = backpressured;
        closed = false;
      }
      ∷ r.states;
  next_serial = r.next_serial + 1;
}

unfoldable pub connect :
    (key device_id identity_id : String) (backpressured : Bool) → DeviceRegistry → DeviceRegistry
unfolding supersede
connect key device_id identity_id backpressured r =
    add_link key device_id identity_id backpressured (supersede (lookup key r.connections) r)

-- The drain listener, which `#teardown` removes.
abbrev pub drained_state : Option ConnectionState → DeviceRegistry → DeviceRegistry
drained_state none r = r
drained_state (some state) r =
    if state.closed
    then r
    else record r { states = set_state (record state { backpressured = false }) r.states }

unfoldable pub drained : ℕ → DeviceRegistry → DeviceRegistry
drained serial r = drained_state (state_at serial r.states) r

-- The registered object of a key.
abbrev pub state_of : Option ℕ → List ConnectionState → Option ConnectionState
state_of none states = none
state_of (some serial) states = state_at serial states

abbrev pub connection : String → DeviceRegistry → Option ConnectionState
connection key r = state_of (lookup key r.connections) r.states

-- `state.pending.delete(id)` on the object.
abbrev pub delete_state : ℕ → Option ConnectionState → DeviceRegistry → DeviceRegistry
delete_state id none r = r
delete_state id (some state) r = record r {
  states = set_state (record state { pending = without id state.pending }) r.states;
}

unfoldable pub delete_call : ℕ → ℕ → DeviceRegistry → DeviceRegistry
delete_call serial id r = delete_state id (state_at serial r.states) r
