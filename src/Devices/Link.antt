-- ===== src/Devices/Link.antt =====
-- The data of the device registry: src/surfaces/api/devices/device-registry.ts. A `ConnectionState` is an
-- object that closures and awaiting calls keep, so it has a serial number as its identity. A call's random
-- id is the number of the call.
use sandi.Prelude.{
  ℕ, String, Bool, Option, none, some, List, [], ◌∷◌, ◌++◌, if◌then◌else◌, eqb, any, filter, not,
}
use sandi.Prelude.Dict.{Dict}

-- `content`, `structuredContent` and `attachment` are JSON, as texts.
pub record ToolCallOutcome : Type 0 where
  pub ok : Bool
  pub content : String
  pub error : Option String
  pub is_error : Option Bool
  pub structured_content : Option String
  pub attachment : Option String

-- How a call's promise is settled.
pub data CallEnd : Type 0 where
  resolved : ToolCallOutcome → CallEnd
  device_unavailable turn_aborted timed_out : CallEnd

pub record ConnectionState : Type 0 where
  pub serial : ℕ
  pub key : String
  pub device_id : String
  pub identity_id : String
  pub pending : List ℕ
  pub backpressured : Bool
  pub closed : Bool

pub data DeviceEvent : Type 0 where
  tool_call : ℕ → DeviceEvent
  tool_cancel : ℕ → DeviceEvent
  response_event : String → DeviceEvent

-- What `state.write` does: true, false or a throw.
pub data WriteResult : Type 0 where
  flushed buffered threw : WriteResult

-- `states` holds every link object ever made; `sent` the events that `state.write` took, with the link's
-- serial number; `settled` the calls whose promise is settled.
pub record DeviceRegistry : Type 0 where
  pub connections : Dict ℕ
  pub states : List ConnectionState
  pub next_serial : ℕ
  pub next_call : ℕ
  pub settled : List (ℕ × CallEnd)
  pub sent : List (ℕ × DeviceEvent)

abbrev pub max_pending_calls_per_device : ℕ
max_pending_calls_per_device = 16

abbrev pub new_registry : DeviceRegistry
new_registry = record {
  connections = [];
  states = [];
  next_serial = 0;
  next_call = 0;
  settled = [];
  sent = [];
}

-- The object with a serial number, and a write to it.
unfoldable pub state_at : ℕ → List ConnectionState → Option ConnectionState
state_at serial [] = none
state_at serial (s ∷ states) =
    let rest = state_at serial states in if eqb s.serial serial then some s else rest

unfoldable pub set_state : ConnectionState → List ConnectionState → List ConnectionState
set_state state [] = []
set_state state (s ∷ states) =
    let rest = s ∷ set_state state states in
    if eqb s.serial state.serial then state ∷ states else rest

-- A promise takes its first settlement only.
abbrev pub settles_call : ℕ → ℕ × CallEnd → Bool
settles_call id (other, how) = eqb other id

abbrev pub settle_once : ℕ → CallEnd → List (ℕ × CallEnd) → List (ℕ × CallEnd)
settle_once id how settled =
    if any (settles_call id) settled then settled else settled ++ (id, how) ∷ []

unfoldable pub reject_all : List ℕ → List (ℕ × CallEnd) → List (ℕ × CallEnd)
reject_all [] settled = settled
reject_all (id ∷ ids) settled = reject_all ids (settle_once id device_unavailable settled)

-- `pending.delete(id)`
abbrev pub without : ℕ → List ℕ → List ℕ
without id ids = filter (λ other. not (eqb other id)) ids
