-- ===== src/Devices/History.antt =====
-- Histories of the device registry: src/surfaces/api/devices/device-registry.ts. A turn's abort and the
-- backstop name the link object that holds the call, as their closures do; a `dispatch` resumes with the
-- link object that it found.
use sandi.Prelude.{ℕ, String, Bool, List, [], ◌∷◌}
use sandi.Devices.Link.{ToolCallOutcome, turn_aborted, timed_out, WriteResult, DeviceRegistry}
use sandi.Devices.{connect, drained, teardown}
use sandi.Devices.Calls.{dispatch_resume, give_up, settle_result, emit}
use sandi.Devices.Upkeep.{TokenEntry, heartbeat, retain_authorized_tokens, close_all}

pub data Event : Type 0 where
  connects : (key device_id identity_id : String) (backpressured : Bool) → Event
  drains closes : (serial : ℕ) → Event
  resumes : (key : String) (serial : ℕ) (authorized aborted : Bool) (w : WriteResult) → Event
  aborts times_out : (w : WriteResult) (serial id : ℕ) → Event
  answers : (key : String) (id : ℕ) (outcome : ToolCallOutcome) → Event
  emits : (w : WriteResult) (key payload : String) → Event
  beats : (serial : ℕ) (authorized : Bool) (w : WriteResult) → Event
  retains : (entries : List TokenEntry) → Event
  shuts_down : Event

unfoldable pub step : Event → DeviceRegistry → DeviceRegistry
step (connects key device_id identity_id backpressured) r =
    connect key device_id identity_id backpressured r
step (drains serial) r = drained serial r
step (closes serial) r = teardown serial r
step (resumes key serial authorized aborted w) r =
    (dispatch_resume key serial authorized aborted w r).0
step (aborts w serial id) r = give_up w serial id turn_aborted r
step (times_out w serial id) r = give_up w serial id timed_out r
step (answers key id outcome) r = (settle_result key id outcome r).0
step (emits w key payload) r = (emit w key payload r).0
step (beats serial authorized w) r = heartbeat serial authorized w r
step (retains entries) r = retain_authorized_tokens entries r
step shuts_down r = close_all r

unfoldable pub run : List Event → DeviceRegistry → DeviceRegistry
unfolding step
run [] r = r
run (event ∷ events) r = run events (step event r)
