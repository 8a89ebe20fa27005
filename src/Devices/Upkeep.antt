-- ===== src/Devices/Upkeep.antt =====
-- The heartbeat, the revocation of tokens and the shutdown of the device registry:
-- src/surfaces/api/devices/device-registry.ts.
use sandi.Prelude.{
  ℕ, String, ◌==◌, Bool, true, not, ◌&&◌, ◌||◌, Option, none, some, List, [], ◌∷◌, if◌then◌else◌,
  any,
}
use sandi.Prelude.Dict.{values}
use sandi.Devices.Link.{
  ConnectionState, WriteResult, flushed, buffered, threw, DeviceRegistry, state_at, set_state,
}
use sandi.Devices.{teardown}

-- `#heartbeat` from its `await` on.
unfoldable pub ping_state : WriteResult → ConnectionState → DeviceRegistry → DeviceRegistry
unfolding teardown
ping_state flushed state r = r
ping_state buffered state r = record r {
  states = set_state (record state { backpressured = true }) r.states;
}
ping_state threw state r = teardown state.serial r

unfoldable pub heartbeat_state :
    (authorized : Bool) → WriteResult → Option ConnectionState → DeviceRegistry → DeviceRegistry
unfolding teardown ping_state
heartbeat_state authorized w none r = r
heartbeat_state authorized w (some state) r =
    if not authorized || state.backpressured then teardown state.serial r else ping_state w state r

unfoldable pub heartbeat : ℕ → (authorized : Bool) → WriteResult → DeviceRegistry → DeviceRegistry
unfolding heartbeat_state
heartbeat serial authorized w r = heartbeat_state authorized w (state_at serial r.states) r

-- `retainAuthorizedTokens` and `closeAll`, over a copy of the registered links.
pub record TokenEntry : Type 0 where
  pub token_sha256 : String
  pub identity_id : String
  pub device_id : String

abbrev pub authorizes : Option ConnectionState → TokenEntry → Bool
authorizes none entry = true
authorizes (some state) entry =
    (entry.token_sha256 == state.key)
    && (entry.identity_id == state.identity_id)
    && (entry.device_id == state.device_id)

unfoldable pub retain_loop : List TokenEntry → List ℕ → DeviceRegistry → DeviceRegistry
unfolding teardown
retain_loop entries [] r = r
retain_loop entries (serial ∷ serials) r =
    retain_loop entries serials
      (if any (authorizes (state_at serial r.states)) entries then r else teardown serial r)

unfoldable pub retain_authorized_tokens : List TokenEntry → DeviceRegistry → DeviceRegistry
unfolding retain_loop values
retain_authorized_tokens entries r = retain_loop entries (values r.connections) r

unfoldable pub close_loop : List ℕ → DeviceRegistry → DeviceRegistry
unfolding teardown
close_loop [] r = r
close_loop (serial ∷ serials) r = close_loop serials (teardown serial r)

unfoldable pub close_all : DeviceRegistry → DeviceRegistry
unfolding close_loop values
close_all r = close_loop (values r.connections) r
