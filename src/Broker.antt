-- ===== src/Broker.antt =====
-- The broker that routes a turn's tool calls to the desktops of its identity:
-- src/surfaces/api/devices/tool-broker.ts, with the queries of device-registry.ts that it makes.
-- `toLowerCase` is an argument. The HTTP layer is what it hands over: the method, the path, the bearer token,
-- the parsed body, and whether the turn's signal was aborted before and after the body was read.
pub mod Route
pub mod Targets
pub mod Served
pub mod Writes
pub mod Isolation
mod Tests
use sandi.Prelude.{
  ℕ, zero, suc, String, ◌==◌, Bool, true, false, not, ◌&&◌, ◌||◌, Option, none, some, List, [], ◌∷◌,
  filter, find, length, if◌then◌else◌, eqb,
}
use sandi.Prelude.Text.{trim, take_chars, is_empty}
use sandi.Prelude.Dict.{Dict, lookup, insert, erase, values}
use sandi.Devices.Link.{ConnectionState, DeviceRegistry, state_at}
use sandi.Devices.{connection}

pub record Desktop : Type 0 where
  pub key : String
  pub device_id : String

-- `desktopsForIdentity`
abbrev pub desktop_of : String → Option ConnectionState → List Desktop → List Desktop
desktop_of identity none rest = rest
desktop_of identity (some state) rest =
    if not state.closed && (state.identity_id == identity)
    then record { key = state.key; device_id = state.device_id } ∷ rest
    else rest

pub desktops_loop : String → List ConnectionState → List ℕ → List Desktop
desktops_loop identity states [] = []
desktops_loop identity states (serial ∷ serials) =
    desktop_of identity (state_at serial states) (desktops_loop identity states serials)

pub desktops_for_identity : String → DeviceRegistry → List Desktop
unfolding desktops_loop values
desktops_for_identity identity r = desktops_loop identity r.states (values r.connections)

-- `keyForIdentity`: the last key that fits.
abbrev key_of : String → Option ConnectionState → Option String → Option String
key_of identity none key = key
key_of identity (some state) key =
    if not state.closed && (state.identity_id == identity) then some state.key else key

abbrev key_loop : String → List ConnectionState → List ℕ → Option String → Option String
key_loop identity states [] key = key
key_loop identity states (serial ∷ serials) key =
    key_loop identity states serials (key_of identity (state_at serial states) key)

pub key_for_identity : String → DeviceRegistry → Option String
unfolding values
key_for_identity identity r = key_loop identity r.states (values r.connections) none

-- `identityForKey`
abbrev identity_of_state : Option ConnectionState → Option String
identity_of_state none = none
identity_of_state (some state) = if state.closed then none else some state.identity_id

pub identity_for_key : String → DeviceRegistry → Option String
identity_for_key key r = identity_of_state (connection key r)

pub record TurnBinding : Type 0 where
  pub key : String
  pub aborted : Bool
  pub delivers_file : Bool
  pub turn_id : Option String
  pub identity_id : Option String
  pub origin_device : Bool

pub record ToolBroker : Type 0 where
  pub turns : Dict TurnBinding
  pub url : Option String

-- `lease`; `none` is its throw before the start. The random token is an argument.
unfoldable pub lease :
    (token key : String) (turn_id : Option String) (origin_device delivers_file : Bool)
    → DeviceRegistry
    → ToolBroker
    → Option ToolBroker
unfolding identity_for_key
lease token key turn_id origin_device delivers_file r broker = elim broker.url [
  | none ↦ none
  | some url ↦ some (record broker {
    turns =
        insert token
          (record {
            key = key;
            aborted = false;
            delivers_file = delivers_file;
            turn_id = turn_id;
            identity_id = identity_for_key key r;
            origin_device = origin_device;
          })
          broker.turns;
  })
]

-- The lease's `revoke`, and `stop`.
pub revoke : String → ToolBroker → ToolBroker
revoke token broker = record broker { turns = erase token broker.turns }

pub stop : ToolBroker → ToolBroker
stop broker = record { turns = []; url = none }

-- The messages of the refusals, by what they are made of.
pub data Refusal : Type 0 where
  several_desktops : List Desktop → Refusal
  unknown_desktop : String → List Desktop → Refusal

pub data Target : Type 0 where
  reaches : String → Target
  refuses : Refusal → Target

-- `#defaultDesktop`
abbrev sole : String → List Desktop → Target
sole key [] = reaches key
sole key (only ∷ []) = reaches only.key
sole key (one ∷ two ∷ more) = refuses (several_desktops (one ∷ two ∷ more))

abbrev default_of : TurnBinding → Option String → DeviceRegistry → Target
unfolding desktops_for_identity
default_of binding none r = reaches binding.key
default_of binding (some identity) r =
    if binding.origin_device
    then reaches binding.key
    else sole binding.key (desktops_for_identity identity r)

pub default_desktop : TurnBinding → DeviceRegistry → Target
unfolding default_of
default_desktop binding r = default_of binding binding.identity_id r

-- Of `#resolveDesktop`: the desktop of a short id, or else the only one of a name.
abbrev only_key : List Desktop → Option String
only_key [] = none
only_key (only ∷ []) = some only.key
only_key (one ∷ two ∷ more) = none

abbrev by_id_or_name : Option Desktop → List Desktop → Option String
by_id_or_name none named = only_key named
by_id_or_name (some desktop) named = some desktop.key

-- Of `#targetDesktop`.
abbrev identity_desktops : Option String → DeviceRegistry → List Desktop
unfolding desktops_for_identity
identity_desktops none r = []
identity_desktops (some identity) r = desktops_for_identity identity r

abbrev found_or_unknown : Option String → String → List Desktop → Target
found_or_unknown none selector desktops = refuses (unknown_desktop selector desktops)
found_or_unknown (some key) selector desktops =
    if is_empty key then refuses (unknown_desktop selector desktops) else reaches key

module _ (to_lower : String → String) where
  pub short_id : String → String
  unfolding take_chars
  short_id key = to_lower (take_chars 8 key)

  -- `#resolveDesktop`
  abbrev resolve_among : List Desktop → String → Option String
  unfolding short_id
  resolve_among desktops wanted =
      by_id_or_name (find (λ d. short_id d.key == wanted) desktops)
        (filter (λ d. to_lower d.device_id == wanted) desktops)

  abbrev resolve_for : Option String → String → DeviceRegistry → Option String
  unfolding desktops_for_identity resolve_among
  resolve_for none selector r = none
  resolve_for (some identity) selector r =
      resolve_among (desktops_for_identity identity r) (to_lower (trim selector))

  pub resolve_desktop : TurnBinding → String → DeviceRegistry → Option String
  unfolding resolve_for
  resolve_desktop binding selector r = resolve_for binding.identity_id selector r

  -- `#targetDesktop`
  pub target_desktop : TurnBinding → Option String → DeviceRegistry → Target
  unfolding default_desktop resolve_desktop identity_desktops
  target_desktop binding none r = default_desktop binding r
  target_desktop binding (some selector) r =
      found_or_unknown (resolve_desktop binding selector r) selector
        (identity_desktops binding.identity_id r)
