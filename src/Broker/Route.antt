-- ===== src/Broker/Route.antt =====
-- The requests that the broker answers: src/surfaces/api/devices/tool-broker.ts. The schemas of the bodies
-- are arguments that parse a body's text. A request that calls a desktop waits for the registry's `dispatch`,
-- and its answer after that is a function of how the call ends.
use sandi.Prelude.{
  ℕ, String, ◌==◌, Bool, true, false, not, ◌&&◌, ◌||◌, Option, none, some, List, [], ◌∷◌, map,
  if◌then◌else◌,
}
use sandi.Prelude.Text.{before_query, is_empty}
use sandi.Prelude.Dict.{lookup}
use sandi.Devices.Link.{
  ToolCallOutcome, CallEnd, resolved, device_unavailable, turn_aborted, timed_out, WriteResult,
  DeviceRegistry,
}
use sandi.Devices.Calls.{dispatch_target, emit}
use sandi.Broker.{
  Desktop, desktops_for_identity, TurnBinding, ToolBroker, Refusal, Target, reaches, refuses,
  short_id, target_desktop,
}

-- `readJsonBody`: its error, or the body.
pub data ReadBody : Type 0 where
  unreadable : ℕ → String → ReadBody
  body_text : String → ReadBody

-- `aborted` is the scoped signal's state once the body is read; `url` is the request's target.
pub record Request : Type 0 where
  pub method : String
  pub url : String
  pub token : Option String
  pub body : ReadBody
  pub aborted : Bool

pub record BrokerCall : Type 0 where
  pub tool : String
  pub desktop : Option String

pub record Relayed : Type 0 where
  pub turn_id : String
  pub payload : String

pub record FileRequest : Type 0 where
  pub path : String
  pub desktop : Option String

-- The answer of `local_list_desktops`.
pub record ListedDesktop : Type 0 where
  pub id : String
  pub name : String
  pub current : Bool

pub data Listing : Type 0 where
  not_addressable none_connected : Listing
  connected_desktops : List ListedDesktop → Listing

pub data Reply : Type 0 where
  error_reply : (status : ℕ) (error : String) → Reply
  listing_reply : Listing → Reply
  refused_reply : (status : ℕ) (why : Refusal) → Reply
  outcome_reply : ToolCallOutcome → Reply
  accepted_reply : Reply
  delivered_reply : (attachment : String) → Reply

-- What a request comes to: its reply, or the link object that `dispatch` goes on with.
pub data Handled : Type 0 where
  replied : Reply → Handled
  awaits_call awaits_file : (serial : ℕ) → Handled

-- `#authorize`
abbrev pub authorize : Option String → ToolBroker → Option TurnBinding
authorize none broker = none
authorize (some token) broker = if is_empty token then none else lookup token broker.turns

-- `dispatch` of a call, and of a file transfer: the 503 of a desktop that is gone, or the wait.
abbrev pub await_call : Option ℕ → Handled
await_call none = replied (error_reply 503 "device_unavailable")
await_call (some serial) = awaits_call serial

abbrev pub await_file : Option ℕ → Handled
await_file none = replied (error_reply 503 "device_unavailable")
await_file (some serial) = awaits_file serial

unfoldable pub call_target : Target → DeviceRegistry → Handled
call_target (refuses why) r = replied (refused_reply 200 why)
call_target (reaches key) r = await_call (dispatch_target key r)

unfoldable pub file_target : Target → DeviceRegistry → Handled
file_target (refuses why) r = replied (refused_reply 422 why)
file_target (reaches key) r = await_file (dispatch_target key r)

-- `#relay`, on a read body.
abbrev pub names_turn : Option String → String → Bool
names_turn none turn_id = true
names_turn (some leased) turn_id = turn_id == leased

abbrev pub relay_reply : DeviceRegistry × Bool → DeviceRegistry × Handled
relay_reply (r, true) = (r, replied accepted_reply)
relay_reply (r, false) = (r, replied (error_reply 503 "device_unavailable"))

unfoldable pub relay :
    WriteResult → TurnBinding → String → Option Relayed → DeviceRegistry → DeviceRegistry × Handled
relay w binding invalid none r = (r, replied (error_reply 400 invalid))
relay w binding invalid (some message) r =
    if names_turn binding.turn_id message.turn_id
    then relay_reply (emit w binding.key message.payload r)
    else (r, replied (error_reply 409 "turn_mismatch"))

-- `knownPath`
abbrev pub known_path : String → Bool
known_path path =
    path == "/call" || path == "/stream" || path == "/attachment" || path == "/discord-file"

module _ (to_lower : String → String) where
  -- `#listDesktops`
  abbrev listed : String → Desktop → ListedDesktop
  unfolding short_id
  listed key desktop = record {
    id = short_id to_lower desktop.key;
    name = desktop.device_id;
    current = desktop.key == key;
  }

  abbrev listing_of : String → List Desktop → Listing
  unfolding listed
  listing_of key [] = none_connected
  listing_of key (desktop ∷ desktops) = connected_desktops (map (listed key) (desktop ∷ desktops))

  abbrev list_for : TurnBinding → Option String → DeviceRegistry → Listing
  unfolding listing_of desktops_for_identity
  list_for binding none r = not_addressable
  list_for binding (some identity) r = listing_of binding.key (desktops_for_identity identity r)

  pub list_desktops : TurnBinding → DeviceRegistry → Listing
  unfolding list_for
  list_desktops binding r = list_for binding binding.identity_id r

  unfoldable pub handle_call : TurnBinding → Option BrokerCall → DeviceRegistry → Handled
  unfolding list_desktops target_desktop
  handle_call binding none r = replied (error_reply 400 "invalid_call")
  handle_call binding (some call) r =
      if call.tool == "local_transfer_file"
      then replied (error_reply 400 "private_call")
      else if call.tool == "local_list_desktops"
      then replied (listing_reply (list_desktops binding r))
      else call_target (target_desktop to_lower binding call.desktop r) r

  -- `#handleDiscordFile` up to its `dispatch`, on a read body.
  unfoldable pub handle_file : TurnBinding → Option FileRequest → DeviceRegistry → Handled
  unfolding target_desktop
  handle_file binding none r = replied (error_reply 400 "invalid_discord_file")
  handle_file binding (some file) r = file_target (target_desktop to_lower binding file.desktop r) r

  module _ (parse_call : String → Option BrokerCall)
      (parse_chunk parse_attachment : String → Option Relayed)
      (parse_file : String → Option FileRequest) (w : WriteResult) where
    -- The handler of a path, on a body that is read while the turn goes on.
    unfoldable pub route : String → String → TurnBinding → DeviceRegistry → DeviceRegistry × Handled
    unfolding relay handle_file handle_call
    route path text binding r =
        if path == "/stream"
        then relay w binding "invalid_chunk" (parse_chunk text) r
        else if path == "/attachment"
        then relay w binding "invalid_attachment" (parse_attachment text) r
        else if path == "/discord-file"
        then (r, handle_file binding (parse_file text) r)
        else (r, handle_call binding (parse_call text) r)

    unfoldable pub with_body :
        ReadBody → String → Bool → TurnBinding → DeviceRegistry → DeviceRegistry × Handled
    unfolding route
    with_body (unreadable status error) path aborted binding r =
        (r, replied (error_reply status error))
    with_body (body_text text) path aborted binding r =
        if aborted then (r, replied (error_reply 401 "unauthorized")) else route path text binding r

    unfoldable pub with_binding :
        Option TurnBinding → String → Request → DeviceRegistry → DeviceRegistry × Handled
    unfolding with_body
    with_binding none path q r = (r, replied (error_reply 401 "unauthorized"))
    with_binding (some binding) path q r =
        if binding.aborted
        then (r, replied (error_reply 401 "unauthorized"))
        else if path == "/discord-file" && not binding.delivers_file
        then (r, replied (error_reply 409 "discord_delivery_unavailable"))
        else with_body q.body path q.aborted binding r

    -- `#handle`, up to the `dispatch` of a call.
    unfoldable pub handle : Request → ToolBroker → DeviceRegistry → DeviceRegistry × Handled
    unfolding with_binding
    handle q broker r =
        if (q.method == "POST") && known_path (before_query q.url)
        then with_binding (authorize q.token broker) (before_query q.url) q r
        else (r, replied (error_reply 404 "not_found"))

-- The answer to `/call` once the call has ended.
pub answer_call : CallEnd → Reply
answer_call (resolved outcome) = outcome_reply outcome
answer_call device_unavailable = error_reply 503 "device_unavailable"
answer_call turn_aborted = error_reply 504 "tool_call_failed"
answer_call timed_out = error_reply 504 "tool_call_failed"

-- The answer to `/discord-file`: `delivered` is whether the turn's callback took the file, and `aborted` the
-- signal's state.
abbrev error_of : Option String → String
error_of none = "desktop did not return a file"
error_of (some error) = error

abbrev deliver : Option String → Option String → Bool → Reply
deliver none error delivered = error_reply 422 (error_of error)
deliver (some attachment) error delivered =
    if delivered then delivered_reply attachment else error_reply 502 "discord_upload_failed"

abbrev not_transferred : Bool → Reply
not_transferred aborted =
    if aborted then error_reply 499 "cancelled" else error_reply 504 "desktop_transfer_failed"

pub answer_file : (aborted delivered : Bool) → CallEnd → Reply
answer_file aborted delivered (resolved outcome) =
    if outcome.ok
    then deliver outcome.attachment outcome.error delivered
    else error_reply 422 (error_of outcome.error)
answer_file aborted delivered device_unavailable = error_reply 503 "device_unavailable"
answer_file aborted delivered turn_aborted = not_transferred aborted
answer_file aborted delivered timed_out = not_transferred aborted
