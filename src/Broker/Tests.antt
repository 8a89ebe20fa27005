-- ===== src/Broker/Tests.antt =====
-- Requests to the broker, and its theorem at a concrete one.
use sandi.Prelude.{String, ◌==◌, ◌≡◌, refl, false, Option, none, some, List, [], ◌∷◌, if◌then◌else◌}
use sandi.Devices.Link.{flushed, state_at, set_state, new_registry}
use sandi.Devices.History.{Event, connects, run}
use sandi.Devices.{connect}
use sandi.Prelude.Dict.{lookup, insert, erase, values}
use sandi.Prelude.Text.{before_query, take_chars, trim}
use sandi.Broker.{key_for_identity, ToolBroker, lease, revoke, target_desktop}
use sandi.Broker.Route.{
  body_text, Request, BrokerCall, Relayed, FileRequest, replied, awaits_call, error_reply,
  authorize, handle, call_target,
}
use sandi.Broker.Served.{Served}
use sandi.Broker.Writes.{Carries, Writes}
use sandi.Broker.Isolation.{handle-Served}

abbrev same_text : String → String
same_text s = s

abbrev shell_call : String → Option BrokerCall
shell_call body =
    some (record { tool = "local_shell"; desktop = if body == "" then none else some body })

abbrev no_relay : String → Option Relayed
no_relay body = none

abbrev no_file : String → Option FileRequest
no_file body = none

abbrev two_desktops : List Event
two_desktops =
    connects "aaaaaaaa-1" "laptop" "ada" false
    ∷ connects "bbbbbbbb-2" "tower" "ada" false
    ∷ connects "cccccccc-3" "tower" "bob" false
    ∷ []

abbrev leased : ToolBroker
leased = record {
  turns =
      (
        "t1",
        record {
          key = "aaaaaaaa-1";
          aborted = false;
          delivers_file = false;
          turn_id = none;
          identity_id = some "ada";
          origin_device = false;
        },
      )
      ∷ [];
  url = some "http://127.0.0.1:1";
}

abbrev call : String → Request
call body = record {
  method = "POST";
  url = "/call?x=1";
  token = some "t1";
  body = body_text body;
  aborted = false;
}

lease_binds :
    lease "t1" "aaaaaaaa-1" none false false
      (run two_desktops new_registry)
      (record { turns = []; url = some "http://127.0.0.1:1" })
    ≡ some leased
unfolding run connect state_at set_state lookup insert erase values before_query take_chars trim
    call_target target_desktop lease
lease_binds = refl

last_key : key_for_identity "ada" (run two_desktops new_registry) ≡ some "bbbbbbbb-2"
unfolding run connect state_at set_state lookup insert erase values before_query take_chars trim
    call_target target_desktop key_for_identity
last_key = refl

by_name :
    (handle same_text shell_call no_relay no_relay no_file flushed
      (call "tower")
      leased
      (run two_desktops new_registry)).1
    ≡ awaits_call 1
unfolding run connect state_at set_state lookup insert erase values before_query take_chars trim
    call_target target_desktop handle
by_name = refl

after_revoke :
    (handle same_text shell_call no_relay no_relay no_file flushed
      (call "tower")
      (revoke "t1" leased)
      (run two_desktops new_registry)).1
    ≡ replied (error_reply 401 "unauthorized")
unfolding run connect state_at set_state lookup insert erase values before_query take_chars trim
    call_target target_desktop handle revoke
after_revoke = refl

handle-Served_example :
    let r = run two_desktops new_registry in
    let (after, handled) =
      handle same_text shell_call no_relay no_relay no_file flushed (call "tower") leased r in
    Served (authorize (some "t1") leased) r.states handled
    × Writes
        (Carries no_relay no_relay (before_query (call "tower").url) (call "tower").body)
        flushed
        (authorize (some "t1") leased)
        r
        after
handle-Served_example =
    handle-Served same_text shell_call no_relay no_relay no_file flushed two_desktops (call "tower")
      leased
