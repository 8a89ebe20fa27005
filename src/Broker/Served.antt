-- ===== src/Broker/Served.antt =====
-- What the handlers of a turn's requests reach: src/surfaces/api/devices/tool-broker.ts over the
-- histories of src/surfaces/api/devices/device-registry.ts.
use sandi.Prelude.{
  ℕ, ◌≡◌, refl, sym, subst, ap, ◌∙◌, ◌⊎◌, String, ◌==◌, Bool, true, false, Option, none, some, List,
  arith, if_ind,
}
use sandi.Prelude.Dict.{lookup}
use sandi.Devices.Link.{ConnectionState, WriteResult, DeviceRegistry, state_at}
use sandi.Devices.{state_of}
use sandi.Devices.Calls.{dispatch_target, open_state, emit}
use sandi.Devices.States.{state_at-serial}
use sandi.Devices.Consistent.{Consistent, Registered, Opened}
use sandi.Broker.{TurnBinding, Target, reaches, refuses, target_desktop}
use sandi.Broker.Route.{
  BrokerCall, Relayed, FileRequest, Handled, Reply, replied, awaits_call, awaits_file, await_call,
  await_file, call_target, file_target, handle_call, handle_file, relay_reply, relay, names_turn,
}
use sandi.Broker.Targets.{OwnedBy, Allowed, target_desktop-Allowed}

-- An open link of the turn's own key, or of its identity.
abbrev pub Mine : TurnBinding → Option ConnectionState → Type 0
Mine binding none = ⊥
Mine binding (some state) =
    (state.closed ≡ false)
    × ((state.key ≡ binding.key) ⊎ (binding.identity_id ≡ some state.identity_id))

-- What a request with a turn's token comes to: a reply, or a call to such a link while the turn goes on. A
-- file is asked for only where the turn delivers files.
abbrev pub ServedFor : TurnBinding → List ConnectionState → Handled → Type 0
ServedFor binding states (replied reply) = Unit {0}
ServedFor binding states (awaits_call serial) =
    (binding.aborted ≡ false) × Mine binding (state_at serial states)
ServedFor binding states (awaits_file serial) =
    (binding.aborted ≡ false)
    × (binding.delivers_file ≡ true)
    × Mine binding (state_at serial states)

-- The same for the turn that a token names; without a turn, there is a reply.
abbrev pub Served : Option TurnBinding → List ConnectionState → Handled → Type 0
Served none states (replied reply) = Unit {0}
Served none states (awaits_call serial) = ⊥
Served none states (awaits_file serial) = ⊥
Served (some binding) states handled = ServedFor binding states handled

pub Served-replied :
    (o : Option TurnBinding) (states : List ConnectionState) (reply : Reply)
    → Served o states (replied reply)
Served-replied none states reply = tt
Served-replied (some binding) states reply = tt

module _ (r : DeviceRegistry) (h : Consistent r) where
  module _ (binding : TurnBinding) where
    -- What a key's `dispatch` goes on with.
    abbrev Opens : Option ℕ → Type 0
    Opens none = Unit {0}
    Opens (some serial) = Mine binding (state_at serial r.states)

    state-Opens :
        (key : String) (at : Option ℕ)
        → (key ≡ binding.key) ⊎ OwnedBy binding.identity_id (state_of at r.states)
        → Registered key at r.states
        → Opens (open_state (state_of at r.states))
    state-Opens key none allowed registered = tt
    state-Opens key (some serial) allowed registered =
        go (state_at serial r.states) refl allowed registered
      where
        go :
            (o : Option ConnectionState)
            → state_at serial r.states ≡ o
            → (key ≡ binding.key) ⊎ OwnedBy binding.identity_id o
            → Opened key o
            → Opens (open_state o)
        go none found allowed opened = tt
        go (some state) found allowed opened =
            if_ind Opens state.closed (λ _. tt)
              (λ _.
                subst (Mine binding)
                  (sym (
                    ap (λ s. state_at s r.states) (state_at-serial serial r.states state found)
                    ∙ found))
                  (opened.1, ground (arith, allowed, opened)))

    module _ (live : binding.aborted ≡ false) where
      await_call-ServedFor : (o : Option ℕ) → Opens o → ServedFor binding r.states (await_call o)
      await_call-ServedFor none opens = tt
      await_call-ServedFor (some serial) opens = (live, opens)

      call_target-ServedFor :
          (t : Target) → Allowed r h binding t → ServedFor binding r.states (call_target t r)
      unfolding call_target
      call_target-ServedFor (refuses why) allowed = tt
      call_target-ServedFor (reaches key) allowed =
          await_call-ServedFor (dispatch_target key r)
            (state-Opens key (lookup key r.connections) allowed (h.registered key))

      await_file-ServedFor :
          (o : Option ℕ)
          → binding.delivers_file ≡ true
          → Opens o
          → ServedFor binding r.states (await_file o)
      await_file-ServedFor none delivers opens = tt
      await_file-ServedFor (some serial) delivers opens = (live, delivers, opens)

      file_target-ServedFor :
          (t : Target)
          → binding.delivers_file ≡ true
          → Allowed r h binding t
          → ServedFor binding r.states (file_target t r)
      unfolding file_target
      file_target-ServedFor (refuses why) delivers allowed = tt
      file_target-ServedFor (reaches key) delivers allowed =
          await_file-ServedFor (dispatch_target key r) delivers
            (state-Opens key (lookup key r.connections) allowed (h.registered key))

      pub handle_call-ServedFor :
          (to_lower : String → String) (o : Option BrokerCall)
          → ServedFor binding r.states (handle_call to_lower binding o r)
      unfolding handle_call
      handle_call-ServedFor to_lower none = tt
      handle_call-ServedFor to_lower (some call) =
          if_ind (ServedFor binding r.states) (call.tool == "local_transfer_file") (λ _. tt)
            (λ _.
              if_ind (ServedFor binding r.states) (call.tool == "local_list_desktops") (λ _. tt)
                (λ _.
                  call_target-ServedFor (target_desktop to_lower binding call.desktop r)
                    (target_desktop-Allowed r h to_lower binding call.desktop)))

      pub handle_file-ServedFor :
          (to_lower : String → String) (o : Option FileRequest)
          → binding.delivers_file ≡ true
          → ServedFor binding r.states (handle_file to_lower binding o r)
      unfolding handle_file
      handle_file-ServedFor to_lower none delivers = tt
      handle_file-ServedFor to_lower (some file) delivers =
          file_target-ServedFor (target_desktop to_lower binding file.desktop r) delivers
            (target_desktop-Allowed r h to_lower binding file.desktop)

      pub relay-ServedFor :
          (w : WriteResult) (invalid : String) (o : Option Relayed)
          → ServedFor binding r.states (relay w binding invalid o r).1
      unfolding relay
      relay-ServedFor w invalid none = tt
      relay-ServedFor w invalid (some message) =
          if_ind (λ (result : DeviceRegistry × Handled). ServedFor binding r.states result.1)
            (names_turn binding.turn_id message.turn_id)
            (λ _. go (emit w binding.key message.payload r)) (λ _. tt)
        where
          go : (result : DeviceRegistry × Bool) → ServedFor binding r.states (relay_reply result).1
          go (after, true) = tt
          go (after, false) = tt
