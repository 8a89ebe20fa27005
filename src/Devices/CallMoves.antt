-- ===== src/Devices/CallMoves.antt =====
-- The calls and the upkeep of the device registry as chains of small moves:
-- src/surfaces/api/devices/device-registry.ts.
use sandi.Prelude.{
  ℕ, ◌+◌, ◌≡◌, refl, Bool, true, false, not, ◌||◌, Option, none, some, List, [], ◌∷◌, ◌++◌,
  if◌then◌else◌, eqb, leb, any, length, length-append, arith, inl, inr, String, Bool-cases,
}
use sandi.Prelude.Dict.{lookup}
use sandi.Devices.Link.{
  ConnectionState, CallEnd, device_unavailable, resolved, tool_call, tool_cancel, response_event,
  WriteResult, flushed, buffered, threw, DeviceRegistry, state_at, set_state, settle_once,
  ToolCallOutcome, max_pending_calls_per_device,
}
use sandi.Devices.{teardown, write_event, delete_call, is_serial}
use sandi.Devices.Calls.{
  finish_dispatch, start_call, resume_state, finish_cancel, cancel_state, cancel, give_up_state,
  settle_state, emit_state,
}
use sandi.Devices.Upkeep.{
  ping_state, heartbeat_state, retain_loop, close_loop, TokenEntry, authorizes,
}
use sandi.Devices.Moves.{
  Moves, shuts, writes, notes, Moves-if, own, Moves-write_event, Moves-delete_call,
}

module _ (r : DeviceRegistry) where
  Moves-settle :
      (id : ℕ) (how : CallEnd) (m : DeviceRegistry)
      → Moves r m
      → Moves r (record m { settled = settle_once id how m.settled })
  Moves-settle id how m h = notes h m.next_call (settle_once id how m.settled) m.sent

  Moves-finish_dispatch :
      (serial id : ℕ) (result : DeviceRegistry × Bool)
      → Moves r result.0
      → Moves r (finish_dispatch serial id result)
  unfolding finish_dispatch
  Moves-finish_dispatch serial id (m, true) h = h
  Moves-finish_dispatch serial id (m, false) h =
      Moves-settle id device_unavailable (teardown serial (delete_call serial id m))
        (shuts (Moves-delete_call r serial id m h) serial)

  Moves-start_call :
      (w : WriteResult) (state : ConnectionState) (m : DeviceRegistry)
      → state_at state.serial m.states ≡ some state
      → state.closed ≡ false
      → leb max_pending_calls_per_device (length state.pending) ≡ false
      → Moves r m
      → Moves r (start_call w state m)
  unfolding start_call
  Moves-start_call w state m found opened room h =
      let new = record state { pending = state.pending ++ m.next_call ∷ [] } in
      let added : Moves r
          (record m { next_call = m.next_call + 1; states = set_state new m.states }) =
        notes
          (writes h state new found (record {
            same_key = refl;
            same_closed = refl;
            calls =
                inr (opened, ground (arith, room, length-append state.pending (m.next_call ∷ [])));
          }))
          (m.next_call + 1) m.settled m.sent in
      Moves-finish_dispatch state.serial m.next_call
        (write_event w state.serial (tool_call m.next_call)
          (record m { next_call = m.next_call + 1; states = set_state new m.states }))
        (Moves-write_event r w state.serial (tool_call m.next_call) _ added)

  pub Moves-resume_state :
      (key : String) (authorized aborted : Bool) (w : WriteResult) (state : Option ConnectionState)
      (serial : ℕ) (m : DeviceRegistry)
      → state_at serial m.states ≡ state
      → Moves r m
      → Moves r (resume_state key authorized aborted w state m).0
  unfolding resume_state
  Moves-resume_state key authorized aborted w none serial m found h = h
  Moves-resume_state key authorized aborted w (some state) serial m found h =
      elim (Bool-cases (not authorized)) [
        | inl revoked ↦ rw revoked (shuts h state.serial)
        | inr allowed ↦
            elim (Bool-cases (
              state.closed
              || not (is_serial state.serial (lookup key m.connections))
              || state.backpressured
              || leb max_pending_calls_per_device (length state.pending))) [
                | inl busy ↦ rw (allowed, busy) h
                | inr free ↦ elim (Bool-cases aborted) [
                  | inl late ↦ rw (allowed, free, late) h
                  | inr early ↦
                      rw (allowed, free, early)
                        (Moves-start_call w state m (own serial m.states state found)
                          (ground (arith, free)) (ground (arith, free)) h)
                ]
              ]
      ]

  Moves-finish_cancel :
      (serial : ℕ) (result : DeviceRegistry × Bool)
      → Moves r result.0
      → Moves r (finish_cancel serial result)
  unfolding finish_cancel
  Moves-finish_cancel serial (m, true) h = h
  Moves-finish_cancel serial (m, false) h = shuts h serial

  Moves-cancel :
      (w : WriteResult) (serial id : ℕ) (m : DeviceRegistry)
      → Moves r m
      → Moves r (cancel w serial id m)
  unfolding cancel cancel_state
  Moves-cancel w serial id m h = go (state_at serial m.states)
    where
      go : (state : Option ConnectionState) → Moves r (cancel_state w id state m)
      go none = h
      go (some state) =
          Moves-if r state.closed m
            (finish_cancel state.serial (write_event w state.serial (tool_cancel id) m)) h
            (Moves-finish_cancel state.serial (write_event w state.serial (tool_cancel id) m)
              (Moves-write_event r w state.serial (tool_cancel id) m h))

  pub Moves-give_up_state :
      (w : WriteResult) (id : ℕ) (how : CallEnd) (state : Option ConnectionState)
      (m : DeviceRegistry)
      → Moves r m
      → Moves r (give_up_state w id how state m)
  unfolding give_up_state
  Moves-give_up_state w id how none m h = h
  Moves-give_up_state w id how (some state) m h =
      Moves-if r (any (eqb id) state.pending) _ m
        (Moves-settle id how (cancel w state.serial id (delete_call state.serial id m)) (
          Moves-cancel w state.serial id (delete_call state.serial id m)
            (Moves-delete_call r state.serial id m h)))
        h

  pub Moves-settle_state :
      (id : ℕ) (outcome : ToolCallOutcome) (state : Option ConnectionState) (m : DeviceRegistry)
      → Moves r m
      → Moves r (settle_state id outcome state m).0
  unfolding settle_state
  Moves-settle_state id outcome none m h = h
  Moves-settle_state id outcome (some state) m h = elim (Bool-cases (any (eqb id) state.pending)) [
    | inl mine ↦ rw mine (
        Moves-settle id (resolved outcome) (delete_call state.serial id m)
          (Moves-delete_call r state.serial id m h))
    | inr other ↦ rw other h
  ]

  pub Moves-emit_state :
      (w : WriteResult) (payload : String) (at : Option ℕ) (m : DeviceRegistry)
      → Moves r m
      → Moves r (emit_state w payload at m).0
  unfolding emit_state
  Moves-emit_state w payload none m h = h
  Moves-emit_state w payload (some serial) m h =
      Moves-write_event r w serial (response_event payload) m h

  Moves-ping_state :
      (w : WriteResult) (state : ConnectionState) (m : DeviceRegistry)
      → state_at state.serial m.states ≡ some state
      → Moves r m
      → Moves r (ping_state w state m)
  unfolding ping_state
  Moves-ping_state flushed state m found h = h
  Moves-ping_state buffered state m found h =
      writes h state (record state { backpressured = true }) found
        (record { same_key = refl; same_closed = refl; calls = inl (omega arith) })
  Moves-ping_state threw state m found h = shuts h state.serial

  pub Moves-heartbeat_state :
      (authorized : Bool) (w : WriteResult) (state : Option ConnectionState) (serial : ℕ)
      (m : DeviceRegistry)
      → state_at serial m.states ≡ state
      → Moves r m
      → Moves r (heartbeat_state authorized w state m)
  unfolding heartbeat_state
  Moves-heartbeat_state authorized w none serial m found h = h
  Moves-heartbeat_state authorized w (some state) serial m found h =
      Moves-if r (not authorized || state.backpressured) (teardown state.serial m)
        (ping_state w state m) (shuts h state.serial)
        (Moves-ping_state w state m (own serial m.states state found) h)

  pub Moves-close_loop :
      (serials : List ℕ) (m : DeviceRegistry) → Moves r m → Moves r (close_loop serials m)
  unfolding close_loop
  Moves-close_loop [] m h = h
  Moves-close_loop (serial ∷ serials) m h =
      Moves-close_loop serials (teardown serial m) (shuts h serial)

  pub Moves-retain_loop :
      (entries : List TokenEntry) (serials : List ℕ) (m : DeviceRegistry)
      → Moves r m
      → Moves r (retain_loop entries serials m)
  unfolding retain_loop
  Moves-retain_loop entries [] m h = h
  Moves-retain_loop entries (serial ∷ serials) m h =
      Moves-retain_loop entries serials
        (if any (authorizes (state_at serial m.states)) entries then m else teardown serial m)
        (Moves-if r (any (authorizes (state_at serial m.states)) entries) m (teardown serial m) h
          (shuts h serial))
