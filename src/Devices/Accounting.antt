-- ===== src/Devices/Accounting.antt =====
-- No tool call is lost or settled twice: src/surfaces/api/devices/device-registry.ts.
use sandi.Prelude.{
  ℕ, ◌+◌, ◌≤◌, ◌<◌, ◌≡◌, refl, Bool, true, false, not, ◌||◌, Option, none, some, List, [], ◌∷◌,
  ◌++◌, if◌then◌else◌, eqb, ltb, leb, any, length, count-append, count-some, arith, inl, inr,
  String, Bool-cases, subst, sym, ap, ◌∙◌,
}
use sandi.Prelude.Dict.{lookup, values}
use sandi.Devices.Link.{
  ConnectionState, device_unavailable, turn_aborted, timed_out, tool_call, WriteResult, flushed,
  buffered, threw, DeviceRegistry, state_at, set_state, settle_once, without, new_registry,
  max_pending_calls_per_device,
}
use sandi.Devices.{
  teardown, teardown_state, close_state, write_open, write_state, write_event, connection,
  delete_call, delete_state, is_serial,
}
use sandi.Devices.Calls.{
  finish_dispatch, start_call, resume_state, dispatch_resume, give_up, settle_result, emit,
  open_state,
}
use sandi.Devices.Upkeep.{heartbeat, retain_authorized_tokens, close_all}
use sandi.Devices.States.{
  state_at-serial, state_at-set_state, pending_at, pending_at-set_state, count-le-pending_at,
  count-settle_once,
}
use sandi.Devices.History.{
  Event, connects, drains, closes, resumes, aborts, times_out, answers, emits, beats, retains,
  shuts_down, step, run,
}
use sandi.Devices.Keeps.{
  places, Keeps, Keeps-teardown, Keeps-set_state, Keeps-connect, Keeps-drained, Keeps-close_state,
}
use sandi.Devices.CallKeeps.{
  Keeps-answer, Keeps-give_up_state, Keeps-emit_state, Keeps-heartbeat_state, Keeps-close_loop,
  Keeps-retain_loop,
}

module _ (n : ℕ) where
  abbrev pub CallAccounted : DeviceRegistry → Type 0
  CallAccounted r = places n r ≡ (if ltb n r.next_call then 1 else 0)

  Keeps-CallAccounted : (r r' : DeviceRegistry) → Keeps n r r' → CallAccounted r → CallAccounted r'
  Keeps-CallAccounted r r' kept h = ground arith

  CallAccounted-once : (r : DeviceRegistry) → CallAccounted r → places n r ≤ 1
  CallAccounted-once r h = ground arith

  -- The call that a new `dispatch` makes.
  abbrev called : ConnectionState → DeviceRegistry → ConnectionState
  called state r = record state { pending = state.pending ++ r.next_call ∷ [] }

  abbrev with_call : ConnectionState → DeviceRegistry → DeviceRegistry
  with_call state r = record r {
    next_call = r.next_call + 1;
    states = set_state (called state r) r.states;
  }

  with_call-CallAccounted :
      (state : ConnectionState) (r : DeviceRegistry)
      → state_at state.serial r.states ≡ some state
      → CallAccounted r
      → CallAccounted (with_call state r)
  with_call-CallAccounted state r found h = ground (
    arith,
    pending_at-set_state n (called state r) r.states state found,
    count-append (eqb n) state.pending (r.next_call ∷ []),
  )

  abbrev finish_with : ℕ → DeviceRegistry → DeviceRegistry
  finish_with id closed = record closed {
    settled = settle_once id device_unavailable closed.settled;
  }

  -- What `finish_dispatch` does to a link that the failed write has closed.
  finish_closed :
      (id : ℕ) (state : ConnectionState) (r : DeviceRegistry)
      → state_at state.serial r.states ≡ some state
      → state.closed ≡ true
      → finish_dispatch state.serial id (r, false) ≡ record r {
        states = set_state (record state { pending = without id state.pending }) r.states;
        settled = settle_once id device_unavailable r.settled;
      }
  unfolding finish_dispatch delete_call teardown
  finish_closed id state r found closed =
      let after = record state { pending = without id state.pending } in
      let middle = record r { states = set_state after r.states } in
      let deleted : delete_call state.serial id r ≡ middle = ap (λ o. delete_state id o r) found in
      let again : state_at state.serial middle.states ≡ some after =
        state_at-set_state state.serial after r.states state found ∙ ground arith in
      let same : teardown state.serial middle ≡ middle =
        ap (λ o. teardown_state o middle) again ∙ ground arith in
      ap (λ x. finish_with id (teardown state.serial x)) deleted ∙ ap (finish_with id) same

  -- The write of the new call's event fails: the call is settled with the link's other calls.
  failed-CallAccounted :
      (id : ℕ) (state : ConnectionState) (r : DeviceRegistry)
      → state_at state.serial r.states ≡ some state
      → any (eqb id) state.pending ≡ true
      → CallAccounted r
      → id < r.next_call
      → CallAccounted (finish_dispatch state.serial id (close_state state r, false))
  failed-CallAccounted id state r found mine h old =
      let shut = record state { closed = true; pending = [] } in
      let at : state_at state.serial (close_state state r).states ≡ some shut =
        state_at-set_state state.serial shut r.states state found ∙ ground arith in
      let kept = Keeps-close_state n state r found (CallAccounted-once r h) in
      subst CallAccounted (sym (finish_closed id shut (close_state state r) at refl)) (
        ground (
          arith,
          kept,
          h,
          pending_at-set_state n shut (close_state state r).states shut at,
          pending_at-set_state n shut r.states state found,
          count-le-pending_at n state.serial r.states state found,
          count-some (eqb id) state.pending mine,
          count-settle_once n id device_unavailable (close_state state r).settled,
        ))

  any-last : (id : ℕ) (ids : List ℕ) → any (eqb id) (ids ++ id ∷ []) ≡ true
  any-last id [] = ground arith
  any-last id (x ∷ ids) = ground (arith, any-last id ids)

  module _ (state : ConnectionState) (r : DeviceRegistry)
      (found : state_at state.serial r.states ≡ some state) (opened : state.closed ≡ false)
      (free : state.backpressured ≡ false) (h : CallAccounted r) where
    called-state_at : state_at state.serial (with_call state r).states ≡ some (called state r)
    called-state_at =
        state_at-set_state state.serial (called state r) r.states state found ∙ ground arith

    called-teardown :
        teardown state.serial (with_call state r) ≡ close_state (called state r) (with_call state r)
    unfolding teardown
    called-teardown = ap (λ o. teardown_state o (with_call state r)) called-state_at ∙ ground arith

    called-any : any (eqb r.next_call) (called state r).pending ≡ true
    called-any = any-last r.next_call state.pending

    finish-CallAccounted :
        (w : WriteResult)
        → CallAccounted (
            finish_dispatch state.serial r.next_call
              (write_open w (called state r) (tool_call r.next_call) (with_call state r)))
    unfolding write_open finish_dispatch
    finish-CallAccounted flushed = with_call-CallAccounted state r found h
    finish-CallAccounted buffered = ground (
      arith,
      with_call-CallAccounted state r found h,
      Keeps-set_state n (record (called state r) { backpressured = true }) (called state r)
          (with_call state r) called-state_at refl,
    )
    finish-CallAccounted threw =
        subst (λ closed. CallAccounted (finish_dispatch state.serial r.next_call (closed, false)))
          (sym called-teardown)
          (failed-CallAccounted r.next_call (called state r) (with_call state r) called-state_at
            called-any (with_call-CallAccounted state r found h) (omega arith))

    start_call-CallAccounted : (w : WriteResult) → CallAccounted (start_call w state r)
    unfolding start_call write_event write_state
    start_call-CallAccounted w =
        let opens : write_state w (state_at state.serial (with_call state r).states)
              (tool_call r.next_call) (with_call state r)
            ≡ write_open w (called state r) (tool_call r.next_call) (with_call state r) =
          ap (λ o. write_state w o (tool_call r.next_call) (with_call state r)) called-state_at
          ∙ ground arith in
        subst (λ result. CallAccounted (finish_dispatch state.serial r.next_call result))
          (sym opens) (finish-CallAccounted w)

  resume-CallAccounted :
      (key : String) (authorized aborted : Bool) (w : WriteResult) (state : Option ConnectionState)
      (serial : ℕ) (r : DeviceRegistry)
      → state_at serial r.states ≡ state
      → CallAccounted r
      → CallAccounted (resume_state key authorized aborted w state r).0
  unfolding resume_state
  resume-CallAccounted key authorized aborted w none serial r found h = h
  resume-CallAccounted key authorized aborted w (some state) serial r found h =
      let at =
        ap (λ s. state_at s r.states) (state_at-serial serial r.states state found) ∙ found in
      elim (Bool-cases (not authorized)) [
        | inl revoked ↦
            rw revoked (ground (arith, h, Keeps-teardown n state.serial r (CallAccounted-once r h)))
        | inr allowed ↦
            elim (Bool-cases (
              state.closed
              || not (is_serial state.serial (lookup key r.connections))
              || state.backpressured
              || leb max_pending_calls_per_device (length state.pending))) [
                | inl busy ↦ rw (allowed, busy) h
                | inr free ↦ elim (Bool-cases aborted) [
                  | inl late ↦ rw (allowed, free, late) h
                  | inr early ↦
                      rw (allowed, free, early)
                        (start_call-CallAccounted state r at (ground (arith, free))
                          (ground (arith, free)) h w)
                ]
              ]
      ]

  step-CallAccounted :
      (event : Event) (r : DeviceRegistry) → CallAccounted r → CallAccounted (step event r)
  unfolding step dispatch_resume give_up settle_result emit heartbeat retain_authorized_tokens
      close_all
  step-CallAccounted (connects key device_id identity_id backpressured) r h =
      ground (arith, h, Keeps-connect n key device_id identity_id backpressured r)
  step-CallAccounted (drains serial) r h = ground (arith, h, Keeps-drained n serial r)
  step-CallAccounted (closes serial) r h = ground (arith, h, Keeps-teardown n serial r)
  step-CallAccounted (resumes key serial authorized aborted w) r h =
      resume-CallAccounted key authorized aborted w (state_at serial r.states) serial r refl h
  step-CallAccounted (aborts w serial id) r h =
      ground
        (arith, h, Keeps-give_up_state n w id turn_aborted (state_at serial r.states) serial r refl)
  step-CallAccounted (times_out w serial id) r h =
      ground
        (arith, h, Keeps-give_up_state n w id timed_out (state_at serial r.states) serial r refl)
  step-CallAccounted (answers key id outcome) r h =
      ground (arith, h, Keeps-answer n id outcome (lookup key r.connections) r)
  step-CallAccounted (emits w key payload) r h =
      ground (arith, h, Keeps-emit_state n w payload (open_state (connection key r)) r)
  step-CallAccounted (beats serial authorized w) r h =
      ground
        (arith, h, Keeps-heartbeat_state n authorized w (state_at serial r.states) serial r refl)
  step-CallAccounted (retains entries) r h =
      ground (arith, h, Keeps-retain_loop n entries (values r.connections) r)
  step-CallAccounted shuts_down r h = ground (arith, h, Keeps-close_loop n (values r.connections) r)

run_from-CallAccounted :
    (n : ℕ) (events : List Event) (r : DeviceRegistry)
    → CallAccounted n r
    → CallAccounted n (run events r)
unfolding run
run_from-CallAccounted n [] r h = h
run_from-CallAccounted n (event ∷ events) r h =
    run_from-CallAccounted n events (step event r) (step-CallAccounted n event r h)

new-CallAccounted : (n : ℕ) → CallAccounted n new_registry
unfolding pending_at
new-CallAccounted n = ground arith

-- Every tool call is in one place: after any sequence of events from the empty registry, a call that was
-- made is either pending, at one link, or its promise has been settled, once; a number that is not given to
-- a call yet is nowhere.
pub run-CallAccounted : (n : ℕ) (events : List Event) → CallAccounted n (run events new_registry)
run-CallAccounted n events = run_from-CallAccounted n events new_registry (new-CallAccounted n)
