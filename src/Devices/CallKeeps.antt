-- ===== src/Devices/CallKeeps.antt =====
-- What the calls and the upkeep of the device registry do to the places of one call:
-- src/surfaces/api/devices/device-registry.ts.
use sandi.Prelude.{
  ℕ, ◌+◌, ◌≤◌, ◌≡◌, refl, Bool, true, false, not, ◌||◌, Option, none, some, List, [], ◌∷◌,
  if◌then◌else◌, eqb, any, count-some, arith, inl, inr, String, Bool-cases, subst, sym, ap, ◌∙◌,
}
use sandi.Devices.Link.{
  ConnectionState, CallEnd, resolved, tool_cancel, response_event, WriteResult, flushed, buffered,
  threw, DeviceRegistry, state_at, settle_once, without, ToolCallOutcome,
}
use sandi.Devices.{teardown, write_event, state_of, delete_call, delete_state}
use sandi.Devices.Calls.{
  finish_cancel, cancel_state, cancel, give_up_state, settle_state, emit_state,
}
use sandi.Devices.Upkeep.{
  ping_state, heartbeat_state, retain_loop, close_loop, TokenEntry, authorizes,
}
use sandi.Devices.States.{
  state_at-serial, pending_at-set_state, count-le-pending_at, count-without, count-settle_once,
}
use sandi.Devices.Keeps.{places, Keeps, Keeps-teardown, Keeps-set_state, Keeps-write_event}

module _ (n : ℕ) where
  -- After `delete`, the call is pending no more, if it is the one.
  pub delete_call-places :
      (serial id : ℕ) (r : DeviceRegistry) (state : ConnectionState)
      → state_at serial r.states ≡ some state
      → any (eqb id) state.pending ≡ true
      → places n r ≤ 1
      → ((delete_call serial id r).next_call ≡ r.next_call)
        × (places n (delete_call serial id r) + (if eqb id n then 1 else 0) ≡ places n r)
        × ((delete_call serial id r).settled ≡ r.settled)
  unfolding delete_call
  delete_call-places serial id r state found mine once =
      subst
        (λ o.
          ((delete_state id o r).next_call ≡ r.next_call)
          × (places n (delete_state id o r) + (if eqb id n then 1 else 0) ≡ places n r)
          × ((delete_state id o r).settled ≡ r.settled))
        (sym found)
        (
          refl,
          ground (
            arith,
            once,
            state_at-serial serial r.states state found,
            count-without n id state.pending,
            count-some (eqb id) state.pending mine,
            count-le-pending_at n serial r.states state found,
            pending_at-set_state n (record state { pending = without id state.pending }) r.states
                state,
          ),
          refl,
        )

  -- A promise settled after its call was deleted.
  pub settle-places :
      (id : ℕ) (how : CallEnd) (r : DeviceRegistry) (before : ℕ)
      → before ≤ 1
      → places n r + (if eqb id n then 1 else 0) ≡ before
      → places n (record r { settled = settle_once id how r.settled }) ≡ before
  settle-places id how r before once e = ground (arith, count-settle_once n id how r.settled)

  pub Keeps-settle_state :
      (id : ℕ) (outcome : ToolCallOutcome) (state : Option ConnectionState) (serial : ℕ)
      (r : DeviceRegistry)
      → state_at serial r.states ≡ state
      → places n r ≤ 1
      → Keeps n r (settle_state id outcome state r).0
  unfolding settle_state
  Keeps-settle_state id outcome none serial r found once = (refl, refl)
  Keeps-settle_state id outcome (some state) serial r found once =
      elim (Bool-cases (any (eqb id) state.pending)) [
        | inl mine ↦
            let at =
              ap (λ s. state_at s r.states) (state_at-serial serial r.states state found) ∙ found in
            let (calls, left, same) = delete_call-places state.serial id r state at mine once in
            rw mine (
              settle-places id (resolved outcome) (delete_call state.serial id r) (places n r) once
                  left,
              calls,
            )
        | inr other ↦ rw other (refl, refl)
      ]

  pub Keeps-answer :
      (id : ℕ) (outcome : ToolCallOutcome) (at : Option ℕ) (r : DeviceRegistry)
      → places n r ≤ 1
      → Keeps n r (settle_state id outcome (state_of at r.states) r).0
  unfolding settle_state
  Keeps-answer id outcome none r once = (refl, refl)
  Keeps-answer id outcome (some serial) r once =
      Keeps-settle_state id outcome (state_at serial r.states) serial r refl once

  pub Keeps-then :
      (r middle last : DeviceRegistry) → Keeps n r middle → Keeps n middle last → Keeps n r last
  Keeps-then r middle last (p, c) (q, d) = (q ∙ p, d ∙ c)

  pub Keeps-finish_cancel :
      (serial : ℕ) (result : DeviceRegistry × Bool)
      → places n result.0 ≤ 1
      → Keeps n result.0 (finish_cancel serial result)
  unfolding finish_cancel
  Keeps-finish_cancel serial (r, true) once = (refl, refl)
  Keeps-finish_cancel serial (r, false) once = Keeps-teardown n serial r once

  pub Keeps-cancel_state :
      (w : WriteResult) (id : ℕ) (state : Option ConnectionState) (r : DeviceRegistry)
      → places n r ≤ 1
      → Keeps n r (cancel_state w id state r)
  unfolding cancel_state
  Keeps-cancel_state w id none r once = (refl, refl)
  Keeps-cancel_state w id (some state) r once = elim (Bool-cases state.closed) [
    | inl closed ↦ ground arith
    | inr opened ↦
        let written = write_event w state.serial (tool_cancel id) r in
        let kept = Keeps-write_event n w state.serial (tool_cancel id) r once in
        let next = Keeps-finish_cancel state.serial written (omega (arith, kept, once)) in
        rw opened (Keeps-then r written.0 (finish_cancel state.serial written) kept next)
  ]

  pub Keeps-cancel :
      (w : WriteResult) (serial id : ℕ) (r : DeviceRegistry)
      → places n r ≤ 1
      → Keeps n r (cancel w serial id r)
  unfolding cancel
  Keeps-cancel w serial id r once = Keeps-cancel_state w id (state_at serial r.states) r once

  pub Keeps-give_up_state :
      (w : WriteResult) (id : ℕ) (how : CallEnd) (state : Option ConnectionState) (serial : ℕ)
      (r : DeviceRegistry)
      → state_at serial r.states ≡ state
      → places n r ≤ 1
      → Keeps n r (give_up_state w id how state r)
  unfolding give_up_state
  Keeps-give_up_state w id how none serial r found once = (refl, refl)
  Keeps-give_up_state w id how (some state) serial r found once =
      elim (Bool-cases (any (eqb id) state.pending)) [
        | inl mine ↦
            let at =
              ap (λ s. state_at s r.states) (state_at-serial serial r.states state found) ∙ found in
            let (calls, left, same) = delete_call-places state.serial id r state at mine once in
            let deleted = delete_call state.serial id r in
            let (kept, later_calls) =
              Keeps-cancel w state.serial id deleted (omega (arith, left, once)) in
            rw mine (
              settle-places id how (cancel w state.serial id deleted) (places n r) once
                  (omega (arith, left, kept)),
              later_calls ∙ calls,
            )
        | inr other ↦ rw other (refl, refl)
      ]

  pub Keeps-emit_state :
      (w : WriteResult) (payload : String) (state : Option ℕ) (r : DeviceRegistry)
      → places n r ≤ 1
      → Keeps n r (emit_state w payload state r).0
  unfolding emit_state
  Keeps-emit_state w payload none r once = (refl, refl)
  Keeps-emit_state w payload (some serial) r once =
      Keeps-write_event n w serial (response_event payload) r once

  pub Keeps-ping_state :
      (w : WriteResult) (state : ConnectionState) (r : DeviceRegistry)
      → state_at state.serial r.states ≡ some state
      → places n r ≤ 1
      → Keeps n r (ping_state w state r)
  unfolding ping_state
  Keeps-ping_state flushed state r found once = (refl, refl)
  Keeps-ping_state buffered state r found once =
      Keeps-set_state n (record state { backpressured = true }) state r found refl
  Keeps-ping_state threw state r found once = Keeps-teardown n state.serial r once

  pub Keeps-heartbeat_state :
      (authorized : Bool) (w : WriteResult) (state : Option ConnectionState) (serial : ℕ)
      (r : DeviceRegistry)
      → state_at serial r.states ≡ state
      → places n r ≤ 1
      → Keeps n r (heartbeat_state authorized w state r)
  unfolding heartbeat_state
  Keeps-heartbeat_state authorized w none serial r found once = (refl, refl)
  Keeps-heartbeat_state authorized w (some state) serial r found once =
      elim (Bool-cases (not authorized || state.backpressured)) [
        | inl bad ↦ rw bad (Keeps-teardown n state.serial r once)
        | inr good ↦ rw good (
            Keeps-ping_state w state r
              (ap (λ s. state_at s r.states) (state_at-serial serial r.states state found) ∙ found)
              once)
      ]

  pub Keeps-close_loop :
      (serials : List ℕ) (r : DeviceRegistry) → places n r ≤ 1 → Keeps n r (close_loop serials r)
  unfolding close_loop
  Keeps-close_loop [] r once = (refl, refl)
  Keeps-close_loop (serial ∷ serials) r once =
      let kept = Keeps-teardown n serial r once in
      Keeps-then r (teardown serial r) (close_loop serials (teardown serial r)) kept
        (Keeps-close_loop serials (teardown serial r) (omega (arith, kept, once)))

  pub Keeps-if :
      (test : Bool) (r x y : DeviceRegistry)
      → Keeps n r x
      → Keeps n r y
      → Keeps n r (if test then x else y)
  Keeps-if true r x y p q = p
  Keeps-if false r x y p q = q

  pub Keeps-retain_loop :
      (entries : List TokenEntry) (serials : List ℕ) (r : DeviceRegistry)
      → places n r ≤ 1
      → Keeps n r (retain_loop entries serials r)
  unfolding retain_loop
  Keeps-retain_loop entries [] r once = (refl, refl)
  Keeps-retain_loop entries (serial ∷ serials) r once =
      let next =
        if any (authorizes (state_at serial r.states)) entries then r else teardown serial r in
      let kept =
        Keeps-if (any (authorizes (state_at serial r.states)) entries) r r (teardown serial r)
          (refl, refl) (Keeps-teardown n serial r once) in
      Keeps-then r next (retain_loop entries serials next) kept
        (Keeps-retain_loop entries serials next (omega (arith, kept, once)))
