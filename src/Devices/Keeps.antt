-- ===== src/Devices/Keeps.antt =====
-- What the steps of the device registry do to the places of one call:
-- src/surfaces/api/devices/device-registry.ts.
use sandi.Prelude.{
  ℕ, ◌+◌, ◌≤◌, ◌≡◌, refl, Bool, true, false, ◌||◌, Option, none, some, [], eqb, count, arith, inl,
  inr, String, Bool-cases, ap, ◌∙◌,
}
use sandi.Prelude.Dict.{lookup}
use sandi.Devices.Link.{
  ConnectionState, DeviceEvent, WriteResult, flushed, buffered, threw, DeviceRegistry, state_at,
  set_state, settles_call,
}
use sandi.Devices.{
  teardown, teardown_state, close_state, write_open, write_state, write_event, connect, supersede,
  drained, drained_state,
}
use sandi.Devices.States.{
  state_at-serial, pending_at, pending_at-set_state, count-le-pending_at, count-reject_all,
}

-- How often a call is pending at a link or settled.
abbrev pub places : ℕ → DeviceRegistry → ℕ
places n r = pending_at n r.states + count (settles_call n) r.settled

-- The step moves the call to no other number of places, and makes no new call.
abbrev pub Keeps : ℕ → DeviceRegistry → DeviceRegistry → Type 0
Keeps n r r' = (places n r' ≡ places n r) × (r'.next_call ≡ r.next_call)

module _ (n : ℕ) where
  pub Keeps-close_state :
      (state : ConnectionState) (r : DeviceRegistry)
      → state_at state.serial r.states ≡ some state
      → places n r ≤ 1
      → Keeps n r (close_state state r)
  Keeps-close_state state r found once = (
    omega (
      arith,
      once,
      pending_at-set_state n (record state { closed = true; pending = [] }) r.states state found,
      count-le-pending_at n state.serial r.states state found,
      count-reject_all n state.pending r.settled,
    ),
    refl,
  )

  pub Keeps-teardown_state :
      (state : Option ConnectionState) (serial : ℕ) (r : DeviceRegistry)
      → state_at serial r.states ≡ state
      → places n r ≤ 1
      → Keeps n r (teardown_state state r)
  Keeps-teardown_state none serial r found once = (refl, refl)
  Keeps-teardown_state (some state) serial r found once = elim (Bool-cases state.closed) [
    | inl closed ↦ ground arith
    | inr opened ↦
        ground (arith, Keeps-close_state state r, state_at-serial serial r.states state found)
  ]

  pub Keeps-teardown :
      (serial : ℕ) (r : DeviceRegistry) → places n r ≤ 1 → Keeps n r (teardown serial r)
  unfolding teardown
  Keeps-teardown serial r once = Keeps-teardown_state (state_at serial r.states) serial r refl once

  -- A write to an object that leaves its pending calls.
  pub Keeps-set_state :
      (new old : ConnectionState) (r : DeviceRegistry)
      → state_at new.serial r.states ≡ some old
      → new.pending ≡ old.pending
      → Keeps n r (record r { states = set_state new r.states })
  Keeps-set_state new old r found same =
      (omega (arith, pending_at-set_state n new r.states old found, ap (count (eqb n)) same), refl)

  pub Keeps-write_open :
      (w : WriteResult) (state : ConnectionState) (event : DeviceEvent) (r : DeviceRegistry)
      → state_at state.serial r.states ≡ some state
      → places n r ≤ 1
      → Keeps n r (write_open w state event r).0
  unfolding write_open
  Keeps-write_open flushed state event r found once = (refl, refl)
  Keeps-write_open buffered state event r found once =
      Keeps-set_state (record state { backpressured = true }) state r found refl
  Keeps-write_open threw state event r found once = Keeps-teardown state.serial r once

  pub Keeps-write_state :
      (w : WriteResult) (state : Option ConnectionState) (serial : ℕ) (event : DeviceEvent)
      (r : DeviceRegistry)
      → state_at serial r.states ≡ state
      → places n r ≤ 1
      → Keeps n r (write_state w state event r).0
  unfolding write_state
  Keeps-write_state w none serial event r found once = (refl, refl)
  Keeps-write_state w (some state) serial event r found once =
      elim (Bool-cases (state.closed || state.backpressured)) [
        | inl shut ↦ rw shut (refl, refl)
        | inr free ↦ rw free (
            Keeps-write_open w state event r
              (ap (λ s. state_at s r.states) (state_at-serial serial r.states state found) ∙ found)
              once)
      ]

  pub Keeps-write_event :
      (w : WriteResult) (serial : ℕ) (event : DeviceEvent) (r : DeviceRegistry)
      → places n r ≤ 1
      → Keeps n r (write_event w serial event r).0
  unfolding write_event
  Keeps-write_event w serial event r once =
      Keeps-write_state w (state_at serial r.states) serial event r refl once

  pub Keeps-supersede :
      (existing : Option ℕ) (r : DeviceRegistry) → places n r ≤ 1 → Keeps n r (supersede existing r)
  unfolding supersede
  Keeps-supersede none r once = (refl, refl)
  Keeps-supersede (some serial) r once = Keeps-teardown serial r once

  pub Keeps-connect :
      (key device_id identity_id : String) (backpressured : Bool) (r : DeviceRegistry)
      → places n r ≤ 1
      → Keeps n r (connect key device_id identity_id backpressured r)
  unfolding connect pending_at
  Keeps-connect key device_id identity_id backpressured r once =
      let (kept, calls) = Keeps-supersede (lookup key r.connections) r once in
      (omega (arith, kept), calls)

  pub Keeps-drained : (serial : ℕ) (r : DeviceRegistry) → Keeps n r (drained serial r)
  unfolding drained
  Keeps-drained serial r = go (state_at serial r.states) refl
    where
      go :
          (state : Option ConnectionState)
          → state_at serial r.states ≡ state
          → Keeps n r (drained_state state r)
      go none e = (refl, refl)
      go (some state) e = elim (Bool-cases state.closed) [
        | inl closed ↦ ground arith
        | inr opened ↦ ground (
          arith,
          state_at-serial serial r.states state e,
          Keeps-set_state (record state { backpressured = false }) state r,
        )
      ]
