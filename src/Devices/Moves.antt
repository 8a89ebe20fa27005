-- ===== src/Devices/Moves.antt =====
-- The steps of the device registry, but for a new link, as chains of small moves:
-- src/surfaces/api/devices/device-registry.ts.
use sandi.Prelude.{
  ℕ, ◌≤◌, ◌≡◌, refl, Bool, true, false, not, ◌||◌, Option, none, some, List, [], ◌∷◌, ◌++◌,
  if◌then◌else◌, eqb, length, length-filter-le, arith, inl, inr, ◌⊎◌, Bool-cases, ap, ◌∙◌,
}
use sandi.Devices.Link.{
  ConnectionState, CallEnd, DeviceEvent, WriteResult, flushed, buffered, threw, DeviceRegistry,
  state_at, set_state, without, max_pending_calls_per_device,
}
use sandi.Devices.{
  teardown, write_open, write_state, write_event, drained, drained_state, delete_call, delete_state,
}
use sandi.Devices.States.{state_at-serial}

-- The object's next content: the same link, with no more calls, or open with at most the limit.
pub record Follows (old new : ConnectionState) : Type 0 where
  pub same_key : new.key ≡ old.key
  pub same_closed : new.closed ≡ old.closed
  pub calls :
      (length new.pending ≤ length old.pending)
      ⊎ ((old.closed ≡ false) × (length new.pending ≤ max_pending_calls_per_device))

pub data Moves (r : DeviceRegistry) : DeviceRegistry → Type 0 where
  stays : Moves r r
  shuts : {m : DeviceRegistry} → Moves r m → (serial : ℕ) → Moves r (teardown serial m)
  writes :
      {m : DeviceRegistry}
      → Moves r m
      → (old new : ConnectionState) → state_at new.serial m.states ≡ some old
      → Follows old new
      → Moves r (record m { states = set_state new m.states })
  notes :
      {m : DeviceRegistry}
      → Moves r m
      → (next_call : ℕ) (settled : List (ℕ × CallEnd)) (sent : List (ℕ × DeviceEvent))
      → Moves r (record m { next_call = next_call; settled = settled; sent = sent })

pub Moves-if :
    (r : DeviceRegistry) (test : Bool) (x y : DeviceRegistry)
    → Moves r x
    → Moves r y
    → Moves r (if test then x else y)
Moves-if r true x y p q = p
Moves-if r false x y p q = q

pub own :
    (serial : ℕ) (states : List ConnectionState) (state : ConnectionState)
    → state_at serial states ≡ some state
    → state_at state.serial states ≡ some state
own serial states state found =
    ap (λ s. state_at s states) (state_at-serial serial states state found) ∙ found

module _ (r : DeviceRegistry) where
  pub Moves-write_open :
      (w : WriteResult) (state : ConnectionState) (event : DeviceEvent) {m : DeviceRegistry}
      → state_at state.serial m.states ≡ some state
      → Moves r m
      → Moves r (write_open w state event m).0
  unfolding write_open
  Moves-write_open flushed state event {m} found h =
      notes h m.next_call m.settled (m.sent ++ (state.serial, event) ∷ [])
  Moves-write_open buffered state event {m} found h =
      notes
        (writes h state (record state { backpressured = true }) found
          (record { same_key = refl; same_closed = refl; calls = inl (omega arith) }))
        m.next_call m.settled (m.sent ++ (state.serial, event) ∷ [])
  Moves-write_open threw state event found h = shuts h state.serial

  pub Moves-write_state :
      (w : WriteResult) (state : Option ConnectionState) (serial : ℕ) (event : DeviceEvent)
      (m : DeviceRegistry)
      → state_at serial m.states ≡ state
      → Moves r m
      → Moves r (write_state w state event m).0
  unfolding write_state
  Moves-write_state w none serial event m found h = h
  Moves-write_state w (some state) serial event m found h =
      elim (Bool-cases (state.closed || state.backpressured)) [
        | inl shut ↦ rw shut h
        | inr free ↦ rw free (Moves-write_open w state event (own serial m.states state found) h)
      ]

  pub Moves-write_event :
      (w : WriteResult) (serial : ℕ) (event : DeviceEvent) (m : DeviceRegistry)
      → Moves r m
      → Moves r (write_event w serial event m).0
  unfolding write_event
  Moves-write_event w serial event m h =
      Moves-write_state w (state_at serial m.states) serial event m refl h

  pub Moves-delete_call :
      (serial id : ℕ) (m : DeviceRegistry) → Moves r m → Moves r (delete_call serial id m)
  unfolding delete_call
  Moves-delete_call serial id m h = go (state_at serial m.states) refl
    where
      go :
          (state : Option ConnectionState)
          → state_at serial m.states ≡ state
          → Moves r (delete_state id state m)
      go none e = h
      go (some state) e =
          writes h state (record state { pending = without id state.pending })
            (own serial m.states state e)
            (record {
              same_key = refl;
              same_closed = refl;
              calls = inl (length-filter-le (λ other. not (eqb other id)) state.pending);
            })

  pub Moves-drained : (serial : ℕ) (m : DeviceRegistry) → Moves r m → Moves r (drained serial m)
  unfolding drained
  Moves-drained serial m h = go (state_at serial m.states) refl
    where
      go :
          (state : Option ConnectionState)
          → state_at serial m.states ≡ state
          → Moves r (drained_state state m)
      go none e = h
      go (some state) e = Moves-if r state.closed m _ h (
          writes h state (record state { backpressured = false }) (own serial m.states state e)
            (record { same_key = refl; same_closed = refl; calls = inl (omega arith) }))
