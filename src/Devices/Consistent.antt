-- ===== src/Devices/Consistent.antt =====
-- The links that a device registry holds: src/surfaces/api/devices/device-registry.ts.
use sandi.Prelude.{
  ℕ, ◌≤◌, ◌≡◌, ◌==◌, eq_iff, refl, true, false, Option, none, some, List, [], if◌then◌else◌, eqb,
  ltb, length, arith, inl, inr, ◌⊎◌, String, Bool-cases, subst, sym, ap, ◌∙◌,
}
use sandi.Prelude.Dict.{Dict, lookup, erase, lookup-erase}
use sandi.Devices.Link.{
  ConnectionState, DeviceRegistry, state_at, set_state, max_pending_calls_per_device,
}
use sandi.Devices.{teardown, teardown_state, close_state, is_serial}
use sandi.Devices.States.{set_state_ind}
use sandi.Devices.Moves.{Follows, Moves, stays, shuts, writes, notes, own}

-- The registered object of a key is an open link of this key.
abbrev pub Opened : String → Option ConnectionState → Type 0
Opened key none = ⊥
Opened key (some state) = (state.key ≡ key) × (state.closed ≡ false)

abbrev pub Registered : String → Option ℕ → List ConnectionState → Type 0
Registered key none states = Unit {0}
Registered key (some serial) states = Opened key (state_at serial states)

-- An object is closed and has no calls, or it is the registered one of its key, with no more calls than
-- the limit.
abbrev pub Placed : Dict ℕ → ℕ → Option ConnectionState → Type 0
Placed connections serial none = Unit {0}
Placed connections serial (some state) =
    ((state.closed ≡ true) × (state.pending ≡ []))
    ⊎ ((state.closed ≡ false)
        × (lookup state.key connections ≡ some serial)
        × (length state.pending ≤ max_pending_calls_per_device))

abbrev pub Fresh : ℕ → ℕ → Option ConnectionState → Type 0
Fresh next serial none = Unit {0}
Fresh next serial (some state) = ltb serial next ≡ true

pub record Consistent (r : DeviceRegistry) : Type 0 where
  pub registered : (key : String) → Registered key (lookup key r.connections) r.states
  pub placed : (serial : ℕ) → Placed r.connections serial (state_at serial r.states)
  pub fresh : (serial : ℕ) → Fresh r.next_serial serial (state_at serial r.states)

module _ (r : DeviceRegistry) (h : Consistent r) where
  module _ (old new : ConnectionState) (found : state_at new.serial r.states ≡ some old)
      (follows : Follows old new) where
    set_state-Registered :
        (key : String) → Registered key (lookup key r.connections) (set_state new r.states)
    set_state-Registered key = go (lookup key r.connections) (h.registered key)
      where
        go :
            (serial : Option ℕ)
            → Registered key serial r.states
            → Registered key serial (set_state new r.states)
        go none e = tt
        go (some serial) e =
            set_state_ind (Opened key) serial new r.states old found
              (λ same.
                let before =
                  subst (Opened key) (sym (ap (λ s. state_at s r.states) same) ∙ found) e in
                (follows.same_key ∙ before.0, follows.same_closed ∙ before.1))
              (λ _. e)

    set_state-Placed :
        (serial : ℕ) → Placed r.connections serial (state_at serial (set_state new r.states))
    set_state-Placed serial =
        set_state_ind (Placed r.connections serial) serial new r.states old found
          (λ same.
            let before =
              subst (Placed r.connections serial) (sym (ap (λ s. state_at s r.states) same) ∙ found)
                (h.placed serial) in
            ground (arith, before, follows.same_key, follows.same_closed, follows.calls))
          (λ _. h.placed serial)

    set_state-Fresh :
        (serial : ℕ) → Fresh r.next_serial serial (state_at serial (set_state new r.states))
    set_state-Fresh serial =
        set_state_ind (Fresh r.next_serial serial) serial new r.states old found
          (λ same.
            subst (Fresh r.next_serial serial) (sym (ap (λ s. state_at s r.states) same) ∙ found)
              (h.fresh serial))
          (λ _. h.fresh serial)

    set_state-Consistent : Consistent (record r { states = set_state new r.states })
    set_state-Consistent = record {
      registered = set_state-Registered;
      placed = set_state-Placed;
      fresh = set_state-Fresh;
    }

  module _ (state : ConnectionState) (found : state_at state.serial r.states ≡ some state)
      (opened : state.closed ≡ false) where
    -- Where the link is open, it is the registered one.
    open-lookup : lookup state.key r.connections ≡ some state.serial
    open-lookup =
        ground
          (arith, opened, subst (Placed r.connections state.serial) found (h.placed state.serial))

    abbrev shut : ConnectionState
    shut = record state { closed = true; pending = [] }

    close_state-Registered :
        (key : String)
        → Registered key (lookup key (erase state.key r.connections)) (set_state shut r.states)
    close_state-Registered key =
        subst (λ o. Registered key o (set_state shut r.states))
          (sym (lookup-erase state.key key r.connections))
          (elim (Bool-cases (state.key == key)) [
            | inl same ↦ rw same tt
            | inr other ↦ rw other (go other (lookup key r.connections) (h.registered key))
          ])
      where
        go :
            (state.key == key) ≡ false
            → (serial : Option ℕ) → Registered key serial r.states
            → Registered key serial (set_state shut r.states)
        go other none e = tt
        go other (some serial) e =
            set_state_ind (Opened key) serial shut r.states state found
              (λ same.
                let before =
                  subst (Opened key) (sym (ap (λ s. state_at s r.states) same) ∙ found) e in
                absurd (ground (arith, before, other, eq_iff state.key key)))
              (λ _. e)

    close_state-Placed :
        (serial : ℕ)
        → Placed (erase state.key r.connections) serial (state_at serial (set_state shut r.states))
    close_state-Placed serial =
        set_state_ind (Placed (erase state.key r.connections) serial) serial shut r.states state
          found (λ same. inl (refl, refl))
          (λ differs. go differs (state_at serial r.states) (h.placed serial))
      where
        go :
            eqb state.serial serial ≡ false
            → (other : Option ConnectionState) → Placed r.connections serial other
            → Placed (erase state.key r.connections) serial other
        go differs none e = tt
        go differs (some other) e = ground (
          arith,
          e,
          differs,
          open-lookup,
          lookup-erase state.key other.key r.connections,
          eq_iff state.key other.key,
        )

    close_state-Consistent : Consistent (close_state state r)
    close_state-Consistent =
        let mine : is_serial state.serial (lookup state.key r.connections) ≡ true =
          ap (is_serial state.serial) open-lookup ∙ ground arith in
        subst
          (λ test. Consistent (record r {
            connections = if test then erase state.key r.connections else r.connections;
            states = set_state shut r.states;
            settled = (close_state state r).settled;
          }))
          (sym mine)
          (record {
            registered = close_state-Registered;
            placed = close_state-Placed;
            fresh = λ serial.
                set_state_ind (Fresh r.next_serial serial) serial shut r.states state found
                  (λ same.
                    subst (Fresh r.next_serial serial)
                      (sym (ap (λ s. state_at s r.states) same) ∙ found) (h.fresh serial))
                  (λ _. h.fresh serial);
          })

  pub teardown-Consistent : (serial : ℕ) → Consistent (teardown serial r)
  unfolding teardown
  teardown-Consistent serial = go (state_at serial r.states) refl
    where
      go :
          (state : Option ConnectionState)
          → state_at serial r.states ≡ state
          → Consistent (teardown_state state r)
      go none e = h
      go (some state) e = elim (Bool-cases state.closed) [
        | inl closed ↦ subst Consistent (ground arith) h
        | inr opened ↦
            subst Consistent {x = close_state state r} (ground arith)
              (close_state-Consistent state (own serial r.states state e) opened)
      ]

pub Moves-Consistent : {r r' : DeviceRegistry} → Moves r r' → Consistent r → Consistent r'
Moves-Consistent stays h = h
Moves-Consistent (shuts {m} moves serial) h =
    teardown-Consistent m (Moves-Consistent moves h) serial
Moves-Consistent (writes {m} moves old new found follows) h =
    set_state-Consistent m (Moves-Consistent moves h) old new found follows
Moves-Consistent (notes {m} moves next_call settled sent) h =
    let before = Moves-Consistent moves h in
    record { registered = before.registered; placed = before.placed; fresh = before.fresh }
