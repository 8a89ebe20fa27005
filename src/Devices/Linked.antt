-- ===== src/Devices/Linked.antt =====
-- Histories of the device registry keep its links consistent:
-- src/surfaces/api/devices/device-registry.ts.
use sandi.Prelude.{
  ℕ, ◌≡◌, ◌==◌, eq_iff, refl, Bool, true, Option, none, some, List, [], ◌∷◌, eqb, arith, if_ind,
  inr, String, subst, sym,
}
use sandi.Prelude.Dict.{lookup, values, lookup-insert, lookup-erase}
use sandi.Devices.Link.{
  ConnectionState, ToolCallOutcome, turn_aborted, timed_out, DeviceRegistry, state_at, new_registry,
}
use sandi.Devices.{teardown_state, connect, supersede, add_link, connection, state_of}
use sandi.Devices.Calls.{settle_state, dispatch_resume, give_up, settle_result, emit, open_state}
use sandi.Devices.Upkeep.{heartbeat, retain_authorized_tokens, close_all}
use sandi.Devices.States.{state_at-serial}
use sandi.Devices.Moves.{Moves, stays, Moves-drained}
use sandi.Devices.CallMoves.{
  Moves-resume_state, Moves-give_up_state, Moves-settle_state, Moves-emit_state,
  Moves-heartbeat_state, Moves-close_loop, Moves-retain_loop,
}
use sandi.Devices.History.{
  Event, connects, drains, closes, resumes, aborts, times_out, answers, emits, beats, retains,
  shuts_down, step, run,
}
use sandi.Devices.Consistent.{
  Opened, Registered, Placed, Fresh, Consistent, teardown-Consistent, Moves-Consistent,
}

-- A new link of a key that has none.
module _ (key device_id identity_id : String) (backpressured : Bool) (r : DeviceRegistry)
    (h : Consistent r) (none_left : lookup key r.connections ≡ none) where
  abbrev added : DeviceRegistry
  added = add_link key device_id identity_id backpressured r

  -- The new serial number names no object yet.
  unused :
      (P : Type 0) (serial : ℕ) (other : String) (state : Option ConnectionState)
      → Opened other state
      → Fresh r.next_serial serial state
      → eqb r.next_serial serial ≡ true
      → P
  unused P serial other none e f same = absurd e
  unused P serial other (some state) e f same = absurd (ground (arith, f, same))

  add_link-Registered :
      (other : String) → Registered other (lookup other added.connections) added.states
  unfolding state_at
  add_link-Registered other =
      subst (λ o. Registered other o added.states)
        (sym (lookup-insert key other r.next_serial r.connections))
        (if_ind (λ o. Registered other o added.states) (key == other)
          (λ same.
            if_ind (Opened other) (eqb r.next_serial r.next_serial)
              (λ _. ((eq_iff key other).0 same, refl))
              (λ differs. absurd (ground (arith, differs))))
          (λ _. go (lookup other r.connections) (h.registered other)))
    where
      go : (at : Option ℕ) → Registered other at r.states → Registered other at added.states
      go none e = tt
      go (some serial) e =
          if_ind (Opened other) (eqb r.next_serial serial)
            (λ same. unused _ serial other (state_at serial r.states) e (h.fresh serial) same)
            (λ _. e)

  add_link-Placed : (serial : ℕ) → Placed added.connections serial (state_at serial added.states)
  unfolding state_at
  add_link-Placed serial =
      if_ind (Placed added.connections serial) (eqb r.next_serial serial)
        (λ same. inr (
          refl,
          ground (arith, same, lookup-insert key key r.next_serial r.connections, eq_iff key key),
          omega arith,
        ))
        (λ _. go (state_at serial r.states) (h.placed serial))
    where
      go :
          (other : Option ConnectionState)
          → Placed r.connections serial other
          → Placed added.connections serial other
      go none e = tt
      go (some other) e = ground (
        arith,
        e,
        none_left,
        lookup-insert key other.key r.next_serial r.connections,
        eq_iff key other.key,
      )

  add_link-Fresh : (serial : ℕ) → Fresh added.next_serial serial (state_at serial added.states)
  unfolding state_at
  add_link-Fresh serial =
      if_ind (Fresh added.next_serial serial) (eqb r.next_serial serial)
        (λ same. ground (arith, same)) (λ _. go (state_at serial r.states) (h.fresh serial))
    where
      go :
          (other : Option ConnectionState)
          → Fresh r.next_serial serial other
          → Fresh added.next_serial serial other
      go none e = tt
      go (some other) e = ground (arith, e)

  add_link-Consistent : Consistent added
  add_link-Consistent = record {
    registered = add_link-Registered;
    placed = add_link-Placed;
    fresh = add_link-Fresh;
  }

supersede-lookup :
    (key : String) (at : Option ℕ) (r : DeviceRegistry)
    → Consistent r
    → lookup key r.connections ≡ at
    → lookup key (supersede at r).connections ≡ none
unfolding supersede
supersede-lookup key none r h e = e
supersede-lookup key (some serial) r h e =
    go (state_at serial r.states) refl (subst (λ o. Registered key o r.states) e (h.registered key))
  where
    go :
        (state : Option ConnectionState)
        → state_at serial r.states ≡ state
        → Opened key state
        → lookup key (teardown_state (state_at serial r.states) r).connections ≡ none
    go none found here = absurd here
    go (some state) found here =
        subst (λ o. lookup key (teardown_state o r).connections ≡ none) (sym found)
          (ground (
            arith,
            e,
            here,
            state_at-serial serial r.states state found,
            lookup-erase state.key key r.connections,
            eq_iff state.key key,
          ))

supersede-Consistent :
    (at : Option ℕ) (r : DeviceRegistry) → Consistent r → Consistent (supersede at r)
unfolding supersede
supersede-Consistent none r h = h
supersede-Consistent (some serial) r h = teardown-Consistent r h serial

answer-Moves :
    (r : DeviceRegistry) (id : ℕ) (outcome : ToolCallOutcome) (at : Option ℕ)
    → Moves r (settle_state id outcome (state_of at r.states) r).0
unfolding settle_state
answer-Moves r id outcome none = stays
answer-Moves r id outcome (some serial) =
    Moves-settle_state r id outcome (state_at serial r.states) r stays

step-Consistent : (event : Event) (r : DeviceRegistry) → Consistent r → Consistent (step event r)
unfolding step connect dispatch_resume give_up settle_result emit heartbeat retain_authorized_tokens
    close_all
step-Consistent (connects key device_id identity_id backpressured) r h =
    add_link-Consistent key device_id identity_id backpressured
      (supersede (lookup key r.connections) r) (supersede-Consistent (lookup key r.connections) r h)
      (supersede-lookup key (lookup key r.connections) r h refl)
step-Consistent (drains serial) r h = Moves-Consistent (Moves-drained r serial r stays) h
step-Consistent (closes serial) r h = teardown-Consistent r h serial
step-Consistent (resumes key serial authorized aborted w) r h =
    Moves-Consistent
      (Moves-resume_state r key authorized aborted w (state_at serial r.states) serial r refl stays)
      h
step-Consistent (aborts w serial id) r h =
    Moves-Consistent (Moves-give_up_state r w id turn_aborted (state_at serial r.states) r stays) h
step-Consistent (times_out w serial id) r h =
    Moves-Consistent (Moves-give_up_state r w id timed_out (state_at serial r.states) r stays) h
step-Consistent (answers key id outcome) r h =
    Moves-Consistent (answer-Moves r id outcome (lookup key r.connections)) h
step-Consistent (emits w key payload) r h =
    Moves-Consistent (Moves-emit_state r w payload (open_state (connection key r)) r stays) h
step-Consistent (beats serial authorized w) r h =
    Moves-Consistent
      (Moves-heartbeat_state r authorized w (state_at serial r.states) serial r refl stays) h
step-Consistent (retains entries) r h =
    Moves-Consistent (Moves-retain_loop r entries (values r.connections) r stays) h
step-Consistent shuts_down r h =
    Moves-Consistent (Moves-close_loop r (values r.connections) r stays) h

run_from-Consistent :
    (events : List Event) (r : DeviceRegistry) → Consistent r → Consistent (run events r)
unfolding run
run_from-Consistent [] r h = h
run_from-Consistent (event ∷ events) r h =
    run_from-Consistent events (step event r) (step-Consistent event r h)

new-Consistent : Consistent new_registry
unfolding lookup state_at
new-Consistent = record { registered = λ key. tt; placed = λ serial. tt; fresh = λ serial. tt }

-- After any sequence of events from the empty registry: the object registered under a key is an open link
-- of this key, every open link is the registered one of its key and has at most sixteen pending calls, so
-- no key has two open links, and a closed link has no pending call.
pub run-Consistent : (events : List Event) → Consistent (run events new_registry)
run-Consistent events = run_from-Consistent events new_registry new-Consistent
