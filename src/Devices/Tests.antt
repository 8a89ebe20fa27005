-- ===== src/Devices/Tests.antt =====
-- Runs of the device registry, and its theorems at a concrete history.
use sandi.Prelude.{◌≡◌, refl, false, true, none, List, [], ◌∷◌}
use sandi.Devices.Link.{
  ToolCallOutcome, resolved, device_unavailable, flushed, buffered, new_registry, state_at,
  set_state, reject_all, tool_call, turn_aborted,
}
use sandi.Devices.{connect}
use sandi.Prelude.Dict.{lookup, insert, erase}
use sandi.Devices.Calls.{dispatch_resume, settle_result, give_up}
use sandi.Devices.History.{Event, connects, resumes, aborts, answers, run}
use sandi.Devices.Accounting.{CallAccounted, run-CallAccounted}
use sandi.Devices.Consistent.{Consistent}
use sandi.Devices.Linked.{run-Consistent}

abbrev answer : ToolCallOutcome
answer = record {
  ok = true;
  content = "done";
  error = none;
  is_error = none;
  structured_content = none;
  attachment = none;
}

-- A desktop links, two of the three calls start, one is answered, and the desktop links again.
abbrev relinked : List Event
relinked =
    connects "k1" "laptop" "ada" false
    ∷ resumes "k1" 0 true false flushed
    ∷ resumes "k1" 0 true false buffered
    ∷ resumes "k1" 0 true false flushed
    ∷ answers "k1" 0 answer
    ∷ connects "k1" "laptop" "ada" false
    ∷ resumes "k1" 1 true false flushed
    ∷ []

settles_each_call :
    (run relinked new_registry).settled ≡ (0, resolved answer) ∷ (1, device_unavailable) ∷ []
unfolding run connect dispatch_resume settle_result give_up state_at set_state lookup insert erase
    reject_all
settles_each_call = refl

sends_to_each_link :
    (run relinked new_registry).sent ≡ (0, tool_call 0) ∷ (0, tool_call 1) ∷ (1, tool_call 2) ∷ []
unfolding run connect dispatch_resume settle_result give_up state_at set_state lookup insert erase
    reject_all
sends_to_each_link = refl

-- A call resumes on the link object that it found, which is gone by then.
stale_dispatch :
    (run
      (connects "k1" "laptop" "ada" false
        ∷ connects "k1" "laptop" "ada" false
        ∷ resumes "k1" 0 true false flushed
        ∷ [])
      new_registry).sent
    ≡ []
unfolding run connect dispatch_resume settle_result give_up state_at set_state lookup insert erase
    reject_all
stale_dispatch = refl

cancels :
    (run
      (connects "k1" "laptop" "ada" false
        ∷ resumes "k1" 0 true false flushed
        ∷ aborts flushed 0 0
        ∷ answers "k1" 0 answer
        ∷ [])
      new_registry).settled
    ≡ (0, turn_aborted) ∷ []
unfolding run connect dispatch_resume settle_result give_up state_at set_state lookup insert erase
    reject_all
cancels = refl

run-CallAccounted_example : CallAccounted 1 (run relinked new_registry)
run-CallAccounted_example = run-CallAccounted 1 relinked

run-Consistent_example : Consistent (run relinked new_registry)
run-Consistent_example = run-Consistent relinked
