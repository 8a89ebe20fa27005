-- ===== src/ResponseBuffer/Tests.antt =====
-- Runs of the response buffer, and its theorems at concrete streams.
use Prim.Native.String.{◌++◌}
use sandi.Prelude.{false, ◌≢◌, ℕ, String, true, false, List, [], ◌∷◌, ◌≡◌, refl, ◌⊎◌}
use sandi.Prelude.Text.{trim}
use sandi.ResponseBuffer.{
  Channel, ResponseChunk, delta, text, thinking, ResponseBuffer, create_response_buffer, accept,
  take_as, slice_after, starts_with, reconcile_suffix, settle,
}
use sandi.ResponseBuffer.Stream.{run, run-replayed, run-settle}
use sandi.ResponseBuffer.Settle.{settle-streamed}
use sandi.ResponseBuffer.Joined.{numbered, run-numbered}

abbrev chunk : ℕ → String → ResponseChunk
chunk seq new = record { turn_id = "t"; seq = seq; body = delta text new }

abbrev opened : ResponseBuffer
opened = record { turn_id = "t"; streamed = ""; thoughts = ""; ended = false; expected_seq = 0 }

abbrev hello : List ResponseChunk
hello = chunk 0 "hel" ∷ chunk 0 "hel" ∷ chunk 1 "lo" ∷ []

buffers : Unit {0}
unfolding create_response_buffer accept run take_as slice_after starts_with reconcile_suffix settle
    trim
buffers = tt

test_created : create_response_buffer "t" ≡ opened
unfolding buffers
test_created = refl

test_duplicates : (run hello opened).streamed ≡ "hello"
unfolding buffers
test_duplicates = refl

test_suffix : reconcile_suffix "hel" "hello" ≡ "lo"
unfolding buffers
test_suffix = refl

test_covered : reconcile_suffix "hello there" "hello" ≡ ""
unfolding buffers
test_covered = refl

test_diverged : reconcile_suffix "hello" "goodbye" ≡ "\ngoodbye"
unfolding buffers
test_diverged = refl

run-replayed_example :
    run hello (run (chunk 2 "!" ∷ []) (run hello opened))
    ≡ run (chunk 2 "!" ∷ []) (run hello opened)
run-replayed_example = run-replayed hello (chunk 2 "!" ∷ []) opened

run-settle_example : run hello (settle "hello" opened).0 ≡ (settle "hello" opened).0
run-settle_example = run-settle hello "hello" opened

settle-streamed_example :
    let before = run hello opened in
    let (after, shown) = settle "goodbye" before in
    (after.ended ≡ true)
    × (((starts_with "goodbye" before.streamed ≡ true)
          × (after.streamed ≡ "goodbye")
          × (before.streamed ++ shown ≡ "goodbye"))
        ⊎ ((starts_with "goodbye" before.streamed ≡ false)
            × ((starts_with before.streamed "goodbye" ≡ true)
                ⊎ (trim before.streamed ≡ trim "goodbye"))
            × (after.streamed ≡ before.streamed)
            × (shown ≡ ""))
        ⊎ ((starts_with "goodbye" before.streamed ≡ false)
            × (starts_with before.streamed "goodbye" ≡ false)
            × (trim before.streamed ≢ trim "goodbye")
            × (after.streamed ≡ "goodbye")
            × (shown ≡ "\n" ++ "goodbye")))
settle-streamed_example = settle-streamed "goodbye" (run hello opened)

abbrev deltas : List (Channel × String)
deltas = (text, "hel") ∷ (thinking, "hm") ∷ (text, "lo") ∷ []

run-numbered_example :
    run (numbered "t" 0 deltas) opened
    ≡ record opened { streamed = "hello"; thoughts = "hm"; expected_seq = 3 }
run-numbered_example = run-numbered deltas opened refl
