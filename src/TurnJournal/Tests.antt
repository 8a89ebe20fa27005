-- ===== src/TurnJournal/Tests.antt =====
-- Runs of the turn journal, and its theorems at concrete histories.
use sandi.Prelude.{ℕ, ◌≤◌, ◌≡◌, refl, String, none, some, List, [], ◌∷◌, All, count}
use sandi.Prelude.Dict.{Dict, lookup, insert, erase, values, Keyed}
use sandi.Prelude.Text.{trim}
use sandi.TurnJournal.{
  TurnJournalOptions, TurnJournalEntry, accept, settle, claim_loop, claim_replayable,
}
use sandi.TurnJournal.Keys.{with_key}
use sandi.TurnJournal.History.{Event, accepts, settles, claims, step, run, follow, run-follow}
use sandi.TurnJournal.Replay.{
  attempts_left, IsReplayable, run-bounded, claim_replayable-IsReplayable,
}

abbrev options : TurnJournalOptions
options = record { max_age_ms = 1000; max_attempts = 2 }

abbrev turn : String → ℕ → TurnJournalEntry String
turn key attempts = record { key = key; payload = "hello"; accepted_at = 100; attempts = attempts }

abbrev owed : Dict (TurnJournalEntry String)
owed = ("m1", turn "m1" 0) ∷ ("m2", turn "m2" 2) ∷ []

abbrev crashes : List (Event String)
crashes =
    claims 200 ∷ accepts 210 "m3" "hi" ∷ claims 300 ∷ settles " m3 " ∷ claims 400 ∷ claims 500 ∷ []

journal : Unit {0}
unfolding accept settle claim_loop claim_replayable step run follow lookup insert erase values trim
journal = tt

test_claim : claim_replayable options 200 owed ≡ (("m1", turn "m1" 1) ∷ [], turn "m1" 1 ∷ [])
unfolding journal
test_claim = refl

test_old : claim_replayable options 1101 owed ≡ ([], [])
unfolding journal
test_old = refl

test_accept_again : accept 200 " m1 " "again" owed ≡ some owed
unfolding journal
test_accept_again = refl

test_empty_key : accept 200 "  " "again" owed ≡ none
unfolding journal
test_empty_key = refl

owed-Keyed : Keyed (λ e. e.key) owed
unfolding journal
owed-Keyed = (refl, refl, (refl, refl, tt))

run-follow_example :
    (lookup "m1" (run options crashes owed).0 ≡ (follow options "m1" crashes (lookup "m1" owed)).0)
    × (count (with_key "m1") (run options crashes owed).1
        ≡ (follow options "m1" crashes (lookup "m1" owed)).1)
run-follow_example = run-follow options "m1" crashes owed owed-Keyed

run-bounded_example :
    count (with_key "m1") (run options crashes owed).1 ≤ attempts_left options (lookup "m1" owed)
unfolding journal
run-bounded_example =
    run-bounded options "m1" crashes owed owed-Keyed (tt, (refl, (tt, (refl, (tt, (tt, tt))))))

claim_replayable-IsReplayable_example :
    All (IsReplayable options 200) (claim_replayable options 200 owed).1
claim_replayable-IsReplayable_example = claim_replayable-IsReplayable options 200 owed
