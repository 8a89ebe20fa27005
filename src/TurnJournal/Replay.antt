-- ===== src/TurnJournal/Replay.antt =====
-- How often the turn journal gives a turn back: src/lib/turns/turn-journal.ts.
use sandi.Prelude.{
  ℕ, ◌+◌, ◌-◌, ◌≡◌, ◌==◌, String, false, Option, none, some, List, [], ◌∷◌, ◌++◌, ltb, arith, inl,
  inr, Bool-cases, count, ◌≤◌, All, All-append,
}
use sandi.Prelude.Dict.{Dict, lookup, insert, values, Keyed}
use sandi.Prelude.Text.{trim}
use sandi.TurnJournal.{TurnJournalOptions, TurnJournalEntry, claim_loop, claim_replayable}
use sandi.TurnJournal.Keys.{with_key}
use sandi.TurnJournal.History.{Event, accepts, settles, claims, run, follow, run-follow}

module _ {J : Type 0} where
  -- The operation neither accepts nor settles the key.
  abbrev pub LeavesAlone : String → Event J → Type 0
  LeavesAlone key (accepts now raw payload) = (trim raw == key) ≡ false
  LeavesAlone key (settles raw) = (trim raw == key) ≡ false
  LeavesAlone key (claims now) = Unit

  abbrev pub attempts_left : TurnJournalOptions → Option (TurnJournalEntry J) → ℕ
  attempts_left options none = 0
  attempts_left options (some entry) = options.max_attempts - entry.attempts

  follow-spent :
      (options : TurnJournalOptions) (key : String) (events : List (Event J))
      (entry : Option (TurnJournalEntry J))
      → All (LeavesAlone key) events
      → (follow options key events entry).1 ≤ attempts_left options entry
  unfolding follow
  follow-spent options key [] entry alone = omega arith
  follow-spent options key (accepts now raw payload ∷ es) entry alone =
      ground (arith, alone.0, follow-spent options key es entry alone.1)
  follow-spent options key (settles raw ∷ es) entry alone =
      ground (arith, alone.0, follow-spent options key es entry alone.1)
  follow-spent options key (claims now ∷ es) none alone =
      omega (arith, follow-spent options key es none alone.1)
  follow-spent options key (claims now ∷ es) (some entry) alone = ground (
    arith,
    follow-spent options key es none alone.1,
    follow-spent options key es (some (record entry { attempts = entry.attempts + 1 })) alone.1,
  )

  -- A turn is replayed a bounded number of times: over any history that neither accepts nor settles its
  -- key, restarts and other turns included, the claims give it back at most as often as it has attempts
  -- left, and never if it is not in the journal.
  pub run-bounded :
      (options : TurnJournalOptions) (key : String) (events : List (Event J))
      (entries : Dict (TurnJournalEntry J))
      → Keyed (λ e. e.key) entries
      → All (LeavesAlone key) events
      → count (with_key key) (run options events entries).1
        ≤ attempts_left options (lookup key entries)
  run-bounded options key events entries h alone = omega (
    arith,
    (run-follow options key events entries h).1,
    follow-spent options key events (lookup key entries) alone,
  )

  -- The turn is charged within its budget and within the window.
  abbrev pub IsReplayable : TurnJournalOptions → ℕ → TurnJournalEntry J → Type 0
  IsReplayable options now entry =
      (1 ≤ entry.attempts)
      × (entry.attempts ≤ options.max_attempts)
      × (now ≤ entry.accepted_at + options.max_age_ms)

  claim_loop-IsReplayable :
      (options : TurnJournalOptions) (now : ℕ) (kept : Dict (TurnJournalEntry J))
      (claimed es : List (TurnJournalEntry J))
      → All (IsReplayable options now) claimed
      → All (IsReplayable options now) (claim_loop options now kept claimed es).1
  unfolding claim_loop
  claim_loop-IsReplayable options now kept claimed [] h = h
  claim_loop-IsReplayable options now kept claimed (e ∷ es) h =
      let next = record e { attempts = e.attempts + 1 } in
      elim (Bool-cases (ltb (e.accepted_at + options.max_age_ms) now)) [
        | inl old ↦ rw old (claim_loop-IsReplayable options now kept claimed es h)
        | inr young ↦ elim (Bool-cases (ltb options.max_attempts (e.attempts + 1))) [
          | inl spent ↦ rw (young, spent) (claim_loop-IsReplayable options now kept claimed es h)
          | inr able ↦
              rw (young, able)
                (claim_loop-IsReplayable options now (insert e.key next kept) (claimed ++ next ∷ [])
                  es
                  (All-append (IsReplayable options now) claimed (next ∷ [])
                    ((ground arith, ground arith, ground arith), tt) h))
        ]
      ]

  -- `claim_replayable` gives back only turns that were accepted within the window and whose attempts,
  -- the one now charged included, are within the budget.
  pub claim_replayable-IsReplayable :
      (options : TurnJournalOptions) (now : ℕ) (entries : Dict (TurnJournalEntry J))
      → All (IsReplayable options now) (claim_replayable options now entries).1
  unfolding claim_replayable
  claim_replayable-IsReplayable options now entries =
      claim_loop-IsReplayable options now [] [] (values entries) tt
