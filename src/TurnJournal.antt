-- ===== src/TurnJournal.antt =====
-- The journal of turns that were accepted and have not finished: src/lib/turns/turn-journal.ts. Each
-- operation is what it does to the stored entries under the managed-write lock; the clock is an
-- argument, times are milliseconds, and the payload is any JSON type.
pub mod Keys
pub mod History
pub mod Replay
mod Tests
use sandi.Prelude.{
  ℕ, suc, ◌+◌, String, Option, none, some, List, [], ◌∷◌, ◌++◌, if◌then◌else◌, ltb, leb,
}
use sandi.Prelude.Dict.{Dict, lookup, insert, erase, values}
use sandi.Prelude.Text.{trim, is_empty}

pub record TurnJournalOptions : Type 0 where
  pub max_age_ms : ℕ
  pub max_attempts : ℕ

pub record TurnJournalEntry (J : Type 0) : Type 0 where
  pub key : String
  pub payload : J
  pub accepted_at : ℕ
  pub attempts : ℕ

module _ {J : Type 0} where
  abbrev accept_absent :
      ℕ
      → String
      → J
      → Dict (TurnJournalEntry J)
      → Option (TurnJournalEntry J)
      → Dict (TurnJournalEntry J)
  accept_absent now key payload entries (some entry) = entries
  accept_absent now key payload entries none =
      insert key (record { key = key; payload = payload; accepted_at = now; attempts = 0 }) entries

  -- `accept`; `none` is its throw for an empty key.
  pub accept : ℕ → String → J → Dict (TurnJournalEntry J) → Option (Dict (TurnJournalEntry J))
  accept now key payload entries =
      let normalized = trim key in
      if is_empty normalized
      then none
      else some (accept_absent now normalized payload entries (lookup normalized entries))

  pub settle : String → Dict (TurnJournalEntry J) → Dict (TurnJournalEntry J)
  settle key entries = erase (trim key) entries

  -- What `claimReplayable` does with one entry: it is charged an attempt, or dropped because it is
  -- older than the window or has no attempt left.
  abbrev pub replay : TurnJournalOptions → ℕ → TurnJournalEntry J → Option (TurnJournalEntry J)
  replay options now entry =
      if ltb (entry.accepted_at + options.max_age_ms) now
      then none
      else if ltb options.max_attempts (entry.attempts + 1)
      then none
      else some (record entry { attempts = entry.attempts + 1 })

  -- The loop, with the entries it keeps and those it has claimed.
  pub claim_loop :
      TurnJournalOptions
      → ℕ
      → Dict (TurnJournalEntry J)
      → List (TurnJournalEntry J)
      → List (TurnJournalEntry J)
      → Dict (TurnJournalEntry J) × List (TurnJournalEntry J)
  claim_loop options now entries claimed [] = (entries, claimed)
  claim_loop options now entries claimed (entry ∷ rest) =
      let drop = claim_loop options now entries claimed rest in
      let next = record entry { attempts = entry.attempts + 1 } in
      let keep =
        claim_loop options now (insert entry.key next entries) (claimed ++ next ∷ []) rest in
      if ltb (entry.accepted_at + options.max_age_ms) now
      then drop
      else if ltb options.max_attempts (entry.attempts + 1)
      then drop
      else keep

  -- `claimReplayable`: the new entries and the turns to run again.
  pub claim_replayable :
      TurnJournalOptions
      → ℕ
      → Dict (TurnJournalEntry J)
      → Dict (TurnJournalEntry J) × List (TurnJournalEntry J)
  unfolding claim_loop
  claim_replayable options now entries = claim_loop options now [] [] (values entries)
