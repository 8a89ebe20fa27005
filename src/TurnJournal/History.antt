-- ===== src/TurnJournal/History.antt =====
-- Histories of the turn journal: src/lib/turns/turn-journal.ts.
use sandi.Prelude.{
  ℕ, ◌+◌, ◌≡◌, ◌==◌, refl, String, not, ◌&&◌, Option, none, some, List, [], ◌∷◌, ◌++◌,
  if◌then◌else◌, arith, eq_iff, inl, inr, Bool-cases, subst, count, count-append,
}
use sandi.Prelude.Dict.{
  Dict, lookup, insert, values, lookup-insert, lookup-erase, Keyed, insert-Keyed,
}
use sandi.Prelude.Text.{trim, is_empty}
use sandi.TurnJournal.{
  TurnJournalOptions, TurnJournalEntry, accept, accept_absent, settle, claim_loop, claim_replayable,
}
use sandi.TurnJournal.Keys.{with_key, replay_or, erase-Keyed, claim_loop-Keyed, claim_loop-lookup}

pub data Event (J : Type 0) : Type 0 where
  accepts : (now : ℕ) (key : String) (payload : J) → Event J
  settles : (key : String) → Event J
  claims : (now : ℕ) → Event J

module _ {J : Type 0} where
  abbrev pub unless_thrown :
      Dict (TurnJournalEntry J) → Option (Dict (TurnJournalEntry J)) → Dict (TurnJournalEntry J)
  unless_thrown entries none = entries
  unless_thrown entries (some next) = next

  -- One operation: the new entries and the turns that it gives back to run again.
  unfoldable pub step :
      TurnJournalOptions
      → Event J
      → Dict (TurnJournalEntry J)
      → Dict (TurnJournalEntry J) × List (TurnJournalEntry J)
  unfolding accept settle claim_replayable
  step options (accepts now key payload) entries =
      (unless_thrown entries (accept now key payload entries), [])
  step options (settles key) entries = (settle key entries, [])
  step options (claims now) entries = claim_replayable options now entries

  -- A history: the entries it leaves and all the turns it gave back.
  unfoldable pub run :
      TurnJournalOptions
      → List (Event J)
      → Dict (TurnJournalEntry J)
      → Dict (TurnJournalEntry J) × List (TurnJournalEntry J)
  unfolding step
  run options [] entries = (entries, [])
  run options (e ∷ es) entries =
      let (next, given) = step options e entries in
      let (final, later) = run options es next in (final, given ++ later)

  -- What an operation does to one key alone.
  abbrev pub or_new : ℕ → String → J → Option (TurnJournalEntry J) → Option (TurnJournalEntry J)
  or_new now key payload (some entry) = some entry
  or_new now key payload none =
      some (record { key = key; payload = payload; accepted_at = now; attempts = 0 })

  abbrev pub follow_step :
      TurnJournalOptions
      → String
      → Event J
      → Option (TurnJournalEntry J)
      → Option (TurnJournalEntry J)
  follow_step options key (accepts now raw payload) entry =
      if not (is_empty (trim raw)) && (trim raw == key) then or_new now key payload entry else entry
  follow_step options key (settles raw) entry = if trim raw == key then none else entry
  follow_step options key (claims now) entry = replay_or options now entry none

  abbrev pub one_if_some : Option (TurnJournalEntry J) → ℕ
  one_if_some none = 0
  one_if_some (some entry) = 1

  abbrev pub replays_step : TurnJournalOptions → Event J → Option (TurnJournalEntry J) → ℕ
  replays_step options (claims now) entry = one_if_some (replay_or options now entry none)
  replays_step options (accepts now key payload) entry = 0
  replays_step options (settles key) entry = 0

  -- A history of one key alone: its entry and how often its turn is given back.
  unfoldable pub follow :
      TurnJournalOptions
      → String
      → List (Event J)
      → Option (TurnJournalEntry J)
      → Option (TurnJournalEntry J) × ℕ
  follow options key [] entry = (entry, 0)
  follow options key (e ∷ es) entry =
      let (final, times) = follow options key es (follow_step options key e entry) in
      (final, replays_step options e entry + times)

  claim_loop-count :
      (options : TurnJournalOptions) (now : ℕ) (key : String) (kept : Dict (TurnJournalEntry J))
      (claimed : List (TurnJournalEntry J)) (entries : Dict (TurnJournalEntry J))
      → Keyed (λ e. e.key) entries
      → count (with_key key) (claim_loop options now kept claimed (values entries)).1
        ≡ count (with_key key) claimed
          + one_if_some (replay_or options now (lookup key entries) none)
  unfolding claim_loop lookup values
  claim_loop-count options now key kept claimed [] h = omega arith
  claim_loop-count options now key kept claimed ((k, e) ∷ entries) h =
      let next = record e { attempts = e.attempts + 1 } in
      ground (
        arith,
        h,
        claim_loop-count options now key kept claimed entries h.2,
        claim_loop-count options now key (insert e.key next kept) (claimed ++ next ∷ []) entries
            h.2,
        count-append (with_key key) claimed (next ∷ []),
        eq_iff k key,
      )

  accept-lookup :
      (now : ℕ) (raw key : String) (payload : J) (entries : Dict (TurnJournalEntry J))
      (found : Option (TurnJournalEntry J))
      → lookup (trim raw) entries ≡ found
      → lookup key (accept_absent now (trim raw) payload entries found) ≡ (
          if trim raw == key
          then or_new now key payload (lookup key entries)
          else lookup key entries)
  accept-lookup now raw key payload entries none e = ground (
    arith,
    eq_iff (trim raw) key,
    lookup-insert (trim raw) key
        (record { key = trim raw; payload = payload; accepted_at = now; attempts = 0 }) entries,
  )
  accept-lookup now raw key payload entries (some x) e = ground (arith, eq_iff (trim raw) key)

  accept_absent-Keyed :
      (now : ℕ) (key : String) (payload : J) (entries : Dict (TurnJournalEntry J))
      (found : Option (TurnJournalEntry J))
      → Keyed (λ e. e.key) entries
      → Keyed (λ e. e.key) (accept_absent now key payload entries found)
  accept_absent-Keyed now key payload entries (some x) h = h
  accept_absent-Keyed now key payload entries none h =
      insert-Keyed (λ e. e.key) key _ entries refl h

  step-Keyed :
      (options : TurnJournalOptions) (e : Event J) (entries : Dict (TurnJournalEntry J))
      → Keyed (λ e. e.key) entries
      → Keyed (λ e. e.key) (step options e entries).0
  unfolding step accept settle claim_replayable
  step-Keyed options (accepts now raw payload) entries h = elim (Bool-cases (is_empty (trim raw))) [
    | inl t ↦ rw t h
    | inr f ↦
        rw f (accept_absent-Keyed now (trim raw) payload entries (lookup (trim raw) entries) h)
  ]
  step-Keyed options (settles raw) entries h = erase-Keyed (trim raw) entries h
  step-Keyed options (claims now) entries h = claim_loop-Keyed options now [] [] (values entries) tt

  step-follow :
      (options : TurnJournalOptions) (key : String) (e : Event J)
      (entries : Dict (TurnJournalEntry J))
      → Keyed (λ e. e.key) entries
      → (lookup key (step options e entries).0 ≡ follow_step options key e (lookup key entries))
        × (count (with_key key) (step options e entries).1
            ≡ replays_step options e (lookup key entries))
  unfolding step accept settle claim_replayable lookup
  step-follow options key (accepts now raw payload) entries h = (
    ground (arith, accept-lookup now raw key payload entries (lookup (trim raw) entries) refl),
    refl,
  )
  step-follow options key (settles raw) entries h = (lookup-erase (trim raw) key entries, refl)
  step-follow options key (claims now) entries h = (
    claim_loop-lookup options now key [] [] entries h,
    omega (arith, claim_loop-count options now key [] [] entries h),
  )

  -- The journal treats each key by itself: after any history, starting from entries under their own
  -- keys, the entry of a key and the number of times that its turn was given back are those of the
  -- history of this key alone, in which an accepted key keeps the entry it has, a settled one loses it,
  -- and a claim charges the entry one attempt or drops it.
  pub run-follow :
      (options : TurnJournalOptions) (key : String) (events : List (Event J))
      (entries : Dict (TurnJournalEntry J))
      → Keyed (λ e. e.key) entries
      → (lookup key (run options events entries).0
          ≡ (follow options key events (lookup key entries)).0)
        × (count (with_key key) (run options events entries).1
            ≡ (follow options key events (lookup key entries)).1)
  unfolding run follow
  run-follow options key [] entries h = (refl, refl)
  run-follow options key (e ∷ es) entries h =
      let next = (step options e entries).0 in
      let (now_entry, now_times) = step-follow options key e entries h in
      let (final, times) =
        subst
          (λ o.
            (lookup key (run options es next).0 ≡ (follow options key es o).0)
            × (count (with_key key) (run options es next).1 ≡ (follow options key es o).1))
          now_entry (run-follow options key es next (step-Keyed options e entries h)) in
      (
        final,
        omega (
          arith,
          now_times,
          times,
          count-append (with_key key) (step options e entries).1 (run options es next).1,
        ),
      )
