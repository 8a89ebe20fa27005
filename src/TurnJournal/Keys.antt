-- ===== src/TurnJournal/Keys.antt =====
-- Every key of the journal goes its own way: src/lib/turns/turn-journal.ts.
use sandi.Prelude.{
  ℕ, ◌+◌, ◌≡◌, ◌==◌, refl, String, Bool, Option, none, some, List, [], ◌∷◌, ◌++◌, arith, eq_iff,
  inl, inr, Bool-cases, ◌∙◌,
}
use sandi.Prelude.Dict.{
  Dict, lookup, insert, erase, values, lookup-insert, lookup-erase, Keyed, insert-Keyed,
}
use sandi.TurnJournal.{TurnJournalOptions, TurnJournalEntry, replay, claim_loop}

module _ {J : Type 0} where
  abbrev pub with_key : String → TurnJournalEntry J → Bool
  with_key key entry = entry.key == key

  -- The replay of an entry, where there is one, or else what stands there.
  abbrev pub replay_or :
      TurnJournalOptions
      → ℕ
      → Option (TurnJournalEntry J)
      → Option (TurnJournalEntry J)
      → Option (TurnJournalEntry J)
  replay_or options now none other = other
  replay_or options now (some entry) other = elim (replay options now entry) [
    | none ↦ other
    | some next ↦ some next
  ]

  pub erase-Keyed :
      (gone : String) (entries : Dict (TurnJournalEntry J))
      → Keyed (λ e. e.key) entries
      → Keyed (λ e. e.key) (erase gone entries)
  unfolding erase
  erase-Keyed gone [] h = tt
  erase-Keyed gone ((k, v) ∷ more) h = elim (Bool-cases (k == gone)) [
    | inl same ↦ rw same (erase-Keyed gone more h.2)
    | inr other ↦ rw other (h.0, lookup-erase gone k more ∙ ground arith, erase-Keyed gone more h.2)
  ]

  pub claim_loop-Keyed :
      (options : TurnJournalOptions) (now : ℕ) (kept : Dict (TurnJournalEntry J))
      (claimed es : List (TurnJournalEntry J))
      → Keyed (λ e. e.key) kept
      → Keyed (λ e. e.key) (claim_loop options now kept claimed es).0
  unfolding claim_loop
  claim_loop-Keyed options now kept claimed [] h = h
  claim_loop-Keyed options now kept claimed (e ∷ es) h = ground (
    arith,
    claim_loop-Keyed options now kept claimed es h,
    claim_loop-Keyed options now (insert e.key (record e { attempts = e.attempts + 1 }) kept)
        (claimed ++ record e { attempts = e.attempts + 1 } ∷ []) es
        (insert-Keyed (λ e. e.key) e.key (record e { attempts = e.attempts + 1 }) kept refl h),
  )

  pub claim_loop-lookup :
      (options : TurnJournalOptions) (now : ℕ) (key : String) (kept : Dict (TurnJournalEntry J))
      (claimed : List (TurnJournalEntry J)) (entries : Dict (TurnJournalEntry J))
      → Keyed (λ e. e.key) entries
      → lookup key (claim_loop options now kept claimed (values entries)).0
        ≡ replay_or options now (lookup key entries) (lookup key kept)
  unfolding claim_loop lookup values
  claim_loop-lookup options now key kept claimed [] h = refl
  claim_loop-lookup options now key kept claimed ((k, e) ∷ entries) h =
      let next = record e { attempts = e.attempts + 1 } in
      ground (
        arith,
        h,
        claim_loop-lookup options now key kept claimed entries h.2,
        claim_loop-lookup options now key (insert e.key next kept) (claimed ++ next ∷ []) entries
            h.2,
        lookup-insert e.key key next kept,
        eq_iff k key,
      )
