-- ===== src/Pairing/Unique.antt =====
-- Codes are unambiguous and single-use: src/lib/pairing/pairing-store.ts.
use sandi.Prelude.{
  ℕ, ◌≤◌, ◌≡◌, refl, String, Bool, false, not, Option, none, some, List, [], ◌∷◌, ◌++◌, any, filter,
  find, count, count-append, count-none, arith, eq_iff,
}
use sandi.Pairing.Store.{ApiPairing, ApiPairings, PairingRedemption}
use sandi.Pairing.{
  is_live, has_digest, of_identity, generate_unique_code, create_pairing, consume_pairing, redeem,
  redeem_found, Surroundings, new_pairing, issue,
}
use sandi.Pairing.Count.{
  count-filter_le, count-filter-not, generate-any, count-consume_loop, count-replace,
}
use sandi.Pairing.Rewrite.{
  Rewritten, unchanged, expired_dropped, journal_set, Rewritten-redeem_found, with_journal,
}

-- One transaction on the file.
pub data Action : Type 0 where
  create : (draw : ℕ → String) (identity : String) (now ttl : ℕ) → Action
  consume : (code : String) (now : ℕ) → Action
  redeem_code : (code : String) (now : ℕ) (s : Surroundings) → Action

abbrev pub file_after : ApiPairings → Option (String × ApiPairings) → ApiPairings
file_after pairings none = pairings
file_after pairings (some (code, next)) = next

module _ (hash : String → String) where
  unfoldable pub step : Action → ApiPairings → ApiPairings
  unfolding create_pairing consume_pairing redeem
  step (create draw identity now ttl) pairings =
      file_after pairings (create_pairing hash draw identity now ttl pairings)
  step (consume code now) pairings = (consume_pairing hash code now pairings).1
  step (redeem_code code now s) pairings = (redeem hash code now s pairings).1

  unfoldable pub run : List Action → ApiPairings → ApiPairings
  unfolding step
  run [] pairings = pairings
  run (action ∷ rest) pairings = run rest (step action pairings)

-- At most one pairing for a digest and at most one for an identity.
abbrev pub IsUnambiguous : ApiPairings → Type 0
IsUnambiguous pairings =
    ((digest : String) → count (has_digest digest) pairings ≤ 1)
    × ((identity : String) → count (of_identity identity) pairings ≤ 1)

module _ (hash : String → String) where
  count_digest-issue :
      (identity : String) (now ttl : ℕ) (pairings : ApiPairings) (digest code : String)
      → any (has_digest (hash code)) pairings ≡ false
      → count (has_digest digest) pairings ≤ 1
      → count (has_digest digest) (
          filter (λ p. not (of_identity identity p)) pairings
          ++ new_pairing hash identity now ttl code ∷ [])
        ≤ 1
  count_digest-issue identity now ttl pairings digest code fresh once = ground (
    arith,
    count-append (has_digest digest) (filter (λ p. not (of_identity identity p)) pairings)
        (new_pairing hash identity now ttl code ∷ []),
    count-filter_le (has_digest digest) (λ p. not (of_identity identity p)) pairings,
    eq_iff (hash code) digest,
    count-none (has_digest (hash code)) pairings fresh,
  )

  count_identity-issue :
      (identity : String) (now ttl : ℕ) (pairings : ApiPairings) (other code : String)
      → count (of_identity other) pairings ≤ 1
      → count (of_identity other) (
          filter (λ p. not (of_identity identity p)) pairings
          ++ new_pairing hash identity now ttl code ∷ [])
        ≤ 1
  count_identity-issue identity now ttl pairings other code once = ground (
    arith,
    count-append (of_identity other) (filter (λ p. not (of_identity identity p)) pairings)
        (new_pairing hash identity now ttl code ∷ []),
    count-filter_le (of_identity other) (λ p. not (of_identity identity p)) pairings,
    count-filter-not (of_identity identity) pairings,
    eq_iff identity other,
  )

  pub IsUnambiguous-live :
      (now : ℕ) (pairings : ApiPairings)
      → IsUnambiguous pairings
      → IsUnambiguous (filter (is_live now) pairings)
  IsUnambiguous-live now pairings (digests, identities) = (
    (λ digest.
        omega (arith, digests digest, count-filter_le (has_digest digest) (is_live now) pairings)),
    (λ other.
        omega
          (arith, identities other, count-filter_le (of_identity other) (is_live now) pairings)),
  )

  issue-IsUnambiguous :
      (draw : ℕ → String) (identity : String) (now ttl : ℕ) (pairings : ApiPairings)
      (drawn : Option String)
      → generate_unique_code hash draw (filter (is_live now) pairings) 16 0 ≡ drawn
      → IsUnambiguous pairings
      → IsUnambiguous
          (file_after pairings (issue hash identity now ttl (filter (is_live now) pairings) drawn))
  issue-IsUnambiguous draw identity now ttl pairings none e sound = sound
  issue-IsUnambiguous draw identity now ttl pairings (some code) e sound =
      let (digests, identities) = IsUnambiguous-live now pairings sound in
      let fresh = generate-any hash draw (filter (is_live now) pairings) 16 0 e in
      (
        (λ digest. count_digest-issue identity now ttl _ digest code fresh (digests digest)),
        (λ other. count_identity-issue identity now ttl _ other code (identities other)),
      )

  pub count-Rewritten :
      (p : ApiPairing → Bool) (digest : String) (now : ℕ) (pairings : ApiPairings)
      (pairing : ApiPairing) {file : ApiPairings}
      → ((journal : Option PairingRedemption) → p (with_journal pairing journal) ≡ p pairing)
      → count (has_digest digest) (filter (is_live now) pairings) ≤ 1
      → find (has_digest digest) (filter (is_live now) pairings) ≡ some pairing
      → Rewritten pairings (filter (is_live now) pairings) pairing file
      → count p file ≤ count p pairings
  count-Rewritten p digest now pairings pairing same once found unchanged = omega arith
  count-Rewritten p digest now pairings pairing same once found expired_dropped =
      count-filter_le p (is_live now) pairings
  count-Rewritten p digest now pairings pairing same once found (journal_set journal) = omega (
    arith,
    count-filter_le p (is_live now) pairings,
    count-replace p digest (filter (is_live now) pairings) pairing (with_journal pairing journal)
        found once (same journal),
  )

  pruned-IsUnambiguous :
      (now : ℕ) (s : Surroundings) (pairings : ApiPairings)
      → IsUnambiguous pairings
      → IsUnambiguous (redeem_found s now pairings (filter (is_live now) pairings) none).1
  unfolding redeem_found
  pruned-IsUnambiguous now s pairings (digests, identities) =
      let (live_digests, live_identities) = IsUnambiguous-live now pairings (digests, identities) in
      (
        (λ other. ground (arith, digests other, live_digests other)),
        (λ other. ground (arith, identities other, live_identities other)),
      )

  redeem-IsUnambiguous :
      (digest : String) (now : ℕ) (s : Surroundings) (pairings : ApiPairings)
      (found : Option ApiPairing)
      → find (has_digest digest) (filter (is_live now) pairings) ≡ found
      → IsUnambiguous pairings
      → IsUnambiguous (redeem_found s now pairings (filter (is_live now) pairings) found).1
  redeem-IsUnambiguous digest now s pairings none e sound =
      pruned-IsUnambiguous now s pairings sound
  redeem-IsUnambiguous digest now s pairings (some pairing) e (digests, identities) =
      let once = (IsUnambiguous-live now pairings (digests, identities)).0 digest in
      (
        (λ other. omega (
          arith,
          digests other,
          count-Rewritten (has_digest other) digest now pairings pairing (λ j. refl) once e
              (Rewritten-redeem_found s now),
        )),
        (λ other. omega (
          arith,
          identities other,
          count-Rewritten (of_identity other) digest now pairings pairing (λ j. refl) once e
              (Rewritten-redeem_found s now),
        )),
      )

  pub step-IsUnambiguous :
      (action : Action) (pairings : ApiPairings)
      → IsUnambiguous pairings
      → IsUnambiguous (step hash action pairings)
  unfolding step create_pairing consume_pairing redeem
  step-IsUnambiguous (create draw identity now ttl) pairings sound =
      issue-IsUnambiguous draw identity now ttl pairings _ refl sound
  step-IsUnambiguous (consume code now) pairings (digests, identities) = (
    (λ other. omega (
      arith,
      digests other,
      count-consume_loop (has_digest other) (hash code) now none [] pairings,
    )),
    (λ other. omega (
      arith,
      identities other,
      count-consume_loop (of_identity other) (hash code) now none [] pairings,
    )),
  )
  step-IsUnambiguous (redeem_code code now s) pairings sound =
      redeem-IsUnambiguous (hash code) now s pairings _ refl sound

  -- If no two pairings of the file share a digest and no two bind the same identity, the same holds
  -- after any sequence of issued, consumed and redeemed codes, whatever the codes drawn, the clock
  -- readings, the callbacks and the failures of redemptions.
  pub run-IsUnambiguous :
      (actions : List Action) (pairings : ApiPairings)
      → IsUnambiguous pairings
      → IsUnambiguous (run hash actions pairings)
  unfolding run
  run-IsUnambiguous [] pairings sound = sound
  run-IsUnambiguous (action ∷ rest) pairings sound =
      run-IsUnambiguous rest (step hash action pairings) (step-IsUnambiguous action pairings sound)
