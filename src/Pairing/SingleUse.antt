-- ===== src/Pairing/SingleUse.antt =====
-- A code that was consumed is of no more use: src/lib/pairing/pairing-store.ts.
use sandi.Prelude.{
  ℕ, zero, suc, ◌+◌, ◌≡◌, ◌==◌, refl, String, false, not, Option, none, some, List, [], ◌∷◌, filter,
  find, count, All, count-append, arith, ◌⊎◌,
}
use sandi.Pairing.Store.{ApiPairing, ApiPairings, invalid}
use sandi.Pairing.{
  is_live, has_digest, of_identity, generate_unique_code, create_pairing, consume_pairing, redeem,
  redeem_found, Surroundings, returned, thrown, write_error, new_pairing, issue,
}
use sandi.Pairing.Count.{count-filter_le, count-consume_loop}
use sandi.Pairing.Rewrite.{Rewritten-redeem_found}
use sandi.Pairing.Consume.{count-consumed, consume-count_zero}
use sandi.Pairing.Unique.{
  Action, create, consume, redeem_code, step, run, file_after, IsUnambiguous, IsUnambiguous-live,
  step-IsUnambiguous, count-Rewritten,
}

module _ (hash : String → String) where
  -- The action draws no code of the digest.
  abbrev pub Avoids : String → Action → Type 0
  Avoids digest (create draw identity now ttl) = (k : ℕ) → (hash (draw k) == digest) ≡ false
  Avoids digest (consume code now) = Unit
  Avoids digest (redeem_code code now s) = Unit

  generate-avoids :
      (draw : ℕ → String) (digest : String) (live : ApiPairings) (attempts attempt : ℕ)
      (code : String)
      → ((k : ℕ) → (hash (draw k) == digest) ≡ false)
      → generate_unique_code hash draw live attempts attempt ≡ some code
      → (hash code == digest) ≡ false
  unfolding generate_unique_code
  generate-avoids draw digest live zero attempt code avoided e = ground arith
  generate-avoids draw digest live (suc attempts) attempt code avoided e =
      ground (
        arith,
        avoided attempt,
        generate-avoids draw digest live attempts (attempt + 1) code avoided,
      )

  issue-count_zero :
      (draw : ℕ → String) (identity : String) (now ttl : ℕ) (pairings : ApiPairings)
      (digest : String) (drawn : Option String)
      → generate_unique_code hash draw (filter (is_live now) pairings) 16 0 ≡ drawn
      → ((k : ℕ) → (hash (draw k) == digest) ≡ false)
      → count (has_digest digest) pairings ≡ 0
      → count
          (has_digest digest)
          (file_after pairings (issue hash identity now ttl (filter (is_live now) pairings) drawn))
        ≡ 0
  issue-count_zero draw identity now ttl pairings digest none e avoided zero_left = zero_left
  issue-count_zero draw identity now ttl pairings digest (some code) e avoided zero_left =
      let live = filter (is_live now) pairings in
      ground (
        arith,
        generate-avoids draw digest live 16 0 code avoided e,
        count-append (has_digest digest) (filter (λ p. not (of_identity identity p)) live)
            (new_pairing hash identity now ttl code ∷ []),
        count-filter_le (has_digest digest) (λ p. not (of_identity identity p)) live,
        count-filter_le (has_digest digest) (is_live now) pairings,
      )

  redeem-count_zero :
      (d digest : String) (now : ℕ) (s : Surroundings) (pairings : ApiPairings)
      (found : Option ApiPairing)
      → find (has_digest d) (filter (is_live now) pairings) ≡ found
      → IsUnambiguous pairings
      → count (has_digest digest) pairings ≡ 0
      → count
          (has_digest digest)
          (redeem_found s now pairings (filter (is_live now) pairings) found).1
        ≡ 0
  unfolding redeem_found
  redeem-count_zero d digest now s pairings none e sound zero_left =
      ground (arith, count-filter_le (has_digest digest) (is_live now) pairings)
  redeem-count_zero d digest now s pairings (some pairing) e sound zero_left = omega (
    arith,
    zero_left,
    count-Rewritten hash (has_digest digest) d now pairings pairing (λ j. refl)
        ((IsUnambiguous-live hash now pairings sound).0 d) e (Rewritten-redeem_found s now),
  )

  step-count_zero :
      (digest : String) (action : Action) (pairings : ApiPairings)
      → IsUnambiguous pairings
      → Avoids digest action
      → count (has_digest digest) pairings ≡ 0
      → count (has_digest digest) (step hash action pairings) ≡ 0
  unfolding step create_pairing consume_pairing redeem
  step-count_zero digest (create draw identity now ttl) pairings sound avoided zero_left =
      issue-count_zero draw identity now ttl pairings digest _ refl avoided zero_left
  step-count_zero digest (consume code now) pairings sound avoided zero_left =
      omega
        (arith, zero_left, count-consume_loop (has_digest digest) (hash code) now none [] pairings)
  step-count_zero digest (redeem_code code now s) pairings sound avoided zero_left =
      redeem-count_zero (hash code) digest now s pairings _ refl sound zero_left

  run-count_zero :
      (digest : String) (actions : List Action) (pairings : ApiPairings)
      → IsUnambiguous pairings
      → All (Avoids digest) actions
      → count (has_digest digest) pairings ≡ 0
      → count (has_digest digest) (run hash actions pairings) ≡ 0
  unfolding run
  run-count_zero digest [] pairings sound avoided zero_left = zero_left
  run-count_zero digest (action ∷ rest) pairings sound (here, later) zero_left =
      run-count_zero digest rest (step hash action pairings)
        (step-IsUnambiguous hash action pairings sound) later
        (step-count_zero digest action pairings sound here zero_left)

  find-count_zero :
      (digest : String) (now : ℕ) (pairings : ApiPairings)
      → count (has_digest digest) pairings ≡ 0
      → find (has_digest digest) (filter (is_live now) pairings) ≡ none
  find-count_zero digest now [] zero_left = refl
  find-count_zero digest now (x ∷ pairings) zero_left =
      ground (arith, find-count_zero digest now pairings)

  redeem-refused :
      (code : String) (now : ℕ) (s : Surroundings) (pairings : ApiPairings)
      → count (has_digest (hash code)) pairings ≡ 0
      → ((redeem hash code now s pairings).0 ≡ returned invalid)
        ⊎ ((redeem hash code now s pairings).0 ≡ thrown write_error)
  unfolding redeem redeem_found
  redeem-refused code now s pairings zero_left =
      ground (arith, find-count_zero (hash code) now pairings zero_left)

  -- In a file whose digests and identities are unambiguous, a code that `consume_pairing` has taken is
  -- single-use: after any further actions, none of which draws a code of the same digest, consuming the
  -- code again gives none, and redeeming it is refused as invalid or throws the error of a failed write.
  pub consume_pairing-once :
      (code identity : String) (now later : ℕ) (actions : List Action) (s : Surroundings)
      (pairings : ApiPairings)
      → IsUnambiguous pairings
      → All (Avoids (hash code)) actions
      → (consume_pairing hash code now pairings).0 ≡ some identity
      → (let file = run hash actions (consume_pairing hash code now pairings).1 in
          ((consume_pairing hash code later file).0 ≡ none)
          × (((redeem hash code later s file).0 ≡ returned invalid)
              ⊎ ((redeem hash code later s file).0 ≡ thrown write_error)))
  unfolding step
  consume_pairing-once code identity now later actions s pairings sound avoided taken =
      let gone =
        run-count_zero (hash code) actions (consume_pairing hash code now pairings).1
          (step-IsUnambiguous hash (consume code now) pairings sound) avoided
          (count-consumed hash code now pairings identity (sound.0 (hash code)) taken) in
      (consume-count_zero hash code later _ gone, redeem-refused code later s _ gone)
