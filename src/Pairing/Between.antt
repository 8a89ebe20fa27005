-- ===== src/Pairing/Between.antt =====
-- What the actions on other codes and identities leave of a redeemed pairing:
-- src/lib/pairing/pairing-store.ts.
use sandi.Prelude.{
  ℕ, ◌≤◌, ◌≡◌, ◌==◌, refl, String, Bool, true, false, not, Option, none, some, List, [], ◌∷◌, ◌++◌,
  filter, find, All, arith, eq_iff, sym, subst,
}
use sandi.Pairing.Store.{ApiPairing, ApiPairings, PairingRedemption}
use sandi.Pairing.{
  is_live, has_digest, of_identity, create_pairing, consume_pairing, consume_loop, redeem,
  redeem_found, Surroundings, new_pairing, issue, replace_pairing,
}
use sandi.Pairing.Count.{find-has_digest}
use sandi.Pairing.Consume.{append-snoc, append_nil}
use sandi.Pairing.Rewrite.{
  Rewritten, unchanged, expired_dropped, journal_set, Rewritten-redeem_found, with_journal,
}
use sandi.Pairing.Unique.{Action, create, consume, redeem_code, step, run, file_after}

-- The action comes no later, issues no code for the identity and redeems no code with the digest.
abbrev pub Spares : (String → String) → String → String → ℕ → Action → Type 0
Spares hash digest identity later (create draw other now ttl) =
    (now ≤ later) × ((identity == other) ≡ false)
Spares hash digest identity later (consume code now) = now ≤ later
Spares hash digest identity later (redeem_code code now s) =
    (now ≤ later) × ((hash code == digest) ≡ false)

-- A search of the file at a time.
abbrev pub lookup : String → ℕ → ApiPairings → Option ApiPairing
lookup digest later pairings = find (has_digest digest) (filter (is_live later) pairings)

module _ (digest : String) (later : ℕ) (kept : ApiPairing) where
  lookup-filter :
      (q : ApiPairing → Bool) (ps : ApiPairings)
      → q kept ≡ true
      → lookup digest later ps ≡ some kept
      → lookup digest later (filter q ps) ≡ some kept
  lookup-filter q [] same found = ground arith
  lookup-filter q (x ∷ ps) same found = ground (arith, lookup-filter q ps)

  lookup-append :
      (ps qs : ApiPairings)
      → lookup digest later ps ≡ some kept
      → lookup digest later (ps ++ qs) ≡ some kept
  lookup-append [] qs found = ground arith
  lookup-append (x ∷ ps) qs found = ground (arith, lookup-append ps qs)

  lookup-expired :
      (now : ℕ) (front : ApiPairings) (x : ApiPairing) (ps : ApiPairings)
      → now ≤ later
      → is_live now x ≡ false
      → lookup digest later (front ++ x ∷ ps) ≡ some kept
      → lookup digest later (front ++ ps) ≡ some kept
  lookup-expired now [] x ps order gone found = ground arith
  lookup-expired now (y ∷ front) x ps order gone found =
      ground (arith, lookup-expired now front x ps)

  lookup-consumed :
      (given : PairingRedemption) (front : ApiPairings) (x : ApiPairing) (ps : ApiPairings)
      → kept.redemption ≡ some given
      → x.redemption ≡ none
      → lookup digest later (front ++ x ∷ ps) ≡ some kept
      → lookup digest later (front ++ ps) ≡ some kept
  lookup-consumed given [] x ps journal empty found = ground arith
  lookup-consumed given (y ∷ front) x ps journal empty found =
      ground (arith, lookup-consumed given front x ps)

  lookup-consume_loop :
      (given : PairingRedemption) (other : String) (now : ℕ) (consumed : Option ApiPairing)
      (front ps : ApiPairings)
      → kept.redemption ≡ some given
      → now ≤ later
      → lookup digest later (front ++ ps) ≡ some kept
      → lookup digest later (consume_loop other now consumed front ps).1 ≡ some kept
  unfolding consume_loop
  lookup-consume_loop given other now consumed front [] journal order found =
      subst (λ f. lookup digest later f ≡ some kept) (append_nil front) found
  lookup-consume_loop given other now consumed front (x ∷ ps) journal order found = ground (
    arith,
    append-snoc front x ps,
    lookup-expired now front x ps order,
    lookup-consumed given front x ps journal,
    lookup-consume_loop given other now consumed front ps journal order,
    lookup-consume_loop given other now consumed (front ++ x ∷ []) ps journal order,
    lookup-consume_loop given other now (some x) front ps journal order,
  )

  lookup-replace :
      (ps : ApiPairings) (current : ApiPairing) (journal : Option PairingRedemption)
      → (current.code_sha256 == digest) ≡ false
      → lookup digest later ps ≡ some kept
      → lookup digest later (replace_pairing ps current (with_journal current journal)) ≡ some kept
  lookup-replace [] current journal apart found = ground arith
  lookup-replace (x ∷ ps) current journal apart found =
      ground (arith, lookup-replace ps current journal, eq_iff x.code_sha256 current.code_sha256)

  lookup-live : (ps : ApiPairings) → lookup digest later ps ≡ some kept → is_live later kept ≡ true
  lookup-live [] found = ground arith
  lookup-live (x ∷ ps) found = ground (arith, lookup-live ps)

  lookup-Rewritten :
      (now : ℕ) (pairings : ApiPairings) (pairing : ApiPairing) {file : ApiPairings}
      → now ≤ later
      → (pairing.code_sha256 == digest) ≡ false
      → lookup digest later pairings ≡ some kept
      → Rewritten pairings (filter (is_live now) pairings) pairing file
      → lookup digest later file ≡ some kept
  lookup-Rewritten now pairings pairing order apart found unchanged = found
  lookup-Rewritten now pairings pairing order apart found expired_dropped =
      let live = lookup-live pairings found in
      lookup-filter (is_live now) pairings (ground arith) found
  lookup-Rewritten now pairings pairing order apart found (journal_set journal) =
      let live = lookup-live pairings found in
      lookup-replace (filter (is_live now) pairings) pairing journal apart
        (lookup-filter (is_live now) pairings (ground arith) found)

module _ (hash : String → String) (digest : String) (later : ℕ) (kept : ApiPairing)
    (given : PairingRedemption) (journal : kept.redemption ≡ some given) where
  lookup-redeem_found :
      (other : String) (now : ℕ) (s : Surroundings) (pairings : ApiPairings)
      (found : Option ApiPairing)
      → find (has_digest other) (filter (is_live now) pairings) ≡ found
      → now ≤ later
      → (other == digest) ≡ false
      → lookup digest later pairings ≡ some kept
      → lookup digest later (redeem_found s now pairings (filter (is_live now) pairings) found).1
        ≡ some kept
  unfolding redeem_found
  lookup-redeem_found other now s pairings none e order apart at =
      let live = lookup-live digest later kept pairings at in
      ground (arith, lookup-filter digest later kept (is_live now) pairings)
  lookup-redeem_found other now s pairings (some pairing) e order apart at =
      lookup-Rewritten digest later kept now pairings pairing order
        (subst (λ d. (d == digest) ≡ false)
          (sym (find-has_digest other (filter (is_live now) pairings) pairing e)) apart)
        at (Rewritten-redeem_found s now)

  lookup-issue :
      (identity : String) (now ttl : ℕ) (pairings : ApiPairings) (drawn : Option String)
      → now ≤ later
      → (kept.identity_id == identity) ≡ false
      → lookup digest later pairings ≡ some kept
      → lookup digest later
          (file_after pairings (issue hash identity now ttl (filter (is_live now) pairings) drawn))
        ≡ some kept
  lookup-issue identity now ttl pairings none order apart at = at
  lookup-issue identity now ttl pairings (some code) order apart at =
      let live = lookup-live digest later kept pairings at in
      lookup-append digest later kept _ (new_pairing hash identity now ttl code ∷ []) (
        lookup-filter digest later kept (λ p. not (of_identity identity p))
          (filter (is_live now) pairings) (ground arith)
          (lookup-filter digest later kept (is_live now) pairings (ground arith) at))

  lookup-step :
      (action : Action) (pairings : ApiPairings)
      → Spares hash digest kept.identity_id later action
      → lookup digest later pairings ≡ some kept
      → lookup digest later (step hash action pairings) ≡ some kept
  unfolding step create_pairing consume_pairing redeem
  lookup-step (create draw identity now ttl) pairings (order, apart) at =
      lookup-issue identity now ttl pairings _ order apart at
  lookup-step (consume code now) pairings order at =
      lookup-consume_loop digest later kept given (hash code) now none [] pairings journal order at
  lookup-step (redeem_code code now s) pairings (order, apart) at =
      lookup-redeem_found (hash code) now s pairings _ refl order apart at

  pub lookup-run :
      (actions : List Action) (pairings : ApiPairings)
      → All (Spares hash digest kept.identity_id later) actions
      → lookup digest later pairings ≡ some kept
      → lookup digest later (run hash actions pairings) ≡ some kept
  unfolding run
  lookup-run [] pairings spared at = at
  lookup-run (action ∷ rest) pairings (here, after) at =
      lookup-run rest (step hash action pairings) after (lookup-step action pairings here at)
