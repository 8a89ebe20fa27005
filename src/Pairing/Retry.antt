-- ===== src/Pairing/Retry.antt =====
-- Redeeming a code again: src/lib/pairing/pairing-store.ts, `redeemPairingTransaction`.
use sandi.Prelude.{
  ℕ, ◌≤◌, ◌≡◌, refl, String, Bool, true, false, not, Option, none, some, filter, find, arith, inl,
  inr, ◌⊎◌, ◌||◌, sym, ap, ◌∙◌, subst, List, All,
}
use sandi.Pairing.Store.{
  ApiPairing, ApiPairings, success, PairingRedemption, PreparedPairingRedemption,
}
use sandi.Pairing.{
  is_live, has_digest, redeem, redeem_found, redeem_journal, redeem_status, redeem_fresh,
  persist_and_commit, after_failure, commit, Surroundings, returned, replace_pairing,
  with_redemption, reserve, complete_redemption,
}
use sandi.Pairing.Redeem.{reservation, IsSameCredential, is_completed, Granted, found-success}
use sandi.Pairing.Unique.{Action, run}
use sandi.Pairing.Between.{Spares, lookup-run}
use sandi.Pairing.Found.{find-replace, redeem-found, found-completed, Final-find}

module _ (hash : String → String) (code identity : String) (now : ℕ) (s : Surroundings)
    (pairings : ApiPairings) (pairing : ApiPairing) (given : PairingRedemption) where
  granted :
      find (has_digest (hash code)) (filter (is_live now) pairings) ≡ some pairing
      → (redeem hash code now s pairings).0 ≡ returned (success identity given)
      → (s.authorized ≡ true)
        × Granted s now pairings
            (filter (is_live now) pairings)
            pairing
            identity
            given
            pairing.redemption
            (redeem hash code now s pairings)
  granted found e =
      let same = redeem-found hash code now s pairings pairing found in
      subst
        (λ r.
          (s.authorized ≡ true)
          × Granted s now pairings (filter (is_live now) pairings) pairing identity given
              pairing.redemption r)
        (sym same)
        (found-success s now pairings (filter (is_live now) pairings) pairing identity given
          (ap (λ r. r.0) (sym same) ∙ e))

  -- A redemption succeeds only for an authorised identity, and then gives the identity of the code's
  -- live pairing and a completed redemption with the token, device and label that the pairing's
  -- journal holds or, where it holds none, that `prepare` gave.
  pub redeem-success :
      find (has_digest (hash code)) (filter (is_live now) pairings) ≡ some pairing
      → (redeem hash code now s pairings).0 ≡ returned (success identity given)
      → (s.authorized ≡ true)
        × (identity ≡ pairing.identity_id)
        × (is_completed given.status ≡ true)
        × ((redemption : PairingRedemption) × (reservation s now pairing.redemption
              ≡ some redemption)
            × IsSameCredential given redemption)
  unfolding Granted
  redeem-success found e =
      let (allowed, (same, finished, _, reserved_one)) = granted found e in
      (allowed, same, finished, reserved_one)

  -- A success is repeatable: after any further actions that redeem no code with the same digest and issue
  -- no code for the pairing's identity, and before the pairing expires, redeeming the code again with the
  -- identity authorised and the file writable answers with the same identity and the same redemption,
  -- whatever `prepare` would have given. The clock of the second call is the latest.
  pub redeem-again :
      (later : ℕ) (again : Surroundings) (actions : List Action)
      → find (has_digest (hash code)) (filter (is_live now) pairings) ≡ some pairing
      → (redeem hash code now s pairings).0 ≡ returned (success identity given)
      → now ≤ later
      → is_live later pairing ≡ true
      → All (Spares hash (hash code) pairing.identity_id later) actions
      → again.authorized ≡ true
      → again.prune_written ≡ true
      → (redeem hash code later again (run hash actions (redeem hash code now s pairings).1)).0
        ≡ returned (success identity given)
  unfolding Granted
  redeem-again later again actions found e order live spared allowed writes =
      let (_, (same, finished, final, _)) = granted found e in
      let first = (redeem hash code now s pairings).1 in
      let file = run hash actions first in
      let (kept, at_first, kept_identity, kept_journal) =
        Final-find (hash code) now later pairings pairing given first order live found final in
      let at_kept =
        lookup-run hash (hash code) later kept given kept_journal actions first
          (subst (λ i. All (Spares hash (hash code) i later) actions) (sym kept_identity) spared)
          at_first in
      ap (λ r. r.0) (redeem-found hash code later again file kept at_kept)
      ∙ found-completed again later file _ kept given allowed writes kept_journal finished
      ∙ ap (λ i. returned (success i given)) (kept_identity ∙ sym same)

-- `isPersisted` says that the token is not stored.
abbrev pub is_denied : Option Bool → Bool
is_denied none = false
is_denied (some found) = not found

module _ (s : Surroundings) (now : ℕ) (pairings live : ApiPairings) (pairing : ApiPairing)
    (prepared : PreparedPairingRedemption) where
  fresh-file :
      s.authorized ≡ true
      → pairing.redemption ≡ none
      → s.prepared ≡ some prepared
      → s.reserve_written ≡ true
      → (s.persisted || not (is_denied s.found_persisted)) ≡ true
      → ((redeem_found s now pairings live (some pairing)).1
          ≡ replace_pairing live pairing (with_redemption pairing (reserve now prepared)))
        ⊎ ((redeem_found s now pairings live (some pairing)).1
            ≡ replace_pairing live pairing
                (with_redemption pairing (complete_redemption now (reserve now prepared))))
  unfolding redeem_found redeem_journal redeem_fresh persist_and_commit after_failure commit
  fresh-file allowed empty prepares writes stored = ground arith

  found-succeeds :
      (kept : PairingRedemption)
      → s.authorized ≡ true
      → s.persisted ≡ true
      → s.complete_written ≡ true
      → s.prune_written ≡ true
      → pairing.redemption ≡ some kept
      → ((redeem_found s now pairings live (some pairing)).0
          ≡ returned (success pairing.identity_id kept))
        ⊎ ((redeem_found s now pairings live (some pairing)).0
            ≡ returned (success pairing.identity_id (complete_redemption now kept)))
  unfolding redeem_found redeem_journal redeem_status persist_and_commit commit
  found-succeeds kept allowed persists completes prunes journal = ground arith

-- The pairing that a retry finds after a first redemption whose token may be stored, and after actions on
-- other codes and identities.
module _ (hash : String → String) (code : String) (now later : ℕ) (s : Surroundings)
    (pairings : ApiPairings) (pairing : ApiPairing) (prepared : PreparedPairingRedemption)
    (actions : List Action)
    (found : find (has_digest (hash code)) (filter (is_live now) pairings) ≡ some pairing)
    (live : is_live later pairing ≡ true) (allowed : s.authorized ≡ true)
    (empty : pairing.redemption ≡ none) (prepares : s.prepared ≡ some prepared)
    (writes : s.reserve_written ≡ true)
    (stored : (s.persisted || not (is_denied s.found_persisted)) ≡ true)
    (spared : All (Spares hash (hash code) pairing.identity_id later) actions) where
  retry-find :
      (kept : PairingRedemption) × (find
          (has_digest (hash code))
          (filter (is_live later) (run hash actions (redeem hash code now s pairings).1))
        ≡ some (with_redemption pairing kept))
      × IsSameCredential kept (reserve now prepared)
  retry-find =
      go (fresh-file s now pairings front pairing prepared allowed empty prepares writes stored)
    where
      front : ApiPairings
      front = filter (is_live now) pairings

      at :
          (kept : PairingRedemption)
          → (redeem_found s now pairings front (some pairing)).1
            ≡ replace_pairing front pairing (with_redemption pairing kept)
          → find
              (has_digest (hash code))
              (filter (is_live later) (run hash actions (redeem hash code now s pairings).1))
            ≡ some (with_redemption pairing kept)
      at kept e =
          lookup-run hash (hash code) later (with_redemption pairing kept) kept refl actions _
            spared
            (ap (λ r. find (has_digest (hash code)) (filter (is_live later) r.1))
                (redeem-found hash code now s pairings pairing found)
              ∙ ap (λ f. find (has_digest (hash code)) (filter (is_live later) f)) e
              ∙ find-replace (hash code) later front pairing (some kept) live found)

      go :
          ((redeem_found s now pairings front (some pairing)).1
              ≡ replace_pairing front pairing (with_redemption pairing (reserve now prepared)))
            ⊎ ((redeem_found s now pairings front (some pairing)).1
                ≡ replace_pairing front pairing
                    (with_redemption pairing (complete_redemption now (reserve now prepared))))
          → (kept : PairingRedemption) × (find
                (has_digest (hash code))
                (filter (is_live later) (run hash actions (redeem hash code now s pairings).1))
              ≡ some (with_redemption pairing kept))
            × IsSameCredential kept (reserve now prepared)
      go (inl e) = (reserve now prepared, at (reserve now prepared) e, (refl, refl, refl))
      go (inr e) = (
        complete_redemption now (reserve now prepared),
        at (complete_redemption now (reserve now prepared)) e,
        (refl, refl, refl),
      )

  -- No second token: if a first redemption of a fresh code has reserved a prepared token, and its
  -- `persist` returned or `isPersisted` did not deny the token afterwards, then after any further actions
  -- that redeem no code with the same digest and issue no code for the pairing's identity, and before the
  -- pairing expires, a success of redeeming the code again, whatever failed in the first call after the
  -- reservation and whatever the second call's `prepare` gives, carries the token, device and label of the
  -- first call. The clock of the second call is not before that of any action between the two.
  pub redeem-retry :
      (again : Surroundings) (identity : String) (given : PairingRedemption)
      → (redeem hash code later again (run hash actions (redeem hash code now s pairings).1)).0
        ≡ returned (success identity given)
      → (identity ≡ pairing.identity_id)
        × (given.token ≡ prepared.token)
        × (given.device_id ≡ prepared.device_id)
        × (given.label ≡ prepared.label)
  redeem-retry again identity given e =
      let (kept, at_kept, same_kept) = retry-find in
      let (_, same, _, (redemption, is_kept, same_given)) =
        redeem-success hash code identity later again _ (with_redemption pairing kept) given at_kept
          e in
      ground (arith, is_kept, same, same_given, same_kept)

  -- A retry completes what a failure interrupted: after such a first redemption and such further actions,
  -- and before the pairing expires, redeeming the code again with callbacks and writes that succeed answers
  -- with the identity of the pairing and with the token, device and label of the first call. The clock of the
  -- second call is not before that of any action between the two.
  pub redeem-recovers :
      (again : Surroundings)
      → again.authorized ≡ true
      → again.persisted ≡ true
      → again.complete_written ≡ true
      → again.prune_written ≡ true
      → (given : PairingRedemption) × ((redeem hash code later again
            (run hash actions (redeem hash code now s pairings).1)).0
          ≡ returned (success pairing.identity_id given))
        × IsSameCredential given (reserve now prepared)
  redeem-recovers again allows persists completes prunes =
      let file = run hash actions (redeem hash code now s pairings).1 in
      let front = filter (is_live later) file in
      let (kept, at_kept, same_kept) = retry-find in
      let answer = ap (λ r. r.0) (redeem-found hash code later again file _ at_kept) in
      elim (found-succeeds again later file front (with_redemption pairing kept) prepared kept
        allows persists completes prunes refl) [
          | inl e ↦ (kept, answer ∙ e, same_kept)
          | inr e ↦ (complete_redemption later kept, answer ∙ e, same_kept)
        ]
