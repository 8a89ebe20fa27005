-- ===== src/Pairing/Redeem.antt =====
-- What a redemption answers, and what a retry of it answers: src/lib/pairing/pairing-store.ts,
-- `redeemPairingTransaction`.
use sandi.Prelude.{
  ℕ, ◌≡◌, refl, String, Bool, true, false, Option, none, some, arith, inl, inr, ◌⊎◌, if◌then◌else◌,
  ◌≢◌, sym, ap, ◌∙◌,
}
use sandi.Pairing.Store.{
  ApiPairing, ApiPairings, rejected, success, PairingRedemption, RedemptionStatus, reserved,
  completed, PreparedPairingRedemption,
}
use sandi.Pairing.{
  redeem_found, redeem_journal, redeem_status, redeem_fresh, persist_and_commit, after_failure,
  commit, Surroundings, Outcome, returned, replace_pairing, with_redemption, complete_redemption,
  reserve, pruned, is_reserved, written, without_redemption,
}

-- The redemption that a call works on: the journaled one, or the one it reserves.
abbrev pub reserved_from : ℕ → Option PreparedPairingRedemption → Option PairingRedemption
reserved_from now none = none
reserved_from now (some prepared) = some (reserve now prepared)

abbrev pub reservation : Surroundings → ℕ → Option PairingRedemption → Option PairingRedemption
reservation s now (some redemption) = some redemption
reservation s now none = reserved_from now s.prepared

abbrev pub IsSameCredential : PairingRedemption → PairingRedemption → Type 0
IsSameCredential a b = (a.token ≡ b.token) × (a.device_id ≡ b.device_id) × (a.label ≡ b.label)

-- The file that a success leaves.
abbrev pub Final : ApiPairings → ApiPairings → ApiPairing → PairingRedemption → ApiPairings → Type 0
Final pairings live pairing redemption file =
    (file ≡ replace_pairing live pairing (with_redemption pairing redemption))
    ⊎ ((pairing.redemption ≡ some redemption) × ((file ≡ pairings) ⊎ (file ≡ live)))

abbrev pub is_completed : RedemptionStatus → Bool
is_completed reserved = false
is_completed (completed at) = true

module _ (s : Surroundings) (now : ℕ) (pairings live : ApiPairings) (pairing : ApiPairing)
    (identity : String) (given : PairingRedemption) where
  commit-success :
      (redemption : PairingRedemption) (file : ApiPairings)
      → (commit s now live pairing redemption file).0 ≡ returned (success identity given)
      → (identity ≡ pairing.identity_id)
        × (given ≡ complete_redemption now redemption)
        × ((commit s now live pairing redemption file).1
            ≡ replace_pairing live pairing (with_redemption pairing given))
  unfolding commit
  commit-success redemption file e = ground arith

  persist-success :
      (redemption : PairingRedemption) (file : ApiPairings)
      → (persist_and_commit s now live pairing redemption file).0
        ≡ returned (success identity given)
      → (identity ≡ pairing.identity_id)
        × (given ≡ complete_redemption now redemption)
        × ((persist_and_commit s now live pairing redemption file).1
            ≡ replace_pairing live pairing (with_redemption pairing given))
  unfolding persist_and_commit after_failure
  persist-success redemption file e = ground (arith, commit-success redemption file)

  -- What a success of the authorised part gives and leaves.
  unfoldable pub Granted : Option PairingRedemption → Outcome × ApiPairings → Type 0
  Granted journal result =
      (identity ≡ pairing.identity_id)
      × (is_completed given.status ≡ true)
      × Final pairings live pairing given result.1
      × ((redemption : PairingRedemption) × (reservation s now journal ≡ some redemption)
          × IsSameCredential given redemption)

  Granted-committed :
      (journal : Option PairingRedemption) (redemption : PairingRedemption)
      (result : Outcome × ApiPairings)
      → reservation s now journal ≡ some redemption
      → (identity ≡ pairing.identity_id)
        × (given ≡ complete_redemption now redemption)
        × (result.1 ≡ replace_pairing live pairing (with_redemption pairing given))
      → Granted journal result
  unfolding Granted
  Granted-committed journal redemption result e (same, is_given, file) = (
    same,
    ap (λ r. is_completed r.status) is_given,
    inl file,
    (
      redemption,
      e,
      (ap (λ r. r.token) is_given, ap (λ r. r.device_id) is_given, ap (λ r. r.label) is_given),
    ),
  )

  fresh-success :
      (prepared : Option PreparedPairingRedemption)
      → s.prepared ≡ prepared
      → (redeem_fresh s now pairings live pairing prepared).0 ≡ returned (success identity given)
      → Granted none (redeem_fresh s now pairings live pairing prepared)
  unfolding Granted redeem_fresh
  fresh-success none p e = ground arith
  fresh-success (some prepared) p e =
      Granted-committed none (reserve now prepared)
        (redeem_fresh s now pairings live pairing (some prepared)) (ap (reserved_from now) p)
        (ground (
          arith,
          persist-success (reserve now prepared)
              (replace_pairing live pairing (with_redemption pairing (reserve now prepared))),
        ))

  completed-success :
      (redemption : PairingRedemption)
      → (pruned s.prune_written (returned (success pairing.identity_id redemption)) live pairings).0
        ≡ returned (success identity given)
      → (identity ≡ pairing.identity_id)
        × (given ≡ redemption)
        × (((pruned s.prune_written
                (returned (success pairing.identity_id redemption))
                live
                pairings).1
              ≡ pairings)
            ⊎ ((pruned s.prune_written
                  (returned (success pairing.identity_id redemption))
                  live
                  pairings).1
                ≡ live))
  completed-success redemption e = ground arith

  status-success :
      (redemption : PairingRedemption) (status : RedemptionStatus)
      → pairing.redemption ≡ some redemption
      → redemption.status ≡ status
      → (redeem_status s now pairings live pairing redemption status).0
        ≡ returned (success identity given)
      → Granted (some redemption) (redeem_status s now pairings live pairing redemption status)
  unfolding Granted redeem_status
  status-success redemption reserved p q e =
      Granted-committed (some redemption) redemption
        (redeem_status s now pairings live pairing redemption reserved) refl
        (persist-success redemption pairings e)
  status-success redemption (completed at) p q e =
      let (same, is_given, file) = completed-success redemption e in
      (
        same,
        ap (λ r. is_completed r.status) is_given ∙ ap is_completed q,
        inr (p ∙ ap some (sym is_given), file),
        (
          redemption,
          refl,
          (ap (λ r. r.token) is_given, ap (λ r. r.device_id) is_given, ap (λ r. r.label) is_given),
        ),
      )

  journal-success :
      (journal : Option PairingRedemption)
      → pairing.redemption ≡ journal
      → (redeem_journal s now pairings live pairing journal).0 ≡ returned (success identity given)
      → Granted journal (redeem_journal s now pairings live pairing journal)
  unfolding redeem_journal
  journal-success none p e = fresh-success s.prepared refl e
  journal-success (some redemption) p e = status-success redemption redemption.status p refl e

  -- The answer to a pairing whose identity is not authorised.
  abbrev turned_down : Outcome × ApiPairings
  turned_down =
      if is_reserved pairing.redemption
      then written s.rollback_written (returned (rejected pairing.identity_id))
          (replace_pairing live pairing (without_redemption pairing)) pairings
      else pruned s.prune_written (returned (rejected pairing.identity_id)) live pairings

  turned_down-success : turned_down.0 ≢ returned (success identity given)
  turned_down-success e = ground arith

  authorized-success :
      (authorized : Bool)
      → (if authorized
          then redeem_journal s now pairings live pairing pairing.redemption
          else turned_down).0
        ≡ returned (success identity given)
      → (authorized ≡ true)
        × Granted pairing.redemption (
            if authorized
            then redeem_journal s now pairings live pairing pairing.redemption
            else turned_down)
  authorized-success true e = (refl, journal-success pairing.redemption refl e)
  authorized-success false e = elim (turned_down-success e) [ ]

  pub found-success :
      (redeem_found s now pairings live (some pairing)).0 ≡ returned (success identity given)
      → (s.authorized ≡ true)
        × Granted pairing.redemption (redeem_found s now pairings live (some pairing))
  unfolding redeem_found
  found-success e = authorized-success s.authorized e
