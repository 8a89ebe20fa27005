-- ===== src/Pairing/Rewrite.antt =====
-- What a redemption leaves in the pairing file: the same content, the live pairings, or these with the
-- found pairing's journal replaced (src/lib/pairing/pairing-store.ts, `redeemPairingTransaction`).
use sandi.Prelude.{ℕ, Bool, true, false, Option, none, some, length, eqb, if◌then◌else◌}
use sandi.Pairing.Store.{
  ApiPairing, ApiPairings, RedemptionStatus, reserved, completed, PairingRedemption,
  PreparedPairingRedemption,
}
use sandi.Pairing.{
  replace_pairing, redeem_found, redeem_journal, redeem_fresh, redeem_status, after_failure,
  persist_and_commit, commit, Surroundings, Outcome, written, pruned, is_reserved, reserve,
}

abbrev pub with_journal : ApiPairing → Option PairingRedemption → ApiPairing
with_journal pairing journal = record pairing { redemption = journal }

pub data Rewritten (pairings live : ApiPairings) (pairing : ApiPairing) : ApiPairings → Type 0 where
  unchanged : Rewritten pairings live pairing pairings
  expired_dropped : Rewritten pairings live pairing live
  journal_set :
      (journal : Option PairingRedemption)
      → Rewritten pairings live pairing
          (replace_pairing live pairing (with_journal pairing journal))

module _ {pairings live : ApiPairings} {pairing : ApiPairing} where
  Rewritten-written :
      (ok : Bool) (outcome : Outcome) {after before : ApiPairings}
      → Rewritten pairings live pairing after
      → Rewritten pairings live pairing before
      → Rewritten pairings live pairing (written ok outcome after before).1
  Rewritten-written true outcome a b = a
  Rewritten-written false outcome a b = b

  Rewritten-if :
      (test : Bool) (x y : Outcome × ApiPairings)
      → Rewritten pairings live pairing x.1
      → Rewritten pairings live pairing y.1
      → Rewritten pairings live pairing (if test then x else y).1
  Rewritten-if true x y a b = a
  Rewritten-if false x y a b = b

  Rewritten-pruned :
      (ok : Bool) (outcome : Outcome)
      → Rewritten pairings live pairing (pruned ok outcome live pairings).1
  Rewritten-pruned ok outcome =
      Rewritten-if (eqb (length live) (length pairings)) _ _ unchanged
        (Rewritten-written ok outcome expired_dropped unchanged)

  Rewritten-commit :
      (s : Surroundings) (now : ℕ) (redemption : PairingRedemption) {file : ApiPairings}
      → Rewritten pairings live pairing file
      → Rewritten pairings live pairing (commit s now live pairing redemption file).1
  unfolding commit
  Rewritten-commit s now redemption before =
      Rewritten-written s.complete_written _ (journal_set _) before

  Rewritten-after_failure :
      (s : Surroundings) (now : ℕ) (redemption : PairingRedemption) (found : Option Bool)
      {file : ApiPairings}
      → Rewritten pairings live pairing file
      → Rewritten pairings live pairing (after_failure s now live pairing redemption file found).1
  unfolding after_failure
  Rewritten-after_failure s now redemption none before = before
  Rewritten-after_failure s now redemption (some true) before =
      Rewritten-commit s now redemption before
  Rewritten-after_failure s now redemption (some false) before =
      Rewritten-if s.rollback_written _ _ (journal_set none) before

  Rewritten-persist_and_commit :
      (s : Surroundings) (now : ℕ) (redemption : PairingRedemption) {file : ApiPairings}
      → Rewritten pairings live pairing file
      → Rewritten pairings live pairing (persist_and_commit s now live pairing redemption file).1
  unfolding persist_and_commit
  Rewritten-persist_and_commit s now redemption before =
      Rewritten-if s.persisted _ _ (Rewritten-commit s now redemption before)
        (Rewritten-after_failure s now redemption s.found_persisted before)

  Rewritten-redeem_fresh :
      (s : Surroundings) (now : ℕ) (prepared : Option PreparedPairingRedemption)
      → Rewritten pairings live pairing (redeem_fresh s now pairings live pairing prepared).1
  unfolding redeem_fresh
  Rewritten-redeem_fresh s now none = unchanged
  Rewritten-redeem_fresh s now (some prepared) =
      Rewritten-if s.reserve_written _ _
        (Rewritten-persist_and_commit s now (reserve now prepared)
          (journal_set (some (reserve now prepared))))
        unchanged

  Rewritten-redeem_status :
      (s : Surroundings) (now : ℕ) (redemption : PairingRedemption) (status : RedemptionStatus)
      → Rewritten pairings live pairing
          (redeem_status s now pairings live pairing redemption status).1
  unfolding redeem_status
  Rewritten-redeem_status s now redemption reserved =
      Rewritten-persist_and_commit s now redemption unchanged
  Rewritten-redeem_status s now redemption (completed at) = Rewritten-pruned s.prune_written _

  Rewritten-redeem_journal :
      (s : Surroundings) (now : ℕ) (journal : Option PairingRedemption)
      → Rewritten pairings live pairing (redeem_journal s now pairings live pairing journal).1
  unfolding redeem_journal
  Rewritten-redeem_journal s now none = Rewritten-redeem_fresh s now s.prepared
  Rewritten-redeem_journal s now (some redemption) =
      Rewritten-redeem_status s now redemption redemption.status

  pub Rewritten-redeem_found :
      (s : Surroundings) (now : ℕ)
      → Rewritten pairings live pairing (redeem_found s now pairings live (some pairing)).1
  unfolding redeem_found
  Rewritten-redeem_found s now =
      Rewritten-if s.authorized _ _ (Rewritten-redeem_journal s now pairing.redemption) (
        Rewritten-if (is_reserved pairing.redemption) _ _
          (Rewritten-written s.rollback_written _ (journal_set none) unchanged)
          (Rewritten-pruned s.prune_written _))
