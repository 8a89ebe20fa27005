-- ===== src/Pairing.antt =====
-- The pairing codes that bind a device to an identity: src/lib/pairing/pairing-store.ts. Each operation
-- is what it does to the file's list under the managed-write lock; the clock, the random codes and the
-- digest are arguments. `redeem` also takes what its callbacks and its writes do in this transaction.
pub mod Store
pub mod Count
pub mod Rewrite
pub mod Consume
pub mod Unique
pub mod Redeem
pub mod SingleUse
pub mod Found
pub mod Between
pub mod Retry
mod Tests
use sandi.Prelude.{
  ℕ, zero, suc, ◌+◌, ◌-◌, String, ◌==◌, Bool, true, false, not, ◌&&◌, Option, none, some, List, [],
  ◌∷◌, ◌++◌, map, eqb, if◌then◌else◌, any, filter, find, length,
}
use Store.{
  RedemptionStatus, reserved, completed, PairingRedemption, ApiPairing, ApiPairings, is_expired,
  PreparedPairingRedemption, PairingRedemptionResult, invalid, rejected, success,
}

abbrev pub is_live : ℕ → ApiPairing → Bool
is_live now pairing = not (is_expired now pairing)

-- `hexEquals` on digests
abbrev pub has_digest : String → ApiPairing → Bool
has_digest digest pairing = pairing.code_sha256 == digest

abbrev pub of_identity : String → ApiPairing → Bool
of_identity identity pairing = pairing.identity_id == identity

-- `generateUniqueCode`: at most `attempts` draws; `none` is its throw.
pub generate_unique_code :
    (String → String) → (ℕ → String) → ApiPairings → (attempts attempt : ℕ) → Option String
generate_unique_code hash draw live zero attempt = none
generate_unique_code hash draw live (suc attempts) attempt =
    let again = generate_unique_code hash draw live attempts (attempt + 1) in
    if any (has_digest (hash (draw attempt))) live then again else some (draw attempt)

abbrev new_pairing : (String → String) → String → ℕ → ℕ → String → ApiPairing
new_pairing hash identity now ttl code = record {
  code_sha256 = hash code;
  identity_id = identity;
  created_at_ms = now;
  expires_at_ms = now + ttl;
  redemption = none;
}

abbrev issue :
    (String → String) → String → ℕ → ℕ → ApiPairings → Option String → Option (String × ApiPairings)
issue hash identity now ttl live none = none
issue hash identity now ttl live (some code) = some (
  code,
  filter (λ p. not (of_identity identity p)) live ++ new_pairing hash identity now ttl code ∷ [],
)

-- `createPairing`: the code and the new file, or a throw that leaves the file.
pub create_pairing :
    (String → String)
    → (ℕ → String)
    → String
    → (now ttl : ℕ) → ApiPairings
    → Option (String × ApiPairings)
create_pairing hash draw identity now ttl pairings =
    let live = filter (is_live now) pairings in
    issue hash identity now ttl live (generate_unique_code hash draw live 16 0)

-- The loop of `consumePairing`, with what it has consumed and what it keeps.
abbrev can_consume : String → Option ApiPairing → ApiPairing → Bool
can_consume digest none pairing = has_digest digest pairing
can_consume digest (some consumed) pairing = false

pub consume_loop :
    String → ℕ → Option ApiPairing → ApiPairings → ApiPairings → Option ApiPairing × ApiPairings
consume_loop digest now consumed remaining [] = (consumed, remaining)
consume_loop digest now consumed remaining (pairing ∷ rest) =
    let skip = consume_loop digest now consumed remaining rest in
    let keep = consume_loop digest now consumed (remaining ++ pairing ∷ []) rest in
    let take = consume_loop digest now (some pairing) remaining rest in
    if is_expired now pairing then skip else elim pairing.redemption [
      | some redemption ↦ keep
      | none ↦ if can_consume digest consumed pairing then take else keep
    ]

-- The file is written only if something was consumed or pruned, which changes its length.
abbrev identity_of : Option ApiPairing → Option String
identity_of none = none
identity_of (some pairing) = some pairing.identity_id

pub consume_pairing : (String → String) → String → ℕ → ApiPairings → Option String × ApiPairings
unfolding consume_loop
consume_pairing hash code now pairings =
    let (consumed, remaining) = consume_loop (hash code) now none [] pairings in
    (identity_of consumed, remaining)

-- What happens around one redemption: `authorize`, `prepare` with the schema's check of what it
-- gives (`none` if either throws), whether `persist` returns, what
-- `isPersisted` says (`none` if it throws), and which writes of the file succeed.
pub record Surroundings : Type 0 where
  pub authorized : Bool
  pub prepared : Option PreparedPairingRedemption
  pub persisted : Bool
  pub found_persisted : Option Bool
  pub prune_written : Bool
  pub reserve_written : Bool
  pub rollback_written : Bool
  pub complete_written : Bool

pub data Failure : Type 0 where
  prepare_error write_error persistence_error rollback_error : Failure

pub data Outcome : Type 0 where
  returned : PairingRedemptionResult → Outcome
  thrown : Failure → Outcome

abbrev written : Bool → Outcome → ApiPairings → ApiPairings → Outcome × ApiPairings
written true outcome after before = (outcome, after)
written false outcome after before = (thrown write_error, before)

-- A write of the live pairings, where some have expired.
abbrev pruned : Bool → Outcome → ApiPairings → ApiPairings → Outcome × ApiPairings
pruned ok outcome live pairings =
    if eqb (length live) (length pairings)
    then (outcome, pairings)
    else written ok outcome live pairings

abbrev pub replace_one : ApiPairing → ApiPairing → ApiPairing → ApiPairing
replace_one current replacement pairing =
    if pairing.code_sha256 == current.code_sha256 then replacement else pairing

abbrev pub replace_pairing : ApiPairings → ApiPairing → ApiPairing → ApiPairings
replace_pairing pairings current replacement = map (replace_one current replacement) pairings

abbrev pub without_redemption : ApiPairing → ApiPairing
without_redemption pairing = record pairing { redemption = none }

abbrev pub with_redemption : ApiPairing → PairingRedemption → ApiPairing
with_redemption pairing redemption = record pairing { redemption = some redemption }

abbrev pub complete_redemption : ℕ → PairingRedemption → PairingRedemption
complete_redemption now redemption = record redemption { status = completed now }

abbrev pub reserve : ℕ → PreparedPairingRedemption → PairingRedemption
reserve now prepared = record {
  token = prepared.token;
  device_id = prepared.device_id;
  label = prepared.label;
  reserved_at_ms = now;
  status = reserved;
}

-- From the reservation on; `file` is the file's content at this point.
commit :
    Surroundings
    → ℕ
    → ApiPairings
    → ApiPairing
    → PairingRedemption
    → ApiPairings
    → Outcome × ApiPairings
commit s now live pairing redemption file =
    written s.complete_written
      (returned (success pairing.identity_id (complete_redemption now redemption)))
      (replace_pairing live pairing (with_redemption pairing (complete_redemption now redemption)))
      file

abbrev roll_back : Surroundings → ApiPairings → ApiPairing → ApiPairings → Outcome × ApiPairings
roll_back s live pairing file =
    if s.rollback_written
    then (thrown persistence_error, replace_pairing live pairing (without_redemption pairing))
    else (thrown rollback_error, file)

-- After a failed `persist`, by what `isPersisted` says.
after_failure :
    Surroundings
    → ℕ
    → ApiPairings
    → ApiPairing
    → PairingRedemption
    → ApiPairings
    → Option Bool
    → Outcome × ApiPairings
unfolding commit
after_failure s now live pairing redemption file none = (thrown persistence_error, file)
after_failure s now live pairing redemption file (some true) =
    commit s now live pairing redemption file
after_failure s now live pairing redemption file (some false) = roll_back s live pairing file

persist_and_commit :
    Surroundings
    → ℕ
    → ApiPairings
    → ApiPairing
    → PairingRedemption
    → ApiPairings
    → Outcome × ApiPairings
unfolding commit after_failure
persist_and_commit s now live pairing redemption file =
    if s.persisted
    then commit s now live pairing redemption file
    else after_failure s now live pairing redemption file s.found_persisted

-- The reservation of a prepared token.
redeem_fresh :
    Surroundings
    → ℕ
    → ApiPairings
    → ApiPairings
    → ApiPairing
    → Option PreparedPairingRedemption
    → Outcome × ApiPairings
unfolding persist_and_commit
redeem_fresh s now pairings live pairing none = (thrown prepare_error, pairings)
redeem_fresh s now pairings live pairing (some prepared) =
    let fresh = reserve now prepared in
    let reserved_file = replace_pairing live pairing (with_redemption pairing fresh) in
    if s.reserve_written
    then persist_and_commit s now live pairing fresh reserved_file
    else (thrown write_error, pairings)

-- A journaled redemption, by its status.
redeem_status :
    Surroundings
    → ℕ
    → ApiPairings
    → ApiPairings
    → ApiPairing
    → PairingRedemption
    → RedemptionStatus
    → Outcome × ApiPairings
unfolding persist_and_commit
redeem_status s now pairings live pairing redemption reserved =
    persist_and_commit s now live pairing redemption pairings
redeem_status s now pairings live pairing redemption (completed at) =
    pruned s.prune_written (returned (success pairing.identity_id redemption)) live pairings

-- The authorised part, by what the pairing's journal holds.
redeem_journal :
    Surroundings
    → ℕ
    → ApiPairings
    → ApiPairings
    → ApiPairing
    → Option PairingRedemption
    → Outcome × ApiPairings
unfolding redeem_status redeem_fresh
redeem_journal s now pairings live pairing none =
    redeem_fresh s now pairings live pairing s.prepared
redeem_journal s now pairings live pairing (some redemption) =
    redeem_status s now pairings live pairing redemption redemption.status

abbrev is_reserved : Option PairingRedemption → Bool
is_reserved none = false
is_reserved (some redemption) = elim redemption.status [ reserved ↦ true | completed at ↦ false ]

pub redeem_found :
    Surroundings → ℕ → ApiPairings → ApiPairings → Option ApiPairing → Outcome × ApiPairings
unfolding redeem_journal
redeem_found s now pairings live none = pruned s.prune_written (returned invalid) live pairings
redeem_found s now pairings live (some pairing) =
    if s.authorized
    then redeem_journal s now pairings live pairing pairing.redemption
    else if is_reserved pairing.redemption
    then written s.rollback_written (returned (rejected pairing.identity_id))
        (replace_pairing live pairing (without_redemption pairing)) pairings
    else pruned s.prune_written (returned (rejected pairing.identity_id)) live pairings

-- `redeemPairingTransaction`
pub redeem : (String → String) → String → ℕ → Surroundings → ApiPairings → Outcome × ApiPairings
unfolding redeem_found
redeem hash code now s pairings =
    let live = filter (is_live now) pairings in
    redeem_found s now pairings live (find (has_digest (hash code)) live)
