-- ===== src/Outbox.antt =====
-- The durable delivery outbox: src/lib/delivery/outbox.ts. Each operation is what its mutator does to
-- the stored state, which `updateManaged` runs under a lock; the clock's reading and the random id of
-- the worker are arguments. A schema that refuses the new state throws, and leaves the old one.
pub mod Record
pub mod Settle
pub mod Schedule
pub mod Enqueue
pub mod Events
pub mod History
pub mod Valid
pub mod Settled
pub mod Lease
pub mod Retry
mod Tests
use sandi.Prelude.{
  ℕ, ◌+◌, ◌-◌, ◌*◌, ◌^◌, min, max, String, ◌==◌, Bool, true, false, not, ◌&&◌, ◌||◌, Option, none,
  some, List, [], ◌∷◌, ltb, leb, if◌then◌else◌, is_some, get_or_else, any, filter,
}
use sandi.Prelude.Dict.{lookup, insert, values}
use sandi.Prelude.Text.{trim, is_empty}
use Record.{
  ErrorClass, transient, ambiguous, permanent, DeliveryError, DeliveryClaim, Status, pending,
  processing, completed, failed, is_pending, is_processing, DeliveryRecord, OutboxState,
  DeliveryStepResult, complete, progress, HandlerError, permanent_delivery, ambiguous_delivery,
  invalid, other, retry_after, Options,
}

pub data Refusal : Type 0 where
  key_required kind_required reused_with_different_work : Refusal

pub data Result {ℓ} (A : Type ℓ) : Type ℓ where
  ok : A → Result A
  err : Refusal → Result A

lease_over : Option DeliveryClaim → ℕ → Bool
lease_over none now = false
lease_over (some claim) now = leb claim.lease_until now

abbrev wanted : Option String → String → Bool
wanted none key = true
wanted (some only_key) key = key == only_key

abbrev pub held_by : String → Option DeliveryClaim → Bool
held_by worker_id none = false
held_by worker_id (some claim) = claim.worker_id == worker_id

module _ {J : Type 0} where
  abbrev new_record : (J → String) → String → String → J → ℕ → DeliveryRecord J
  new_record hash_json key kind payload now = record {
    idempotency_key = key;
    kind = kind;
    payload = payload;
    payload_hash = hash_json payload;
    status = pending;
    attempts = 0;
    created_at = now;
    updated_at = now;
    next_attempt_at = now;
    progress = none;
    result = none;
    last_error = none;
    ambiguity = none;
    claim = none;
    completed_at = none;
    failed_at = none;
  }

  -- The mutator of `enqueue`, for a key that is looked up.
  abbrev enqueue_found :
      (J → String)
      → String
      → String
      → J
      → ℕ
      → OutboxState J
      → Option (DeliveryRecord J)
      → Result (DeliveryRecord J × OutboxState J)
  enqueue_found hash_json key kind payload now state (some existing) =
      if not (existing.kind == kind) || not (existing.payload_hash == hash_json payload)
      then err reused_with_different_work
      else ok (existing, state)
  enqueue_found hash_json key kind payload now state none =
      let created = new_record hash_json key kind payload now in
      ok (created, insert key created state)

  -- `enqueue`; `hash_json` is the digest of the payload's canonical text.
  pub enqueue :
      (J → String)
      → String
      → String
      → J
      → ℕ
      → OutboxState J
      → Result (DeliveryRecord J × OutboxState J)
  enqueue hash_json raw_key raw_kind payload now state =
      let key = trim raw_key in
      let kind = trim raw_kind in
      if is_empty key
      then err key_required
      else if is_empty kind
      then err kind_required
      else enqueue_found hash_json key kind payload now state (lookup key state)

  -- The filter of `#claimNext`.
  pub is_due : List String → Option String → ℕ → DeliveryRecord J → Bool
  unfolding lease_over
  is_due supported only_key now r =
      wanted only_key r.idempotency_key
      && any (λ kind. kind == r.kind) supported
      && (if is_pending r.status
          then leb r.next_attempt_at now
          else is_processing r.status && lease_over r.claim now)

  -- The first record of the candidates sorted by `nextAttemptAt`. The sort is stable.
  abbrev sooner : DeliveryRecord J → Option (DeliveryRecord J) → DeliveryRecord J
  sooner r none = r
  sooner r (some s) = if leb r.next_attempt_at s.next_attempt_at then r else s

  pub earliest : List (DeliveryRecord J) → Option (DeliveryRecord J)
  earliest [] = none
  earliest (r ∷ rs) = some (sooner r (earliest rs))

  abbrev pub claimed : Options → String → ℕ → DeliveryRecord J → DeliveryRecord J
  claimed options worker_id now r = record r {
    status = processing;
    attempts = r.attempts + 1;
    updated_at = now;
    claim = some (record { worker_id = worker_id; lease_until = now + options.claim_lease_ms });
  }

  abbrev claim_selected :
      Options
      → String
      → ℕ
      → OutboxState J
      → Option (DeliveryRecord J)
      → Option (DeliveryRecord J) × OutboxState J
  claim_selected options worker_id now state none = (none, state)
  claim_selected options worker_id now state (some selected) =
      let updated = claimed options worker_id now selected in
      (some updated, insert selected.idempotency_key updated state)

  -- `#claimNext`
  pub claim_next :
      Options
      → String
      → List String
      → Option String
      → ℕ
      → OutboxState J
      → Option (DeliveryRecord J) × OutboxState J
  claim_next options worker_id [] only_key now state = (none, state)
  claim_next options worker_id (kind ∷ kinds) only_key now state =
      claim_selected options worker_id now state
        (earliest (filter (is_due (kind ∷ kinds) only_key now) (values state)))

  abbrev pub owns : String → DeliveryRecord J → Bool
  owns worker_id r = is_processing r.status && held_by worker_id r.claim

  -- What `#updateOwned` and `#renewClaim` do to a record of this worker. An update that the schema
  -- refuses is `none`.
  abbrev replace_owned :
      String
      → String
      → Option (DeliveryRecord J)
      → (DeliveryRecord J → Option (DeliveryRecord J))
      → OutboxState J
      → OutboxState J
  replace_owned worker_id key none update state = state
  replace_owned worker_id key (some current) update state =
      if owns worker_id current
      then elim (update current) [ none ↦ state | some next ↦ insert key next state ]
      else state

  pub update_owned :
      String
      → String
      → (DeliveryRecord J → Option (DeliveryRecord J))
      → OutboxState J
      → OutboxState J
  update_owned worker_id key update state =
      replace_owned worker_id key (lookup key state) update state

  abbrev renewed : Options → String → ℕ → DeliveryRecord J → Option (DeliveryRecord J)
  renewed options worker_id now r = some (record r {
    updated_at = now;
    claim = some (record { worker_id = worker_id; lease_until = now + options.claim_lease_ms });
  })

  -- `#renewClaim`, its effect on the state
  pub renew_claim : Options → String → String → ℕ → OutboxState J → OutboxState J
  renew_claim options worker_id key now = update_owned worker_id key (renewed options worker_id now)
