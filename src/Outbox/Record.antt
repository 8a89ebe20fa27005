-- ===== src/Outbox/Record.antt =====
-- The records of the delivery outbox: src/lib/delivery/outbox.ts. An ISO date and time is the number
-- of milliseconds that it stands for, which `Date` converts without loss; JSON values are a type `J`.
use sandi.Prelude.{ℕ, String, Bool, true, false, Option}
use sandi.Prelude.Dict.{Dict}

pub data ErrorClass : Type 0 where
  transient ambiguous permanent : ErrorClass

pub record DeliveryError : Type 0 where
  pub class : ErrorClass
  pub message : String
  pub at : ℕ

pub record DeliveryClaim : Type 0 where
  pub worker_id : String
  pub lease_until : ℕ

pub data Status : Type 0 where
  pending processing completed failed : Status

abbrev pub is_pending : Status → Bool
is_pending pending = true
is_pending _ = false

abbrev pub is_processing : Status → Bool
is_processing processing = true
is_processing _ = false

-- `ambiguity` is its count; its policy is a constant.
pub record DeliveryRecord (J : Type 0) : Type 0 where
  pub idempotency_key : String
  pub kind : String
  pub payload : J
  pub payload_hash : String
  pub status : Status
  pub attempts : ℕ
  pub created_at : ℕ
  pub updated_at : ℕ
  pub next_attempt_at : ℕ
  pub progress : Option J
  pub result : Option J
  pub last_error : Option DeliveryError
  pub ambiguity : Option ℕ
  pub claim : Option DeliveryClaim
  pub completed_at : Option ℕ
  pub failed_at : Option ℕ

-- The `records` of the stored state.
abbrev pub OutboxState : Type 0 → Type 0
OutboxState J = Dict (DeliveryRecord J)

pub data DeliveryStepResult (J : Type 0) : Type 0 where
  complete : Option J → DeliveryStepResult J
  progress : J → DeliveryStepResult J

-- What a handler throws, with its message. `invalid` is a `ZodError`, `other` any other error.
pub data HandlerError : Type 0 where
  permanent_delivery ambiguous_delivery invalid other : String → HandlerError
  retry_after : String → ℕ → HandlerError

pub record Options : Type 0 where
  pub retry_base_ms : ℕ
  pub retry_max_ms : ℕ
  pub claim_lease_ms : ℕ
  pub poll_max_ms : ℕ
