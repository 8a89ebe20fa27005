-- ===== src/Outbox/Settle.antt =====
-- How a delivery attempt ends: `#settleSuccess`, `#settleError` and what they use, in
-- src/lib/delivery/outbox.ts.
use sandi.Prelude.{
  ℕ, ◌+◌, ◌-◌, ◌*◌, ◌^◌, min, max, String, Option, none, some, if◌then◌else◌, get_or_else,
}
use sandi.Prelude.Text.{is_empty}
use sandi.Outbox.Record.{
  ErrorClass, transient, ambiguous, permanent, pending, completed, failed, DeliveryRecord,
  OutboxState, DeliveryStepResult, complete, progress, HandlerError, permanent_delivery,
  ambiguous_delivery, invalid, other, retry_after, Options,
}
use sandi.Outbox.{update_owned}

abbrev pub classify_error : HandlerError → ErrorClass
classify_error (permanent_delivery message) = permanent
classify_error (ambiguous_delivery message) = ambiguous
classify_error (invalid message) = permanent
classify_error _ = transient

abbrev pub error_message : HandlerError → String
error_message (permanent_delivery message) = message
error_message (ambiguous_delivery message) = message
error_message (invalid message) = message
error_message (other message) = message
error_message (retry_after message ms) = message

abbrev pub retry_after_ms : HandlerError → ℕ
retry_after_ms (retry_after message ms) = ms
retry_after_ms _ = 0

-- `#retryDelay`; a first attempt has the exponent 0 either way, as subtraction stops at 0 here.
unfoldable pub retry_delay : Options → ℕ → ℕ
retry_delay options attempts =
    min options.retry_max_ms (options.retry_base_ms * 2 ^ min 20 (attempts - 1))

abbrev pub counted : ErrorClass → Option ℕ → Option ℕ
counted ambiguous before = some (get_or_else before 0 + 1)
counted _ before = before

module _ {J : Type 0} where
  -- `#settleSuccess`; `null` is the JSON value that replaces the payload.
  abbrev pub after_success :
      J → DeliveryStepResult J → ℕ → DeliveryRecord J → Option (DeliveryRecord J)
  after_success null (progress p) now r = some (record r {
    status = pending;
    progress = some p;
    updated_at = now;
    next_attempt_at = now;
    claim = none;
    last_error = none;
  })
  after_success null (complete result) now r = some (record r {
    status = completed;
    payload = null;
    updated_at = now;
    completed_at = some now;
    claim = none;
    last_error = none;
    progress = none;
    result = elim result [ none ↦ r.result | some value ↦ some value ];
  })

  unfoldable pub settle_success :
      J → String → String → DeliveryStepResult J → ℕ → OutboxState J → OutboxState J
  settle_success null worker_id key result now =
      update_owned worker_id key (after_success null result now)

  abbrev pub failure : Options → HandlerError → ℕ → ErrorClass → DeliveryRecord J → DeliveryRecord J
  failure options error now permanent r = record r {
    status = failed;
    updated_at = now;
    failed_at = some now;
    claim = none;
    last_error = some (record { class = permanent; message = error_message error; at = now });
  }
  failure options error now class r = record r {
    status = pending;
    updated_at = now;
    next_attempt_at = now + max (retry_delay options r.attempts) (retry_after_ms error);
    claim = none;
    last_error = some (record { class = class; message = error_message error; at = now });
    ambiguity = counted class r.ambiguity;
  }

  -- The schema wants a message of at least one character.
  abbrev pub after_error : Options → HandlerError → ℕ → DeliveryRecord J → Option (DeliveryRecord J)
  after_error options error now r =
      if is_empty (error_message error)
      then none
      else some (failure options error now (classify_error error) r)

  -- `#settleError`
  unfoldable pub settle_error :
      Options → String → String → HandlerError → ℕ → OutboxState J → OutboxState J
  settle_error options worker_id key error now =
      update_owned worker_id key (after_error options error now)
