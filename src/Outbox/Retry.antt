-- ===== src/Outbox/Retry.antt =====
-- How long a failed delivery waits, and what is done with a failure.
use native.Mathlib.Nat.{pow-le-pow_right}
use sandi.Prelude.{
  leb, eq_iff, ◌∷◌, ◌&&◌, ℕ, ◌+◌, ◌-◌, ◌^◌, ◌≤◌, ◌≡◌, ◌≢◌, refl, ap, ◌∙◌, min, max, String, true,
  false, Option, none, some, List, arith,
}
use text.Mathlib.TextPositions.{eq_refl}
use sandi.Prelude.Dict.{lookup, insert, lookup-insert}
use sandi.Prelude.Text.{is_empty}
use sandi.Outbox.Record.{
  DeliveryRecord, pending, OutboxState, Options, HandlerError, ErrorClass, transient, ambiguous,
  permanent,
}
use sandi.Outbox.{is_due, owns, update_owned, replace_owned}
use sandi.Outbox.Settle.{
  retry_delay, settle_error, classify_error, error_message, retry_after_ms, failure, after_error,
}

-- The delay starts at no less than the base, never falls as the attempts grow, and stays within the
-- limit, if the limit is no less than the base.
pub retry_delay_bounds :
    (options : Options) (m n : ℕ)
    → options.retry_base_ms ≤ options.retry_max_ms
    → m ≤ n
    → (options.retry_base_ms ≤ retry_delay options m)
      × (retry_delay options m ≤ retry_delay options n)
      × (retry_delay options n ≤ options.retry_max_ms)
unfolding retry_delay
retry_delay_bounds options m n h l =
    let one : 1 ≤ 2 ^ min 20 (m - 1) =
      pow-le-pow_right {n = 2} (omega arith) {i = 0} (omega arith) in
    let steps : 2 ^ min 20 (m - 1) ≤ 2 ^ min 20 (n - 1) =
      pow-le-pow_right {n = 2} (omega arith) (omega arith) in
    (grind arith, grind arith, grind arith)

module _ {J : Type 0} where
  update_owned-some :
      (worker key : String) (f : DeliveryRecord J → Option (DeliveryRecord J))
      (state : OutboxState J) (r : DeliveryRecord J) {r' : DeliveryRecord J}
      → lookup key state ≡ some r
      → owns worker r ≡ true
      → f r ≡ some r'
      → update_owned worker key f state ≡ insert key r' state
  unfolding update_owned
  update_owned-some worker key f state r found mine e =
      ap (λ o. replace_owned worker key o f state) found ∙ rw (mine) (rw e)

  -- A record that waits for another attempt: pending, free of any claim, otherwise the record as it was,
  -- with the time from which it may be claimed.
  abbrev pub PutBack :
      DeliveryRecord J → ErrorClass → String → (now due : ℕ) → DeliveryRecord J → Type 0
  PutBack r class message now due r' =
      (r'.status ≡ pending)
      × (r'.next_attempt_at ≡ due)
      × (r'.claim ≡ none)
      × (r'.last_error ≡ some (record { class = class; message = message; at = now }))
      × (r'.failed_at ≡ r.failed_at)
      × (r'.attempts ≡ r.attempts)
      × (r'.payload ≡ r.payload)
      × (r'.kind ≡ r.kind)
      × (r'.idempotency_key ≡ r.idempotency_key)

  failure-PutBack :
      (options : Options) (error : HandlerError) (now : ℕ) (class : ErrorClass)
      (r : DeliveryRecord J)
      → class ≢ permanent
      → PutBack r class
          (error_message error)
          now
          (now + max (retry_delay options r.attempts) (retry_after_ms error))
          (failure options error now class r)
  failure-PutBack options error now permanent r h = absurd (h refl)
  failure-PutBack options error now transient r h =
      (refl, refl, refl, refl, refl, refl, refl, refl, refl)
  failure-PutBack options error now ambiguous r h =
      (refl, refl, refl, refl, refl, refl, refl, refl, refl)

  PutBack-is_due :
      (r r' : DeliveryRecord J) (class : ErrorClass) (message : String) (now due t : ℕ)
      (kinds : List String)
      → PutBack r class message now due r'
      → is_due (r.kind ∷ kinds) none t r' ≡ leb due t
  unfolding is_due
  PutBack-is_due r r' class message now due t kinds back =
      ground (arith, back, eq_iff r.kind r'.kind)

  -- The same for any worker: it is due when it is due at `due` and this time has come.
  PutBack-is_due_any :
      (r r' : DeliveryRecord J) (class : ErrorClass) (message : String) (now due t : ℕ)
      (supported : List String) (only_key : Option String)
      → PutBack r class message now due r'
      → is_due supported only_key t r' ≡ (leb due t && is_due supported only_key due r')
  unfolding is_due
  PutBack-is_due_any r r' class message now due t supported only_key back = ground (arith, back)

  -- A failure that is not permanent, and has a message, puts this worker's record back: it is pending and
  -- unclaimed, with the failure as its last error, and with its attempts, payload and kind as they were. A
  -- worker with a handler of its kind can claim it from the time on at which the retry delay of its attempts
  -- and the delay that the error asks for are both over, and no worker can claim it before.
  pub settle_error_waits :
      (options : Options) (worker key : String) (error : HandlerError) (now t : ℕ)
      (state : OutboxState J) (r : DeliveryRecord J) (kinds supported : List String)
      (only_key : Option String)
      → lookup key state ≡ some r
      → owns worker r ≡ true
      → classify_error error ≢ permanent
      → is_empty (error_message error) ≡ false
      → (let due = now + max (retry_delay options r.attempts) (retry_after_ms error) in
          (r' : DeliveryRecord J) × (lookup key (settle_error options worker key error now state)
            ≡ some r')
          × PutBack r (classify_error error) (error_message error) now due r'
          × (is_due (r.kind ∷ kinds) none t r' ≡ leb due t)
          × (is_due supported only_key t r' ≡ (leb due t && is_due supported only_key due r')))
  unfolding settle_error
  settle_error_waits options worker key error now t state r kinds supported only_key found mine
        class said =
      let back = failure-PutBack options error now (classify_error error) r class in
      (
        failure options error now (classify_error error) r,
        ap (lookup key) (
              update_owned-some worker key (after_error options error now) state r
                {r' = failure options error now (classify_error error) r} found mine (rw said))
            ∙ simp (lookup-insert, eq_refl),
        back,
        PutBack-is_due r (failure options error now (classify_error error) r) (classify_error error)
            (error_message error) now
            (now + max (retry_delay options r.attempts) (retry_after_ms error)) t kinds back,
        PutBack-is_due_any r (failure options error now (classify_error error) r)
            (classify_error error) (error_message error) now
            (now + max (retry_delay options r.attempts) (retry_after_ms error)) t supported only_key
            back,
      )
