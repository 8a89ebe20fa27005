-- ===== src/Outbox/Tests.antt =====
-- Runs of the outbox, and its theorems at concrete histories. The payload type is the native text, with
-- itself for a digest.
use sandi.Prelude.{
  max, leb, ◌&&◌, ℕ, ◌+◌, ◌≤◌, ◌≡◌, ◌⊎◌, refl, eq_iff, String, none, some, List, [], ◌∷◌, arith,
  All,
}
use sandi.Prelude.Dict.{lookup, insert, values}
use sandi.Prelude.Text.{trim}
use sandi.Outbox.Record.{
  DeliveryRecord, OutboxState, Options, DeliveryClaim, transient, complete, retry_after,
}
use sandi.Outbox.Enqueue.{enqueue_twice}
use sandi.Outbox.{ok, enqueue, is_due, earliest, claim_next, update_owned, renew_claim}
use sandi.Outbox.Settle.{settle_success, settle_error, retry_delay}
use sandi.Outbox.Events.{Action, Event, enqueues, claims, succeeds, perform, run}
use sandi.Outbox.Valid.{ValidAt, run-ValidAt}
use sandi.Outbox.Settled.{run-final}
use sandi.Outbox.Lease.{ClaimsEarliest, run-leased, claim_next-ClaimsEarliest}
use sandi.Outbox.Retry.{retry_delay_bounds, settle_error_waits, PutBack}
use sandi.Outbox.Schedule.{schedule_delay, InTime, schedule_delay-InTime}

abbrev options : Options
options = record {
  retry_base_ms = 1000;
  retry_max_ms = 3600000;
  claim_lease_ms = 120000;
  poll_max_ms = 30000;
}

abbrev digest : String → String
digest payload = payload

abbrev by : String → ℕ → Action String → Event String
by worker now action = record { worker = worker; now = now; action = action }

outbox : Unit {0}
unfolding run perform enqueue is_due earliest claim_next update_owned renew_claim settle_success
    settle_error retry_delay lookup insert values trim
outbox = tt

abbrev sent : List (Event String)
sent = by "w1" 0 (enqueues " k " "reply" "hello") ∷ by "w1" 5 (claims ("reply" ∷ []) none) ∷ []

abbrev delivered : List (Event String)
delivered =
    by "w1" 0 (enqueues " k " "reply" "hello")
    ∷ by "w1" 5 (claims ("reply" ∷ []) none)
    ∷ by "w1" 9 (succeeds "k" (complete none))
    ∷ []

abbrev history : List (Event String) → OutboxState String
history es = run options "null" digest [] es

claimed_record : (r : DeliveryRecord String) × (lookup "k" (history sent) ≡ some r)
unfolding outbox
claimed_record = (_, refl)

final_record : (r : DeliveryRecord String) × (lookup "k" (history delivered) ≡ some r)
unfolding outbox
final_record = (_, refl)

attempted_once : claimed_record.0.attempts ≡ 1
unfolding outbox claimed_record
attempted_once = refl

run-ValidAt_example : ValidAt "k" (lookup "k" (history delivered))
run-ValidAt_example = run-ValidAt options "null" digest "k" delivered

run-final_example :
    lookup "k" (
      run options "null" digest
        (history delivered)
        (by "w2" 900000 (claims ("reply" ∷ []) none) ∷ []))
    ≡ some final_record.0
unfolding outbox final_record
run-final_example =
    run-final options "null" digest "k" delivered (by "w2" 900000 (claims ("reply" ∷ []) none) ∷ [])
      final_record.0 final_record.1 refl

abbrev held : DeliveryClaim
held = record { worker_id = "w1"; lease_until = 120005 }

run-leased_example :
    lookup "k"
      (run options "null" digest (history sent) (by "w2" 100 (claims ("reply" ∷ []) none) ∷ []))
    ≡ some claimed_record.0
unfolding outbox claimed_record
run-leased_example =
    run-leased options "null" digest "k" sent (by "w2" 100 (claims ("reply" ∷ []) none) ∷ [])
      claimed_record.0 held claimed_record.1 refl refl
      ((ground (arith, eq_iff "w1" "w2"), omega arith), tt)

claim_next-ClaimsEarliest_example :
    ClaimsEarliest options "null" digest "w2"
      ("reply" ∷ [])
      none
      130000
      (history sent)
      (claim_next options "w2" ("reply" ∷ []) none 130000 (history sent))
claim_next-ClaimsEarliest_example =
    claim_next-ClaimsEarliest options "null" digest sent "w2" "reply" [] none 130000

settle_error_waits_example :
    (r' : DeliveryRecord String) × (lookup "k"
        (settle_error options "w1" "k" (retry_after "busy" 4000) 10 (history sent))
      ≡ some r')
    × PutBack claimed_record.0 transient "busy" 10
        (10 + max (retry_delay options claimed_record.0.attempts) 4000)
        r'
    × (is_due (claimed_record.0.kind ∷ []) none 4009 r'
        ≡ leb (10 + max (retry_delay options claimed_record.0.attempts) 4000) 4009)
    × (is_due ("reply" ∷ []) none 4009 r' ≡ (
        leb (10 + max (retry_delay options claimed_record.0.attempts) 4000) 4009
        && is_due
            ("reply" ∷ [])
            none
            (10 + max (retry_delay options claimed_record.0.attempts) 4000)
            r'))
unfolding outbox claimed_record
settle_error_waits_example =
    settle_error_waits options "w1" "k" (retry_after "busy" 4000) 10 4009 (history sent)
      claimed_record.0 [] ("reply" ∷ []) none claimed_record.1 refl (ground arith) refl

schedule_delay-InTime_example :
    let delay = schedule_delay options ("reply" ∷ []) 100 (history sent) in
    (delay ≤ 30000)
    × ((delay ≡ 0) ⊎ All (InTime ("reply" ∷ []) (100 + delay)) (values (history sent)))
schedule_delay-InTime_example = schedule_delay-InTime options ("reply" ∷ []) 100 (history sent)

retry_delay_bounds_example :
    (1000 ≤ retry_delay options 3)
    × (retry_delay options 3 ≤ retry_delay options 7)
    × (retry_delay options 7 ≤ 3600000)
retry_delay_bounds_example = retry_delay_bounds options 3 7 (omega arith) (omega arith)

enqueue_twice_example :
    enqueue digest " k " "reply" "hello" 77 (history sent) ≡ ok (claimed_record.0, history sent)
unfolding outbox claimed_record
enqueue_twice_example =
    enqueue_twice digest " k " "reply" "hello" 50 77 (history sent) (history sent) claimed_record.0
      refl
