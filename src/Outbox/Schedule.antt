-- ===== src/Outbox/Schedule.antt =====
-- The delay that `#scheduleNext` arms its timer with: src/lib/delivery/outbox.ts.
use sandi.Prelude.{
  ℕ, ◌+◌, ◌-◌, ◌≤◌, ◌≡◌, min, String, ◌==◌, true, false, ◌⊎◌, inl, inr, All, none, some, List, [],
  ◌∷◌, if◌then◌else◌, any, arith,
}
use native.Mathlib.Decide.{dec_le}
use sandi.Prelude.Dict.{values}
use sandi.Outbox.Record.{
  is_pending, is_processing, DeliveryRecord, DeliveryClaim, OutboxState, Options,
}

module _ {J : Type 0} where
  -- The delay that `#scheduleNext` arms its timer with.
  abbrev wake_at : List String → DeliveryRecord J → ℕ → ℕ
  wake_at supported r next_at =
      if any (λ kind. kind == r.kind) supported
      then (if is_pending r.status
          then min next_at r.next_attempt_at
          else if is_processing r.status
          then elim r.claim [ none ↦ next_at | some claim ↦ min next_at claim.lease_until ]
          else next_at)
      else next_at

  next_wake : List String → ℕ → List (DeliveryRecord J) → ℕ
  next_wake supported next_at [] = next_at
  next_wake supported next_at (r ∷ rs) = next_wake supported (wake_at supported r next_at) rs

  pub schedule_delay : Options → List String → ℕ → OutboxState J → ℕ
  unfolding next_wake
  schedule_delay options supported now state =
      min options.poll_max_ms (next_wake supported (now + options.poll_max_ms) (values state) - now)

  -- The timer comes no later than a record of a supported kind is due.
  abbrev pub InTime : List String → ℕ → DeliveryRecord J → Type 0
  InTime supported at r =
      (any (λ kind. kind == r.kind) supported ≡ false)
      ⊎ ((is_pending r.status ≡ true) × (at ≤ r.next_attempt_at))
      ⊎ ((is_pending r.status ≡ false)
          × ((is_processing r.status ≡ false)
              ⊎ (r.claim ≡ none)
              ⊎ ((c : DeliveryClaim) × (r.claim ≡ some c) × (at ≤ c.lease_until))))

  wake_at-InTime :
      (supported : List String) (n : ℕ) (r : DeliveryRecord J)
      → InTime supported (wake_at supported r n) r × (wake_at supported r n ≤ n)
  wake_at-InTime supported n r = (ground arith, ground arith)

  InTime-earlier :
      (supported : List String) (m n : ℕ) (r : DeliveryRecord J)
      → m ≤ n
      → InTime supported n r
      → InTime supported m r
  InTime-earlier supported m n r l h = ground arith

  next_wake-le :
      (supported : List String) (n : ℕ) (rs : List (DeliveryRecord J))
      → next_wake supported n rs ≤ n
  unfolding next_wake
  next_wake-le supported n [] = omega arith
  next_wake-le supported n (r ∷ rs) =
      omega
        (arith, next_wake-le supported (wake_at supported r n) rs, (wake_at-InTime supported n r).1)

  next_wake-InTime :
      (supported : List String) (n m : ℕ) (rs : List (DeliveryRecord J))
      → m ≤ next_wake supported n rs
      → All (InTime supported m) rs
  unfolding next_wake
  next_wake-InTime supported n m [] h = tt
  next_wake-InTime supported n m (r ∷ rs) h = (
    InTime-earlier supported m (wake_at supported r n) r
        (omega (arith, next_wake-le supported (wake_at supported r n) rs))
        (wake_at-InTime supported n r).0,
    next_wake-InTime supported (wake_at supported r n) m rs h,
  )

  -- The timer is armed with at most the longest poll, and it is either armed with no delay at all or
  -- fires no later than the next attempt of any pending record, and than the end of the lease of any
  -- processed one, of a kind that has a handler.
  pub schedule_delay-InTime :
      (options : Options) (supported : List String) (now : ℕ) (state : OutboxState J)
      → let delay = schedule_delay options supported now state in
        (delay ≤ options.poll_max_ms)
        × ((delay ≡ 0) ⊎ All (InTime supported (now + delay)) (values state))
  unfolding schedule_delay
  schedule_delay-InTime options supported now state =
      let wake = next_wake supported (now + options.poll_max_ms) (values state) in
      (
        omega arith,
        elim (dec_le wake now) [
          | yes late ↦ inl (omega arith)
          | no early ↦ inr (
              next_wake-InTime supported (now + options.poll_max_ms) _ (values state) (omega arith))
        ],
      )
