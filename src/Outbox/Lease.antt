-- ===== src/Outbox/Lease.antt =====
-- A claim excludes the other workers until its lease is over, and a claim takes the earliest record.
use sandi.Prelude.{
  ℕ, ◌≤◌, ◌<◌, ◌≡◌, ◌≢◌, refl, ◌∙◌, ◌⊎◌, inl, inr, String, eq_iff, true, false, Option, none, some,
  List, [], ◌∷◌, arith, filter, All, Bool-cases,
}
use sandi.Prelude.Dict.{lookup, insert, values}
use sandi.Outbox.Record.{DeliveryRecord, DeliveryClaim, OutboxState, Options, is_processing}
use sandi.Outbox.{is_due, claimed, claim_next, earliest, sooner, claim_selected}
use sandi.Outbox.Events.{
  Event, run, Change, kept, created, taken, updated, Selected, earliest-Selected,
}
use sandi.Outbox.History.{run-Keyed, run-keeps}

module _ {J : Type 0} (options : Options) (null : J) (hash_json : J → String) where
  Change-leased :
      (worker : String) (now : ℕ) (key : String) (r : DeliveryRecord J) (c : DeliveryClaim)
      {o o' : Option (DeliveryRecord J)}
      → is_processing r.status ≡ true
      → r.claim ≡ some c
      → c.worker_id ≢ worker
      → now < c.lease_until
      → Change options null hash_json worker now key o o'
      → o ≡ some r
      → o' ≡ some r
  unfolding is_due
  Change-leased worker now key r c busy claim other early (kept e) h = e ∙ h
  Change-leased worker now key r c busy claim other early (created k kind payload same e f) h = cc
  Change-leased worker now key r c busy claim other early (taken supported only_key s e due f) h =
      ground arith
  Change-leased worker now key r c busy claim other early (updated s s' e mine u f) h =
      ground (arith, eq_iff c.worker_id worker)

  -- While a claim's lease runs, no action of another worker changes the claimed record: it is neither
  -- claimed nor settled nor renewed by anyone else.
  pub run-leased :
      (key : String) (before after : List (Event J)) (r : DeliveryRecord J) (c : DeliveryClaim)
      → lookup key (run options null hash_json [] before) ≡ some r
      → is_processing r.status ≡ true
      → r.claim ≡ some c
      → All (λ e. (c.worker_id ≢ e.worker) × (e.now < c.lease_until)) after
      → lookup key (run options null hash_json (run options null hash_json [] before) after)
        ≡ some r
  run-leased key before after r c found busy claim others =
      run-keeps options null hash_json key (λ o. o ≡ some r)
        (λ e. (c.worker_id ≢ e.worker) × (e.now < c.lease_until))
        (λ e o o' fit change h.
          Change-leased e.worker e.now key r c busy claim fit.0 fit.1 change h)
        (run options null hash_json [] before) after (run-Keyed options null hash_json [] before tt)
        others found

module _ {J : Type 0} (supported : List String) (only_key : Option String) (now : ℕ) where
  abbrev Due : DeliveryRecord J → Type 0
  Due r = is_due supported only_key now r ≡ true

  -- The earliest of the candidates.
  abbrev IsEarliest : List (DeliveryRecord J) → Option (DeliveryRecord J) → Type 0
  IsEarliest rs none = All (λ s. is_due supported only_key now s ≡ false) rs
  IsEarliest rs (some r) = All (λ s. Due s → r.next_attempt_at ≤ s.next_attempt_at) rs

  All-later :
      (rs : List (DeliveryRecord J)) (m n : ℕ)
      → m ≤ n
      → All (λ s. Due s → n ≤ s.next_attempt_at) rs
      → All (λ s. Due s → m ≤ s.next_attempt_at) rs
  All-later [] m n l h = tt
  All-later (s ∷ rs) m n l h = ((λ d. omega (arith, h.0 d)), All-later rs m n l h.1)

  All-never :
      (rs : List (DeliveryRecord J)) (n : ℕ)
      → All (λ s. is_due supported only_key now s ≡ false) rs
      → All (λ s. Due s → n ≤ s.next_attempt_at) rs
  All-never [] n h = tt
  All-never (s ∷ rs) n h = ((λ d. cc), All-never rs n h.1)

  sooner-IsEarliest :
      (r : DeliveryRecord J) (rs : List (DeliveryRecord J)) (o : Option (DeliveryRecord J))
      → IsEarliest rs o
      → IsEarliest (r ∷ rs) (some (sooner r o))
  sooner-IsEarliest r rs none h = ((λ d. omega arith), All-never rs r.next_attempt_at h)
  sooner-IsEarliest r rs (some s) h = (
    (λ d. ground arith),
    All-later rs (sooner r (some s)).next_attempt_at s.next_attempt_at (ground arith) h,
  )

  skip-IsEarliest :
      (r : DeliveryRecord J) (rs : List (DeliveryRecord J)) (o : Option (DeliveryRecord J))
      → is_due supported only_key now r ≡ false
      → IsEarliest rs o
      → IsEarliest (r ∷ rs) o
  skip-IsEarliest r rs none early h = (early, h)
  skip-IsEarliest r rs (some s) early h = ((λ d. cc), h)

  earliest-IsEarliest :
      (rs : List (DeliveryRecord J))
      → IsEarliest rs (earliest (filter (is_due supported only_key now) rs))
  unfolding earliest
  earliest-IsEarliest [] = tt
  earliest-IsEarliest (r ∷ rs) = elim (Bool-cases (is_due supported only_key now r)) [
    | inl due ↦ rw due (
        sooner-IsEarliest r rs (earliest (filter (is_due supported only_key now) rs))
          (earliest-IsEarliest rs))
    | inr early ↦ rw early (
        skip-IsEarliest r rs (earliest (filter (is_due supported only_key now) rs)) early
          (earliest-IsEarliest rs))
  ]

module _ {J : Type 0} (options : Options) (null : J) (hash_json : J → String) where
  -- What a claim that finds nothing, or one that finds `r`, has done.
  abbrev pub ClaimsEarliest :
      String
      → List String
      → Option String
      → ℕ
      → OutboxState J
      → Option (DeliveryRecord J) × OutboxState J
      → Type 0
  ClaimsEarliest worker supported only_key now state outcome =
      ((outcome ≡ (none, state))
        × All (λ s. is_due supported only_key now s ≡ false) (values state))
      ⊎ ((r : DeliveryRecord J) × (lookup r.idempotency_key state ≡ some r)
          × (is_due supported only_key now r ≡ true)
          × All
              (λ s. is_due supported only_key now s ≡ true → r.next_attempt_at ≤ s.next_attempt_at)
              (values state)
          × (outcome ≡ (
            some (claimed options worker now r),
            insert r.idempotency_key (claimed options worker now r) state,
          )))

  claim_selected-ClaimsEarliest :
      (worker : String) (supported : List String) (only_key : Option String) (now : ℕ)
      (state : OutboxState J) (o : Option (DeliveryRecord J))
      → Selected supported only_key now state o
      → IsEarliest supported only_key now (values state) o
      → ClaimsEarliest worker supported only_key now state
          (claim_selected options worker now state o)
  claim_selected-ClaimsEarliest worker supported only_key now state none s h = inl (refl, h)
  claim_selected-ClaimsEarliest worker supported only_key now state (some r) s h =
      inr (r, s.0, s.1, h, refl)

  -- In every state that a history reaches, a claim by a worker with a handler returns none and changes
  -- nothing exactly where no record is due; otherwise it takes a due record than which none of the due
  -- ones is scheduled earlier, counts the attempt, and stores it under this worker's lease.
  pub claim_next-ClaimsEarliest :
      (before : List (Event J)) (worker kind : String) (kinds : List String)
      (only_key : Option String) (now : ℕ)
      → let state = run options null hash_json [] before in
        ClaimsEarliest worker
          (kind ∷ kinds)
          only_key
          now
          state
          (claim_next options worker (kind ∷ kinds) only_key now state)
  unfolding claim_next
  claim_next-ClaimsEarliest before worker kind kinds only_key now =
      let state = run options null hash_json [] before in
      claim_selected-ClaimsEarliest worker (kind ∷ kinds) only_key now state _
        (earliest-Selected (kind ∷ kinds) only_key now state
          (run-Keyed options null hash_json [] before tt))
        (earliest-IsEarliest (kind ∷ kinds) only_key now (values state))
