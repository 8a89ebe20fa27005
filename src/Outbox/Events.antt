-- ===== src/Outbox/Events.antt =====
-- The outbox as a machine: what any worker does at any time, and how each step changes the record of
-- one key.
use sandi.Prelude.{
  ℕ, ◌≡◌, refl, sym, ap, subst, ◌∙◌, inl, inr, String, ◌==◌, eq_iff, true, false, ◌||◌, not, Option,
  none, some, List, [], ◌∷◌, leb, filter, All, Bool-cases,
}
use sandi.Prelude.Dict.{lookup, insert, values, lookup-insert, Keyed, lookup-values}
use sandi.Prelude.Text.{trim, is_empty}
use sandi.Outbox.Record.{DeliveryRecord, OutboxState, DeliveryStepResult, HandlerError, Options}
use sandi.Outbox.{
  Result, ok, err, enqueue, enqueue_found, new_record, is_due, earliest, sooner, claimed,
  claim_next, claim_selected, owns, update_owned, replace_owned, renew_claim, renewed,
}
use sandi.Outbox.Settle.{settle_success, settle_error, after_success, after_error}

pub data Action (J : Type 0) : Type 0 where
  enqueues : String → String → J → Action J
  claims : List String → Option String → Action J
  renews : String → Action J
  succeeds : String → DeliveryStepResult J → Action J
  fails : String → HandlerError → Action J

pub record Event (J : Type 0) : Type 0 where
  pub worker : String
  pub now : ℕ
  pub action : Action J

abbrev pub key_of : {J : Type 0} → DeliveryRecord J → String
key_of r = r.idempotency_key

module _ {J : Type 0} (supported : List String) (only_key : Option String) (now : ℕ) where
  abbrev pub IsCandidate : OutboxState J → DeliveryRecord J → Type 0
  IsCandidate state r =
      (lookup r.idempotency_key state ≡ some r) × (is_due supported only_key now r ≡ true)

  -- What the candidate list gives is stored under its key, and is due.
  abbrev pub Selected : OutboxState J → Option (DeliveryRecord J) → Type 0
  Selected state none = Unit
  Selected state (some r) = IsCandidate state r

  filter-IsCandidate :
      (state : OutboxState J) (rs : List (DeliveryRecord J))
      → All (λ r. lookup r.idempotency_key state ≡ some r) rs
      → All (IsCandidate state) (filter (is_due supported only_key now) rs)
  filter-IsCandidate state [] h = tt
  filter-IsCandidate state (r ∷ rs) h = elim (Bool-cases (is_due supported only_key now r)) [
    | inl due ↦ rw due ((h.0, due), filter-IsCandidate state rs h.1)
    | inr early ↦ rw early (filter-IsCandidate state rs h.1)
  ]

  sooner-All :
      (P : DeliveryRecord J → Type 0) (r : DeliveryRecord J) (o : Option (DeliveryRecord J))
      → P r
      → ((s : DeliveryRecord J) → o ≡ some s → P s)
      → P (sooner r o)
  sooner-All P r none here later = here
  sooner-All P r (some s) here later = elim (Bool-cases (leb r.next_attempt_at s.next_attempt_at)) [
    | inl first ↦ rw first here
    | inr last ↦ rw last (later s refl)
  ]

  earliest-All :
      (P : DeliveryRecord J → Type 0) (rs : List (DeliveryRecord J)) (r : DeliveryRecord J)
      → All P rs
      → earliest rs ≡ some r
      → P r
  unfolding earliest
  earliest-All P [] r h e = cc
  earliest-All P (s ∷ rs) r h e =
      let same : sooner s (earliest rs) ≡ r = cc in
      subst P same (sooner-All P s (earliest rs) h.0 (λ t f. earliest-All P rs t h.1 f))

  Selected-of :
      (state : OutboxState J) (o : Option (DeliveryRecord J))
      → ((r : DeliveryRecord J) → o ≡ some r → IsCandidate state r)
      → Selected state o
  Selected-of state none h = tt
  Selected-of state (some r) h = h r refl

  pub earliest-Selected :
      (state : OutboxState J)
      → Keyed key_of state
      → Selected state (earliest (filter (is_due supported only_key now) (values state)))
  earliest-Selected state keyed = Selected-of state _ λ r e.
      earliest-All (IsCandidate state) _ r
        (filter-IsCandidate state (values state) (lookup-values key_of state keyed)) e

module _ {J : Type 0} where
  -- An `enqueue` that throws leaves the state.
  abbrev pub stored : OutboxState J → Result (DeliveryRecord J × OutboxState J) → OutboxState J
  stored state (ok (r, after)) = after
  stored state (err refusal) = state

  found-cases :
      (P : OutboxState J → Type 0) (hash_json : J → String) (k kind : String) (payload : J)
      (now : ℕ) (o : Option (DeliveryRecord J)) (state : OutboxState J)
      → lookup k state ≡ o
      → P state
      → (lookup k state ≡ none → P (insert k (new_record hash_json k kind payload now) state))
      → P (stored state (enqueue_found hash_json k kind payload now state o))
  found-cases P hash_json k kind payload now none state found left new = new found
  found-cases P hash_json k kind payload now (some existing) state found left new =
      elim (Bool-cases
        (not (existing.kind == kind) || not (existing.payload_hash == hash_json payload))) [
          | inl differs ↦ rw differs left
          | inr same ↦ rw same left
        ]

  -- `enqueue` leaves the state, or does what its mutator does under the trimmed key.
  pub enqueue-cases :
      (P : OutboxState J → Type 0) (hash_json : J → String) (k kind : String) (payload : J)
      (now : ℕ) (state : OutboxState J)
      → P state
      → (lookup (trim k) state ≡ none
          → P (insert (trim k) (new_record hash_json (trim k) (trim kind) payload now) state))
      → P (stored state (enqueue hash_json k kind payload now state))
  unfolding enqueue
  enqueue-cases P hash_json k kind payload now state left new =
      elim (Bool-cases (is_empty (trim k))) [
        | inl no_key ↦ rw no_key left
        | inr a_key ↦ elim (Bool-cases (is_empty (trim kind))) [
          | inl no_kind ↦ rw (a_key, no_kind) left
          | inr a_kind ↦
              rw (a_key, a_kind)
                (found-cases P hash_json (trim k) (trim kind) payload now (lookup (trim k) state)
                  state refl left new)
        ]
      ]

module _ {J : Type 0} (options : Options) (null : J) (hash_json : J → String) where
  unfoldable pub perform : String → ℕ → Action J → OutboxState J → OutboxState J
  perform worker now (enqueues key kind payload) state =
      stored state (enqueue hash_json key kind payload now state)
  perform worker now (claims supported only_key) state =
      (claim_next options worker supported only_key now state).1
  perform worker now (renews key) state = renew_claim options worker key now state
  perform worker now (succeeds key result) state = settle_success null worker key result now state
  perform worker now (fails key error) state = settle_error options worker key error now state

  unfoldable pub run : OutboxState J → List (Event J) → OutboxState J
  run state [] = state
  run state (e ∷ es) = run (perform e.worker e.now e.action state) es

  -- What one step does to the record of one key.
  pub data Update (worker : String) (now : ℕ) (r r' : DeliveryRecord J) : Type 0 where
    renewal : renewed options worker now r ≡ some r' → Update worker now r r'
    success :
        (result : DeliveryStepResult J)
        → after_success null result now r ≡ some r'
        → Update worker now r r'
    failed_with :
        (error : HandlerError) → after_error options error now r ≡ some r' → Update worker now r r'

  pub data Change (worker : String) (now : ℕ) (key : String) (o o' : Option (DeliveryRecord J))
      : Type 0 where
    kept : o' ≡ o → Change worker now key o o'
    created :
        (k kind : String) (payload : J)
        → k ≡ key
        → o ≡ none
        → o' ≡ some (new_record hash_json k kind payload now)
        → Change worker now key o o'
    taken :
        (supported : List String) (only_key : Option String) (r : DeliveryRecord J)
        → o ≡ some r
        → is_due supported only_key now r ≡ true
        → o' ≡ some (claimed options worker now r)
        → Change worker now key o o'
    updated :
        (r r' : DeliveryRecord J)
        → o ≡ some r
        → owns worker r ≡ true
        → Update worker now r r'
        → o' ≡ some r'
        → Change worker now key o o'

  module _ (worker : String) (now : ℕ) (key : String) where
    insert_elsewhere :
        (k : String) (r : DeliveryRecord J) (state : OutboxState J)
        → (k == key) ≡ false
        → lookup key (insert k r state) ≡ lookup key state
    insert_elsewhere k r state other = rw (lookup-insert k key r state, other)

    insert-Change :
        (k : String) (r : DeliveryRecord J) (state : OutboxState J)
        → (k ≡ key
            → lookup key state ≡ lookup k state
            → lookup key (insert k r state) ≡ some r
            → Change worker now key (lookup key state) (lookup key (insert k r state)))
        → Change worker now key (lookup key state) (lookup key (insert k r state))
    insert-Change k r state here = elim (Bool-cases (k == key)) [
      | inl same ↦
          let path = (eq_iff k key).0 same in
          here path (ap (λ j. lookup j state) (sym path)) (rw (lookup-insert k key r state, same))
      | inr other ↦ kept (insert_elsewhere k r state other)
    ]

    next-Change :
        (k : String) (r : DeliveryRecord J) (o : Option (DeliveryRecord J)) (state : OutboxState J)
        → lookup k state ≡ some r
        → owns worker r ≡ true
        → ((r' : DeliveryRecord J) → o ≡ some r' → Update worker now r r')
        → Change worker now key
            (lookup key state)
            (lookup key (elim o [ none ↦ state | some next ↦ insert k next state ]))
    next-Change k r none state found mine sound = kept refl
    next-Change k r (some next) state found mine sound =
        insert-Change k next state
          λ _ same put. updated r next (same ∙ found) mine (sound next refl) put

    replace_owned-Change :
        (k : String) (o : Option (DeliveryRecord J))
        (f : DeliveryRecord J → Option (DeliveryRecord J)) (state : OutboxState J)
        → lookup k state ≡ o
        → ((r r' : DeliveryRecord J) → f r ≡ some r' → Update worker now r r')
        → Change worker now key (lookup key state) (lookup key (replace_owned worker k o f state))
    replace_owned-Change k none f state found sound = kept refl
    replace_owned-Change k (some r) f state found sound = elim (Bool-cases (owns worker r)) [
      | inl mine ↦ rw mine (next-Change k r (f r) state found mine (sound r))
      | inr theirs ↦ rw theirs (kept refl)
    ]

    update_owned-Change :
        (k : String) (f : DeliveryRecord J → Option (DeliveryRecord J)) (state : OutboxState J)
        → ((r r' : DeliveryRecord J) → f r ≡ some r' → Update worker now r r')
        → Change worker now key (lookup key state) (lookup key (update_owned worker k f state))
    unfolding update_owned
    update_owned-Change k f state sound = replace_owned-Change k (lookup k state) f state refl sound

    enqueue-Change :
        (k kind : String) (payload : J) (state : OutboxState J)
        → Change worker now key
            (lookup key state)
            (lookup key (stored state (enqueue hash_json k kind payload now state)))
    enqueue-Change k kind payload state =
        enqueue-cases (λ after. Change worker now key (lookup key state) (lookup key after))
          hash_json k kind payload now state (kept refl)
          λ free.
            insert-Change (trim k) _ state
              λ path same put. created (trim k) (trim kind) payload path (same ∙ free) put

    claim_selected-Change :
        (supported : List String) (only_key : Option String) (o : Option (DeliveryRecord J))
        (state : OutboxState J)
        → Selected supported only_key now state o
        → Change worker now key
            (lookup key state)
            (lookup key (claim_selected options worker now state o).1)
    claim_selected-Change supported only_key none state s = kept refl
    claim_selected-Change supported only_key (some r) state (found, due) =
        insert-Change r.idempotency_key (claimed options worker now r) state
          λ _ same put. taken supported only_key r (same ∙ found) due put

    claim_next-Change :
        (supported : List String) (only_key : Option String) (state : OutboxState J)
        → Keyed key_of state
        → Change worker now key
            (lookup key state)
            (lookup key (claim_next options worker supported only_key now state).1)
    unfolding claim_next
    claim_next-Change [] only_key state keyed = kept refl
    claim_next-Change (kind ∷ kinds) only_key state keyed =
        claim_selected-Change (kind ∷ kinds) only_key _ state
          (earliest-Selected (kind ∷ kinds) only_key now state keyed)

    pub perform-Change :
        (action : Action J) (state : OutboxState J)
        → Keyed key_of state
        → Change worker now key (lookup key state) (lookup key (perform worker now action state))
    unfolding perform renew_claim settle_success settle_error
    perform-Change (enqueues k kind payload) state keyed = enqueue-Change k kind payload state
    perform-Change (claims supported only_key) state keyed =
        claim_next-Change supported only_key state keyed
    perform-Change (renews k) state keyed =
        update_owned-Change k (renewed options worker now) state (λ r r' e. renewal e)
    perform-Change (succeeds k result) state keyed =
        update_owned-Change k (after_success null result now) state (λ r r' e. success result e)
    perform-Change (fails k error) state keyed =
        update_owned-Change k (after_error options error now) state (λ r r' e. failed_with error e)
