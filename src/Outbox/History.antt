-- ===== src/Outbox/History.antt =====
-- What a history of steps keeps: the state stays keyed, and a property of one key's record follows
-- from what each change of that record keeps.
use sandi.Prelude.{
  ℕ, ◌≡◌, refl, sym, ap, ◌∙◌, inl, inr, String, false, Option, none, some, List, [], ◌∷◌, arith,
  All, Bool-cases,
}
use sandi.Prelude.Dict.{lookup, insert, Keyed, insert-Keyed, lookup-Keyed}
use sandi.Prelude.Text.{trim, is_empty}
use sandi.Outbox.Record.{
  DeliveryRecord, OutboxState, HandlerError, Options, complete, progress, ErrorClass, transient,
  ambiguous, permanent,
}
use sandi.Outbox.{
  enqueue, claimed, claim_next, claim_selected, owns, update_owned, replace_owned, renew_claim,
  renewed,
}
use sandi.Outbox.Settle.{
  settle_success, settle_error, after_success, after_error, failure, classify_error, error_message,
}
use sandi.Outbox.Events.{
  Action, Event, enqueues, claims, renews, succeeds, fails, key_of, stored, enqueue-cases, perform,
  run, Update, renewal, success, failed_with, Change, perform-Change,
}

module _ {J : Type 0} where
  pub after_error-some :
      (options : Options) (error : HandlerError) (now : ℕ) (r : DeliveryRecord J)
      {r' : DeliveryRecord J}
      → after_error options error now r ≡ some r'
      → (is_empty (error_message error) ≡ false)
        × (failure options error now (classify_error error) r ≡ r')
  after_error-some options error now r e = elim (Bool-cases (is_empty (error_message error))) [
    | inl empty ↦ cc (rw empty at e)
    | inr said ↦ (said, cc (rw said at e))
  ]

module _ {J : Type 0} (options : Options) (null : J) (hash_json : J → String) where
  -- The state stays keyed.
  Update-key :
      (worker : String) (now : ℕ) (r r' : DeliveryRecord J)
      → Update options null hash_json worker now r r'
      → r'.idempotency_key ≡ r.idempotency_key
  Update-key worker now r r' (renewal e) = ground arith
  Update-key worker now r r' (success (complete result) e) = ground arith
  Update-key worker now r r' (success (progress p) e) = ground arith
  Update-key worker now r r' (failed_with error e) =
      sym (ap (λ s. s.idempotency_key) (after_error-some options error now r e).1)
      ∙ failure-key (classify_error error)
    where
      failure-key :
          (class : ErrorClass)
          → (failure options error now class r).idempotency_key ≡ r.idempotency_key
      failure-key permanent = refl
      failure-key transient = refl
      failure-key ambiguous = refl

  next-Keyed :
      (k : String) (r : DeliveryRecord J) (o : Option (DeliveryRecord J)) (state : OutboxState J)
      → ((r' : DeliveryRecord J) → o ≡ some r' → r'.idempotency_key ≡ k)
      → Keyed key_of state
      → Keyed key_of (elim o [ none ↦ state | some next ↦ insert k next state ])
  next-Keyed k r none state same h = h
  next-Keyed k r (some next) state same h = insert-Keyed key_of k next state (same next refl) h

  replace_owned-Keyed :
      (worker k : String) (now : ℕ) (o : Option (DeliveryRecord J))
      (f : DeliveryRecord J → Option (DeliveryRecord J)) (state : OutboxState J)
      → lookup k state ≡ o
      → ((r r' : DeliveryRecord J) → f r ≡ some r' → Update options null hash_json worker now r r')
      → Keyed key_of state
      → Keyed key_of (replace_owned worker k o f state)
  replace_owned-Keyed worker k now none f state found sound h = h
  replace_owned-Keyed worker k now (some r) f state found sound h =
      elim (Bool-cases (owns worker r)) [
        | inl mine ↦ rw mine (
            next-Keyed k r (f r) state
              (λ r' e.
                Update-key worker now r r' (sound r r' e) ∙ lookup-Keyed key_of k state h found)
              h)
        | inr theirs ↦ rw theirs h
      ]

  update_owned-Keyed :
      (worker k : String) (now : ℕ) (f : DeliveryRecord J → Option (DeliveryRecord J))
      (state : OutboxState J)
      → ((r r' : DeliveryRecord J) → f r ≡ some r' → Update options null hash_json worker now r r')
      → Keyed key_of state
      → Keyed key_of (update_owned worker k f state)
  unfolding update_owned
  update_owned-Keyed worker k now f state sound h =
      replace_owned-Keyed worker k now (lookup k state) f state refl sound h

  enqueue-Keyed :
      (k kind : String) (payload : J) (now : ℕ) (state : OutboxState J)
      → Keyed key_of state
      → Keyed key_of (stored state (enqueue hash_json k kind payload now state))
  enqueue-Keyed k kind payload now state h =
      enqueue-cases (Keyed key_of) hash_json k kind payload now state h
        λ _. insert-Keyed key_of (trim k) _ state refl h

  claim_selected-Keyed :
      (worker : String) (supported : List String) (only_key : Option String) (now : ℕ)
      (o : Option (DeliveryRecord J)) (state : OutboxState J)
      → Keyed key_of state
      → Keyed key_of (claim_selected options worker now state o).1
  claim_selected-Keyed worker supported only_key now none state h = h
  claim_selected-Keyed worker supported only_key now (some r) state h =
      insert-Keyed key_of r.idempotency_key (claimed options worker now r) state refl h

  claim_next-Keyed :
      (worker : String) (supported : List String) (only_key : Option String) (now : ℕ)
      (state : OutboxState J)
      → Keyed key_of state
      → Keyed key_of (claim_next options worker supported only_key now state).1
  unfolding claim_next
  claim_next-Keyed worker [] only_key now state h = h
  claim_next-Keyed worker (kind ∷ kinds) only_key now state h =
      claim_selected-Keyed worker (kind ∷ kinds) only_key now _ state h

  perform-Keyed :
      (worker : String) (now : ℕ) (action : Action J) (state : OutboxState J)
      → Keyed key_of state
      → Keyed key_of (perform options null hash_json worker now action state)
  unfolding perform renew_claim settle_success settle_error
  perform-Keyed worker now (enqueues k kind payload) state h =
      enqueue-Keyed k kind payload now state h
  perform-Keyed worker now (claims supported only_key) state h =
      claim_next-Keyed worker supported only_key now state h
  perform-Keyed worker now (renews k) state h =
      update_owned-Keyed worker k now (renewed options worker now) state (λ r r' e. renewal e) h
  perform-Keyed worker now (succeeds k result) state h =
      update_owned-Keyed worker k now (after_success null result now) state
        (λ r r' e. success result e) h
  perform-Keyed worker now (fails k error) state h =
      update_owned-Keyed worker k now (after_error options error now) state
        (λ r r' e. failed_with error e) h

  pub run-Keyed :
      (state : OutboxState J) (es : List (Event J))
      → Keyed key_of state
      → Keyed key_of (run options null hash_json state es)
  unfolding run
  run-Keyed state [] h = h
  run-Keyed state (e ∷ es) h =
      run-Keyed (perform options null hash_json e.worker e.now e.action state) es
        (perform-Keyed e.worker e.now e.action state h)

  -- What every change of one key's record keeps, a history keeps.
  pub run-keeps :
      (key : String) (Holds : Option (DeliveryRecord J) → Type 0) (Fits : Event J → Type 0)
      → ((e : Event J) (o o' : Option (DeliveryRecord J))
          → Fits e
          → Change options null hash_json e.worker e.now key o o'
          → Holds o
          → Holds o')
      → (state : OutboxState J) (es : List (Event J)) → Keyed key_of state
      → All Fits es
      → Holds (lookup key state)
      → Holds (lookup key (run options null hash_json state es))
  unfolding run
  run-keeps key Holds Fits keeps state [] keyed fits h = h
  run-keeps key Holds Fits keeps state (e ∷ es) keyed (fit, fits) h =
      run-keeps key Holds Fits keeps (perform options null hash_json e.worker e.now e.action state)
        es (perform-Keyed e.worker e.now e.action state keyed) fits
        (keeps e _ _ fit
          (perform-Change options null hash_json e.worker e.now key e.action state keyed) h)
