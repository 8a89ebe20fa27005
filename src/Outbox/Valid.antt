-- ===== src/Outbox/Valid.antt =====
-- The stored records stay well formed, whatever any worker does.
use sandi.Prelude.{
  ℕ, ◌<◌, ◌≡◌, sym, subst, ◌⊎◌, String, Bool, true, false, ◌&&◌, not, Option, none, some, List, [],
  arith, is_some, All-Unit,
}
use sandi.Prelude.Dict.{lookup}
use sandi.Outbox.Record.{
  DeliveryRecord, HandlerError, Options, Status, pending, completed, failed, is_processing,
  complete, progress, ErrorClass, transient, ambiguous, permanent,
}
use sandi.Outbox.{new_record, is_due, claimed, owns}
use sandi.Outbox.Settle.{failure, classify_error}
use sandi.Outbox.History.{after_error-some, run-keeps}
use sandi.Outbox.Events.{
  Event, run, Update, renewal, success, failed_with, Change, kept, created, taken, updated,
}

abbrev pub is_completed : Status → Bool
is_completed completed = true
is_completed _ = false

abbrev pub is_failed : Status → Bool
is_failed failed = true
is_failed _ = false

-- A record under its key: it has a claim exactly while it is processed, a completion time exactly if
-- it is completed and a failure time exactly if it has failed; a failed record says why, a completed
-- one carries no error, and whatever left the pending state has been attempted.
pub record IsValid {J : Type 0} (key : String) (r : DeliveryRecord J) : Type 0 where
  pub keyed : r.idempotency_key ≡ key
  pub claimed : is_some r.claim ≡ is_processing r.status
  pub completed : is_some r.completed_at ≡ is_completed r.status
  pub failed : is_some r.failed_at ≡ is_failed r.status
  pub explained : (is_failed r.status && not (is_some r.last_error)) ≡ false
  pub clean : (is_completed r.status && is_some r.last_error) ≡ false
  pub attempted : (r.status ≡ pending) ⊎ (0 < r.attempts)

abbrev pub ValidAt : {J : Type 0} → String → Option (DeliveryRecord J) → Type 0
ValidAt key none = Unit
ValidAt key (some r) = IsValid key r

module _ {J : Type 0} where
  failure-IsValid :
      (options : Options) (error : HandlerError) (now : ℕ) (class : ErrorClass) (key : String)
      (r : DeliveryRecord J)
      → is_processing r.status ≡ true
      → IsValid key r
      → IsValid key (failure options error now class r)
  failure-IsValid options error now permanent key r mine v = ground arith
  failure-IsValid options error now transient key r mine v = ground arith
  failure-IsValid options error now ambiguous key r mine v = ground arith

module _ {J : Type 0} (options : Options) (null : J) (hash_json : J → String) where
  Update-IsValid :
      (worker : String) (now : ℕ) (key : String) (r r' : DeliveryRecord J)
      → owns worker r ≡ true
      → Update options null hash_json worker now r r'
      → IsValid key r
      → IsValid key r'
  Update-IsValid worker now key r r' mine (renewal e) v = ground arith
  Update-IsValid worker now key r r' mine (success (complete result) e) v = ground arith
  Update-IsValid worker now key r r' mine (success (progress p) e) v = ground arith
  Update-IsValid worker now key r r' mine (failed_with error e) v =
      subst (IsValid key) (after_error-some options error now r e).1
        (failure-IsValid options error now (classify_error error) key r (ground arith) v)

  new_record-IsValid :
      (key kind : String) (payload : J) (now : ℕ)
      → IsValid key (new_record hash_json key kind payload now)
  new_record-IsValid key kind payload now = ground arith

  claimed-IsValid :
      (supported : List String) (only_key : Option String) (worker : String) (now : ℕ)
      (key : String) (r : DeliveryRecord J)
      → is_due supported only_key now r ≡ true
      → IsValid key r
      → IsValid key (claimed options worker now r)
  unfolding is_due
  claimed-IsValid supported only_key worker now key r due v = ground arith

  Change-ValidAt :
      (worker : String) (now : ℕ) (key : String) {o o' : Option (DeliveryRecord J)}
      → Change options null hash_json worker now key o o'
      → ValidAt key o
      → ValidAt key o'
  Change-ValidAt worker now key (kept e) v = subst (ValidAt key) (sym e) v
  Change-ValidAt worker now key (created k kind payload same e f) v = subst (ValidAt key) (sym f) (
      subst (λ j. IsValid j (new_record hash_json k kind payload now)) same
        (new_record-IsValid k kind payload now))
  Change-ValidAt worker now key (taken supported only_key r e due f) v =
      subst (ValidAt key) (sym f)
        (claimed-IsValid supported only_key worker now key r due (subst (ValidAt key) e v))
  Change-ValidAt worker now key (updated r r' e mine u f) v =
      subst (ValidAt key) (sym f)
        (Update-IsValid worker now key r r' mine u (subst (ValidAt key) e v))

  -- Whatever any workers do at any times, from the empty outbox: the record of each key is well formed.
  pub run-ValidAt :
      (key : String) (es : List (Event J))
      → ValidAt key (lookup key (run options null hash_json [] es))
  unfolding lookup
  run-ValidAt key es =
      run-keeps options null hash_json key (ValidAt key) (λ e. Unit {0})
        (λ e o o' _ c v. Change-ValidAt e.worker e.now key c v) [] es tt (All-Unit es) tt
