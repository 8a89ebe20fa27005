-- ===== src/Outbox/Settled.antt =====
-- A delivery that is completed or has failed is over: no worker touches its record again.
use sandi.Prelude.{ℕ, ◌≡◌, ◌∙◌, String, true, ◌||◌, Option, some, List, [], arith, All-Unit}
use sandi.Prelude.Dict.{lookup}
use sandi.Outbox.Record.{DeliveryRecord, Options}
use sandi.Outbox.{is_due}
use sandi.Outbox.Events.{Event, run, Change, kept, created, taken, updated}
use sandi.Outbox.History.{run-Keyed, run-keeps}
use sandi.Outbox.Valid.{is_completed, is_failed}

module _ {J : Type 0} (options : Options) (null : J) (hash_json : J → String) where
  Change-final :
      (worker : String) (now : ℕ) (key : String) (r : DeliveryRecord J)
      {o o' : Option (DeliveryRecord J)}
      → (is_completed r.status || is_failed r.status) ≡ true
      → Change options null hash_json worker now key o o'
      → o ≡ some r
      → o' ≡ some r
  unfolding is_due
  Change-final worker now key r final (kept e) h = e ∙ h
  Change-final worker now key r final (created k kind payload same e f) h = cc
  Change-final worker now key r final (taken supported only_key s e due f) h = ground arith
  Change-final worker now key r final (updated s s' e mine u f) h = ground arith

  -- If after some history from the empty outbox the record of a key is completed or failed, it is the
  -- same record after any further history: it is not claimed, retried or changed again, by any worker.
  pub run-final :
      (key : String) (before after : List (Event J)) (r : DeliveryRecord J)
      → lookup key (run options null hash_json [] before) ≡ some r
      → (is_completed r.status || is_failed r.status) ≡ true
      → lookup key (run options null hash_json (run options null hash_json [] before) after)
        ≡ some r
  run-final key before after r found final =
      run-keeps options null hash_json key (λ o. o ≡ some r) (λ e. Unit {0})
        (λ e o o' _ c h. Change-final e.worker e.now key r final c h)
        (run options null hash_json [] before) after (run-Keyed options null hash_json [] before tt)
        (All-Unit after) found
