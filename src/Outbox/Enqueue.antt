-- ===== src/Outbox/Enqueue.antt =====
-- Enqueueing the same work twice.
use sandi.Prelude.{ℕ, ◌≡◌, refl, String, ◌==◌, true, false, Option, none, some, arith}
use text.Mathlib.TextPositions.{eq_refl}
use sandi.Prelude.Dict.{lookup, lookup-insert}
use sandi.Prelude.Text.{trim, is_empty}
use sandi.Outbox.Record.{DeliveryRecord, OutboxState}
use sandi.Outbox.{ok, enqueue, enqueue_found, new_record}

module _ {J : Type 0} (hash_json : J → String) where
  enqueue_found-ok :
      (k kind : String) (payload : J) (now : ℕ) (o : Option (DeliveryRecord J))
      (state after : OutboxState J) (r : DeliveryRecord J)
      → lookup k state ≡ o
      → enqueue_found hash_json k kind payload now state o ≡ ok (r, after)
      → (lookup k after ≡ some r)
        × ((r.kind == kind) ≡ true)
        × ((r.payload_hash == hash_json payload) ≡ true)
  enqueue_found-ok k kind payload now none state after r found e = ground (
    arith,
    lookup-insert k k (new_record hash_json k kind payload now) state,
    eq_refl k,
    eq_refl kind,
    eq_refl (hash_json payload),
  )
  enqueue_found-ok k kind payload now (some existing) state after r found e = ground arith

  -- What a successful `enqueue` has stored, and that it is the work that was asked for.
  enqueue-ok :
      (k kind : String) (payload : J) (now : ℕ) (state after : OutboxState J) (r : DeliveryRecord J)
      → enqueue hash_json k kind payload now state ≡ ok (r, after)
      → (is_empty (trim k) ≡ false)
        × (is_empty (trim kind) ≡ false)
        × (lookup (trim k) after ≡ some r)
        × ((r.kind == trim kind) ≡ true)
        × ((r.payload_hash == hash_json payload) ≡ true)
  unfolding enqueue
  enqueue-ok k kind payload now state after r e =
      let asked : (is_empty (trim k) ≡ false)
          × (is_empty (trim kind) ≡ false)
          × (enqueue_found hash_json (trim k) (trim kind) payload now state (lookup (trim k) state)
              ≡ ok (r, after)) =
        ground arith in
      let (found, same_kind, same_hash) =
        enqueue_found-ok (trim k) (trim kind) payload now (lookup (trim k) state) state after r refl
          asked.2 in
      (asked.0, asked.1, found, same_kind, same_hash)

  -- An `enqueue` that succeeded, called again with the same key, kind and payload at any later time
  -- with the state unchanged, returns the same record and adds nothing.
  pub enqueue_twice :
      (k kind : String) (payload : J) (now later : ℕ) (state after : OutboxState J)
      (r : DeliveryRecord J)
      → enqueue hash_json k kind payload now state ≡ ok (r, after)
      → enqueue hash_json k kind payload later after ≡ ok (r, after)
  unfolding enqueue
  enqueue_twice k kind payload now later state after r e =
      let (key, kind', found, same_kind, same_hash) =
        enqueue-ok k kind payload now state after r e in
      rw (key, kind', found, enqueue_found) (rw (same_kind, same_hash))
