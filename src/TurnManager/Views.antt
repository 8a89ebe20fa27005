-- ===== src/TurnManager/Views.antt =====
-- What the operations on a queue do to each conversation: app/src/main/turn-manager.ts.
use sandi.Prelude.{
  ◌≡◌, refl, sym, ap, subst, ◌∙◌, String, ◌==◌, eq_iff, true, false, Option, none, some, List, [],
  ◌∷◌, ◌++◌, Bool-cases, inl, inr, is_some, arith,
}
use sandi.Prelude.Dict.{lookup, lookup-insert, lookup-erase}
use sandi.TurnManager.{
  QueuedTurn, Inflight, sending, TurnManager, inflight_of, pending_of, put, forget,
  emit_queue_state, start_next, drain_queue, drain,
}
use sandi.TurnManager.Queue.{
  turns_of, turns_of-append, view, Ordered, Orderly, put_view, clear_view, start_view, drain_view,
  drain-Orderly,
}

-- What holds for the conversation of an operation and for the others holds for all.
pub conversation_ind :
    (P : String → Type 0) (own c : String) → P own → ((own == c) ≡ false → P c) → P c
conversation_ind P own c mine other = elim (Bool-cases (own == c)) [
  | inl same ↦ subst P ((eq_iff own c).0 same) mine
  | inr differs ↦ other differs
]

module _ (c : String) (m : TurnManager) where
  pub view-put :
      (inflight : Option Inflight) (waiting : List QueuedTurn)
      → view c (put c inflight waiting m) ≡ put_view inflight waiting (view c m)
  view-put inflight waiting = ground (
    arith,
    eq_iff c c,
    lookup-insert c c (record { inflight = inflight; pending = waiting }) m.queues,
  )

  pub view-forget : view c (forget c m) ≡ clear_view (view c m)
  view-forget = ground (arith, eq_iff c c, lookup-erase c c m.queues)

  pub view-submitted :
      (turn : QueuedTurn)
      → view c (record m { submitted = m.submitted ++ (c, turn) ∷ [] })
        ≡ record (view c m) { submitted = turns_of c m.submitted ++ turn ∷ [] }
  view-submitted turn = ground (arith, eq_iff c c, turns_of-append c c turn m.submitted)

  module _ (own : String) (differs : (own == c) ≡ false) where
    pub other-put :
        (inflight : Option Inflight) (waiting : List QueuedTurn)
        → view c (put own inflight waiting m) ≡ view c m
    other-put inflight waiting = ground (
      arith,
      differs,
      lookup-insert own c (record { inflight = inflight; pending = waiting }) m.queues,
    )

    pub other-forget : view c (forget own m) ≡ view c m
    other-forget = ground (arith, differs, lookup-erase own c m.queues)

    pub other-submitted :
        (turn : QueuedTurn)
        → view c (record m { submitted = m.submitted ++ (own, turn) ∷ [] }) ≡ view c m
    other-submitted turn = ground (arith, differs, turns_of-append c own turn m.submitted)

    pub other-sent :
        (turn : QueuedTurn) → view c (record m { sent = m.sent ++ (own, turn) ∷ [] }) ≡ view c m
    other-sent turn = ground (arith, differs, turns_of-append c own turn m.sent)

    pub other-cancelled :
        (turn : QueuedTurn)
        → view c (record m { cancelled = m.cancelled ++ (own, turn) ∷ [] }) ≡ view c m
    other-cancelled turn = ground (arith, differs, turns_of-append c own turn m.cancelled)

-- `drain`
module _ (own : String) where
  view-start_next :
      (waiting : List QueuedTurn) (m : TurnManager)
      → view own (start_next own waiting m) ≡ start_view waiting (view own m)
  view-start_next [] m =
      view-forget own (emit_queue_state own (put own none [] m))
      ∙ ap clear_view (view-put own m none [])
  view-start_next (next ∷ rest) m =
      let first : Option Inflight =
        some (record { turn_id = next.turn_id; aborted = false; phase = sending }) in
      ground (arith, eq_iff own own, view-put own m first rest, turns_of-append own own next m.sent)

  pub view-drain_queue :
      (inflight : Option Inflight) (waiting : List QueuedTurn) (m : TurnManager)
      → view own (drain_queue own inflight waiting m) ≡ drain_view inflight waiting (view own m)
  view-drain_queue none waiting m = view-start_next waiting m
  view-drain_queue (some turn) waiting m = refl

  module _ (c : String) (differs : (own == c) ≡ false) where
    other-start_next :
        (waiting : List QueuedTurn) (m : TurnManager) → view c (start_next own waiting m) ≡ view c m
    other-start_next [] m =
        other-forget c (emit_queue_state own (put own none [] m)) own differs
        ∙ other-put c m own differs none []
    other-start_next (next ∷ rest) m =
        let first : Option Inflight =
          some (record { turn_id = next.turn_id; aborted = false; phase = sending }) in
        other-sent c (emit_queue_state own (put own first rest m)) own differs next
        ∙ other-put c m own differs first rest

    pub other-drain_queue :
        (inflight : Option Inflight) (waiting : List QueuedTurn) (m : TurnManager)
        → view c (drain_queue own inflight waiting m) ≡ view c m
    other-drain_queue none waiting m = other-start_next waiting m
    other-drain_queue (some turn) waiting m = refl

pub drained-Orderly :
    (own : String) (m : TurnManager)
    → Ordered (view own m)
    → is_some (lookup own m.queues) ≡ true
    → Orderly (view own (drain own m))
unfolding drain
drained-Orderly own m h here =
    subst Orderly
      (sym (
        view-drain_queue own (inflight_of (lookup own m.queues)) (pending_of (lookup own m.queues))
          m))
      (drain-Orderly (view own m) h here)
