-- ===== src/TurnManager/Steps.antt =====
-- The submission, the answer and the end of a turn keep each conversation's turns in order:
-- app/src/main/turn-manager.ts.
use sandi.Prelude.{
  ◌≡◌, refl, sym, ap, subst, ◌∙◌, String, ◌==◌, eq_iff, false, Option, none, some, List, [], ◌∷◌,
  ◌++◌, arith,
}
use sandi.Prelude.Dict.{lookup, lookup-insert}
use sandi.TurnManager.{
  QueuedTurn, Inflight, Phase, sending, settling, TurnOutcome, TurnManager, inflight_of, pending_of,
  put, drain, push, submit, settle_turn, settle_queue, settle, finish_turn, finish_queue, finish,
  told,
}
use sandi.TurnManager.Queue.{
  turns_of, settled_of-append, View, view, sending_of, Ordered, Orderly, put_view, push-Ordered,
  settle-Ordered, inflight-Ordered,
}
use sandi.TurnManager.Views.{
  conversation_ind, view-put, other-put, other-submitted, view-submitted, other-drain_queue,
  drained-Orderly,
}

-- Every conversation is in order.
abbrev pub AllOrderly : TurnManager → Type 0
AllOrderly m = (c : String) → Orderly (view c m)

pub submit-Orderly :
    (own : String) (turn : QueuedTurn) (m : TurnManager)
    → AllOrderly m
    → AllOrderly (submit own turn m)
unfolding submit
submit-Orderly own turn m h c =
    conversation_ind (λ c. Orderly (view c (submit own turn m))) own c
      (drained-Orderly own (push own turn m)
        (subst Ordered (sym pushed) (push-Ordered (view own m) turn (h own).0))
        (ap (λ (v : View). v.present) pushed))
      (λ differs.
        subst Orderly
          (sym (
            other-drain_queue own c differs _ _ (push own turn m)
            ∙ other-put c (record m { submitted = m.submitted ++ (own, turn) ∷ [] }) own differs _ _
            ∙ other-submitted c m own differs turn))
          (h c))
  where
    pushed :
        view own (push own turn m)
        ≡ record (put_view
            (inflight_of (lookup own m.queues))
            (pending_of (lookup own m.queues) ++ turn ∷ [])
            (view own m)) { submitted = turns_of own m.submitted ++ turn ∷ [] }
    pushed =
        view-put own (record m { submitted = m.submitted ++ (own, turn) ∷ [] })
          (inflight_of (lookup own m.queues)) (pending_of (lookup own m.queues) ++ turn ∷ [])
        ∙ ap
            (put_view (inflight_of (lookup own m.queues))
              (pending_of (lookup own m.queues) ++ turn ∷ []))
            (view-submitted own m turn)

-- `settle` and the end of it
view-settle_turn :
    (own : String) (outcome : TurnOutcome) (turn : Inflight) (m : TurnManager)
    → inflight_of (lookup own m.queues) ≡ some turn
    → Orderly (view own m)
    → (phase : Phase) → turn.phase ≡ phase
    → Orderly (view own (settle_turn phase own outcome turn (pending_of (lookup own m.queues)) m))
view-settle_turn own outcome turn m e h settling at = h
view-settle_turn own outcome turn m e h sending at =
    subst Orderly
      (sym (
        ground (
          arith,
          eq_iff own own,
          settled_of-append own
              (record {
                conversation_id = own;
                turn_id = turn.turn_id;
                outcome = told turn.aborted outcome;
              })
              m.settled,
          lookup-insert own own
              (record {
                inflight = some (record turn { phase = settling });
                pending = pending_of (lookup own m.queues);
              })
              m.queues,
        )))
      (settle-Ordered (view own m) turn e at h.0, refl)

other-settle_turn :
    (own c : String) (outcome : TurnOutcome) (turn : Inflight) (m : TurnManager) (phase : Phase)
    (waiting : List QueuedTurn)
    → (own == c) ≡ false
    → view c (settle_turn phase own outcome turn waiting m) ≡ view c m
other-settle_turn own c outcome turn m settling waiting differs = refl
other-settle_turn own c outcome turn m sending waiting differs = ground (
  arith,
  differs,
  settled_of-append c
      (record {
        conversation_id = own;
        turn_id = turn.turn_id;
        outcome = told turn.aborted outcome;
      })
      m.settled,
  lookup-insert own c
      (record { inflight = some (record turn { phase = settling }); pending = waiting }) m.queues,
)

pub settle-Orderly :
    (own : String) (outcome : TurnOutcome) (m : TurnManager)
    → AllOrderly m
    → AllOrderly (settle own outcome m)
unfolding settle
settle-Orderly own outcome m h c = go (inflight_of (lookup own m.queues)) refl
  where
    go :
        (inflight : Option Inflight)
        → inflight_of (lookup own m.queues) ≡ inflight
        → Orderly (view c (settle_queue own outcome inflight (pending_of (lookup own m.queues)) m))
    go none e = h c
    go (some turn) e =
        conversation_ind
          (λ c.
            Orderly (
              view c
                (settle_turn turn.phase own outcome turn (pending_of (lookup own m.queues)) m)))
          own c (view-settle_turn own outcome turn m e (h own) turn.phase refl)
          (λ differs.
            subst Orderly
              (sym (
                other-settle_turn own c outcome turn m turn.phase (pending_of (lookup own m.queues))
                  differs))
              (h c))

pub finish-Orderly : (own : String) (m : TurnManager) → AllOrderly m → AllOrderly (finish own m)
unfolding finish drain
finish-Orderly own m h c = go (inflight_of (lookup own m.queues)) refl
  where
    last :
        (turn : Inflight) (phase : Phase)
        → inflight_of (lookup own m.queues) ≡ some turn
        → turn.phase ≡ phase
        → Orderly (view c (finish_turn phase own (pending_of (lookup own m.queues)) m))
    last turn sending e at = h c
    last turn settling e at =
        let left = put own none (pending_of (lookup own m.queues)) m in
        let left_view = view-put own m none (pending_of (lookup own m.queues)) in
        conversation_ind (λ c. Orderly (view c (drain own left))) own c
          (drained-Orderly own left
            (subst Ordered (sym left_view)
              (inflight-Ordered (view own m) none (ap sending_of e ∙ ground (arith, at)) (h own).0))
            (ap (λ (v : View). v.present) left_view))
          (λ differs.
            subst Orderly
              (sym (
                other-drain_queue own c differs _ _ left
                ∙ other-put c m own differs none (pending_of (lookup own m.queues))))
              (h c))

    go :
        (inflight : Option Inflight)
        → inflight_of (lookup own m.queues) ≡ inflight
        → Orderly (view c (finish_queue own inflight (pending_of (lookup own m.queues)) m))
    go none e = h c
    go (some turn) e = last turn turn.phase e refl
