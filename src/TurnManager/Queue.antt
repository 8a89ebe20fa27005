-- ===== src/TurnManager/Queue.antt =====
-- What the turn manager keeps for one conversation: app/src/main/turn-manager.ts.
use sandi.Prelude.{
  ◌+◌, ◌≡◌, refl, sym, ap, subst, ◌∙◌, String, ◌==◌, Bool, true, false, Option, none, some, List,
  [], ◌∷◌, ◌++◌, map, count, count-append, is_some, if◌then◌else◌, Taken, Taken-count, arith,
}
use sandi.Prelude.Dict.{lookup}
use sandi.TurnManager.{
  QueuedTurn, Inflight, Phase, sending, settling, TurnManager, TurnSettledEvent, inflight_of,
  pending_of,
}
use mathlib.Core.List.{Sublistᴰ, append_assoc}
use sandi.Prelude.Sublists.{Sublist-snoc, Sublist-drop, append-nil, map-snoc}

-- The part of a log, and of the events, that is of one conversation.
unfoldable pub turns_of : String → List (String × QueuedTurn) → List QueuedTurn
turns_of conversation [] = []
turns_of conversation (entry ∷ more) =
    let later = turns_of conversation more in
    if entry.0 == conversation then entry.1 ∷ later else later

unfoldable pub settled_of : String → List TurnSettledEvent → List String
settled_of conversation [] = []
settled_of conversation (event ∷ more) =
    let later = settled_of conversation more in
    if event.conversation_id == conversation then event.turn_id ∷ later else later

pub turns_of-append :
    (conversation other : String) (turn : QueuedTurn) (log : List (String × QueuedTurn))
    → turns_of conversation (log ++ (other, turn) ∷ []) ≡ (
        if other == conversation
        then turns_of conversation log ++ turn ∷ []
        else turns_of conversation log)
unfolding turns_of
turns_of-append conversation other turn [] = ground arith
turns_of-append conversation other turn (entry ∷ log) =
    ground (arith, turns_of-append conversation other turn log)

pub settled_of-append :
    (conversation : String) (event : TurnSettledEvent) (log : List TurnSettledEvent)
    → settled_of conversation (log ++ event ∷ []) ≡ (
        if event.conversation_id == conversation
        then settled_of conversation log ++ event.turn_id ∷ []
        else settled_of conversation log)
unfolding settled_of
settled_of-append conversation event [] = ground arith
settled_of-append conversation event (other ∷ log) =
    ground (arith, settled_of-append conversation event log)

pub record View : Type 0 where
  pub present : Bool
  pub inflight : Option Inflight
  pub waiting : List QueuedTurn
  pub submitted : List QueuedTurn
  pub sent : List QueuedTurn
  pub cancelled : List QueuedTurn
  pub settled : List String

abbrev pub view : String → TurnManager → View
view c m = record {
  present = is_some (lookup c m.queues);
  inflight = inflight_of (lookup c m.queues);
  waiting = pending_of (lookup c m.queues);
  submitted = turns_of c m.submitted;
  sent = turns_of c m.sent;
  cancelled = turns_of c m.cancelled;
  settled = settled_of c m.settled;
}

-- The turn that waits for its answer.
abbrev pub unanswered : Phase → String → List String
unanswered sending turn_id = turn_id ∷ []
unanswered settling turn_id = []

abbrev pub sending_of : Option Inflight → List String
sending_of none = []
sending_of (some turn) = unanswered turn.phase turn.turn_id

abbrev pub id_of : QueuedTurn → String
id_of turn = turn.turn_id

-- The turns were sent in the order in which they were submitted, and the others wait in this order; each
-- one is sent, waits or was cancelled, as often as it was submitted, which is said by counts under every test;
-- each one that was sent is settled, in this order, but for the one that waits for its answer.
pub record Ordered (v : View) : Type 0 where
  pub in_order : Sublistᴰ (v.sent ++ v.waiting) v.submitted
  pub conserved :
      (fits : QueuedTurn → Bool)
      → count fits v.submitted ≡ count fits v.sent + count fits v.waiting + count fits v.cancelled
  pub settled_in_order : map id_of v.sent ≡ v.settled ++ sending_of v.inflight

-- A queue that is there has a turn in flight, and no turn waits in one that is not.
abbrev pub Behind : Bool → Option Inflight → List QueuedTurn → Type 0
Behind present none waiting = (present ≡ false) × (waiting ≡ [])
Behind present (some turn) waiting = present ≡ true

abbrev pub Orderly : View → Type 0
Orderly v = Ordered v × Behind v.present v.inflight v.waiting

-- What the operations do to a view.
abbrev pub put_view : Option Inflight → List QueuedTurn → View → View
put_view inflight waiting v = record v { present = true; inflight = inflight; waiting = waiting }

abbrev pub clear_view : View → View
clear_view v = record v { present = false; inflight = none; waiting = [] }

abbrev pub start_view : List QueuedTurn → View → View
start_view [] v = clear_view v
start_view (next ∷ rest) v =
    record (put_view (some (record { turn_id = next.turn_id; aborted = false; phase = sending }))
      rest v) { sent = v.sent ++ next ∷ [] }

abbrev pub drain_view : Option Inflight → List QueuedTurn → View → View
drain_view none waiting v = start_view waiting v
drain_view (some turn) waiting v = v

pub drain-Orderly :
    (v : View) → Ordered v → v.present ≡ true → Orderly (drain_view v.inflight v.waiting v)
drain-Orderly v h here = go v.inflight v.waiting refl refl
  where
    go :
        (inflight : Option Inflight) (waiting : List QueuedTurn)
        → v.inflight ≡ inflight
        → v.waiting ≡ waiting
        → Orderly (drain_view inflight waiting v)
    go (some turn) waiting e f = (h, subst (λ o. Behind v.present o v.waiting) (sym e) here)
    go none [] e f = (
      record {
        in_order = subst (λ w. Sublistᴰ (v.sent ++ w) v.submitted) f h.in_order;
        conserved = λ fits. ground (arith, h.conserved fits, f);
        settled_in_order = ground (arith, h.settled_in_order, e);
      },
      (refl, refl),
    )
    go none (next ∷ rest) e f = (
      record {
        in_order =
            subst (λ xs. Sublistᴰ xs v.submitted) (sym (append_assoc v.sent (next ∷ []) rest))
              (subst (λ w. Sublistᴰ (v.sent ++ w) v.submitted) f h.in_order);
        conserved =
            λ fits. ground (arith, h.conserved fits, f, count-append fits v.sent (next ∷ []));
        settled_in_order =
            map-snoc id_of v.sent next
            ∙ ap (λ ids. ids ++ next.turn_id ∷ [])
                (h.settled_in_order ∙ ap (λ o. v.settled ++ sending_of o) e ∙ append-nil v.settled);
      },
      refl,
    )

-- A turn that is submitted.
pub push-Ordered :
    (v : View) (turn : QueuedTurn)
    → Ordered v
    → Ordered (record (put_view v.inflight (v.waiting ++ turn ∷ []) v) {
      submitted = v.submitted ++ turn ∷ [];
    })
push-Ordered v turn h = record {
  in_order =
      subst (λ xs. Sublistᴰ xs (v.submitted ++ turn ∷ []))
        (append_assoc v.sent v.waiting (turn ∷ []))
        (Sublist-snoc (v.sent ++ v.waiting) v.submitted turn h.in_order);
  conserved = λ fits. ground (
    arith,
    h.conserved fits,
    count-append fits v.submitted (turn ∷ []),
    count-append fits v.waiting (turn ∷ []),
  );
  settled_in_order = h.settled_in_order;
}

-- The turn in flight is answered.
pub settle-Ordered :
    (v : View) (turn : Inflight)
    → v.inflight ≡ some turn
    → turn.phase ≡ sending
    → Ordered v
    → Ordered (record (put_view (some (record turn { phase = settling })) v.waiting v) {
      settled = v.settled ++ turn.turn_id ∷ [];
    })
settle-Ordered v turn e at h = record {
  in_order = h.in_order;
  conserved = h.conserved;
  settled_in_order =
      h.settled_in_order
      ∙ ap (λ o. v.settled ++ sending_of o) e
      ∙ ap (λ p. v.settled ++ unanswered p turn.turn_id) at
      ∙ sym (append-nil (v.settled ++ turn.turn_id ∷ []));
}

-- A turn in flight that waits for no answer changes, or leaves.
pub inflight-Ordered :
    (v : View) (inflight : Option Inflight)
    → sending_of v.inflight ≡ sending_of inflight
    → Ordered v
    → Ordered (put_view inflight v.waiting v)
inflight-Ordered v inflight e h = record {
  in_order = h.in_order;
  conserved = h.conserved;
  settled_in_order = h.settled_in_order ∙ ap (λ ids. v.settled ++ ids) e;
}

-- A waiting turn is cancelled.
pub cancel-Ordered :
    (v : View) (turn : QueuedTurn) (rest : List QueuedTurn)
    → Taken v.waiting turn rest
    → Ordered v
    → Ordered (record (put_view v.inflight rest v) { cancelled = v.cancelled ++ turn ∷ [] })
cancel-Ordered v turn rest t h = record {
  in_order =
      subst (λ w. Sublistᴰ (v.sent ++ w) v.submitted) (sym t.remains)
        (subst (λ xs. Sublistᴰ xs v.submitted) (append_assoc v.sent t.front t.back)
          (Sublist-drop (v.sent ++ t.front) turn t.back (v.sent ++ v.waiting) v.submitted h.in_order
            (ap (λ w. v.sent ++ w) t.whole ∙ sym (append_assoc v.sent t.front (turn ∷ t.back)))));
  conserved = λ fits.
      ground
        (arith, h.conserved fits, Taken-count fits t, count-append fits v.cancelled (turn ∷ []));
  settled_in_order = h.settled_in_order;
}
