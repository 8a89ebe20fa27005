-- ===== src/Broker/Writes.antt =====
-- What a request writes to a desktop's link by itself: src/surfaces/api/devices/tool-broker.ts.
use sandi.Prelude.{
  eq_iff, Bool, Option, String, false, if_ind, inl, inr, none, not, refl, some, true, ◌&&◌, ◌==◌,
  ◌≡◌, ◌⊎◌,
}
use sandi.Prelude.Text.{before_query}
use sandi.Devices.Link.{WriteResult, DeviceRegistry}
use sandi.Broker.{TurnBinding, ToolBroker}
use sandi.Broker.Route.{
  ReadBody, unreadable, body_text, Request, BrokerCall, Relayed, FileRequest, Handled, authorize,
  route, with_body, with_binding, known_path, handle,
}
use sandi.Devices.Calls.{emit}
use sandi.Broker.Route.{relay, relay_reply, names_turn}

-- A message names the turn of the lease, where the lease has one.
abbrev pub NamesTurn : Option String → String → Type 0
NamesTurn none turn_id = Unit {0}
NamesTurn (some leased) turn_id = turn_id ≡ leased

-- The message that the request's body holds, on the path of its kind.
abbrev pub Carries :
    (parse_chunk parse_attachment : String → Option Relayed) → String → ReadBody → Relayed → Type 0
Carries parse_chunk parse_attachment path (unreadable status error) message = ⊥
Carries parse_chunk parse_attachment path (body_text text) message =
    ((path ≡ "/stream") × (parse_chunk text ≡ some message))
    ⊎ ((path ≡ "/attachment") × (parse_attachment text ≡ some message))

-- Nothing is written, or such a message of the request, on the link of the leased key.
abbrev pub Relays :
    (Relayed → Type 0) → WriteResult → TurnBinding → DeviceRegistry → DeviceRegistry → Type 0
Relays IsCarried w binding r after =
    (after ≡ r)
    ⊎ ((binding.aborted ≡ false)
        × (message : Relayed) × IsCarried message
        × NamesTurn binding.turn_id message.turn_id
        × (after ≡ (emit w binding.key message.payload r).0))

abbrev pub Writes :
    (Relayed → Type 0) → WriteResult → Option TurnBinding → DeviceRegistry → DeviceRegistry → Type 0
Writes IsCarried w none r after = after ≡ r
Writes IsCarried w (some binding) r after = Relays IsCarried w binding r after

Writes-none :
    (IsCarried : Relayed → Type 0) (w : WriteResult) (o : Option TurnBinding) (r : DeviceRegistry)
    → Writes IsCarried w o r r
Writes-none IsCarried w none r = refl
Writes-none IsCarried w (some binding) r = inl refl

names_turn-NamesTurn :
    (leased : Option String) (turn_id : String)
    → names_turn leased turn_id ≡ true
    → NamesTurn leased turn_id
names_turn-NamesTurn none turn_id e = tt
names_turn-NamesTurn (some leased) turn_id e = (eq_iff turn_id leased).0 e

relay_reply-state : (result : DeviceRegistry × Bool) → (relay_reply result).0 ≡ result.0
relay_reply-state (after, true) = refl
relay_reply-state (after, false) = refl

module _ (w : WriteResult) (r : DeviceRegistry) where
  relay-Relays :
      (IsCarried : Relayed → Type 0) (binding : TurnBinding) (invalid : String) (o : Option Relayed)
      → binding.aborted ≡ false
      → ((message : Relayed) → o ≡ some message → IsCarried message)
      → Relays IsCarried w binding r (relay w binding invalid o r).0
  unfolding relay
  relay-Relays IsCarried binding invalid none live carried = inl refl
  relay-Relays IsCarried binding invalid (some message) live carried =
      if_ind (λ (result : DeviceRegistry × Handled). Relays IsCarried w binding r result.0)
        (names_turn binding.turn_id message.turn_id)
        (λ named. inr (
          live,
          message,
          carried message refl,
          names_turn-NamesTurn binding.turn_id message.turn_id named,
          relay_reply-state (emit w binding.key message.payload r),
        ))
        (λ _. inl refl)

  module _ (to_lower : String → String) (parse_call : String → Option BrokerCall)
      (parse_chunk parse_attachment : String → Option Relayed)
      (parse_file : String → Option FileRequest) where
    abbrev Body : String → ReadBody → Relayed → Type 0
    Body path body = Carries parse_chunk parse_attachment path body

    route-Relays :
        (path text : String) (binding : TurnBinding)
        → binding.aborted ≡ false
        → Relays
            (Body path (body_text text))
            w
            binding
            r
            (route to_lower parse_call parse_chunk parse_attachment parse_file w path text binding
              r).0
    unfolding route
    route-Relays path text binding live =
        if_ind
          (λ (result : DeviceRegistry × Handled).
            Relays (Body path (body_text text)) w binding r result.0)
          (path == "/stream")
          (λ here.
            relay-Relays (Body path (body_text text)) binding "invalid_chunk" (parse_chunk text)
              live (λ message parsed. inl ((eq_iff path "/stream").0 here, parsed)))
          (λ _.
            if_ind
              (λ (result : DeviceRegistry × Handled).
                Relays (Body path (body_text text)) w binding r result.0)
              (path == "/attachment")
              (λ here.
                relay-Relays (Body path (body_text text)) binding "invalid_attachment"
                  (parse_attachment text) live
                  (λ message parsed. inr ((eq_iff path "/attachment").0 here, parsed)))
              (λ _.
                if_ind
                  (λ (result : DeviceRegistry × Handled).
                    Relays (Body path (body_text text)) w binding r result.0)
                  (path == "/discord-file") (λ _. inl refl) (λ _. inl refl)))

    with_body-Relays :
        (body : ReadBody) (path : String) (aborted : Bool) (binding : TurnBinding)
        → binding.aborted ≡ false
        → Relays
            (Body path body)
            w
            binding
            r
            (with_body to_lower parse_call parse_chunk parse_attachment parse_file w body path
              aborted binding r).0
    unfolding with_body
    with_body-Relays (unreadable status error) path aborted binding live = inl refl
    with_body-Relays (body_text text) path aborted binding live =
        if_ind
          (λ (result : DeviceRegistry × Handled).
            Relays (Body path (body_text text)) w binding r result.0)
          aborted (λ _. inl refl) (λ _. route-Relays path text binding live)

    with_binding-Writes :
        (o : Option TurnBinding) (path : String) (q : Request)
        → Writes
            (Body path q.body)
            w
            o
            r
            (with_binding to_lower parse_call parse_chunk parse_attachment parse_file w o path q
              r).0
    unfolding with_binding
    with_binding-Writes none path q = refl
    with_binding-Writes (some binding) path q =
        if_ind
          (λ (result : DeviceRegistry × Handled). Relays (Body path q.body) w binding r result.0)
          binding.aborted (λ _. inl refl)
          (λ live.
            if_ind
              (λ (result : DeviceRegistry × Handled).
                Relays (Body path q.body) w binding r result.0)
              ((path == "/discord-file") && not binding.delivers_file) (λ _. inl refl)
              (λ _. with_body-Relays q.body path q.aborted binding live))

    pub handle-Writes :
        (q : Request) (broker : ToolBroker)
        → Writes
            (Body (before_query q.url) q.body)
            w
            (authorize q.token broker)
            r
            (handle to_lower parse_call parse_chunk parse_attachment parse_file w q broker r).0
    unfolding handle
    handle-Writes q broker =
        if_ind
          (λ (result : DeviceRegistry × Handled).
            Writes (Body (before_query q.url) q.body) w (authorize q.token broker) r result.0)
          ((q.method == "POST") && known_path (before_query q.url))
          (λ _. with_binding-Writes (authorize q.token broker) (before_query q.url) q)
          (λ _. Writes-none (Body (before_query q.url) q.body) w (authorize q.token broker) r)
