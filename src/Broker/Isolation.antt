-- ===== src/Broker/Isolation.antt =====
-- A turn's requests reach desktops of its identity alone: src/surfaces/api/devices/tool-broker.ts over the
-- histories of src/surfaces/api/devices/device-registry.ts.
use sandi.Prelude.{
  ◌≡◌, String, ◌==◌, Bool, false, not, ◌&&◌, Option, none, some, List, arith, if_ind,
}
use sandi.Prelude.Text.{before_query}
use sandi.Devices.Link.{WriteResult, DeviceRegistry, new_registry}
use sandi.Devices.Consistent.{Consistent}
use sandi.Devices.Linked.{run-Consistent}
use sandi.Devices.History.{Event, run}
use sandi.Broker.{TurnBinding, ToolBroker}
use sandi.Broker.Route.{
  ReadBody, unreadable, body_text, Request, BrokerCall, Relayed, FileRequest, Handled, error_reply,
  authorize, route, with_body, with_binding, known_path, handle,
}
use sandi.Broker.Served.{
  Served, ServedFor, Served-replied, handle_call-ServedFor, handle_file-ServedFor, relay-ServedFor,
}
use sandi.Broker.Writes.{Carries, Writes, handle-Writes}

module _ (r : DeviceRegistry) (h : Consistent r) where
  module _ (to_lower : String → String) (parse_call : String → Option BrokerCall)
      (parse_chunk parse_attachment : String → Option Relayed)
      (parse_file : String → Option FileRequest) (w : WriteResult) where
    route-ServedFor :
        (path text : String) (binding : TurnBinding)
        → binding.aborted ≡ false
        → (path == "/discord-file") && not binding.delivers_file ≡ false
        → ServedFor binding r.states
            (route to_lower parse_call parse_chunk parse_attachment parse_file w path text binding
              r).1
    unfolding route
    route-ServedFor path text binding live delivers =
        if_ind (λ (result : DeviceRegistry × Handled). ServedFor binding r.states result.1)
          (path == "/stream")
          (λ _. relay-ServedFor r h binding live w "invalid_chunk" (parse_chunk text))
          (λ _.
            if_ind (λ (result : DeviceRegistry × Handled). ServedFor binding r.states result.1)
              (path == "/attachment")
              (λ _. relay-ServedFor r h binding live w "invalid_attachment" (parse_attachment text))
              (λ _.
                if_ind (λ (result : DeviceRegistry × Handled). ServedFor binding r.states result.1)
                  (path == "/discord-file")
                  (λ file.
                    handle_file-ServedFor r h binding live to_lower (parse_file text)
                      (ground (arith, file, delivers)))
                  (λ _. handle_call-ServedFor r h binding live to_lower (parse_call text))))

    with_body-ServedFor :
        (body : ReadBody) (path : String) (aborted : Bool) (binding : TurnBinding)
        → binding.aborted ≡ false
        → (path == "/discord-file") && not binding.delivers_file ≡ false
        → ServedFor binding r.states
            (with_body to_lower parse_call parse_chunk parse_attachment parse_file w body path
              aborted binding r).1
    unfolding with_body
    with_body-ServedFor (unreadable status error) path aborted binding live delivers = tt
    with_body-ServedFor (body_text text) path aborted binding live delivers =
        if_ind (λ (result : DeviceRegistry × Handled). ServedFor binding r.states result.1) aborted
          (λ _. tt) (λ _. route-ServedFor path text binding live delivers)

    with_binding-Served :
        (o : Option TurnBinding) (path : String) (q : Request)
        → Served o r.states
            (with_binding to_lower parse_call parse_chunk parse_attachment parse_file w o path q
              r).1
    unfolding with_binding
    with_binding-Served none path q = tt
    with_binding-Served (some binding) path q =
        if_ind (λ (result : DeviceRegistry × Handled). ServedFor binding r.states result.1)
          binding.aborted (λ _. tt)
          (λ live.
            if_ind (λ (result : DeviceRegistry × Handled). ServedFor binding r.states result.1)
              ((path == "/discord-file") && not binding.delivers_file) (λ _. tt)
              (λ delivers. with_body-ServedFor q.body path q.aborted binding live delivers))

    handle-Served_at :
        (q : Request) (broker : ToolBroker)
        → Served
            (authorize q.token broker)
            r.states
            (handle to_lower parse_call parse_chunk parse_attachment parse_file w q broker r).1
    unfolding handle
    handle-Served_at q broker =
        if_ind
          (λ (result : DeviceRegistry × Handled).
            Served (authorize q.token broker) r.states result.1)
          ((q.method == "POST") && known_path (before_query q.url))
          (λ _. with_binding-Served (authorize q.token broker) (before_query q.url) q)
          (λ _. Served-replied (authorize q.token broker) r.states (error_reply 404 "not_found"))

-- After any history of the registry and with any leased turns, a request to the broker sends a tool call or
-- a file transfer to a desktop only where its token names a turn that is not aborted. The link that it
-- reaches is open, and has the key that the turn was leased for or belongs to the turn's identity; a file
-- transfer needs a turn that delivers files. By itself a request writes at most one relayed message, the one
-- that its own body holds on the path for chunks or the one for attachments, on the link of the key that its
-- turn was leased for, and this message names the leased turn if the lease has one.
-- A request without a turn of its token is only replied to and leaves the registry as it is.
pub handle-Served :
    (to_lower : String → String) (parse_call : String → Option BrokerCall)
    (parse_chunk parse_attachment : String → Option Relayed)
    (parse_file : String → Option FileRequest) (w : WriteResult) (events : List Event) (q : Request)
    (broker : ToolBroker)
    → let r = run events new_registry in
      let (after, handled) =
        handle to_lower parse_call parse_chunk parse_attachment parse_file w q broker r in
      Served (authorize q.token broker) r.states handled
      × Writes
          (Carries parse_chunk parse_attachment (before_query q.url) q.body)
          w
          (authorize q.token broker)
          r
          after
handle-Served to_lower parse_call parse_chunk parse_attachment parse_file w events q broker = (
  handle-Served_at (run events new_registry) (run-Consistent events) to_lower parse_call parse_chunk
      parse_attachment parse_file w q broker,
  handle-Writes w (run events new_registry) to_lower parse_call parse_chunk parse_attachment
      parse_file q broker,
)
