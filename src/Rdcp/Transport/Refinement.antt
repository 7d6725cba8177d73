-- ===== src/Rdcp/Transport/Refinement.antt =====
-- The transport does what the service of Queue may do.
use xbdm_gdb_bridge.Prelude.{
  Bool, Bool-cases, Bytes, List, Option, ap, false, if◌then◌else◌, inl, inr, none, refl, some, true,
  ◌++◌, ◌==◌, ◌∷◌, ◌≡◌, [],
}
use xbdm_gdb_bridge.Rdcp.Request.{RdcpRequest}
use xbdm_gdb_bridge.Rdcp.Response.{
  Outcome, RdcpResponse, incomplete, malformed, out_of_bounds, parse, parsed,
}
use xbdm_gdb_bridge.Rdcp.Transport.{
  Next, XbdmTransport, can_process_commands, close, connect, faulted, notify_removed,
  ok_send_binary_data, on_bytes_read, on_outcome, on_response, open_socket, receive, running,
  send_payload, set_connected, shift, size_parser_of,
}
use xbdm_gdb_bridge.Rdcp.Transport.Queue.{
  Event, Refines, Serves, Service, Simulates, all_offered, close-Serves, closing, connecting,
  continue, finish_request-Serves, handle_initial_connect_response-Serves, here, next, offered,
  receiving, removing, run, send-Serves, sending, setting_connected, stay, step, view,
}

pub send_payload-Simulates :
    (payload : Option Bytes) (t : XbdmTransport) → Simulates (view t) [] (send_payload payload t)
unfolding send_payload Simulates
send_payload-Simulates none t = tt
send_payload-Simulates (some payload) t = stay (view t)

on_response-Simulates :
    (queue : List RdcpRequest) (response : RdcpResponse) (t : XbdmTransport)
    → Simulates
        (record { waiting = queue; ended = t.endings })
        []
        (on_response queue response (record t { request_queue = queue }))
unfolding on_response Simulates
on_response-Simulates [] response t =
    handle_initial_connect_response-Serves response (record t { request_queue = [] })
on_response-Simulates (request ∷ later) response t =
    elim (Bool-cases (response.status == ok_send_binary_data)) [
      | inl e ↦ rw e (
          send_payload-Simulates request.binary_payload
            (record t { request_queue = request ∷ later }))
      | inr e ↦ rw e (finish_request-Serves request later response t e)
    ]

on_outcome-Simulates :
    (outcome : Outcome) (t : XbdmTransport) → Simulates (view t) [] (on_outcome outcome t)
unfolding on_outcome Simulates
on_outcome-Simulates incomplete t = stay (view t)
on_outcome-Simulates out_of_bounds t = tt
on_outcome-Simulates (malformed n) t = tt
on_outcome-Simulates (parsed n response) t =
    on_response-Simulates t.request_queue response (shift n t)

receive-Simulates : (bytes : Bytes) (t : XbdmTransport) → Simulates (view t) [] (receive bytes t)
unfolding receive on_bytes_read
receive-Simulates bytes t =
    on_outcome-Simulates
      (parse (size_parser_of t.request_queue) (t.connection.read_buffer ++ bytes))
      (record t {
        connection = record t.connection { read_buffer = t.connection.read_buffer ++ bytes };
      })

view-open_socket :
    (opens connects : Bool) (t : XbdmTransport) → view (open_socket opens connects t).1 ≡ view t
unfolding open_socket
view-open_socket false connects t = refl
view-open_socket true false t = refl
view-open_socket true true t = refl

disconnect-Serves :
    (t : XbdmTransport) → Serves (view t) [] (view (if t.connection.is_open then close t else t))
disconnect-Serves t = elim (Bool-cases t.connection.is_open) [
  | inl e ↦ simp e (close-Serves t)
  | inr e ↦ simp e (stay (view t))
]

connect-Serves :
    (opens connects : Bool) (t : XbdmTransport)
    → Serves (view t) [] (view (connect opens connects t).1)
unfolding connect
connect-Serves opens connects t =
    let e = view-open_socket opens connects (if t.connection.is_open then close t else t) in
    rw (ap Service.waiting e, ap Service.ended e) (disconnect-Serves t)

set_connected-Serves : (t : XbdmTransport) → Serves (view t) [] (view (set_connected t))
unfolding set_connected
set_connected-Serves t = elim (Bool-cases (can_process_commands t.state)) [
  | inl e ↦ rw (set_connected, e) (stay (view t))
  | inr e ↦ rw (set_connected, e) (stay (view t))
]

step-Simulates :
    (event : Event) (t : XbdmTransport) → Simulates (view t) (offered event) (step event t)
unfolding step offered Simulates notify_removed
step-Simulates (sending request) t = send-Serves request t
step-Simulates (receiving bytes) t = receive-Simulates bytes t
step-Simulates (connecting opens connects) t = connect-Serves opens connects t
step-Simulates closing t = close-Serves t
step-Simulates setting_connected t = set_connected-Serves t
step-Simulates removing t = stay (view t)

prepend-Refines :
    (s t : Service) (first others : List RdcpRequest) (after : Next)
    → Serves s first t
    → Refines t others after
    → Refines s (first ++ others) after
unfolding Refines
prepend-Refines s t first others (running u) serves rest = next serves rest
prepend-Refines s t first others (faulted fault) serves rest = tt

continue-Refines :
    (after : Next) (s : Service) (first others : List RdcpRequest) (k : XbdmTransport → Next)
    → Simulates s first after
    → ((u : XbdmTransport) → Refines (view u) others (k u))
    → Refines s (first ++ others) (continue k after)
unfolding continue Simulates Refines
continue-Refines (running u) s first others k serves rest =
    prepend-Refines s (view u) first others (k u) serves (rest u)
continue-Refines (faulted fault) s first others k serves rest = tt

-- In any order of calls, reads and connections, until undefined behaviour if there is any, the
-- transport does only what the service may do: it takes each request in behind the others, ends the
-- first with a response that does not ask for binary data, or gives all of them up, in order.
pub run-Refines :
    (events : List Event) (t : XbdmTransport) → Refines (view t) (all_offered events) (run events t)
unfolding run all_offered Refines
run-Refines [] t = here (view t)
run-Refines (event ∷ events) t =
    continue-Refines (step event t) (view t) (offered event) (all_offered events) (run events)
      (step-Simulates event t) (λ u. run-Refines events u)
