-- ===== src/Rdcp/Transport/Queue.antt =====
-- The queue of `XBDMTransport` (src/rdcp/xbdm_transport.cpp) as the service that it gives to those
-- who send requests: in any order of calls and reads, requests end in the order in which they came.
use xbdm_gdb_bridge.Prelude.{
  Bool, Bool-cases, Bytes, List, [], ap, false, inl, inr, map, refl, ◌++◌, ◌==◌, ◌≡◌, ◌∷◌,
}
use xbdm_gdb_bridge.Rdcp.Request.{RdcpRequest}
use xbdm_gdb_bridge.Rdcp.Response.{RdcpResponse}
use xbdm_gdb_bridge.Rdcp.Transport.{
  Ending, Next, XbdmTransport, abandoned, close, completed, connect, faulted, finish_request,
  handle_initial_connect_response, is_connected, notify_removed, ok_connected, ok_send_binary_data,
  receive, running, send, set_connected, write_front, write_next_request,
}

-- What happens to a transport.
pub data Event : Type 0 where
  sending : RdcpRequest → Event
  receiving : Bytes → Event
  connecting : Bool → Bool → Event
  closing setting_connected removing : Event

unfoldable pub step : Event → XbdmTransport → Next
unfolding send receive connect close set_connected notify_removed
step (sending request) t = running (send request t)
step (receiving bytes) t = receive bytes t
step (connecting opens connects) t = running (connect opens connects t).1
step closing t = running (close t)
step setting_connected t = running (set_connected t)
step removing t = running (notify_removed t)

unfoldable pub continue : (XbdmTransport → Next) → Next → Next
continue k (running t) = k t
continue k (faulted fault) = faulted fault

unfoldable pub run : List Event → XbdmTransport → Next
unfolding step continue
run [] t = running t
run (event ∷ events) t = continue (run events) (step event t)

-- The requests that a step, or a run, is given.
unfoldable pub offered : Event → List RdcpRequest
offered (sending request) = request ∷ []
offered (receiving bytes) = []
offered (connecting opens connects) = []
offered closing = []
offered setting_connected = []
offered removing = []

unfoldable pub all_offered : List Event → List RdcpRequest
unfolding offered
all_offered [] = []
all_offered (event ∷ events) = offered event ++ all_offered events

-- The service: who waits, and how the others ended.
pub record Service : Type 0 where
  pub waiting : List RdcpRequest
  pub ended : List Ending

-- What the service may do, with the requests that it takes in. A response that asks for binary
-- data answers no request.
pub data Serves : Service → List RdcpRequest → Service → Type 0 where
  stay : (s : Service) → Serves s [] s
  accept :
      (s : Service) (request : RdcpRequest)
      → Serves s (request ∷ []) (record s { waiting = s.waiting ++ request ∷ [] })
  answer :
      (request : RdcpRequest) (later : List RdcpRequest) (ended : List Ending)
      (response : RdcpResponse)
      → (response.status == ok_send_binary_data) ≡ false
      → Serves
          (record { waiting = request ∷ later; ended = ended })
          []
          (record { waiting = later; ended = ended ++ completed request response ∷ [] })
  give_up :
      (s : Service)
      → Serves s [] (record { waiting = []; ended = s.ended ++ map abandoned s.waiting })

pub data Reach : Service → List RdcpRequest → Service → Type 0 where
  here : (s : Service) → Reach s [] s
  next :
      {s t u : Service} {first others : List RdcpRequest}
      → Serves s first t
      → Reach t others u
      → Reach s (first ++ others) u

-- The transport as the service.
abbrev pub view : XbdmTransport → Service
view t = record { waiting = t.request_queue; ended = t.endings }

-- The step, or the run, does what the service may do, unless it ends in undefined behaviour.
unfoldable pub Simulates : Service → List RdcpRequest → Next → Type 0
Simulates s requests (running u) = Serves s requests (view u)
Simulates s requests (faulted fault) = Unit {0}

unfoldable pub Refines : Service → List RdcpRequest → Next → Type 0
Refines s requests (running u) = Reach s requests (view u)
Refines s requests (faulted fault) = Unit {0}

view-write_front :
    (t : XbdmTransport) (queue : List RdcpRequest) → view (write_front t queue) ≡ view t
unfolding write_front
view-write_front t [] = refl
view-write_front t (request ∷ later) = refl

view-write_next_request : (t : XbdmTransport) → view (write_next_request t) ≡ view t
unfolding write_next_request
view-write_next_request t = elim (Bool-cases (is_connected t.state)) [
  | inl e ↦ rw (write_next_request, e) (view-write_front t t.request_queue)
  | inr e ↦ rw (write_next_request, e) refl
]

pub send-Serves :
    (request : RdcpRequest) (t : XbdmTransport)
    → Serves (view t) (request ∷ []) (view (send request t))
unfolding send
send-Serves request t =
    rw (view-write_next_request (record t { request_queue = t.request_queue ++ request ∷ [] }))
      (accept (view t) request)

pub finish_request-Serves :
    (request : RdcpRequest) (later : List RdcpRequest) (response : RdcpResponse) (t : XbdmTransport)
    → (response.status == ok_send_binary_data) ≡ false
    → Serves
        (record { waiting = request ∷ later; ended = t.endings })
        []
        (view (finish_request request later response t))
unfolding finish_request
finish_request-Serves request later response t h =
    let e = view-write_next_request (record t { request_queue = later }) in
    rw (ap Service.waiting e, ap Service.ended e) (answer request later t.endings response h)

pub close-Serves : (t : XbdmTransport) → Serves (view t) [] (view (close t))
unfolding close
close-Serves t = give_up (view t)

pub handle_initial_connect_response-Serves :
    (response : RdcpResponse) (t : XbdmTransport)
    → Serves (view t) [] (view (handle_initial_connect_response response t))
unfolding handle_initial_connect_response
handle_initial_connect_response-Serves response t =
    elim (Bool-cases (response.status == ok_connected)) [
      | inl e ↦ rw (handle_initial_connect_response, e) (stay (view t))
      | inr e ↦ rw (handle_initial_connect_response, e) (close-Serves t)
    ]
