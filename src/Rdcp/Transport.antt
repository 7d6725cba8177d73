-- ===== src/Rdcp/Transport.antt =====
-- src/rdcp/xbdm_transport.h and xbdm_transport.cpp: the queue of requests on the connection to the
-- debug monitor. The locks and the logging are left out; the calls of `socket` and `connect` are
-- arguments. A request that calls `Send` again while it is completed does so behind everything
-- else that `OnBytesRead` does, so that call is a step of its own.
pub mod Queue
pub mod Refinement
pub mod Order
pub mod Answers
pub mod Sending
pub mod Faults
use xbdm_gdb_bridge.Prelude.{
  Bool, Bytes, List, Option, [], false, if◌then◌else◌, map, none, some, true, ℕ, ◌++◌, ◌==◌, ◌∷◌,
}
use xbdm_gdb_bridge.Net.Connection.{TcpConnection, close_socket, send_bytes, shift_read_buffer}
use xbdm_gdb_bridge.Rdcp.Request.{RdcpRequest, to_bytes}
use xbdm_gdb_bridge.Rdcp.Response.{
  Outcome, RdcpResponse, SizeParser, incomplete, malformed, out_of_bounds, parse, parsed,
}

pub data ConnectionState : Type 0 where
  disconnected init connected awaiting_response : ConnectionState

abbrev pub ok_connected : ℕ
ok_connected = 201

abbrev pub ok_send_binary_data : ℕ
ok_send_binary_data = 204

-- How a request ends: the calls of `Complete` and `Abandon`.
pub data Ending : Type 0 where
  completed : RdcpRequest → RdcpResponse → Ending
  abandoned : RdcpRequest → Ending

-- `endings` lists the calls, in order.
pub record XbdmTransport : Type 0 where
  pub connection : TcpConnection
  pub state : ConnectionState
  pub request_queue : List RdcpRequest
  pub endings : List Ending

-- What is undefined behaviour or an assertion: a range that is none in `Parse`, a null response
-- that is dereferenced, and a payload that is asked for where there is none.
pub data Fault : Type 0 where
  bad_range null_response no_payload : Fault

pub data Next : Type 0 where
  running : XbdmTransport → Next
  faulted : Fault → Next

-- The enumerators have the values -1, 0, 1 and 2.
unfoldable pub can_process_commands : ConnectionState → Bool
can_process_commands disconnected = false
can_process_commands init = false
can_process_commands connected = true
can_process_commands awaiting_response = true

abbrev pub is_connected : ConnectionState → Bool
is_connected disconnected = false
is_connected init = false
is_connected connected = true
is_connected awaiting_response = false

-- `TCPConnection::Send`.
abbrev pub send_raw : XbdmTransport → Bytes → XbdmTransport
send_raw t bytes = record t { connection = send_bytes t.connection bytes }

-- `Close`.
unfoldable pub close : XbdmTransport → XbdmTransport
close t = record {
  connection = close_socket t.connection;
  state = init;
  request_queue = [];
  endings = t.endings ++ map abandoned t.request_queue;
}

-- `Connect`, behind the test of `socket_`; the Booleans say that `socket` and `connect` succeed.
unfoldable pub open_socket : Bool → Bool → XbdmTransport → Bool × XbdmTransport
open_socket false connects t =
    (false, record t { connection = record t.connection { is_open = false } })
open_socket true false t =
    (false, record t { connection = record t.connection { is_open = false } })
open_socket true true t = (true, record t { connection = record t.connection { is_open = true } })

unfoldable pub connect : Bool → Bool → XbdmTransport → Bool × XbdmTransport
unfolding open_socket close
connect opens connects t = open_socket opens connects (if t.connection.is_open then close t else t)

-- `SetConnected`.
unfoldable pub set_connected : XbdmTransport → XbdmTransport
unfolding can_process_commands
set_connected t = if can_process_commands t.state then t else record t { state = connected }

-- `NotifyRemoved`.
unfoldable pub notify_removed : XbdmTransport → XbdmTransport
notify_removed t = record t {
  state = disconnected;
  connection = record t.connection { is_shutdown = true };
}

-- `WriteNextRequest` on the queue: the request at the front is written, and stays there.
unfoldable pub write_front : XbdmTransport → List RdcpRequest → XbdmTransport
unfolding to_bytes
write_front t [] = t
write_front t (request ∷ later) = send_raw t (to_bytes request)

unfoldable pub write_next_request : XbdmTransport → XbdmTransport
unfolding write_front
write_next_request t = if is_connected t.state then write_front t t.request_queue else t

-- `Send`.
unfoldable pub send : RdcpRequest → XbdmTransport → XbdmTransport
unfolding write_next_request
send request t = write_next_request (record t { request_queue = t.request_queue ++ request ∷ [] })

unfoldable pub handle_initial_connect_response : RdcpResponse → XbdmTransport → XbdmTransport
unfolding close
handle_initial_connect_response response t =
    if response.status == ok_connected then record t { state = connected } else close t

-- The case of `OK_SEND_BINARY_DATA`; the request stays in the queue.
unfoldable pub send_payload : Option Bytes → XbdmTransport → Next
send_payload none t = faulted no_payload
send_payload (some payload) t = running (send_raw t payload)

-- A response to the request at the front, which leaves the queue.
unfoldable pub finish_request :
    RdcpRequest → List RdcpRequest → RdcpResponse → XbdmTransport → XbdmTransport
unfolding write_next_request
finish_request request later response t =
    let u = write_next_request (record t { request_queue = later }) in
    record u { endings = u.endings ++ completed request response ∷ [] }

-- `OnBytesRead` behind `ShiftReadBuffer`, with the queue.
unfoldable pub on_response : List RdcpRequest → RdcpResponse → XbdmTransport → Next
unfolding handle_initial_connect_response send_payload finish_request
on_response [] response t = running (handle_initial_connect_response response t)
on_response (request ∷ later) response t =
    if response.status == ok_send_binary_data
    then send_payload request.binary_payload t
    else running (finish_request request later response t)

-- The function of the request at the front.
unfoldable pub size_parser_of : List RdcpRequest → SizeParser
size_parser_of [] = none
size_parser_of (request ∷ later) = request.binary_response_size_parser

abbrev pub shift : ℕ → XbdmTransport → XbdmTransport
shift n t = record t {
  connection = record t.connection { read_buffer = shift_read_buffer n t.connection.read_buffer };
}

-- Behind `Parse`. Where it discards bytes, the response is null, and its status is asked for.
unfoldable pub on_outcome : Outcome → XbdmTransport → Next
unfolding on_response shift_read_buffer
on_outcome incomplete t = running t
on_outcome out_of_bounds t = faulted bad_range
on_outcome (malformed n) t = faulted null_response
on_outcome (parsed n response) t = on_response t.request_queue response (shift n t)

-- `OnBytesRead`.
unfoldable pub on_bytes_read : XbdmTransport → Next
unfolding on_outcome parse size_parser_of
on_bytes_read t = on_outcome (parse (size_parser_of t.request_queue) t.connection.read_buffer) t

-- `TCPConnection::DoReceive` with the bytes that `recv` returned, and `OnBytesRead`.
unfoldable pub receive : Bytes → XbdmTransport → Next
unfolding on_bytes_read
receive bytes t = on_bytes_read (record t {
  connection = record t.connection { read_buffer = t.connection.read_buffer ++ bytes };
})
