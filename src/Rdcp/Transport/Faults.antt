-- ===== src/Rdcp/Transport/Faults.antt =====
-- What `XBDMTransport` (src/rdcp/xbdm_transport.cpp) does with lines that answer no request.
use xbdm_gdb_bridge.Prelude.{
  Bool, Bool-cases, Bytes, List, ap, append-nil, arith, false, get_elem?, inl, inr, length,
  length-append, ltb, refl, true, ℕ, ◌++◌, ◌+◌, ◌==◌, ◌∙◌, ◌∷◌, ◌≡◌, ◌≤◌, [],
}
use xbdm_gdb_bridge.Net.Connection.{TcpConnection, close_socket}
use xbdm_gdb_bridge.Cstd.Laws.{Lacks}
use xbdm_gdb_bridge.Rdcp.Request.{RdcpRequest}
use xbdm_gdb_bridge.Rdcp.Response.{RdcpResponse, SizeParser, is_byte, malformed, parse, parse_line}
use xbdm_gdb_bridge.Rdcp.Response.Framing.{search_for-Lacks}
use xbdm_gdb_bridge.Rdcp.Transport.{
  ConnectionState, Ending, XbdmTransport, close, connected, faulted,
  handle_initial_connect_response, init, null_response, ok_connected, on_outcome, on_response,
  receive, running, size_parser_of,
}
use xbdm_gdb_bridge.Rdcp.Transport.Answers.{
  IsLine, Reply, filled, online, receive-outcome, receive_line, reply_text, response_of,
}

parse-malformed :
    (f : SizeParser) (line rest : Bytes)
    → Lacks 13 line
    → 2 ≤ length line
    → is_byte (get_elem? (line ++ 13 ∷ 10 ∷ rest) 3) b'-' ≡ false
    → parse f (line ++ 13 ∷ 10 ∷ rest) ≡ malformed (length line + 2)
unfolding parse parse_line
parse-malformed f line rest whole long no_dash =
    let enough : ltb (length (line ++ 13 ∷ 10 ∷ rest)) 4 ≡ false =
      ground (arith, length-append line (13 ∷ 10 ∷ rest), long) in
    let enough' : ltb (length line + 2) 4 ≡ false = ground (arith, long) in
    rw (enough, search_for-Lacks line rest whole) (rw (enough', no_dash) refl)

on_outcome_malformed :
    (n : ℕ) (t : XbdmTransport) → on_outcome (malformed n) t ≡ faulted null_response
unfolding on_outcome
on_outcome_malformed n t = refl

-- A whole line without a dash behind its first three bytes is discarded by Parse, which leaves no
-- response; its status is read nevertheless, whoever waits, on a connection with an empty read
-- buffer.
pub receive-malformed :
    (line rest : Bytes) (c : TcpConnection) (written : Bytes) (queue : List RdcpRequest)
    (endings : List Ending)
    → Lacks 13 line
    → 2 ≤ length line
    → is_byte (get_elem? (line ++ 13 ∷ 10 ∷ rest) 3) b'-' ≡ false
    → receive (line ++ 13 ∷ 10 ∷ rest) (online c [] written queue endings) ≡ faulted null_response
receive-malformed line rest c written queue endings whole long no_dash =
    receive-outcome (online c [] written queue endings) (line ++ 13 ∷ 10 ∷ rest)
      (malformed (length line + 2))
      (parse-malformed (size_parser_of queue) line rest whole long no_dash)
    ∙ on_outcome_malformed (length line + 2)
        (filled (line ++ 13 ∷ 10 ∷ rest) (online c [] written queue endings))

-- A transport without requests and with an empty read buffer.
abbrev pub quiet : TcpConnection → ConnectionState → List Ending → XbdmTransport
quiet c state endings = record {
  connection = record c { read_buffer = [] };
  state = state;
  request_queue = [];
  endings = endings;
}

-- Connected, or closed.
abbrev pub greeted : Bool → TcpConnection → List Ending → XbdmTransport
greeted true c endings = quiet c connected endings
greeted false c endings = quiet (close_socket c) init endings

on_response-quiet :
    (c : TcpConnection) (endings : List Ending) (state : ConnectionState) (response : RdcpResponse)
    → on_response [] response (quiet c state endings)
      ≡ running (greeted (response.status == ok_connected) c endings)
unfolding on_response handle_initial_connect_response close
on_response-quiet c endings state response = elim (Bool-cases (response.status == ok_connected)) [
  | inl e ↦ rw (on_response, handle_initial_connect_response, e) refl
  | inr e ↦
      rw (on_response, handle_initial_connect_response, e)
        (ap (λ xs. running (quiet (close_socket c) init xs)) (append-nil endings))
]

-- The first line that a transport without requests gets, in any state, where the line announces no
-- body: with the status OK_CONNECTED it is connected, with any other it is closed, and the line is
-- taken off the read buffer.
pub receive-greeting :
    (c : TcpConnection) (endings : List Ending) (state : ConnectionState) (reply : Reply)
    → IsLine reply
    → receive (reply_text reply) (quiet c state endings)
      ≡ running (greeted (reply.status == ok_connected) c endings)
receive-greeting c endings state reply line =
    receive_line (quiet c state endings) reply line
    ∙ on_response-quiet c endings state (response_of reply)
