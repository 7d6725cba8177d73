-- ===== src/Rdcp/Transport/Answers.antt =====
-- The replies that `XBDMTransport` (src/rdcp/xbdm_transport.cpp) receives, as whole lines.
use xbdm_gdb_bridge.Prelude.{
  Bytes, List, ap, append-nil, append_assoc, ap₂, arith, false, length, length-append, refl, same,
  sym, ℕ, ◌++◌, ◌+◌, ◌<◌, ◌==◌, ◌∙◌, ◌∷◌, ◌≡◌, ◌≢◌, [],
}
use xbdm_gdb_bridge.Net.Connection.{TcpConnection, shift_read_buffer}
use xbdm_gdb_bridge.Net.Connection.Buffers.{shift_read_buffer-append}
use xbdm_gdb_bridge.Cstd.Laws.{Lacks}
use xbdm_gdb_bridge.Rdcp.Request.{RdcpRequest, to_bytes}
use xbdm_gdb_bridge.Rdcp.Response.{
  Outcome, RdcpResponse, SizeParser, ok_binary_response, ok_multiline_response, parse, parsed,
  terminator,
}
use xbdm_gdb_bridge.Rdcp.Response.Framing.{first_line, length-first_line, parse-simple_reply}
use xbdm_gdb_bridge.Rdcp.Transport.{
  Ending, XbdmTransport, completed, connected, finish_request, ok_send_binary_data, on_bytes_read,
  on_outcome, on_response, receive, running, size_parser_of, write_front, write_next_request,
}
use xbdm_gdb_bridge.Rdcp.Transport.Queue.{Event, continue, receiving, run, step}

-- A reply of one line.
pub record Reply : Type 0 where
  pub status : ℕ
  pub message : Bytes

-- A status that announces no body, with a message that has no carriage return.
pub record IsLine (reply : Reply) : Type 0 where
  pub three_digits : reply.status < 1000
  pub no_lines : reply.status ≢ ok_multiline_response
  pub no_binary : reply.status ≢ ok_binary_response
  pub one_line : Lacks 13 reply.message

-- Such a reply that does not ask for binary data either.
pub record IsSimple (reply : Reply) : Type 0 where
  pub line : IsLine reply
  pub no_request : reply.status ≢ ok_send_binary_data

abbrev pub AllSimple : List Reply → Type 0
AllSimple [] = Unit {0}
AllSimple (reply ∷ replies) = IsSimple reply × AllSimple replies

-- The bytes of a reply, and the response that `Parse` makes of them.
abbrev pub reply_text : Reply → Bytes
reply_text reply = first_line reply.status reply.message ++ terminator

abbrev pub response_of : Reply → RdcpResponse
response_of reply = record {
  status = reply.status;
  message = reply.message;
  payload = reply.message;
}

-- A connected transport: what it has not read yet, what it has written, who waits, and how the
-- others ended.
abbrev pub online : TcpConnection → Bytes → Bytes → List RdcpRequest → List Ending → XbdmTransport
online c unread written queue endings = record {
  connection = record c { read_buffer = unread; write_buffer = written };
  state = connected;
  request_queue = queue;
  endings = endings;
}

-- The text of the request at the front, if there is one.
abbrev pub front_text : List RdcpRequest → Bytes
front_text [] = []
front_text (request ∷ later) = to_bytes request

pub write_next_request-online :
    (c : TcpConnection) (unread written : Bytes) (queue : List RdcpRequest) (endings : List Ending)
    → write_next_request (online c unread written queue endings)
      ≡ online c unread (written ++ front_text queue) queue endings
unfolding write_next_request write_front
write_next_request-online c unread written [] endings =
    ap (λ xs. online c unread xs [] endings) (sym (append-nil written))
write_next_request-online c unread written (request ∷ later) endings = refl

finish_request-online :
    (c : TcpConnection) (unread written : Bytes) (request : RdcpRequest) (later : List RdcpRequest)
    (endings : List Ending) (response : RdcpResponse)
    → finish_request request later response (online c unread written (request ∷ later) endings)
      ≡ online c unread
          (written ++ front_text later)
          later
          (endings ++ completed request response ∷ [])
unfolding finish_request
finish_request-online c unread written request later endings response =
    ap {A = XbdmTransport}
      (λ u. record u { endings = u.endings ++ completed request response ∷ [] })
      (write_next_request-online c unread written later endings)

-- What `Parse` makes of the reply, and how much of the text that is.
parse-reply :
    (f : SizeParser) (reply : Reply) (rest : Bytes)
    → IsLine reply
    → parse f (reply_text reply ++ rest) ≡ parsed (length reply.message + 7) (response_of reply)
parse-reply f reply rest line =
    ap (parse f) (append_assoc (first_line reply.status reply.message) terminator rest)
    ∙ parse-simple_reply f reply.status reply.message rest line.three_digits line.no_lines
        line.no_binary line.one_line

length-reply_text : (reply : Reply) → length reply.message + 7 ≡ length (reply_text reply)
length-reply_text reply = omega (
  arith,
  length-append (first_line reply.status reply.message) terminator,
  length-first_line reply.status reply.message,
)

-- With these bytes in the read buffer.
abbrev pub filled : Bytes → XbdmTransport → XbdmTransport
filled bytes t = record t { connection = record t.connection { read_buffer = bytes } }

pub receive-outcome :
    (t : XbdmTransport) (text : Bytes) (outcome : Outcome)
    → parse (size_parser_of t.request_queue) text ≡ outcome
    → receive text (filled [] t) ≡ on_outcome outcome (filled text t)
unfolding receive on_bytes_read
receive-outcome t text outcome e = ap (λ o. on_outcome o (filled text t)) e

on_outcome-parsed :
    (t : XbdmTransport) (text rest : Bytes) (n : ℕ) (response : RdcpResponse)
    → shift_read_buffer n text ≡ rest
    → on_outcome (parsed n response) (filled text t)
      ≡ on_response t.request_queue response (filled rest t)
unfolding on_outcome
on_outcome-parsed t text rest n response e =
    ap (λ xs. on_response t.request_queue response (filled xs t)) e

-- The reply is taken off, and is the response to the request at the front.
pub receive-on_response :
    (t : XbdmTransport) (reply : Reply) (rest : Bytes)
    → IsLine reply
    → receive (reply_text reply ++ rest) (filled [] t)
      ≡ on_response t.request_queue (response_of reply) (filled rest t)
receive-on_response t reply rest line =
    receive-outcome t (reply_text reply ++ rest)
      (parsed (length reply.message + 7) (response_of reply))
      (parse-reply (size_parser_of t.request_queue) reply rest line)
    ∙ on_outcome-parsed t (reply_text reply ++ rest) rest (length reply.message + 7)
        (response_of reply)
        (shift_read_buffer-append (length reply.message + 7) (reply_text reply) rest
          (length-reply_text reply))

pub receive_line :
    (t : XbdmTransport) (reply : Reply)
    → IsLine reply
    → receive (reply_text reply) (filled [] t)
      ≡ on_response t.request_queue (response_of reply) (filled [] t)
receive_line t reply line =
    ap (λ text. receive text (filled [] t)) (sym (append-nil (reply_text reply)))
    ∙ receive-on_response t reply [] line

-- A reply at the front of what arrives, while a request waits: the first request is completed with
-- it, the text of the next one is written, and what follows the reply is left unread, even if it is
-- a whole reply itself.
pub receive-reply :
    (c : TcpConnection) (written : Bytes) (request : RdcpRequest) (later : List RdcpRequest)
    (endings : List Ending) (reply : Reply) (rest : Bytes)
    → IsSimple reply
    → receive (reply_text reply ++ rest) (online c [] written (request ∷ later) endings)
      ≡ running (
          online c rest
            (written ++ front_text later)
            later
            (endings ++ completed request (response_of reply) ∷ []))
unfolding on_response
receive-reply c written request later endings reply rest simple =
    let answers : (reply.status == ok_send_binary_data) ≡ false =
      ground (arith, simple.no_request) in
    receive-on_response (online c [] written (request ∷ later) endings) reply rest simple.line
    ∙ rw (on_response, answers)
        (ap running
          (finish_request-online c rest written request later endings (response_of reply)))

-- How the requests end with the replies, in order.
abbrev pub answered : List RdcpRequest → List Reply → List Ending
answered [] replies = []
answered (request ∷ later) [] = []
answered (request ∷ later) (reply ∷ replies) =
    completed request (response_of reply) ∷ answered later replies

-- The texts of the requests, one behind the other.
abbrev pub texts : List RdcpRequest → Bytes
texts [] = []
texts (request ∷ later) = to_bytes request ++ texts later

-- The texts of the requests behind the first.
abbrev pub later_texts : List RdcpRequest → Bytes
later_texts [] = []
later_texts (request ∷ later) = texts later

-- The reads, one for each reply.
abbrev pub reads : List Reply → List Event
reads [] = []
reads (reply ∷ replies) = receiving (reply_text reply) ∷ reads replies

pub receive-one :
    (c : TcpConnection) (written : Bytes) (request : RdcpRequest) (later : List RdcpRequest)
    (endings : List Ending) (reply : Reply)
    → IsSimple reply
    → receive (reply_text reply) (online c [] written (request ∷ later) endings)
      ≡ running (
          online c []
            (written ++ front_text later)
            later
            (endings ++ completed request (response_of reply) ∷ []))
receive-one c written request later endings reply simple =
    ap (λ text. receive text (online c [] written (request ∷ later) endings))
      (sym (append-nil (reply_text reply)))
    ∙ receive-reply c written request later endings reply [] simple

later_texts-step :
    (written : Bytes) (later : List RdcpRequest)
    → (written ++ front_text later) ++ later_texts later ≡ written ++ texts later
later_texts-step written [] = append-nil (written ++ [])
later_texts-step written (request ∷ later) = append_assoc written (to_bytes request) (texts later)

-- As many one-line replies as requests wait, each in a read of its own, end all the requests, in
-- order, each with its reply, and write the texts of those behind the first.
pub run-reads :
    (c : TcpConnection) (written : Bytes) (queue : List RdcpRequest) (endings : List Ending)
    (replies : List Reply)
    → length replies ≡ length queue
    → AllSimple replies
    → run (reads replies) (online c [] written queue endings)
      ≡ running (online c [] (written ++ later_texts queue) [] (endings ++ answered queue replies))
unfolding run step continue
run-reads c written [] endings [] same simple =
    ap₂ (λ w e. running (online c [] w [] e)) (sym (append-nil written)) (sym (append-nil endings))
run-reads c written [] endings (reply ∷ replies) same simple = absurd (omega (arith, same))
run-reads c written (request ∷ later) endings [] same simple = absurd (omega (arith, same))
run-reads c written (request ∷ later) endings (reply ∷ replies) same simple =
    ap (continue (run (reads replies))) (receive-one c written request later endings reply simple.0)
    ∙ (run-reads c (written ++ front_text later) later
          (endings ++ completed request (response_of reply) ∷ []) replies (omega (arith, same))
          simple.1
        ∙ ap₂ (λ w e. running (online c [] w [] e)) (later_texts-step written later)
            (append_assoc endings (completed request (response_of reply) ∷ [])
              (answered later replies)))
