-- ===== src/Rdcp/Transport/Sending.antt =====
-- The requests that `XBDMTransport` (src/rdcp/xbdm_transport.cpp) is given before the first reply.
use xbdm_gdb_bridge.Prelude.{
  Bytes, List, ap, append-nil, append_assoc, ap₂, arith, length, some, suc, sym, zero, ℕ, ◌++◌, ◌+◌,
  ◌∙◌, ◌∷◌, ◌≡◌, [],
}
use xbdm_gdb_bridge.Net.Connection.{TcpConnection}
use xbdm_gdb_bridge.Cstd.Laws.{Lacks}
use xbdm_gdb_bridge.Rdcp.Request.{RdcpRequest, to_bytes}
use xbdm_gdb_bridge.Rdcp.Transport.{
  Ending, completed, ok_send_binary_data, on_response, receive, running, send, send_payload,
}
use xbdm_gdb_bridge.Rdcp.Transport.Queue.{Event, continue, receiving, run, sending, step}
use xbdm_gdb_bridge.Rdcp.Transport.Answers.{
  IsLine, IsSimple, Reply, online, receive-one, receive_line, reply_text, response_of,
  write_next_request-online,
}

abbrev pub copies : ℕ → Bytes → Bytes
copies zero text = []
copies (suc n) text = text ++ copies n text

abbrev pub sends : List RdcpRequest → List Event
sends [] = []
sends (request ∷ requests) = sending request ∷ sends requests

send-online :
    (c : TcpConnection) (written : Bytes) (first : RdcpRequest) (queue : List RdcpRequest)
    (endings : List Ending) (request : RdcpRequest)
    → send request (online c [] written (first ∷ queue) endings)
      ≡ online c [] (written ++ to_bytes first) (first ∷ (queue ++ request ∷ [])) endings
unfolding send
send-online c written first queue endings request =
    write_next_request-online c [] written (first ∷ (queue ++ request ∷ [])) endings

behind_first :
    (c : TcpConnection) (written : Bytes) (first : RdcpRequest) (queue : List RdcpRequest)
    (endings : List Ending) (requests : List RdcpRequest)
    → run (sends requests) (online c [] written (first ∷ queue) endings)
      ≡ running (
          online c []
            (written ++ copies (length requests) (to_bytes first))
            (first ∷ (queue ++ requests))
            endings)
unfolding run step continue
behind_first c written first queue endings [] =
    ap₂ (λ w q. running (online c [] w (first ∷ q) endings)) (sym (append-nil written))
      (sym (append-nil queue))
behind_first c written first queue endings (request ∷ requests) =
    ap (run (sends requests)) (send-online c written first queue endings request)
    ∙ (behind_first c (written ++ to_bytes first) first (queue ++ request ∷ []) endings requests
        ∙ ap₂ (λ w q. running (online c [] w (first ∷ q) endings))
            (append_assoc written (to_bytes first) (copies (length requests) (to_bytes first)))
            (append_assoc queue (request ∷ []) requests))

-- On a connected transport where none waits, requests that are sent before a reply comes all wait,
-- in order, but what is written is the text of the first of them, once for each request.
pub run-sends :
    (c : TcpConnection) (written : Bytes) (endings : List Ending) (first : RdcpRequest)
    (requests : List RdcpRequest)
    → run (sends (first ∷ requests)) (online c [] written [] endings)
      ≡ running (
          online c []
            (written ++ copies (length requests + 1) (to_bytes first))
            (first ∷ requests)
            endings)
unfolding run step continue send
run-sends c written endings first requests =
    let e : suc (length requests) ≡ length requests + 1 = omega arith in
    ap (run (sends requests)) (write_next_request-online c [] written (first ∷ []) endings)
    ∙ (behind_first c (written ++ to_bytes first) first [] endings requests
        ∙ ap (λ w. running (online c [] w (first ∷ requests) endings))
            (append_assoc written (to_bytes first) (copies (length requests) (to_bytes first))
              ∙ ap (λ n. written ++ copies n (to_bytes first)) e))

upload :
    (c : TcpConnection) (written : Bytes) (endings : List Ending) (request : RdcpRequest)
    (payload message : Bytes)
    → request.binary_payload ≡ some payload
    → Lacks 13 message
    → receive
        (reply_text (record { status = ok_send_binary_data; message = message }))
        (online c [] written (request ∷ []) endings)
      ≡ running (online c [] (written ++ payload) (request ∷ []) endings)
unfolding on_response send_payload
upload c written endings request payload message asks free =
    let line : IsLine (record { status = ok_send_binary_data; message = message }) = record {
      three_digits = omega arith;
      no_lines = λ e. omega (arith, e);
      no_binary = λ e. omega (arith, e);
      one_line = free;
    } in
    let sends_it : send_payload request.binary_payload (online c [] written (request ∷ []) endings)
        ≡ running (online c [] (written ++ payload) (request ∷ []) endings) =
      ap (λ p. send_payload p (online c [] written (request ∷ []) endings)) asks in
    receive_line (online c [] written (request ∷ []) endings)
      (record { status = ok_send_binary_data; message = message }) line
    ∙ sends_it

-- On a connected transport with one request that has a payload, the reply that asks for it makes
-- the payload be written behind what was written, and the next one-line reply ends the request.
pub run-upload :
    (c : TcpConnection) (written : Bytes) (endings : List Ending) (request : RdcpRequest)
    (payload message : Bytes) (reply : Reply)
    → request.binary_payload ≡ some payload
    → Lacks 13 message
    → IsSimple reply
    → run
        (receiving (reply_text (record { status = ok_send_binary_data; message = message }))
          ∷ receiving (reply_text reply)
          ∷ [])
        (online c [] written (request ∷ []) endings)
      ≡ running (
          online c []
            (written ++ payload)
            []
            (endings ++ completed request (response_of reply) ∷ []))
unfolding run step continue
run-upload c written endings request payload message reply asks line simple =
    ap (continue (run (receiving (reply_text reply) ∷ [])))
      (upload c written endings request payload message asks line)
    ∙ ap (continue (run [])) (receive-one c (written ++ payload) request [] endings reply simple)
    ∙ ap (λ w. running (online c [] w [] (endings ++ completed request (response_of reply) ∷ [])))
        (append-nil (written ++ payload))
