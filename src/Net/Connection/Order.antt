-- ===== src/Net/Connection/Order.antt =====
-- What `TCPConnection` does with the bytes that it is given to send: `Send`, `FlushAndClose` and
-- `Process` of src/net/tcp_connection.cpp in any order.
use xbdm_gdb_bridge.Prelude.{
  Bool, Bool-cases, Bytes, List, [], append_assoc, append-nil, ap, drop, false, inl, inr, sym, take,
  take-append-drop, true, ◌++◌, ◌≡◌, ◌∙◌, ◌∷◌, refl, not, ◌&&◌,
}
use xbdm_gdb_bridge.Net.Connection.{
  Ready, RecvResult, SendResult, TcpConnection, do_receive, do_send, flush_and_close, process,
  process_read, process_write, received, recv_failed, remote_closed, send_bytes, send_failed, taken,
  after_receive, must_close, is_empty,
}

-- What happens to a connection whose `OnBytesRead` is that of the base class, which does nothing.
pub data Event : Type 0 where
  sending : Bytes → Event
  flushing : Event
  processing : Ready → SendResult → RecvResult → Event

abbrev ignore : TcpConnection → TcpConnection
ignore c = c

unfoldable pub step : Event → TcpConnection → TcpConnection
unfolding flush_and_close process
step (sending bytes) c = send_bytes c bytes
step flushing c = flush_and_close c
step (processing ready send_result recv_result) c =
    (process ignore ready send_result recv_result c).1

unfoldable pub run : List Event → TcpConnection → TcpConnection
unfolding step
run [] c = c
run (event ∷ events) c = run events (step event c)

-- The arguments of `Send`, one after the other.
unfoldable pub sendings : List Event → Bytes
sendings [] = []
sendings (sending bytes ∷ events) = bytes ++ sendings events
sendings (flushing ∷ events) = sendings events
sendings (processing ready send_result recv_result ∷ events) = sendings events

-- What has been sent and what waits.
abbrev pub outgoing : TcpConnection → Bytes
outgoing c = c.sent ++ c.write_buffer

do_send-outgoing :
    (result : SendResult) (c : TcpConnection) → outgoing (do_send result c) ≡ outgoing c
unfolding do_send
do_send-outgoing send_failed c = refl
do_send-outgoing (taken n) c =
    append_assoc c.sent (take n c.write_buffer) (drop n c.write_buffer)
    ∙ ap (◌++◌ c.sent) (take-append-drop n c.write_buffer)

process_write-outgoing :
    (writable : Bool) (result : SendResult) (c : TcpConnection)
    → outgoing (process_write writable result c) ≡ outgoing c
unfolding process_write
process_write-outgoing true result c = do_send-outgoing result c
process_write-outgoing false result c = refl

process_read-outgoing :
    (readable : Bool) (result : RecvResult) (c : TcpConnection)
    → outgoing (process_read ignore readable result c).1 ≡ outgoing c
unfolding process_read after_receive do_receive
process_read-outgoing true remote_closed c = refl
process_read-outgoing true recv_failed c = refl
process_read-outgoing true (received bytes) c = refl
process_read-outgoing false result c = refl

process-outgoing :
    (ready : Ready) (send_result : SendResult) (recv_result : RecvResult) (c : TcpConnection)
    → outgoing (process ignore ready send_result recv_result c).1 ≡ outgoing c
unfolding process
process-outgoing ready send_result recv_result c =
    let d = process_write ready.writable send_result c in
    elim (Bool-cases (not (c.has_pipe && c.is_open))) [
      | inl e ↦ rw e refl
      | inr n ↦ elim (Bool-cases ready.exceptional) [
        | inl e ↦ rw (n, e) refl
        | inr m ↦ elim (Bool-cases (must_close ready.writable d)) [
          | inl e ↦ rw (n, m, e) (process_write-outgoing ready.writable send_result c)
          | inr k ↦
              rw (n, m, k)
                (process_read-outgoing ready.readable recv_result d
                  ∙ process_write-outgoing ready.writable send_result c)
        ]
      ]
    ]

flush_and_close-outgoing : (c : TcpConnection) → outgoing (flush_and_close c) ≡ outgoing c
unfolding flush_and_close
flush_and_close-outgoing c = elim (Bool-cases (is_empty c.write_buffer)) [
  | inl e ↦ rw e refl
  | inr n ↦ rw n refl
]

-- Whatever the system calls report and however the calls of Send, FlushAndClose and Process follow
-- each other: what has been sent and what waits is what it was, followed by what Send was given.
pub run-outgoing :
    (events : List Event) (c : TcpConnection)
    → outgoing (run events c) ≡ outgoing c ++ sendings events
unfolding run step sendings
run-outgoing [] c = sym (append-nil (outgoing c))
run-outgoing (sending bytes ∷ events) c =
    run-outgoing events (send_bytes c bytes)
    ∙ (ap (λ xs. xs ++ sendings events) (sym (append_assoc c.sent c.write_buffer bytes))
        ∙ append_assoc (outgoing c) bytes (sendings events))
run-outgoing (flushing ∷ events) c =
    run-outgoing events (flush_and_close c)
    ∙ ap (λ xs. xs ++ sendings events) (flush_and_close-outgoing c)
run-outgoing (processing ready send_result recv_result ∷ events) c =
    run-outgoing events (process ignore ready send_result recv_result c).1
    ∙ ap (λ xs. xs ++ sendings events) (process-outgoing ready send_result recv_result c)
