-- ===== src/Net/Connection/Flush.antt =====
-- `FlushAndClose` of src/net/tcp_connection.cpp followed by the calls of `Process` that write.
use xbdm_gdb_bridge.Prelude.{
  Bytes, List, [], arith, drop, false, map, suc, true, ℕ, ◌≡◌, ◌∷◌, refl, ap, append_assoc, sym,
  append-nil, ◌-◌, ◌∙◌, length-drop, take-append-drop, ◌≤◌, Bool-cases, inl, inr,
}
use xbdm_gdb_bridge.Net.Connection.{
  TcpConnection, close_socket, do_send, is_empty, process, process_read, process_write, recv_failed,
  taken, length, take, ◌++◌, flush_and_close,
}
use xbdm_gdb_bridge.Net.Connection.Order.{Event, processing, run, step, outgoing, flushing}

-- A writable socket, of whose buffer `send` takes `n + 1` bytes.
abbrev pub writing : ℕ → Event
writing n =
    processing (record { exceptional = false; writable = true; readable = false }) (taken (suc n))
      recv_failed

-- Closed, with these bytes sent and none left.
pub record Flushed (bytes : Bytes) (c : TcpConnection) : Type 0 where
  pub closed : c.is_open ≡ false
  pub all_sent : c.sent ≡ bytes
  pub none_left : c.write_buffer ≡ []

length-is_empty : (bytes : Bytes) → is_empty bytes ≡ true → bytes ≡ []
length-is_empty [] h = refl
length-is_empty (x ∷ xs) h = ground (arith, h)

-- A connection that closes when its buffer is empty.
abbrev live : TcpConnection → TcpConnection
live c = record c { has_pipe = true; is_open = true; close_after_flush = true }

step-closed :
    (n : ℕ) (c : TcpConnection)
    → step (writing n) (record c { has_pipe = false }) ≡ record c { has_pipe = false }
unfolding step process
step-closed n c = refl

run-closed :
    (ns : List ℕ) (c : TcpConnection)
    → run (map writing ns) (record c { has_pipe = false }) ≡ record c { has_pipe = false }
unfolding run
run-closed [] c = refl
run-closed (n ∷ ns) c = ap (run (map writing ns)) (step-closed n c) ∙ run-closed ns c

-- One write that empties the buffer.
step-last_writing :
    (n : ℕ) (c : TcpConnection)
    → is_empty (drop (suc n) c.write_buffer) ≡ true
    → step (writing n) (live c)
      ≡ record (close_socket (do_send (taken (suc n)) c)) { close_after_flush = false }
unfolding step process process_write do_send
step-last_writing n c e = rw (step, process, process_write, e) refl

-- One write that does not.
step-writing :
    (n : ℕ) (c : TcpConnection)
    → is_empty (drop (suc n) c.write_buffer) ≡ false
    → step (writing n) (live c) ≡ live (do_send (taken (suc n)) c)
unfolding step process process_write do_send process_read
step-writing n c e = rw (step, process, process_write, e) refl

do_send-outgoing : (n : ℕ) (c : TcpConnection) → outgoing (do_send (taken n) c) ≡ outgoing c
unfolding do_send
do_send-outgoing n c =
    append_assoc c.sent (take n c.write_buffer) (drop n c.write_buffer)
    ∙ ap (◌++◌ c.sent) (take-append-drop n c.write_buffer)

do_send-shrinks :
    (n : ℕ) (c : TcpConnection)
    → length (do_send (taken (suc n)) c).write_buffer ≡ length c.write_buffer - suc n
unfolding do_send
do_send-shrinks n c = length-drop (suc n) c.write_buffer

empty_after :
    (n : ℕ) (c : TcpConnection)
    → is_empty (drop n c.write_buffer) ≡ true
    → is_empty (do_send (taken n) c).write_buffer ≡ true
unfolding do_send
empty_after n c e = e

-- What was sent when the buffer has become empty.
last_sent :
    (n : ℕ) (c : TcpConnection)
    → is_empty (drop (suc n) c.write_buffer) ≡ true
    → (do_send (taken (suc n)) c).sent ≡ outgoing c
last_sent n c e =
    sym (append-nil (do_send (taken (suc n)) c).sent)
    ∙ (ap (◌++◌ (do_send (taken (suc n)) c).sent)
          (sym (length-is_empty (do_send (taken (suc n)) c).write_buffer (empty_after (suc n) c e)))
        ∙ do_send-outgoing (suc n) c)

last-Flushed :
    (n : ℕ) (ns : List ℕ) (c : TcpConnection)
    → is_empty (drop (suc n) c.write_buffer) ≡ true
    → Flushed (outgoing c) (run (map writing (n ∷ ns)) (live c))
unfolding run do_send
last-Flushed n ns c e =
    let d : TcpConnection = record (close_socket (do_send (taken (suc n)) c)) {
      close_after_flush = false;
    } in
    let ends : run (map writing (n ∷ ns)) (live c) ≡ d =
      ap (run (map writing ns)) (step-last_writing n c e) ∙ run-closed ns d in
    rw ends (record {
      closed = refl;
      all_sent = last_sent n c e;
      none_left = length-is_empty (drop (suc n) c.write_buffer) e;
    })

live-Flushed :
    (ns : List ℕ) (c : TcpConnection)
    → 1 ≤ length c.write_buffer
    → length c.write_buffer ≤ length ns
    → Flushed (outgoing c) (run (map writing ns) (live c))
unfolding run do_send
live-Flushed [] c low h = absurd (omega arith)
live-Flushed (n ∷ ns) c low h = elim (Bool-cases (is_empty (drop (suc n) c.write_buffer))) [
  | inl e ↦ last-Flushed n ns c e
  | inr e ↦
      let d = do_send (taken (suc n)) c in
      rw (run, ap (run (map writing ns)) (step-writing n c e), sym (do_send-outgoing (suc n) c))
        (live-Flushed ns d (ground (arith, e, length-drop (suc n) c.write_buffer))
          (omega (arith, h, length-drop (suc n) c.write_buffer)))
]

live_eta :
    (c : TcpConnection)
    → c.has_pipe ≡ true
    → c.is_open ≡ true
    → record c { close_after_flush = true } ≡ live c
live_eta c p o = λ i. record c { has_pipe = p i; is_open = o i; close_after_flush = true }

flushing_more :
    (ns : List ℕ) (c : TcpConnection)
    → c.has_pipe ≡ true
    → c.is_open ≡ true
    → is_empty c.write_buffer ≡ false
    → run (flushing ∷ map writing ns) c ≡ run (map writing ns) (live c)
unfolding run step flush_and_close
flushing_more ns c p o e =
    let asks : flush_and_close c ≡ record c { close_after_flush = true } =
      rw (flush_and_close, e) refl in
    ap (run (map writing ns)) (asks ∙ live_eta c p o)

flushing_none :
    (ns : List ℕ) (c : TcpConnection)
    → is_empty c.write_buffer ≡ true
    → run (flushing ∷ map writing ns) c ≡ close_socket c
unfolding run step flush_and_close
flushing_none ns c e =
    let closes : flush_and_close c ≡ close_socket c = rw (flush_and_close, e) refl in
    ap (run (map writing ns)) closes ∙ run-closed ns (close_socket c)

-- On an open connection, FlushAndClose and then as many writes as there are bytes in the buffer,
-- each of which takes one byte at least, close the connection with every byte sent, in order, and
-- none left.
pub flush_and_close-Flushed :
    (ns : List ℕ) (c : TcpConnection)
    → c.has_pipe ≡ true
    → c.is_open ≡ true
    → length c.write_buffer ≤ length ns
    → Flushed (outgoing c) (run (flushing ∷ map writing ns) c)
flush_and_close-Flushed ns c p o h = elim (Bool-cases (is_empty c.write_buffer)) [
  | inl e ↦
      let none = length-is_empty c.write_buffer e in
      rw (flushing_none ns c e) (record {
        closed = refl;
        all_sent = sym (ap (◌++◌ c.sent) none ∙ append-nil c.sent);
        none_left = none;
      })
  | inr e ↦ rw (flushing_more ns c p o e) (live-Flushed ns c (ground (arith, e)) h)
]
