-- ===== src/Gdb/Transport/Acks.antt =====
-- Acknowledgements: `+` retires the oldest packet in flight, `-` sends it again.
use xbdm_gdb_bridge.Prelude.{
  ==_iff, Bytes, List, [], ap, append-nil, append_assoc, ap₂, arith, drop, drop-nil, length,
  length-append, refl, some, suc, sym, true, zero, ℕ, ◌++◌, ◌+◌, ◌==◌, ◌∙◌, ◌∷◌, ◌≡◌,
}
use xbdm_gdb_bridge.Gdb.Packet.{GdbPacket, serialize, unescape_buffer}
use xbdm_gdb_bridge.Net.Connection.{shift_read_buffer}
use xbdm_gdb_bridge.Net.Connection.Buffers.{shift_read_buffer_all}
use xbdm_gdb_bridge.Gdb.Transport.{
  GdbTransport, control_loop, on_ack, on_bytes_read, receive, send, take_in, tcp_send,
}

-- `m` acknowledgements.
unfoldable pub pluses : ℕ → Bytes
pluses zero = []
pluses (suc m) = b'+' ∷ pluses m

length-pluses : (m : ℕ) → length (pluses m) ≡ m
unfolding pluses
length-pluses zero = refl
length-pluses (suc m) = ap suc (length-pluses m)

-- Packets sent one after the other.
unfoldable pub send_all : GdbTransport → List GdbPacket → GdbTransport
send_all t [] = t
send_all t (p ∷ ps) = send_all (send t p) ps

pub serialize_all : List GdbPacket → List Bytes
serialize_all [] = []
serialize_all (p ∷ ps) = serialize p ∷ serialize_all ps

on_ack-drop :
    (t : GdbTransport) (queue : List Bytes)
    → t.ack_buffer ≡ queue
    → on_ack t queue ≡ record t { ack_buffer = drop 1 queue }
unfolding on_ack
on_ack-drop t [] e = ground arith
on_ack-drop t (oldest ∷ later) e = refl

control_loop-ack :
    (i : ℕ) (t : GdbTransport) (rest : Bytes)
    → control_loop i t (b'+' ∷ rest)
      ≡ control_loop (i + 1) (record t { ack_buffer = drop 1 t.ack_buffer }) rest
unfolding control_loop
control_loop-ack i t rest = ap (λ u. control_loop (i + 1) u rest) (on_ack-drop t t.ack_buffer refl)

drop-suc : (m : ℕ) (queue : List Bytes) → drop m (drop 1 queue) ≡ drop (suc m) queue
drop-suc m [] = drop-nil m
drop-suc m (oldest ∷ later) = refl

control_loop-pluses :
    (m i : ℕ) (t : GdbTransport) (rest : Bytes)
    → control_loop i t (pluses m ++ rest)
      ≡ control_loop (i + m) (record t { ack_buffer = drop m t.ack_buffer }) rest
unfolding pluses
control_loop-pluses zero i t rest = ap (λ n. control_loop n t rest) (omega arith)
control_loop-pluses (suc m) i t rest =
    control_loop-ack i t (pluses m ++ rest)
    ∙ control_loop-pluses m (i + 1) (record t { ack_buffer = drop 1 t.ack_buffer }) rest
    ∙ ap₂ (λ n q. control_loop n (record t { ack_buffer = q }) rest) (omega arith)
        (drop-suc m t.ack_buffer)

control_loop-nack :
    (i : ℕ) (t : GdbTransport) (oldest : Bytes) (later : List Bytes)
    → control_loop i (record t { ack_buffer = oldest ∷ later }) (b'-' ∷ [])
      ≡ (i + 1, tcp_send (record t { ack_buffer = oldest ∷ later }) oldest)
unfolding control_loop
control_loop-nack i t oldest later = refl

shift_read_buffer-zero : shift_read_buffer 0 [] ≡ []
unfolding shift_read_buffer
shift_read_buffer-zero = refl

unescape_buffer-nil : (out : Bytes) → unescape_buffer [] out ≡ (0, out)
unfolding unescape_buffer
unescape_buffer-nil out = refl

-- What `OnBytesRead` does when every byte in the read buffer is a control byte, and none of them is
-- an interrupt.
on_bytes_read_control :
    (t u : GdbTransport)
    → control_loop 0 t t.read_buffer ≡ (length t.read_buffer, u)
    → u.unescaped_read_buffer ≡ t.unescaped_read_buffer
    → on_bytes_read t ≡ some (record u { read_buffer = [] })
unfolding on_bytes_read take_in
on_bytes_read_control t u passed unchanged =
    let same_size : (length u.unescaped_read_buffer == length t.unescaped_read_buffer) ≡ true =
      (==_iff _ _).1 (ap length unchanged) in
    rw (
      passed,
      shift_read_buffer_all t.read_buffer,
      unescape_buffer-nil u.unescaped_read_buffer,
      shift_read_buffer-zero,
      same_size,
    )

send_all-ack_buffer :
    (ps : List GdbPacket) (t : GdbTransport)
    → (send_all t ps).ack_buffer ≡ t.ack_buffer ++ serialize_all ps
unfolding send_all serialize_all send
send_all-ack_buffer [] t = sym (append-nil t.ack_buffer)
send_all-ack_buffer (p ∷ ps) t =
    send_all-ack_buffer ps (send t p)
    ∙ append_assoc t.ack_buffer (serialize p ∷ []) (serialize_all ps)

-- Sending changes no buffer of the reading side.
send_all_reading :
    (ps : List GdbPacket) (t : GdbTransport)
    → ((send_all t ps).read_buffer ≡ t.read_buffer)
      × ((send_all t ps).unescaped_read_buffer ≡ t.unescaped_read_buffer)
unfolding send_all send
send_all_reading [] t = (refl, refl)
send_all_reading (p ∷ ps) t = send_all_reading ps (send t p)

-- The state after the packets were sent, `m` of them acknowledged, and a resend was asked for:
-- `asked` is the first that is not acknowledged, `later` are the packets sent behind it.
abbrev pub after_resend : GdbTransport → Bytes → List Bytes → GdbTransport
after_resend t asked later = record t {
  read_buffer = [];
  ack_buffer = asked ∷ later;
  write_buffer = t.write_buffer ++ asked;
}

receive_resend :
    (t : GdbTransport) (m : ℕ) (asked : Bytes) (later : List Bytes)
    → t.read_buffer ≡ []
    → drop m t.ack_buffer ≡ asked ∷ later
    → receive t (pluses m ++ b'-' ∷ []) ≡ some (after_resend t asked later)
unfolding receive
receive_resend t m asked later e queue =
    let bytes = pluses m ++ b'-' ∷ [] in
    let loaded = record t { read_buffer = bytes } in
    let retired = record loaded { ack_buffer = asked ∷ later } in
    let passed : control_loop 0 loaded bytes ≡ (length bytes, tcp_send retired asked) =
      control_loop-pluses m 0 loaded (b'-' ∷ [])
      ∙ ap (λ q. control_loop (0 + m) (record loaded { ack_buffer = q }) (b'-' ∷ [])) queue
      ∙ control_loop-nack (0 + m) loaded asked later
      ∙ ap (λ n. (n, tcp_send retired asked))
          (omega (arith, length-append (pluses m) (b'-' ∷ []), length-pluses m)) in
    ap (λ b. on_bytes_read (record t { read_buffer = b ++ bytes })) e
    ∙ on_bytes_read_control loaded (tcp_send retired asked) passed refl

drop-serialize_all :
    (ps : List GdbPacket) (asked : GdbPacket) (later : List GdbPacket)
    → drop (length ps) (serialize_all (ps ++ asked ∷ later)) ≡ serialize asked ∷ serialize_all later
unfolding serialize_all
drop-serialize_all [] asked later = refl
drop-serialize_all (p ∷ ps) asked later = drop-serialize_all ps asked later

-- The packets `acked`, `asked` and `later` are sent in this order on a transport with no packet in
-- flight and an empty read buffer. One `+` for each of `acked` and a `-`, in one read, write
-- exactly `asked` once more, and leave it and the later packets in flight; nothing is delivered.
pub receive-send_all :
    (t : GdbTransport) (acked : List GdbPacket) (asked : GdbPacket) (later : List GdbPacket)
    → t.read_buffer ≡ []
    → t.ack_buffer ≡ []
    → let sent = send_all t (acked ++ asked ∷ later) in
      receive sent (pluses (length acked) ++ b'-' ∷ [])
      ≡ some (after_resend sent (serialize asked) (serialize_all later))
receive-send_all t acked asked later e no_flight =
    let ps = acked ++ asked ∷ later in
    receive_resend (send_all t ps) (length acked) (serialize asked) (serialize_all later)
      ((send_all_reading ps t).0 ∙ e)
      (ap (drop (length acked))
          (send_all-ack_buffer ps t ∙ ap (λ q. q ++ serialize_all ps) no_flight)
        ∙ drop-serialize_all acked asked later)
