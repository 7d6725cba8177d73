-- ===== src/Gdb/Transport.antt =====
-- src/gdb/gdb_transport.cpp: acknowledgements, unescaping and packet delivery on one connection,
-- on the buffers of src/net/tcp_connection.cpp. The locks are left
-- out: one thread runs these handlers. The sockets are not modelled: what `recv` yields is an
-- argument of `receive`, and what is sent is what `write_buffer` has been given.
pub mod Acks
pub mod Receive
pub mod Process
use xbdm_gdb_bridge.Prelude.{
  Bool, Bytes, List, Option, [], drop, false, if◌then◌else◌, length, ltb, none, some, suc, true,
  zero, ℕ, ◌++◌, ◌+◌, ◌==◌, ◌∷◌,
}
use xbdm_gdb_bridge.Net.Connection.{shift_read_buffer}
use xbdm_gdb_bridge.Gdb.Packet.{GdbPacket, empty_packet, make, parse, serialize, unescape_buffer}

-- `delivered` lists the calls of `packet_received_handler_`, in order.
pub record GdbTransport : Type 0 where
  pub no_ack_mode : Bool
  pub read_buffer : Bytes
  pub unescaped_read_buffer : Bytes
  pub ack_buffer : List Bytes
  pub write_buffer : Bytes
  pub delivered : List GdbPacket

abbrev pub interrupt_command : ℕ
interrupt_command = 0x03

-- `TCPConnection::Send`.
abbrev pub tcp_send : GdbTransport → Bytes → GdbTransport
tcp_send t bytes = record t { write_buffer = t.write_buffer ++ bytes }

-- `Send`: the serialized packet waits for its acknowledgement, and is sent.
unfoldable pub send : GdbTransport → GdbPacket → GdbTransport
unfolding serialize
send t packet =
    tcp_send (record t { ack_buffer = t.ack_buffer ++ serialize packet ∷ [] }) (serialize packet)

-- The case of `+`.
on_ack : GdbTransport → List Bytes → GdbTransport
on_ack t [] = t
on_ack t (oldest ∷ later) = record t { ack_buffer = later }

-- The case of `-`.
on_nack : GdbTransport → List Bytes → GdbTransport
on_nack t [] = t
on_nack t (oldest ∷ later) = tcp_send t oldest

-- The loop over the bytes in front of a packet; the number is that of the bytes passed.
unfoldable pub control_loop : ℕ → GdbTransport → Bytes → ℕ × GdbTransport
unfolding on_ack on_nack
control_loop i t [] = (i, t)
control_loop i t (c ∷ cs) = elim (c == b'+') [
  | true ↦ control_loop (i + 1) (on_ack t t.ack_buffer) cs
  | false ↦ elim (c == b'-') [
    | true ↦ control_loop (i + 1) (on_nack t t.ack_buffer) cs
    | false ↦ elim (c == interrupt_command) [
      | true ↦
          control_loop (i + 1)
            (record t { unescaped_read_buffer = t.unescaped_read_buffer ++ interrupt_command ∷ [] })
            cs
      | false ↦ (i, t)
    ]
  ]
]

-- `TCPConnection::Send(kAck, 1)` where acknowledgements are on.
abbrev pub acknowledge : GdbTransport → GdbTransport
acknowledge t = if t.no_ack_mode then t else tcp_send t (b'+' ∷ [])

-- The state of the loop in `ProcessUnescapedReadBuffer`.
pub record Round : Type 0 where
  pub transport : GdbTransport
  pub packet : GdbPacket
  pub remaining : Bytes
  pub packets : List GdbPacket

-- An interrupt byte is a packet of its own.
abbrev pub on_interrupt : Round → Bytes → Round
on_interrupt r cs = record {
  transport = acknowledge r.transport;
  packet = r.packet;
  remaining = cs;
  packets = r.packets ++ make (interrupt_command ∷ []) ∷ [];
}

-- What follows a call of `Parse` that consumed `n` bytes.
abbrev pub on_parsed : Round → ℕ × GdbPacket → Round
on_parsed r (n, packet) = record {
  transport = acknowledge r.transport;
  packet = packet;
  remaining = drop n r.remaining;
  packets = r.packets ++ packet ∷ [];
}

-- The loop, on fuel for its rounds; the byte at the front is passed on its own.
unfoldable pub process_loop : ℕ → Round → Bytes → Option Round
unfolding make
process_loop zero r buffer = none
process_loop (suc fuel) r [] = some r
process_loop (suc fuel) r (c ∷ cs) = elim (c == interrupt_command) [
  | true ↦ process_loop fuel (on_interrupt r cs) cs
  | false ↦ elim ((parse r.packet (c ∷ cs)).0 == 0) [
    | true ↦ some r
    | false ↦
        process_loop fuel (on_parsed r (parse r.packet (c ∷ cs)))
          (drop (parse r.packet (c ∷ cs)).0 (c ∷ cs))
  ]
]

abbrev pub first_round : GdbTransport → Round
first_round t = record {
  transport = t;
  packet = empty_packet;
  remaining = t.unescaped_read_buffer;
  packets = [];
}

-- Behind the loop: what was consumed is erased, and the handler is called with each packet.
abbrev pub last_round : Round → GdbTransport
last_round r = record r.transport {
  unescaped_read_buffer = r.remaining;
  delivered = r.transport.delivered ++ r.packets;
}

-- Each round takes a byte at least, so the buffer's length bounds the rounds.
unfoldable pub process_unescaped_read_buffer : GdbTransport → Option GdbTransport
unfolding process_loop
process_unescaped_read_buffer t =
    elim (process_loop (length t.unescaped_read_buffer + 1) (first_round t)
      t.unescaped_read_buffer) [ none ↦ none | some r ↦ some (last_round r) ]

-- `OnBytesRead` up to the test of the size: the control bytes, then the unescaping.
unfoldable pub take_in : GdbTransport → GdbTransport
take_in t =
    let (passed, u) = control_loop 0 t t.read_buffer in
    let left = shift_read_buffer passed t.read_buffer in
    let (consumed, out) = unescape_buffer left u.unescaped_read_buffer in
    record u { read_buffer = shift_read_buffer consumed left; unescaped_read_buffer = out }

unfoldable pub on_bytes_read : GdbTransport → Option GdbTransport
on_bytes_read t =
    let u = take_in t in
    if length u.unescaped_read_buffer == length t.unescaped_read_buffer
    then some u
    else process_unescaped_read_buffer u

-- `TCPConnection::DoReceive` with the bytes that `recv` returned, and `OnBytesRead`.
unfoldable pub receive : GdbTransport → Bytes → Option GdbTransport
receive t bytes = on_bytes_read (record t { read_buffer = t.read_buffer ++ bytes })
