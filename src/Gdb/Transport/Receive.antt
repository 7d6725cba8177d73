-- ===== src/Gdb/Transport/Receive.antt =====
-- A packet that arrives in one read: from the bytes of `Serialize` to the handler.
use xbdm_gdb_bridge.Prelude.{
  Bytes, [], ap, append-nil, arith, drop, false, length, length-append, length-drop, refl, some,
  suc, true, ℕ, ◌*◌, ◌++◌, ◌+◌, ◌-◌, ◌==◌, ◌∙◌, ◌∷◌, ◌≡◌,
}
use xbdm_gdb_bridge.Cstd.{hex_byte}
use xbdm_gdb_bridge.Cstd.Laws.{Lacks}
use xbdm_gdb_bridge.Gdb.Packet.{
  escape_buffer, make, mod256_checksum, packet_trailer, serialize, unescape_buffer,
}
use xbdm_gdb_bridge.Gdb.Packet.Escape.{
  escapes, escapes-le, length-escape_buffer, unescape_buffer-serialize,
}
use xbdm_gdb_bridge.Gdb.Packet.Parse.{frame, length-frame, mod256_checksum-lt, received}
use xbdm_gdb_bridge.Net.Connection.Buffers.{shift_read_buffer-drop}
use xbdm_gdb_bridge.Gdb.Transport.{
  GdbTransport, Round, acknowledge, control_loop, first_round, last_round, on_bytes_read,
  process_loop, process_unescaped_read_buffer, receive, take_in,
}
use xbdm_gdb_bridge.Gdb.Transport.Process.{process_loop-frame, process_loop-nil, process_of_loop}

-- The body bytes that `UnescapeBuffer` counts, with the leader, the trailer and the digits.
abbrev pub counted : Bytes → ℕ
counted payload = length payload - escapes payload + 4

length-serialize :
    (payload : Bytes) → length (serialize (make payload)) ≡ length payload + escapes payload + 4
unfolding serialize make hex_byte
length-serialize payload = omega (
  arith,
  length-append (escape_buffer payload) (packet_trailer ∷ hex_byte (mod256_checksum payload)),
  length-escape_buffer payload,
)

-- The unescaped form of the packet.
abbrev pub plain_frame : Bytes → Bytes
plain_frame payload = frame [] payload (mod256_checksum payload) []

-- A transport with a packet in its read buffer, and with that packet unescaped.
abbrev pub loaded : GdbTransport → Bytes → GdbTransport
loaded t payload = record t { read_buffer = serialize (make payload); unescaped_read_buffer = [] }

abbrev pub taken_in : GdbTransport → Bytes → GdbTransport
taken_in t payload = record t {
  read_buffer = drop (counted payload) (serialize (make payload));
  unescaped_read_buffer = plain_frame payload;
}

control_loop-serialize :
    (t : GdbTransport) (payload : Bytes) → control_loop 0 t (serialize (make payload)) ≡ (0, t)
unfolding control_loop serialize
control_loop-serialize t payload = refl

unescape_buffer-plain_frame :
    (payload : Bytes)
    → unescape_buffer (serialize (make payload)) [] ≡ (counted payload, plain_frame payload)
unescape_buffer-plain_frame payload = unescape_buffer-serialize payload [] ∙ rw append-nil

take_in-loaded :
    (t : GdbTransport) (payload : Bytes) → take_in (loaded t payload) ≡ taken_in t payload
unfolding take_in
take_in-loaded t payload = rw (
  control_loop-serialize (loaded t payload) payload,
  shift_read_buffer-drop 0 (serialize (make payload)) (omega arith),
  unescape_buffer-plain_frame payload,
  shift_read_buffer-drop (counted payload) (serialize (make payload))
      (omega (arith, length-serialize payload, escapes-le payload)),
)

-- The transport after the packet.
abbrev pub after_packet : GdbTransport → Bytes → GdbTransport
after_packet t payload = record (acknowledge t) {
  read_buffer = drop (counted payload) (serialize (make payload));
  unescaped_read_buffer = [];
  delivered = t.delivered ++ record (make payload) { checksum_ok = true } ∷ [];
}

-- The loop's result on the packet alone.
abbrev done : GdbTransport → Bytes → Round
done t payload = record {
  transport = acknowledge (taken_in t payload);
  packet = received payload (mod256_checksum payload);
  remaining = [];
  packets = received payload (mod256_checksum payload) ∷ [];
}

process_loop-plain_frame :
    (fuel : ℕ) (t : GdbTransport) (payload : Bytes)
    → fuel ≡ length payload + 5
    → Lacks packet_trailer payload
    → process_loop fuel (first_round (taken_in t payload)) (plain_frame payload)
      ≡ some (done t payload)
process_loop-plain_frame fuel t payload e h =
    let two_rounds : fuel ≡ suc (suc (length payload + 3)) = omega arith in
    rw two_rounds (
      process_loop-frame (suc (length payload + 3)) (first_round (taken_in t payload)) payload
        (mod256_checksum payload) [] refl h (mod256_checksum-lt payload)
      ∙ process_loop-nil (length payload + 3) (done t payload))

last_round-done :
    (t : GdbTransport) (payload : Bytes) → last_round (done t payload) ≡ after_packet t payload
unfolding make
last_round-done t payload = ground arith

process-plain_frame :
    (t : GdbTransport) (payload : Bytes)
    → Lacks packet_trailer payload
    → process_unescaped_read_buffer (taken_in t payload) ≡ some (after_packet t payload)
process-plain_frame t payload h =
    process_of_loop (taken_in t payload) (
      process_loop-plain_frame (length (plain_frame payload) + 1) t payload
        (omega (arith, length-frame [] payload (mod256_checksum payload) [])) h)
    ∙ ap some (last_round-done t payload)

length-plain_frame_ne : (payload : Bytes) → (length (plain_frame payload) == 0) ≡ false
length-plain_frame_ne payload = ground arith

on_bytes_read-loaded :
    (t : GdbTransport) (payload : Bytes)
    → Lacks packet_trailer payload
    → on_bytes_read (loaded t payload) ≡ some (after_packet t payload)
unfolding on_bytes_read
on_bytes_read-loaded t payload h =
    rw (take_in-loaded t payload, length-plain_frame_ne payload) (process-plain_frame t payload h)

-- A packet whose body has no `#` arrives whole in one read, on a transport with empty buffers: it
-- is delivered once with its checksum confirmed, acknowledged unless that is off, and nothing else
-- changes, but that the last two bytes for each escape in it stay in the read buffer.
pub receive-serialize :
    (t : GdbTransport) (payload : Bytes)
    → t.read_buffer ≡ []
    → t.unescaped_read_buffer ≡ []
    → Lacks packet_trailer payload
    → (receive t (serialize (make payload)) ≡ some (after_packet t payload))
      × (length (after_packet t payload).read_buffer ≡ 2 * escapes payload)
unfolding receive
receive-serialize t payload e f h =
    let same_state : record t { read_buffer = t.read_buffer ++ serialize (make payload) }
        ≡ loaded t payload =
      ground arith in
    (
      ap on_bytes_read same_state ∙ on_bytes_read-loaded t payload h,
      omega (
        arith,
        length-drop (counted payload) (serialize (make payload)),
        length-serialize payload,
        escapes-le payload,
      ),
    )
