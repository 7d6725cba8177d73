-- ===== src/Gdb/Tests.antt =====
-- The theorems on packets and the transport, at concrete inputs.
use xbdm_gdb_bridge.Prelude.{
  Bytes, [], codes, false, length, refl, some, ◌*◌, ◌++◌, ◌+◌, ◌∷◌, ◌≡◌, arith, true,
}
use xbdm_gdb_bridge.Gdb.Packet.{
  GdbPacket, empty_packet, escape_buffer, make, parse, read_checksum, serialize, unescape_buffer,
}
use xbdm_gdb_bridge.Gdb.Packet.Escape.{escapes, unescape_buffer_shortfall}
use xbdm_gdb_bridge.Gdb.Packet.Parse.{frame, parse-frame, parse-serialize, raw_frame, received}
use xbdm_gdb_bridge.Gdb.Transport.{
  GdbTransport, acknowledge, first_round, process_loop, process_unescaped_read_buffer, receive,
}
use xbdm_gdb_bridge.Gdb.Transport.Acks.{
  after_resend, pluses, receive-send_all, send_all, serialize_all,
}
use xbdm_gdb_bridge.Gdb.Transport.Process.{
  IsDrained, process_loop_malformed, process_unescaped_read_buffer_drains,
}
use xbdm_gdb_bridge.Gdb.Transport.Receive.{after_packet, receive-serialize}
use xbdm_gdb_bridge.Cstd.{scan}

abbrev fresh : GdbTransport
fresh = record {
  no_ack_mode = false;
  read_buffer = [];
  unescaped_read_buffer = [];
  ack_buffer = [];
  write_buffer = [];
  delivered = [];
}

-- A body with an escape.
abbrev body : Bytes
body = codes "m}8"

abbrev query : GdbPacket
query = make (codes "qC")

abbrev halted : GdbPacket
halted = make (codes "S05")

abbrev halfway : GdbTransport
halfway = record fresh { unescaped_read_buffer = codes "x$qC#b4$m1" }

abbrev broken : GdbTransport
broken = record fresh { unescaped_read_buffer = raw_frame [] (codes "g") b'z' b'z' [] }

receive-serialize_example :
    (receive fresh (serialize (make body)) ≡ some (after_packet fresh body))
    × (length (after_packet fresh body).read_buffer ≡ 2 * escapes body)
receive-serialize_example = receive-serialize fresh body refl refl (refl, (refl, (refl, tt)))

receive-send_all_example :
    receive (send_all fresh (query ∷ halted ∷ query ∷ [])) (pluses 1 ++ b'-' ∷ [])
    ≡ some (
        after_resend
          (send_all fresh (query ∷ halted ∷ query ∷ []))
          (serialize halted)
          (serialize_all (query ∷ [])))
receive-send_all_example = receive-send_all fresh (query ∷ []) halted (query ∷ []) refl refl

process_unescaped_read_buffer_drains_example :
    (u : GdbTransport) × (packet : GdbPacket) × (process_unescaped_read_buffer halfway ≡ some u)
    × IsDrained packet u.unescaped_read_buffer
process_unescaped_read_buffer_drains_example = process_unescaped_read_buffer_drains halfway

process_loop_malformed_example :
    process_loop 5 (first_round broken) (raw_frame [] (codes "g") b'z' b'z' [])
    ≡ process_loop 4
        (record {
          transport = acknowledge broken;
          packet = empty_packet;
          remaining = b'z' ∷ b'z' ∷ [];
          packets = empty_packet ∷ [];
        })
        (b'z' ∷ b'z' ∷ [])
unfolding read_checksum scan
process_loop_malformed_example =
    process_loop_malformed 4 (first_round broken) (codes "g") b'z' b'z' [] refl (refl, tt) refl

parse-frame_example :
    parse empty_packet (frame (codes "ab") (codes "qC") 180 (codes "$"))
    ≡ (2 + 2 + 4, received (codes "qC") 180)
parse-frame_example =
    parse-frame empty_packet (codes "ab") (codes "qC") 180 (codes "$") (refl, (refl, tt))
      (refl, (refl, tt)) (omega arith)

parse-serialize_example :
    parse empty_packet (unescape_buffer (serialize (make body)) []).1
    ≡ (3 + 4, record (make body) { checksum_ok = true })
parse-serialize_example = parse-serialize empty_packet body (refl, (refl, (refl, tt)))

unescape_buffer_shortfall_example :
    (unescape_buffer (escape_buffer body) []).0 + 2 * escapes body ≡ length (escape_buffer body)
unescape_buffer_shortfall_example = unescape_buffer_shortfall body []
