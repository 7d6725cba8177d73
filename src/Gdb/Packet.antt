-- ===== src/Gdb/Packet.antt =====
-- src/gdb/gdb_packet.h and gdb_packet.cpp: a packet is `$`, an escaped body, `#` and two
-- hexadecimal digits of checksum. The logging is left out.
pub mod Escape
pub mod Parse
use Prim.Native.Nat.{bit_xor}
use xbdm_gdb_bridge.Prelude.{
  Bool, Bytes, Option, [], drop, false, get_elem?, if◌then◌else◌, length, ltb, none, some, take,
  true, ℕ, ◌%◌, ◌++◌, ◌+◌, ◌-◌, ◌==◌, ◌||◌, ◌∷◌,
}
use xbdm_gdb_bridge.Cstd.{hex_byte, memchr, scan, to_long}

abbrev pub packet_leader : ℕ
packet_leader = b'$'

abbrev pub packet_trailer : ℕ
packet_trailer = b'#'

abbrev pub packet_escape_char : ℕ
packet_escape_char = b'}'

-- `kEscapeCharacterSet`, as `is_any_of` tests it.
abbrev pub is_escaped : ℕ → Bool
is_escaped c = c == packet_escape_char || (c == packet_leader || c == packet_trailer)

-- `data_`, `checksum_` and `checksum_ok_`.
pub record GdbPacket : Type 0 where
  pub payload : Bytes
  pub checksum : ℕ
  pub checksum_ok : Bool

-- `GDBPacketEscaper`: each byte of the set is a match of its own, since tokens are not compressed.
unfoldable pub escape_buffer : Bytes → Bytes
escape_buffer [] = []
escape_buffer (c ∷ cs) =
    let rest = escape_buffer cs in
    if is_escaped c then packet_escape_char ∷ bit_xor c 0x20 ∷ rest else c ∷ rest

-- The loop of `Mod256Checksum`; `& 0xFF` is `% 256`.
unfoldable pub checksum_loop : ℕ → Bytes → ℕ
checksum_loop ret [] = ret
checksum_loop ret (c ∷ cs) = checksum_loop ((ret + c) % 256) cs

unfoldable pub mod256_checksum : Bytes → ℕ
unfolding checksum_loop
mod256_checksum buffer = checksum_loop 0 buffer

-- The constructors from a buffer: `CalculateChecksum`, with `checksum_ok_` at its initial value.
unfoldable pub make : Bytes → GdbPacket
unfolding mod256_checksum
make payload = record { payload = payload; checksum = mod256_checksum payload; checksum_ok = false }

-- A default-constructed packet.
abbrev pub empty_packet : GdbPacket
empty_packet = record { payload = []; checksum = 0; checksum_ok = false }

unfoldable pub serialize : GdbPacket → Bytes
unfolding escape_buffer hex_byte
serialize p = packet_leader ∷ (escape_buffer p.payload ++ packet_trailer ∷ hex_byte p.checksum)

-- `strtol` in base 16 on the two bytes behind the trailer, and the test of `checksum_end`.
unfoldable pub read_checksum : Bytes → Option ℕ
unfolding scan to_long
read_checksum s = elim (scan 16 s) [
  | none ↦ none
  | some n ↦ elim n.rest [ [] ↦ some (to_long n) | _ ∷ _ ↦ none ]
]

-- `Parse` from the checksum on: `body_start` and `body_size` locate the body in `buffer`.
unfoldable pub parse_checksum : GdbPacket → Bytes → ℕ → ℕ → ℕ × GdbPacket
unfolding mod256_checksum
parse_checksum p buffer body_start body_size =
    let terminator = body_start + body_size in
    let max_size = length buffer - body_start - (body_size + 1) in
    if ltb max_size 2
    then (0, p)
    else elim (read_checksum (take 2 (drop (terminator + 1) buffer))) [
      | none ↦ (terminator + 1, p)
      | some sent ↦
          let payload = take body_size (drop body_start buffer) in
          (
            terminator + 3,
            record {
              payload = payload;
              checksum = mod256_checksum payload;
              checksum_ok = sent == mod256_checksum payload;
            },
          )
    ]

-- The number of bytes consumed, and the packet that the call leaves.
unfoldable pub parse : GdbPacket → Bytes → ℕ × GdbPacket
unfolding parse_checksum memchr
parse p buffer = elim (memchr packet_leader buffer) [
  | none ↦ (0, p)
  | some packet_start ↦
      let body_start = packet_start + 1 in
      elim (memchr packet_trailer (drop body_start buffer)) [
        | none ↦ (0, p)
        | some body_size ↦ parse_checksum p buffer body_start body_size
      ]
]

-- `UnescapeBuffer`: the count that it returns, and the output buffer. A run without an escape is
-- counted and copied byte by byte; the two bytes of an escape are not counted.
unfoldable pub unescape_loop : ℕ → Bytes → Bytes → ℕ × Bytes
unescape_loop ret out [] = (ret, out)
unescape_loop ret out (c ∷ []) =
    if c == packet_escape_char then (ret, out) else (ret + 1, out ++ c ∷ [])
unescape_loop ret out (c ∷ d ∷ ds) = elim (c == packet_escape_char) [
  | true ↦ unescape_loop ret (out ++ bit_xor d 0x20 ∷ []) ds
  | false ↦ unescape_loop (ret + 1) (out ++ c ∷ []) (d ∷ ds)
]

unfoldable pub unescape_buffer : Bytes → Bytes → ℕ × Bytes
unfolding unescape_loop
unescape_buffer buffer out = unescape_loop 0 out buffer

-- `Command` asserts that there is one.
unfoldable pub command : GdbPacket → Option ℕ
command p = get_elem? p.payload 0

unfoldable pub get_first_data_char : GdbPacket → Option ℕ
get_first_data_char p = if ltb (length p.payload) 2 then none else get_elem? p.payload 1

-- The offset of the iterator that `FindFirst` returns.
unfoldable pub find_first : GdbPacket → ℕ → ℕ
unfolding memchr
find_first p item = elim (memchr item p.payload) [ none ↦ length p.payload | some i ↦ i ]
