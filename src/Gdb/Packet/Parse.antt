-- ===== src/Gdb/Packet/Parse.antt =====
-- `Parse` on what `Serialize` writes.
use xbdm_gdb_bridge.Prelude.{
  Bool, Bytes, Option-cases, [], append-nil, append_assoc, arith, drop, drop-add, drop-suc_append,
  drop_of_length, false, holds_below, holds_below→eq, inl, inr, length, length-append, ltb, none,
  refl, some, take, take-length_append, true, ℕ, ◌%◌, ◌++◌, ◌+◌, ◌-◌, ◌<◌, ◌==◌, ◌∙◌, ◌∷◌, ◌≡◌, ◌≤◌,
}
use xbdm_gdb_bridge.Cstd.Laws.{Lacks, memchr-Lacks}
use xbdm_gdb_bridge.Cstd.{hex_byte, memchr}
use xbdm_gdb_bridge.Gdb.Packet.Escape.{unescape_buffer-serialize}
use xbdm_gdb_bridge.Gdb.Packet.{
  GdbPacket, checksum_loop, make, mod256_checksum, packet_leader, packet_trailer, parse,
  parse_checksum, read_checksum, serialize, unescape_buffer,
}

-- The digits of a checksum byte read back: checked at each of the 256 values.
checksum_reads_back : ℕ → Bool
checksum_reads_back b = elim (read_checksum (hex_byte b)) [ none ↦ false | some n ↦ n == b ]

checksum_table : holds_below 256 checksum_reads_back ≡ true
unfolding holds_below checksum_reads_back read_checksum hex_byte
checksum_table = refl

read_checksum-hex_byte : (b : ℕ) → b < 256 → read_checksum (hex_byte b) ≡ some b
unfolding checksum_reads_back
read_checksum-hex_byte b h =
    ground (arith, holds_below→eq 256 checksum_reads_back b checksum_table h)

checksum_loop-lt : (bs : Bytes) (ret : ℕ) → ret < 256 → checksum_loop ret bs < 256
unfolding checksum_loop
checksum_loop-lt [] ret h = h
checksum_loop-lt (c ∷ cs) ret h = checksum_loop-lt cs ((ret + c) % 256) (omega arith)

pub mod256_checksum-lt : (bs : Bytes) → mod256_checksum bs < 256
unfolding mod256_checksum
mod256_checksum-lt bs = checksum_loop-lt bs 0 (omega arith)

-- The sum of the bytes.
unfoldable pub byte_sum : Bytes → ℕ
byte_sum [] = 0
byte_sum (c ∷ cs) = c + byte_sum cs

checksum_loop-byte_sum :
    (bs : Bytes) (ret : ℕ) → ret < 256 → checksum_loop ret bs ≡ (ret + byte_sum bs) % 256
unfolding checksum_loop byte_sum
checksum_loop-byte_sum [] ret h = omega arith
checksum_loop-byte_sum (c ∷ cs) ret h =
    omega (arith, checksum_loop-byte_sum cs ((ret + c) % 256) (omega arith))

-- The loop with a mask at each step computes the sum of all bytes modulo 256.
pub mod256_checksum-byte_sum : (bs : Bytes) → mod256_checksum bs ≡ byte_sum bs % 256
unfolding mod256_checksum
mod256_checksum-byte_sum bs = omega (arith, checksum_loop-byte_sum bs 0 (omega arith))

-- A packet on the wire, behind `junk` and in front of `rest`, with `sent` as its checksum digits.
abbrev pub frame : Bytes → Bytes → ℕ → Bytes → Bytes
frame junk payload sent rest =
    junk ++ packet_leader ∷ (payload ++ packet_trailer ∷ (hex_byte sent ++ rest))

-- The packet that `Parse` leaves for such a frame.
abbrev pub received : Bytes → ℕ → GdbPacket
received payload sent = record {
  payload = payload;
  checksum = mod256_checksum payload;
  checksum_ok = sent == mod256_checksum payload;
}

pub length-frame :
    (junk payload : Bytes) (sent : ℕ) (rest : Bytes)
    → length (frame junk payload sent rest) ≡ length junk + length payload + 4 + length rest
unfolding hex_byte
length-frame junk payload sent rest = omega (
  arith,
  length-append junk (packet_leader ∷ (payload ++ packet_trailer ∷ (hex_byte sent ++ rest))),
  length-append payload (packet_trailer ∷ (hex_byte sent ++ rest)),
)

take_two-hex_byte : (sent : ℕ) (rest : Bytes) → take 2 (hex_byte sent ++ rest) ≡ hex_byte sent
unfolding hex_byte
take_two-hex_byte sent rest = refl

parse_checksum-frame :
    (p : GdbPacket) (junk payload : Bytes) (sent : ℕ) (rest : Bytes)
    → sent < 256
    → parse_checksum p (frame junk payload sent rest) (length junk + 1) (length payload)
      ≡ (length junk + length payload + 4, received payload sent)
unfolding parse_checksum
parse_checksum-frame p junk payload sent rest h =
    let tail = packet_trailer ∷ (hex_byte sent ++ rest) in
    let body : drop (length junk + 1) (frame junk payload sent rest) ≡ payload ++ tail =
      drop-suc_append junk packet_leader (payload ++ tail) in
    let digits_at : drop (length junk + 1 + length payload + 1) (frame junk payload sent rest)
        ≡ hex_byte sent ++ rest =
      let e : length junk + 1 + length payload + 1 ≡ (length junk + 1) + (length payload + 1) =
        omega arith in
      rw (e, drop-add (length junk + 1), body, drop-suc_append payload) in
    let enough : ltb
          (length (frame junk payload sent rest) - (length junk + 1) - (length payload + 1)) 2
        ≡ false =
      ground (arith, length-frame junk payload sent rest) in
    rw (enough, parse_checksum)
      (rw (digits_at, take_two-hex_byte, read_checksum-hex_byte sent h, parse_checksum)
        (rw (body, take-length_append payload tail) (ground arith)))

-- `Parse` skips what stands before the first leader, takes a body that has no trailer in it with
-- its two checksum digits, leaves what follows, and marks the packet as sound exactly when the
-- digits are the checksum of the body.
pub parse-frame :
    (p : GdbPacket) (junk payload : Bytes) (sent : ℕ) (rest : Bytes)
    → Lacks packet_leader junk
    → Lacks packet_trailer payload
    → sent < 256
    → parse p (frame junk payload sent rest)
      ≡ (length junk + length payload + 4, received payload sent)
unfolding parse
parse-frame p junk payload sent rest no_leader no_trailer h =
    rw (memchr-Lacks packet_leader junk _ no_leader, parse)
      (rw (drop-suc_append, memchr-Lacks packet_trailer payload _ no_trailer, parse)
        (parse_checksum-frame p junk payload sent rest h))

pub drop-frame :
    (payload : Bytes) (sent : ℕ) (rest : Bytes)
    → drop (length payload + 4) (frame [] payload sent rest) ≡ rest
unfolding hex_byte
drop-frame payload sent rest =
    let tail = packet_trailer ∷ hex_byte sent in
    rw (← append_assoc payload tail rest) (
      drop_of_length (length payload + 4) (packet_leader ∷ (payload ++ tail)) rest
        (omega (arith, length-append payload tail)))

parse_checksum-le :
    (p : GdbPacket) (buffer : Bytes) (body_start body_size : ℕ)
    → (parse_checksum p buffer body_start body_size).0 ≤ length buffer
unfolding parse_checksum
parse_checksum-le p buffer body_start body_size = ground arith

-- No call of `Parse` consumes more than it was given.
pub parse-le : (p : GdbPacket) (buffer : Bytes) → (parse p buffer).0 ≤ length buffer
unfolding parse
parse-le p buffer = elim (Option-cases (memchr packet_leader buffer)) [
  | inl absent ↦ rw (absent, parse) (omega arith)
  | inr (i, found) ↦
      rw (found, parse)
        (elim (Option-cases (memchr packet_trailer (drop (i + 1) buffer))) [
          | inl absent ↦ rw (absent, parse) (omega arith)
          | inr (j, ended) ↦ rw (ended, parse) (parse_checksum-le p buffer (i + 1) j)
        ])
]

parse_checksum-unchanged :
    (p : GdbPacket) (buffer : Bytes) (body_start body_size : ℕ)
    → (parse_checksum p buffer body_start body_size).0 ≡ 0
    → (parse_checksum p buffer body_start body_size).1 ≡ p
unfolding parse_checksum
parse_checksum-unchanged p buffer body_start body_size = ground arith

-- Where `Parse` consumes nothing, because a part of the packet is still missing, it leaves the
-- packet as it was.
pub parse_unchanged :
    (p : GdbPacket) (buffer : Bytes) → (parse p buffer).0 ≡ 0 → (parse p buffer).1 ≡ p
unfolding parse
parse_unchanged p buffer = elim (Option-cases (memchr packet_leader buffer)) [
  | inl absent ↦ rw (absent, parse) (λ _. refl)
  | inr (i, found) ↦
      rw (found, parse)
        (elim (Option-cases (memchr packet_trailer (drop (i + 1) buffer))) [
          | inl absent ↦ rw (absent, parse) (λ _. refl)
          | inr (j, ended) ↦ rw (ended, parse) (parse_checksum-unchanged p buffer (i + 1) j)
        ])
]

-- Whatever its body, as long as that has no `#`, a packet is read back from the unescaped bytes of
-- its serialized form, with its checksum confirmed and nothing left over.
pub parse-serialize :
    (p : GdbPacket) (payload : Bytes)
    → Lacks packet_trailer payload
    → parse p (unescape_buffer (serialize (make payload)) []).1
      ≡ (length payload + 4, record (make payload) { checksum_ok = true })
unfolding make
parse-serialize p payload h = rw (unescape_buffer-serialize payload []) (
    rw (← append-nil (hex_byte (mod256_checksum payload))) (
      parse-frame p [] payload (mod256_checksum payload) [] tt h (mod256_checksum-lt payload)
      ∙ ground arith))

-- A frame whose two checksum bytes are `x` and `y`.
abbrev pub raw_frame : Bytes → Bytes → ℕ → ℕ → Bytes → Bytes
raw_frame junk payload x y rest = junk ++ packet_leader ∷ (payload ++ packet_trailer ∷ x ∷ y ∷ rest)

parse_checksum-raw_frame :
    (p : GdbPacket) (junk payload : Bytes) (x y : ℕ) (rest : Bytes)
    → read_checksum (x ∷ y ∷ []) ≡ none
    → parse_checksum p (raw_frame junk payload x y rest) (length junk + 1) (length payload)
      ≡ (length junk + length payload + 2, p)
unfolding parse_checksum
parse_checksum-raw_frame p junk payload x y rest h =
    let tail = packet_trailer ∷ x ∷ y ∷ rest in
    let body : drop (length junk + 1) (raw_frame junk payload x y rest) ≡ payload ++ tail =
      drop-suc_append junk packet_leader (payload ++ tail) in
    let digits_at : drop (length junk + 1 + length payload + 1) (raw_frame junk payload x y rest)
        ≡ x ∷ y ∷ rest =
      let e : length junk + 1 + length payload + 1 ≡ (length junk + 1) + (length payload + 1) =
        omega arith in
      rw (e, drop-add (length junk + 1), body, drop-suc_append payload) in
    let enough : ltb
          (length (raw_frame junk payload x y rest) - (length junk + 1) - (length payload + 1)) 2
        ≡ false =
      ground (
        arith,
        length-append junk (packet_leader ∷ (payload ++ tail)),
        length-append payload tail,
      ) in
    rw (enough, parse_checksum) (rw (digits_at, h, parse_checksum) (ground arith))

-- Where no leader stands in front of the frame, its body has no trailer, and the two bytes behind
-- the trailer are not a number, `Parse` consumes the frame through the
-- trailer and leaves the packet as it was.
pub parse-raw_frame :
    (p : GdbPacket) (junk payload : Bytes) (x y : ℕ) (rest : Bytes)
    → Lacks packet_leader junk
    → Lacks packet_trailer payload
    → read_checksum (x ∷ y ∷ []) ≡ none
    → parse p (raw_frame junk payload x y rest) ≡ (length junk + length payload + 2, p)
unfolding parse
parse-raw_frame p junk payload x y rest no_leader no_trailer h =
    rw (memchr-Lacks packet_leader junk _ no_leader, parse)
      (rw (drop-suc_append, memchr-Lacks packet_trailer payload _ no_trailer, parse)
        (parse_checksum-raw_frame p junk payload x y rest h))
