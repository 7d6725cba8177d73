-- ===== src/Gdb/Packet/Escape.antt =====
-- What `UnescapeBuffer` makes of an escaped buffer, and how many bytes it says that it took.
use Prim.Native.Nat.{bit_xor}
use xbdm_gdb_bridge.Prelude.{
  ==_iff, Bool-cases, Bytes, [], ap, append-nil, append_assoc, ap₂, arith, false, if◌then◌else◌,
  inl, inr, length, refl, sym, true, ℕ, ◌*◌, ◌++◌, ◌+◌, ◌-◌, ◌==◌, ◌∙◌, ◌∷◌, ◌≡◌, ◌≤◌,
}
use xbdm_gdb_bridge.Cstd.Laws.{Lacks}
use xbdm_gdb_bridge.Cstd.{hex_byte}
use xbdm_gdb_bridge.Gdb.Packet.{
  escape_buffer, is_escaped, make, mod256_checksum, packet_escape_char, packet_leader,
  packet_trailer, serialize, unescape_buffer, unescape_loop,
}

-- The number of bytes of the escape set in a body.
unfoldable pub escapes : Bytes → ℕ
escapes [] = 0
escapes (c ∷ cs) = (if is_escaped c then 1 else 0) + escapes cs

pub escapes-le : (bs : Bytes) → escapes bs ≤ length bs
unfolding escapes
escapes-le [] = omega arith
escapes-le (c ∷ cs) = ground (arith, escapes-le cs)

pub length-escape_buffer : (bs : Bytes) → length (escape_buffer bs) ≡ length bs + escapes bs
unfolding escapes escape_buffer
length-escape_buffer [] = omega arith
length-escape_buffer (c ∷ cs) = ground (arith, length-escape_buffer cs)

-- Flipping bit 5 twice gives a byte of the set back.
bit_xor_twice : (c : ℕ) → is_escaped c ≡ true → bit_xor (bit_xor c 0x20) 0x20 ≡ c
bit_xor_twice c h = elim (Bool-cases (c == packet_escape_char)) [
  | inl e ↦ rw ((==_iff c b'}').0 e)
  | inr n ↦ elim (Bool-cases (c == packet_leader)) [
    | inl e ↦ rw ((==_iff c b'$').0 e)
    | inr m ↦ let e : c ≡ b'#' = ground arith in rw e
  ]
]

unescape_loop-plain :
    (ret c : ℕ) (out rest : Bytes)
    → (c == packet_escape_char) ≡ false
    → unescape_loop ret out (c ∷ rest) ≡ unescape_loop (ret + 1) (out ++ c ∷ []) rest
unfolding unescape_loop
unescape_loop-plain ret c out [] h = rw h
unescape_loop-plain ret c out (d ∷ ds) h = rw (h, unescape_loop)

unescape_loop-escaped :
    (ret d : ℕ) (out rest : Bytes)
    → unescape_loop ret out (packet_escape_char ∷ d ∷ rest)
      ≡ unescape_loop ret (out ++ bit_xor d 0x20 ∷ []) rest
unfolding unescape_loop
unescape_loop-escaped ret d out rest = refl

unescape_loop-escape_buffer :
    (bs : Bytes) (ret : ℕ) (out rest : Bytes)
    → unescape_loop ret out (escape_buffer bs ++ rest)
      ≡ unescape_loop (ret + (length bs - escapes bs)) (out ++ bs) rest
unfolding escape_buffer escapes
unescape_loop-escape_buffer [] ret out rest =
    ap₂ (λ n o. unescape_loop n o rest) (omega arith) (sym (append-nil out))
unescape_loop-escape_buffer (c ∷ cs) ret out rest = elim (Bool-cases (is_escaped c)) [
  | inl special ↦ rw special (
      unescape_loop-escaped ret (bit_xor c 0x20) out (escape_buffer cs ++ rest)
      ∙ rw (bit_xor_twice c special) (
          unescape_loop-escape_buffer cs ret (out ++ c ∷ []) rest
          ∙ ap₂ (λ n o. unescape_loop n o rest) (omega arith) (append_assoc out (c ∷ []) cs)))
  | inr plain ↦ rw plain (
      unescape_loop-plain ret c out (escape_buffer cs ++ rest) (ground arith)
      ∙ unescape_loop-escape_buffer cs (ret + 1) (out ++ c ∷ []) rest
      ∙ ap₂ (λ n o. unescape_loop n o rest) (omega (arith, escapes-le cs))
          (append_assoc out (c ∷ []) cs))
]

unescape_buffer-escape_eq :
    (bs out : Bytes) → unescape_buffer (escape_buffer bs) out ≡ (length bs - escapes bs, out ++ bs)
unfolding unescape_buffer unescape_loop
unescape_buffer-escape_eq bs out =
    rw (← append-nil (escape_buffer bs)) (unescape_loop-escape_buffer bs 0 out [] ∙ ground arith)

-- Unescaping what `EscapeBuffer` made of any body appends that body to the output.
pub unescape_buffer-escape_buffer :
    (bs out : Bytes) → (unescape_buffer (escape_buffer bs) out).1 ≡ out ++ bs
unescape_buffer-escape_buffer bs out = ap (λ r. r.1) (unescape_buffer-escape_eq bs out)

-- On an escaped body the count that `UnescapeBuffer` returns falls short of the bytes that it has
-- read by two for each escape.
pub unescape_buffer_shortfall :
    (bs out : Bytes)
    → (unescape_buffer (escape_buffer bs) out).0 + 2 * escapes bs ≡ length (escape_buffer bs)
unescape_buffer_shortfall bs out = omega (
  arith,
  ap (λ r. r.0) (unescape_buffer-escape_eq bs out),
  length-escape_buffer bs,
  escapes-le bs,
)

unescape_loop-Lacks :
    (bs : Bytes) (ret : ℕ) (out : Bytes)
    → Lacks packet_escape_char bs
    → unescape_loop ret out bs ≡ (ret + length bs, out ++ bs)
unescape_loop-Lacks [] ret out h = unfold unescape_loop in ground (arith, append-nil out)
unescape_loop-Lacks (c ∷ cs) ret out h =
    unescape_loop-plain ret c out cs h.0
    ∙ unescape_loop-Lacks cs (ret + 1) (out ++ c ∷ []) h.1
    ∙ ground (arith, append_assoc out (c ∷ []) cs)

-- A buffer without an escape is copied whole, and counted whole.
pub unescape_buffer-Lacks :
    (bs out : Bytes) → Lacks packet_escape_char bs → unescape_buffer bs out ≡ (length bs, out ++ bs)
unfolding unescape_buffer
unescape_buffer-Lacks bs out h = unescape_loop-Lacks bs 0 out h ∙ ground arith

-- A body without a byte of the set is escaped to itself.
pub escape_buffer-zero : (bs : Bytes) → escapes bs ≡ 0 → escape_buffer bs ≡ bs
unfolding escapes escape_buffer
escape_buffer-zero [] h = refl
escape_buffer-zero (c ∷ cs) h = ground (arith, escape_buffer-zero cs)

pub escapes-Lacks :
    (bs : Bytes)
    → escapes bs ≡ 0
    → Lacks packet_escape_char bs × Lacks packet_leader bs × Lacks packet_trailer bs
unfolding escapes
escapes-Lacks [] h = (tt, tt, tt)
escapes-Lacks (c ∷ cs) h = ground (arith, escapes-Lacks cs)

hex_byte-Lacks : (b : ℕ) → Lacks packet_escape_char (hex_byte b)
unfolding hex_byte
hex_byte-Lacks b = ground arith

-- A serialized packet, unescaped: its body as it was, and a count that is short by two for each
-- escape.
pub unescape_buffer-serialize :
    (payload out : Bytes)
    → unescape_buffer (serialize (make payload)) out ≡ (
      length payload - escapes payload + 4,
      out ++ packet_leader ∷ (payload ++ packet_trailer ∷ hex_byte (mod256_checksum payload)),
    )
unfolding unescape_buffer serialize make
unescape_buffer-serialize payload out =
    let tail = packet_trailer ∷ hex_byte (mod256_checksum payload) in
    unescape_loop-plain 0 packet_leader out (escape_buffer payload ++ tail) refl
    ∙ unescape_loop-escape_buffer payload 1 (out ++ packet_leader ∷ []) tail
    ∙ unescape_loop-Lacks tail (1 + (length payload - escapes payload))
        ((out ++ packet_leader ∷ []) ++ payload) (refl, hex_byte-Lacks (mod256_checksum payload))
    ∙ rw
        (
          append_assoc (out ++ packet_leader ∷ []) payload tail,
          append_assoc out (packet_leader ∷ []) (payload ++ tail),
        )
        (unfold hex_byte in ground arith)
