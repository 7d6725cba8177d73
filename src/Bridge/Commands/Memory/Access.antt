-- ===== src/Bridge/Commands/Memory/Access.antt =====
-- The memory commands of GDB, as it writes them, through `HandlePacket` of
-- src/xbox/bridge/gdb_bridge.cpp.
use xbdm_gdb_bridge.Prelude.{
  Bytes, Option, ap, ap₂, arith, drop, drop-suc_append, false, leb, length, length-append, refl,
  some, suc, take-length_append, ℕ, ◌++◌, ◌+◌, ◌-◌, ◌<◌, ◌==◌, ◌^◌, ◌∙◌, ◌∷◌, ◌≡◌,
}
use xbdm_gdb_bridge.Cstd.{memchr}
use xbdm_gdb_bridge.Cstd.Laws.{memchr-Lacks}
use xbdm_gdb_bridge.Bridge.Interface.{Boost, Debugger}
use xbdm_gdb_bridge.Bridge.State.{GdbBridge, maybe_parse_hex_int, print_hex, with_debugger}
use xbdm_gdb_bridge.Bridge.Numbers.{comma-IsNoDigit, maybe_parse_hex_int-print_hex, print_hex-Lacks}
use xbdm_gdb_bridge.Gdb.Packet.{find_first, make}
use xbdm_gdb_bridge.Bridge.Commands.Memory.{
  handle_read_memory, handle_write_memory, handle_write_memory_binary, memory_reply, offset_of,
  read_memory_at, slice,
}
use xbdm_gdb_bridge.Bridge.Commands.Dispatch.{handle_packet}

-- `m` of an address and a size.
unfoldable pub read_request : ℕ → ℕ → Bytes
unfolding print_hex
read_request address size = b'm' ∷ (print_hex address ++ b',' ∷ print_hex size)

-- `M` or `X` of an address, a size and a text.
unfoldable pub write_request : ℕ → ℕ → ℕ → Bytes → Bytes
unfolding print_hex
write_request letter address size text =
    letter ∷ (print_hex address ++ b',' ∷ (print_hex size ++ b':' ∷ text))

pub find_first-at :
    (payload : Bytes) (c i : ℕ) → memchr c payload ≡ some i → offset_of c payload ≡ i
unfolding find_first
find_first-at payload c i e = rw (find_first, e) refl

-- Where the comma behind an address stands.
pub comma_at :
    (letter address : ℕ) (rest : Bytes)
    → (letter == b',') ≡ false
    → offset_of b',' (letter ∷ (print_hex address ++ b',' ∷ rest))
      ≡ length (letter ∷ print_hex address)
comma_at letter address rest other =
    find_first-at (letter ∷ (print_hex address ++ b',' ∷ rest)) b','
      (length (letter ∷ print_hex address))
      (memchr-Lacks b',' (letter ∷ print_hex address) rest
        (other, print_hex-Lacks b',' address comma-IsNoDigit))

-- The address in front of it.
pub address_slice :
    (letter address : ℕ) (rest : Bytes)
    → slice 1 (length (letter ∷ print_hex address)) (letter ∷ (print_hex address ++ b',' ∷ rest))
      ≡ print_hex address
address_slice letter address rest =
    let e : suc (length (print_hex address)) - 1 ≡ length (print_hex address) = omega arith in
    rw e (take-length_append (print_hex address) (b',' ∷ rest))

-- The end of the text is behind its front.
pub not_past :
    (front : Bytes) (c : ℕ) (rest : Bytes) → leb (length (front ++ c ∷ rest)) (length front) ≡ false
not_past front c rest =
    let e : length (front ++ c ∷ rest) ≡ length front + length (c ∷ rest) =
      length-append front (c ∷ rest) in
    rw e (ground arith)

pub parsed_back : (n : ℕ) → n < 2 ^ 32 → maybe_parse_hex_int 32 (print_hex n) ≡ some n
parsed_back n h = maybe_parse_hex_int-print_hex 32 n (omega (arith, h)) (omega (arith, h))

module _ {D : Type 0} (boost : Boost) (debugger : Debugger D) where
  -- Behind the test of the comma.
  handle_read_memory-split :
      (payload : Bytes) (split : ℕ) (b : GdbBridge D)
      → offset_of b',' payload ≡ split
      → leb (length payload) split ≡ false
      → handle_read_memory boost debugger payload b
        ≡ read_memory_at boost debugger
            (maybe_parse_hex_int 32 (slice 1 split payload))
            (maybe_parse_hex_int 32 (drop (split + 1) payload))
            b
  unfolding handle_read_memory
  handle_read_memory-split payload split b at within = rw (handle_read_memory, at, within) refl

  pub read_memory_at-answer :
      (address size : ℕ) (memory : Option Bytes) (d : D) (b : GdbBridge D)
      → debugger.get_memory address size b.debugger ≡ (memory, d)
      → read_memory_at boost debugger (some address) (some size) b
        ≡ memory_reply boost debugger memory (with_debugger d b)
  unfolding read_memory_at
  read_memory_at-answer address size memory d b e =
      ap (λ r. memory_reply boost debugger r.0 (with_debugger r.1 b)) e

  -- A read request asks the debugger for its memory.
  pub handle_read_memory-request :
      (address size : ℕ) (b : GdbBridge D)
      → address < 2 ^ 32
      → size < 2 ^ 32
      → handle_read_memory boost debugger (read_request address size) b
        ≡ read_memory_at boost debugger (some address) (some size) b
  unfolding read_request
  handle_read_memory-request address size b h k =
      let front = b'm' ∷ print_hex address in
      handle_read_memory-split (read_request address size) (length front) b
        (comma_at b'm' address (print_hex size) refl) (not_past front b',' (print_hex size))
      ∙ ap₂ (λ a n. read_memory_at boost debugger a n b)
          (ap (maybe_parse_hex_int 32) (address_slice b'm' address (print_hex size))
            ∙ parsed_back address h)
          (ap (maybe_parse_hex_int 32) (drop-suc_append front b',' (print_hex size))
            ∙ parsed_back size k)

  module _ (target_xml : Bytes) (swap : ℕ → ℕ) where
    pub dispatch_read :
        (rest : Bytes) (b : GdbBridge D)
        → handle_packet boost debugger target_xml swap (make (b'm' ∷ rest)) b
          ≡ handle_read_memory boost debugger (b'm' ∷ rest) b
    unfolding handle_packet
    dispatch_read rest b = refl

    pub dispatch_write_hex :
        (rest : Bytes) (b : GdbBridge D)
        → handle_packet boost debugger target_xml swap (make (b'M' ∷ rest)) b
          ≡ handle_write_memory boost debugger (b'M' ∷ rest) b
    unfolding handle_packet
    dispatch_write_hex rest b = refl

    pub dispatch_write :
        (rest : Bytes) (b : GdbBridge D)
        → handle_packet boost debugger target_xml swap (make (b'X' ∷ rest)) b
          ≡ handle_write_memory_binary boost debugger (b'X' ∷ rest) b
    unfolding handle_packet
    dispatch_write rest b = refl
