-- ===== src/Bridge/Commands/Memory/RoundTrip.antt =====
-- Writing memory and reading it back through `HandlePacket` of src/xbox/bridge/gdb_bridge.cpp.
use xbdm_gdb_bridge.Prelude.{
  Bytes, [], ap, append_assoc, ap₂, arith, drop, drop-suc_append, false, leb, length, length-append,
  ltb, refl, some, suc, sym, take-length_append, ℕ, ◌++◌, ◌+◌, ◌-◌, ◌<◌, ◌==◌, ◌^◌, ◌∙◌, ◌∷◌, ◌≡◌,
}
use xbdm_gdb_bridge.Cstd.{memchr}
use xbdm_gdb_bridge.Cstd.Laws.{Lacks, memchr-Lacks}
use xbdm_gdb_bridge.Bridge.Interface.{Boost, Debugger}
use xbdm_gdb_bridge.Bridge.State.{GdbBridge, Handled, maybe_parse_hex_int, print_hex}
use xbdm_gdb_bridge.Bridge.Numbers.{colon-IsNoDigit, print_hex-Lacks}
use xbdm_gdb_bridge.Bridge.Commands.Memory.{offset_of, slice, write_memory_with, write_sized}
use xbdm_gdb_bridge.Bridge.Commands.Memory.Access.{
  address_slice, comma_at, find_first-at, not_past, parsed_back, write_request,
}

-- What stands in front of the data of a write request.
abbrev write_front : ℕ → ℕ → ℕ → Bytes
write_front letter address size = letter ∷ (print_hex address ++ b',' ∷ print_hex size)

write_request-front :
    (letter address size : ℕ) (text : Bytes)
    → write_request letter address size text ≡ write_front letter address size ++ b':' ∷ text
unfolding write_request
write_request-front letter address size text =
    ap (◌∷◌ letter) (sym (append_assoc (print_hex address) (b',' ∷ print_hex size) (b':' ∷ text)))

Lacks-append : (c : ℕ) (xs ys : Bytes) → Lacks c xs → Lacks c ys → Lacks c (xs ++ ys)
Lacks-append c [] ys hx hy = hy
Lacks-append c (x ∷ xs) ys hx hy = (hx.0, Lacks-append c xs ys hx.1 hy)

write_front-Lacks :
    (letter address size : ℕ)
    → (letter == b':') ≡ false
    → Lacks b':' (write_front letter address size)
write_front-Lacks letter address size other = (
  other,
  Lacks-append b':' (print_hex address) (b',' ∷ print_hex size)
      (print_hex-Lacks b':' address colon-IsNoDigit)
      (refl, print_hex-Lacks b':' size colon-IsNoDigit),
)

colon_at :
    (letter address size : ℕ) (text : Bytes)
    → (letter == b':') ≡ false
    → offset_of b':' (write_request letter address size text)
      ≡ length (write_front letter address size)
colon_at letter address size text other =
    find_first-at (write_request letter address size text) b':'
      (length (write_front letter address size))
      (ap (memchr b':') (write_request-front letter address size text)
        ∙ memchr-Lacks b':' (write_front letter address size) text
            (write_front-Lacks letter address size other))

write_comma_at :
    (letter address size : ℕ) (text : Bytes)
    → (letter == b',') ≡ false
    → offset_of b',' (write_request letter address size text) ≡ length (letter ∷ print_hex address)
unfolding write_request
write_comma_at letter address size text other =
    comma_at letter address (print_hex size ++ b':' ∷ text) other

-- The text of the size, between the comma and the colon.
size_slice :
    (letter address size : ℕ) (text : Bytes)
    → slice
        (length (letter ∷ print_hex address) + 1)
        (length (write_front letter address size))
        (write_request letter address size text)
      ≡ print_hex size
unfolding write_request
size_slice letter address size text =
    let front = letter ∷ print_hex address in
    let count : length (write_front letter address size) - (length front + 1)
        ≡ length (print_hex size) =
      omega (arith, length-append front (b',' ∷ print_hex size)) in
    rw (count, drop-suc_append front b',' (print_hex size ++ b':' ∷ text))
      (take-length_append (print_hex size) (b':' ∷ text))

write_address_slice :
    (letter address size : ℕ) (text : Bytes)
    → slice 1 (length (letter ∷ print_hex address)) (write_request letter address size text)
      ≡ print_hex address
unfolding write_request
write_address_slice letter address size text =
    address_slice letter address (print_hex size ++ b':' ∷ text)

data_behind :
    (letter address size : ℕ) (text : Bytes)
    → drop (length (write_front letter address size) + 1) (write_request letter address size text)
      ≡ text
data_behind letter address size text =
    ap (drop (length (write_front letter address size) + 1))
      (write_request-front letter address size text)
    ∙ drop-suc_append (write_front letter address size) b':' text

has_colon :
    (letter address size : ℕ) (text : Bytes)
    → leb
        (length (write_request letter address size text))
        (length (write_front letter address size))
      ≡ false
has_colon letter address size text =
    ap (λ xs. leb (length xs) (length (write_front letter address size)))
      (write_request-front letter address size text)
    ∙ not_past (write_front letter address size) b':' text

in_order :
    (letter address size : ℕ)
    → ltb (length (write_front letter address size)) (length (letter ∷ print_hex address) + 1)
      ≡ false
in_order letter address size =
    let front = letter ∷ print_hex address in
    let e : length (write_front letter address size)
        ≡ length front + suc (length (print_hex size)) =
      length-append front (b',' ∷ print_hex size) in
    rw e (ground arith)

module _ {D : Type 0} (boost : Boost) (debugger : Debugger D) where
  write_memory_with-split :
      (store : Bytes → ℕ → ℕ → GdbBridge D → Handled D) (payload : Bytes) (comma colon : ℕ)
      (b : GdbBridge D)
      → offset_of b',' payload ≡ comma
      → offset_of b':' payload ≡ colon
      → ltb colon (comma + 1) ≡ false
      → write_memory_with boost debugger store payload b
        ≡ write_sized boost debugger store
            (maybe_parse_hex_int 32 (slice (comma + 1) colon payload))
            (maybe_parse_hex_int 32 (slice 1 comma payload))
            (leb (length payload) colon)
            (drop (colon + 1) payload)
            b
  unfolding write_memory_with
  write_memory_with-split store payload comma colon b at at' order =
      rw (write_memory_with, at, at', order) refl

  write_sized-stores :
      (store : Bytes → ℕ → ℕ → GdbBridge D → Handled D) (text : Bytes) (address size : ℕ)
      (b : GdbBridge D)
      → write_sized boost debugger store (some size) (some address) false text b
        ≡ store text address size b
  unfolding write_sized
  write_sized-stores store text address size b = refl

  -- A write request is taken apart into its address, its size and its text.
  pub write_memory_with-request :
      (store : Bytes → ℕ → ℕ → GdbBridge D → Handled D) (letter address size : ℕ) (text : Bytes)
      (b : GdbBridge D)
      → (letter == b',') ≡ false
      → (letter == b':') ≡ false
      → address < 2 ^ 32
      → size < 2 ^ 32
      → write_memory_with boost debugger store (write_request letter address size text) b
        ≡ store text address size b
  write_memory_with-request store letter address size text b no_comma no_colon h k =
      let colon = length (write_front letter address size) in
      let request = write_request letter address size text in
      write_memory_with-split store request (length (letter ∷ print_hex address)) colon b
        (write_comma_at letter address size text no_comma)
        (colon_at letter address size text no_colon) (in_order letter address size)
      ∙ (ap₂
            (λ n a.
              write_sized boost debugger store n a (leb (length request) colon)
                (drop (colon + 1) request) b)
            (ap (maybe_parse_hex_int 32) (size_slice letter address size text) ∙ parsed_back size k)
            (ap (maybe_parse_hex_int 32) (write_address_slice letter address size text)
              ∙ parsed_back address h)
          ∙ (ap₂
                (λ past behind.
                  write_sized boost debugger store (some size) (some address) past behind b)
                (has_colon letter address size text) (data_behind letter address size text)
              ∙ write_sized-stores store text address size b))
