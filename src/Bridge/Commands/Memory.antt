-- ===== src/Bridge/Commands/Memory.antt =====
-- `HandleReadMemory`, `HandleWriteMemory` and `HandleWriteMemoryBinary` of
-- src/xbox/bridge/gdb_bridge.cpp.
pub mod Access
pub mod RoundTrip
pub mod Coherence
use xbdm_gdb_bridge.Prelude.{
  Bool, Bytes, Option, [], drop, false, if◌then◌else◌, leb, length, ltb, none, some, take, true, ℕ,
  ◌+◌, ◌-◌, ◌==◌, ◌∷◌,
}
use xbdm_gdb_bridge.Bridge.Interface.{Boost, Debugger}
use xbdm_gdb_bridge.Bridge.State.{
  GdbBridge, Handled, ebadmsg, efault, exception_thrown, handled, maybe_parse_hex_int, reply,
  send_error, send_ok, undefined_behaviour, with_debugger,
}
use xbdm_gdb_bridge.Gdb.Packet.{empty_packet, find_first}

-- The offset that `FindFirst` returns.
abbrev pub offset_of : ℕ → Bytes → ℕ
offset_of c payload = find_first (record empty_packet { payload = payload }) c

-- The bytes between two offsets.
abbrev pub slice : ℕ → ℕ → Bytes → Bytes
slice start end_offset bytes = take (end_offset - start) (drop start bytes)

module _ {D : Type 0} (boost : Boost) (debugger : Debugger D) where
  unfoldable pub memory_reply : Option Bytes → GdbBridge D → Handled D
  unfolding reply send_error
  memory_reply none b = handled (send_error efault b)
  memory_reply (some memory) b = handled (reply (boost.hex memory) b)

  unfoldable pub read_memory_at : Option ℕ → Option ℕ → GdbBridge D → Handled D
  unfolding memory_reply send_error
  read_memory_at none size b = handled (send_error ebadmsg b)
  read_memory_at (some address) none b = handled (send_error ebadmsg b)
  read_memory_at (some address) (some size) b =
      let (memory, d) = debugger.get_memory address size b.debugger in
      memory_reply memory (with_debugger d b)

  -- `HandleReadMemory`: without a comma the length would start behind the end.
  unfoldable pub handle_read_memory : Bytes → GdbBridge D → Handled D
  unfolding read_memory_at find_first maybe_parse_hex_int
  handle_read_memory payload b =
      let split = offset_of b',' payload in
      if leb (length payload) split
      then undefined_behaviour
      else read_memory_at (maybe_parse_hex_int 32 (slice 1 split payload))
          (maybe_parse_hex_int 32 (drop (split + 1) payload)) b

  unfoldable pub set_memory_reply : Bool × D → GdbBridge D → Handled D
  unfolding send_ok send_error
  set_memory_reply (true, d) b = handled (send_ok (with_debugger d b))
  set_memory_reply (false, d) b = handled (send_error efault (with_debugger d b))

  -- Behind the parsing of the address: the size is that of the data.
  unfoldable pub store_memory : ℕ → ℕ → Bytes → GdbBridge D → Handled D
  unfolding set_memory_reply
  store_memory address size bytes b =
      if length bytes == size
      then set_memory_reply (debugger.set_memory address bytes b.debugger) b
      else handled (send_error ebadmsg b)

  -- `data` is a vector without elements, so that the first byte that is written to its start lies
  -- behind its end; without one, `unhex` throws or there are no data.
  unfoldable pub unhexed : Bytes × Bool → ℕ → ℕ → GdbBridge D → Handled D
  unfolding store_memory
  unhexed ([], false) address size b = store_memory address size [] b
  unhexed ([], true) address size b = exception_thrown
  unhexed (c ∷ cs, throws) address size b = undefined_behaviour

  unfoldable pub unhex_into_empty : Bytes → ℕ → ℕ → GdbBridge D → Handled D
  unfolding unhexed
  unhex_into_empty text address size b = unhexed (boost.unhex text) address size b

  -- Behind the parsing of the size and the address; whether the colon is missing, and what follows
  -- it.
  unfoldable pub write_sized :
      (Bytes → ℕ → ℕ → GdbBridge D → Handled D)
      → Option ℕ
      → Option ℕ
      → Bool
      → Bytes
      → GdbBridge D
      → Handled D
  unfolding send_ok send_error
  write_sized store none address no_colon bytes b = handled (send_ok b)
  write_sized store (some size) none no_colon bytes b = handled (send_error ebadmsg b)
  write_sized store (some size) (some address) true bytes b = undefined_behaviour
  write_sized store (some size) (some address) false bytes b = store bytes address size b

  -- What the two handlers share; `store` takes the text behind the colon.
  unfoldable pub write_memory_with :
      (Bytes → ℕ → ℕ → GdbBridge D → Handled D) → Bytes → GdbBridge D → Handled D
  unfolding find_first maybe_parse_hex_int write_sized
  write_memory_with store payload b =
      let place_data_split = offset_of b':' payload in
      let address_length_split = offset_of b',' payload in
      if ltb place_data_split (address_length_split + 1)
      then undefined_behaviour
      else write_sized store
          (maybe_parse_hex_int 32 (slice (address_length_split + 1) place_data_split payload))
          (maybe_parse_hex_int 32 (slice 1 address_length_split payload))
          (leb (length payload) place_data_split) (drop (place_data_split + 1) payload) b

  -- `HandleWriteMemory`.
  unfoldable pub handle_write_memory : Bytes → GdbBridge D → Handled D
  unfolding write_memory_with unhex_into_empty
  handle_write_memory payload b = write_memory_with unhex_into_empty payload b

  -- `HandleWriteMemoryBinary`.
  unfoldable pub handle_write_memory_binary : Bytes → GdbBridge D → Handled D
  unfolding write_memory_with store_memory
  handle_write_memory_binary payload b =
      write_memory_with (λ bytes address size c. store_memory address size bytes c) payload b
