-- ===== src/Bridge/Commands/RegisterAccess.antt =====
-- `HandleReadGeneralRegisters`, `HandleReadRegister` and `HandleWriteRegister` of
-- src/xbox/bridge/gdb_bridge.cpp.
use xbdm_gdb_bridge.Prelude.{
  Bool, Bytes, Option, drop, false, if◌then◌else◌, leb, length, ltb, none, some, true, ℕ, ◌%◌, ◌+◌,
  ◌==◌, ◌^◌, ◌||◌,
}
use xbdm_gdb_bridge.Bridge.Interface.{Debugger, Thread}
use xbdm_gdb_bridge.Bridge.State.{
  GdbBridge, Handled, ebadmsg, ebusy, einval, handled, is_negative, maybe_parse_hex_int, minus_one,
  print_hex, reply, send_empty, send_error, send_ok, undefined_behaviour, with_debugger,
}
use xbdm_gdb_bridge.Bridge.Registers.{
  Fetched, fetched, float_register_offset, get_register, no_float_context, set_float_register,
  set_register,
}
use xbdm_gdb_bridge.Bridge.Serialize.{serialize_registers}
use xbdm_gdb_bridge.Gdb.Packet.{command, find_first}
use xbdm_gdb_bridge.Types.ThreadContext.{ThreadContext, ThreadFloatContext}
use xbdm_gdb_bridge.Bridge.Commands.Memory.{offset_of}
use xbdm_gdb_bridge.Bridge.Commands.Threads.{get_thread_id_for_command}

-- The contexts of a thread that the debugger holds.
abbrev pub context_of : Option Thread → Option ThreadContext
context_of none = none
context_of (some thread) = thread.context

abbrev pub float_context_of : Option Thread → Option ThreadFloatContext
float_context_of none = none
float_context_of (some thread) = thread.float_context

-- `register_index < FLOAT_REGISTER_OFFSET`, of 32-bit patterns.
abbrev pub is_context_index : ℕ → Bool
is_context_index index = ltb index float_register_offset || is_negative index

module _ {D : Type 0} (debugger : Debugger D) where
  -- The id that `AnyThreadID` gives, or -1, in place of 0.
  unfoldable pub resolve_thread : ℕ → D → ℕ
  resolve_thread thread_id d =
      if thread_id == 0
      then elim (debugger.any_thread_id d) [ none ↦ minus_one | some id ↦ id ]
      else thread_id

  unfoldable pub with_found : Option Thread → (GdbBridge D → Handled D) → GdbBridge D → Handled D
  unfolding send_error
  with_found none k b = handled (send_error ebadmsg b)
  with_found (some thread) k b = k b

  -- How the three handlers find the thread for their command.
  unfoldable pub with_thread : ℕ → (ℕ → GdbBridge D → Handled D) → GdbBridge D → Handled D
  unfolding get_thread_id_for_command send_empty resolve_thread with_found
  with_thread command k b =
      let thread_id = get_thread_id_for_command command b in
      let found = resolve_thread thread_id b.debugger in
      if is_negative thread_id
      then handled (send_empty b)
      else with_found (debugger.get_thread found b.debugger) (k found) b

  unfoldable pub when_done : Bool × D → (GdbBridge D → Handled D) → GdbBridge D → Handled D
  unfolding send_error
  when_done (false, d) k b = handled (send_error ebusy (with_debugger d b))
  when_done (true, d) k b = k (with_debugger d b)

  module _ (swap : ℕ → ℕ) where
    unfoldable pub send_general_registers : ℕ → GdbBridge D → Handled D
    unfolding reply serialize_registers
    send_general_registers thread_id b =
        let d = (debugger.fetch_float_context thread_id b.debugger).1 in
        let thread = debugger.get_thread thread_id d in
        handled (
          reply (serialize_registers swap (context_of thread) (float_context_of thread))
            (with_debugger d b))

    -- `HandleReadGeneralRegisters`; the byte swap is that of `SerializeRegisters`.
    unfoldable pub handle_read_general_registers : ℕ → GdbBridge D → Handled D
    unfolding with_thread when_done send_general_registers
    handle_read_general_registers command b =
        with_thread command
          (λ id c. when_done (debugger.fetch_context id c.debugger) (send_general_registers id) c) b

  unfoldable pub send_register : Fetched → GdbBridge D → Handled D
  unfolding send_empty reply print_hex
  send_register no_float_context b = undefined_behaviour
  send_register (fetched none) b = handled (send_empty b)
  send_register (fetched (some value)) b = handled (reply (print_hex value) b)

  unfoldable pub read_register : ℕ → ℕ → GdbBridge D → Handled D
  unfolding send_register get_register
  read_register index thread_id b =
      let thread = debugger.get_thread thread_id b.debugger in
      send_register (get_register index (context_of thread) (float_context_of thread)) b

  unfoldable pub fetch_and_read : ℕ → ℕ → GdbBridge D → Handled D
  unfolding when_done read_register
  fetch_and_read index thread_id b =
      if is_context_index index
      then when_done (debugger.fetch_context thread_id b.debugger) (read_register index thread_id) b
      else read_register index thread_id
          (with_debugger (debugger.fetch_float_context thread_id b.debugger).1 b)

  -- `HandleReadRegister`.
  unfoldable pub handle_read_register : ℕ → Bytes → GdbBridge D → Handled D
  unfolding with_thread fetch_and_read maybe_parse_hex_int send_error
  handle_read_register command payload b = elim (maybe_parse_hex_int 32 (drop 1 payload)) [
    | none ↦ handled (send_error einval b)
    | some index ↦ with_thread command (fetch_and_read index) b
  ]

  -- The context that `SetRegister` leaves is stored, and pushed if it answers true.
  unfoldable pub write_context : ℕ → Bool × Option ThreadContext → GdbBridge D → Handled D
  unfolding send_error when_done send_ok
  write_context thread_id (false, context) b = handled (send_error ebusy b)
  write_context thread_id (true, context) b =
      when_done
        (debugger.push_context thread_id (debugger.store_context thread_id context b.debugger))
        (λ c. handled (send_ok c)) b

  unfoldable pub write_float_context :
      ℕ → Bool × Option ThreadFloatContext → GdbBridge D → Handled D
  unfolding send_error when_done send_ok
  write_float_context thread_id (false, context) b = handled (send_error ebusy b)
  write_float_context thread_id (true, context) b =
      when_done
        (debugger.push_float_context thread_id
          (debugger.store_float_context thread_id context b.debugger))
        (λ c. handled (send_ok c)) b

  unfoldable pub write_register : ℕ → ℕ → ℕ → GdbBridge D → Handled D
  unfolding set_register write_context
  write_register index value thread_id b =
      write_context thread_id
        (set_register index (value % 2 ^ 32)
          (context_of (debugger.get_thread thread_id b.debugger)))
        b

  unfoldable pub write_float_register : ℕ → ℕ → ℕ → GdbBridge D → Handled D
  unfolding set_float_register write_float_context
  write_float_register index value thread_id b =
      write_float_context thread_id
        (set_float_register index value
          (float_context_of (debugger.get_thread thread_id b.debugger)))
        b

  unfoldable pub fetch_and_write : ℕ → ℕ → ℕ → GdbBridge D → Handled D
  unfolding when_done write_register write_float_register
  fetch_and_write index value thread_id b =
      if is_context_index index
      then when_done (debugger.fetch_context thread_id b.debugger)
          (write_register index value thread_id) b
      else write_float_register index value thread_id
          (with_debugger (debugger.fetch_float_context thread_id b.debugger).1 b)

  unfoldable pub write_parsed : ℕ → Option ℕ → Option ℕ → GdbBridge D → Handled D
  unfolding send_error with_thread fetch_and_write
  write_parsed command none value b = handled (send_error einval b)
  write_parsed command (some index) none b = handled (send_error einval b)
  write_parsed command (some index) (some value) b =
      with_thread command (fetch_and_write index value) b

  -- `HandleWriteRegister`.
  unfoldable pub handle_write_register : ℕ → Bytes → GdbBridge D → Handled D
  unfolding write_parsed find_first maybe_parse_hex_int send_error
  handle_write_register command payload b =
      let index_value_split = offset_of b'=' payload in
      if leb (length payload) index_value_split
      then handled (send_error einval b)
      else write_parsed command (maybe_parse_hex_int 32 (drop 1 payload))
          (maybe_parse_hex_int 64 (drop (index_value_split + 1) payload)) b
