-- ===== src/Bridge/Commands/Dispatch.antt =====
-- `HandlePacket` of src/xbox/bridge/gdb_bridge.cpp, `HandleReadQuery`, `HandleWriteQuery`,
-- `HandleExtendedVCommand` and the handlers of commands that are not supported. The answer of
-- `HandlePacket` is always true.
pub mod Unsupported
use xbdm_gdb_bridge.Prelude.{
  Bytes, Option, [], codes, drop, if◌then◌else◌, none, same, some, true, ℕ, ◌==◌, ◌∷◌,
}
use xbdm_gdb_bridge.Bridge.Interface.{Boost, Debugger}
use xbdm_gdb_bridge.Bridge.State.{
  GdbBridge, Handled, handled, reply, send_empty, send_ok, undefined_behaviour,
}
use xbdm_gdb_bridge.Gdb.Packet.{GdbPacket, command, empty_packet, get_first_data_char}
use xbdm_gdb_bridge.Bridge.Commands.Memory.{
  handle_read_memory, handle_write_memory, handle_write_memory_binary,
}
use xbdm_gdb_bridge.Bridge.Commands.Threads.{
  handle_detach, handle_interrupt_request, handle_query_current_thread_id, handle_query_halt_reason,
  handle_select_thread_for_command_group, handle_thread_info_continue, handle_thread_info_start,
}
use xbdm_gdb_bridge.Bridge.Commands.RegisterAccess.{
  handle_read_general_registers, handle_read_register, handle_write_register,
}
use xbdm_gdb_bridge.Bridge.Commands.Breakpoints.{
  handle_insert_breakpoint_type, handle_remove_breakpoint_type,
}
use xbdm_gdb_bridge.Bridge.Commands.Queries.{handle_query_supported, handle_query_thread_extra_info}
use xbdm_gdb_bridge.Bridge.Commands.Features.{handle_features_read}
use xbdm_gdb_bridge.Bridge.Commands.VCont.{handle_vcont}

module _ {D : Type 0} where
  -- The handlers that only send an empty reply: `HandleDeprecatedCommand`, `HandleArgv`,
  -- `HandleContinue` and their like.
  unfoldable pub unsupported_packet : GdbBridge D → Handled D
  unfolding send_empty
  unsupported_packet b = handled (send_empty b)

  -- `HandleBCommandGroup`: `bc` and `bs` are not supported either.
  unfoldable pub handle_b_command_group : Option ℕ → GdbBridge D → Handled D
  unfolding send_empty unsupported_packet
  handle_b_command_group none b = handled (send_empty b)
  handle_b_command_group (some subcommand) b =
      if subcommand == b'c'
      then unsupported_packet b
      else if subcommand == b's'
      then unsupported_packet b
      else unsupported_packet b

  -- `HandleWriteQuery`.
  unfoldable pub handle_write_query : Bytes → GdbBridge D → Handled D
  unfolding send_ok unsupported_packet
  handle_write_query payload b =
      if same payload (codes "QStartNoAckMode")
      then handled (send_ok (record b { transport = record b.transport { no_ack_mode = true } }))
      else unsupported_packet b

module _ {D : Type 0} (boost : Boost) (debugger : Debugger D) where
  -- `HandleExtendedVCommand`; `HandleVContQuery` lists the actions.
  unfoldable pub handle_extended_v_command : Bytes → GdbBridge D → Handled D
  unfolding reply handle_vcont send_empty
  handle_extended_v_command payload b =
      if same payload (codes "vCont?")
      then handled (reply (codes "vCont;c;C;s;S") b)
      else if boost.has_prefix payload (codes "vCont;")
      then handle_vcont debugger boost (drop 6 payload) b
      else handled (send_empty b)

  module _ (target_xml : Bytes) where
    -- `HandleReadQuery`; the query is what follows the `q`.
    unfoldable pub read_query : Bytes → Bytes → GdbBridge D → Handled D
    unfolding reply handle_query_supported handle_query_thread_extra_info handle_thread_info_start
        handle_thread_info_continue send_empty handle_query_current_thread_id handle_features_read
    read_query query payload b =
        if boost.has_prefix query (codes "Attached")
        then handled (reply (codes "1") b)
        else if boost.has_prefix query (codes "Supported")
        then handle_query_supported boost payload b
        else if boost.has_prefix query (codes "ThreadExtraInfo")
        then handle_query_thread_extra_info boost debugger payload b
        else if same query (codes "fThreadInfo")
        then handle_thread_info_start debugger b
        else if same query (codes "sThreadInfo")
        then handle_thread_info_continue b
        else if same query (codes "TStatus")
        then handled (send_empty b)
        else if same query (codes "C")
        then handle_query_current_thread_id debugger b
        else if boost.has_prefix query (codes "Xfer:features:read:")
        then handle_features_read target_xml payload b
        else handled (send_empty b)

    unfoldable pub handle_read_query : Bytes → GdbBridge D → Handled D
    unfolding read_query
    handle_read_query payload b = read_query (drop 1 payload) payload b

    module _ (swap : ℕ → ℕ) where
      -- The cases of `HandlePacket` that do something.
      unfoldable pub handle_command : ℕ → Bytes → GdbBridge D → Handled D
      unfolding handle_interrupt_request handle_query_halt_reason handle_b_command_group
          get_first_data_char handle_detach handle_read_general_registers
          handle_select_thread_for_command_group handle_read_memory handle_write_memory
          handle_read_register handle_write_register handle_read_query handle_write_query
          handle_extended_v_command handle_write_memory_binary handle_remove_breakpoint_type
          handle_insert_breakpoint_type unsupported_packet
      handle_command command payload b =
          if command == 0x03
          then handle_interrupt_request debugger b
          else if command == b'?'
          then handle_query_halt_reason debugger b
          else if command == b'b'
          then handle_b_command_group
              (get_first_data_char (record empty_packet { payload = payload })) b
          else if command == b'D'
          then handle_detach debugger b
          else if command == b'g'
          then handle_read_general_registers debugger swap command b
          else if command == b'H'
          then handle_select_thread_for_command_group payload b
          else if command == b'm'
          then handle_read_memory boost debugger payload b
          else if command == b'M'
          then handle_write_memory boost debugger payload b
          else if command == b'p'
          then handle_read_register debugger command payload b
          else if command == b'P'
          then handle_write_register debugger command payload b
          else if command == b'q'
          then handle_read_query payload b
          else if command == b'Q'
          then handle_write_query payload b
          else if command == b'v'
          then handle_extended_v_command payload b
          else if command == b'X'
          then handle_write_memory_binary boost debugger payload b
          else if command == b'z'
          then handle_remove_breakpoint_type debugger boost payload b
          else if command == b'Z'
          then handle_insert_breakpoint_type debugger boost payload b
          else unsupported_packet b

      -- `HandlePacket`; `Command` asserts that there is a command.
      unfoldable pub handle_packet : GdbPacket → GdbBridge D → Handled D
      unfolding handle_command
      handle_packet packet b = elim packet.payload [
        | [] ↦ undefined_behaviour
        | command ∷ rest ↦ handle_command command (command ∷ rest) b
      ]
