-- ===== src/Bridge/Commands/Threads.antt =====
-- `HandleSelectThreadForCommandGroup`, `GetThreadIDForCommand` and the thread lists of
-- src/xbox/bridge/gdb_bridge.cpp.
pub mod Selection
pub mod Listing
use xbdm_gdb_bridge.Prelude.{
  Bool, Bytes, List, Option, [], false, if◌then◌else◌, none, some, true, ℕ, ◌++◌, ◌==◌, ◌∷◌,
}
use xbdm_gdb_bridge.Bridge.Interface.{Debugger, Thread}
use xbdm_gdb_bridge.Bridge.State.{
  GdbBridge, Handled, ebadmsg, efault, eperm, handled, is_negative, maybe_parse_hex_int, print_hex,
  undefined_behaviour, reply, send_empty, send_error, send_ok, send_thread_stop_packet,
  with_debugger,
}
use xbdm_gdb_bridge.Gdb.Packet.{command}

unfoldable pub lookup : ℕ → List (ℕ × ℕ) → Option ℕ
lookup key [] = none
lookup key ((k, v) ∷ entries) = let rest = lookup key entries in if k == key then some v else rest

-- The ids behind the first, each with a comma in front.
unfoldable pub more_ids : List ℕ → Bytes
unfolding print_hex
more_ids [] = []
more_ids (id ∷ ids) = b',' ∷ (print_hex id ++ more_ids ids)

module _ {D : Type 0} where
  -- `GetThreadIDForCommand`.
  unfoldable pub get_thread_id_for_command : ℕ → GdbBridge D → ℕ
  unfolding lookup
  get_thread_id_for_command command b = elim (lookup command b.thread_id_for_command) [
    | none ↦ 0
    | some thread_id ↦ thread_id
  ]

  unfoldable pub select_thread : ℕ → Option ℕ → GdbBridge D → Handled D
  unfolding send_ok send_error
  select_thread operation none b = handled (send_error ebadmsg b)
  select_thread operation (some thread_id) b = handled (
      send_ok
        (record b { thread_id_for_command = (operation, thread_id) ∷ b.thread_id_for_command }))

  -- `HandleSelectThreadForCommandGroup`.
  unfoldable pub handle_select_thread_for_command_group : Bytes → GdbBridge D → Handled D
  unfolding select_thread maybe_parse_hex_int
  handle_select_thread_for_command_group (h ∷ operation ∷ c ∷ cs) b =
      select_thread operation (maybe_parse_hex_int 32 (c ∷ cs)) b
  handle_select_thread_for_command_group payload b = handled (send_error ebadmsg b)

  -- `SendThreadInfoBuffer`.
  unfoldable pub send_ids : Bool → List ℕ → GdbBridge D → GdbBridge D
  unfolding reply more_ids print_hex
  send_ids send_all [] b = reply (b'l' ∷ []) b
  send_ids true (id ∷ ids) b =
      reply (b'm' ∷ (print_hex id ++ more_ids ids)) (record b { thread_info_buffer = [] })
  send_ids false (id ∷ ids) b = reply (b'm' ∷ print_hex id) (record b { thread_info_buffer = ids })

  unfoldable pub send_thread_info_buffer : Bool → GdbBridge D → GdbBridge D
  unfolding send_ids
  send_thread_info_buffer send_all b = send_ids send_all b.thread_info_buffer b

  -- `HandleThreadInfoContinue`.
  unfoldable pub handle_thread_info_continue : GdbBridge D → Handled D
  unfolding send_thread_info_buffer
  handle_thread_info_continue b = handled (send_thread_info_buffer true b)

  -- What follows a stop packet that was not sent.
  unfoldable pub empty_unless_sent : Bool × GdbBridge D → GdbBridge D
  unfolding send_empty
  empty_unless_sent (true, b) = b
  empty_unless_sent (false, b) = send_empty b

  unfoldable pub ok_unless_sent : Bool × GdbBridge D → GdbBridge D
  unfolding send_ok
  ok_unless_sent (true, b) = b
  ok_unless_sent (false, b) = send_ok b

module _ {D : Type 0} (debugger : Debugger D) where
  unfoldable pub list_threads : Bool × D → GdbBridge D → Handled D
  unfolding send_thread_info_buffer send_error
  list_threads (false, d) b = handled (send_error efault (with_debugger d b))
  list_threads (true, d) b = handled (
      send_thread_info_buffer false
        (record b { debugger = d; thread_info_buffer = debugger.thread_ids d }))

  -- `HandleThreadInfoStart`.
  unfoldable pub handle_thread_info_start : GdbBridge D → Handled D
  unfolding list_threads
  handle_thread_info_start b = list_threads (debugger.fetch_threads b.debugger) b

  unfoldable pub current_thread_reply : Option ℕ → GdbBridge D → Handled D
  unfolding reply print_hex send_empty
  current_thread_reply none b = handled (send_empty b)
  current_thread_reply (some thread_id) b =
      if is_negative thread_id
      then handled (send_empty b)
      else handled (reply (b'Q' ∷ (b'C' ∷ print_hex thread_id)) b)

  -- `HandleQueryCurrentThreadID`.
  unfoldable pub handle_query_current_thread_id : GdbBridge D → Handled D
  unfolding current_thread_reply
  handle_query_current_thread_id b = current_thread_reply (debugger.any_thread_id b.debugger) b

  -- `HandleQueryHaltReason`, of the first stopped thread.
  unfoldable pub halt_reason_reply : Option Thread → GdbBridge D → Handled D
  unfolding send_error
  halt_reason_reply none b = handled (send_error eperm b)
  halt_reason_reply (some thread) b =
      if thread.stopped
      then handled (empty_unless_sent (send_thread_stop_packet (some thread) b))
      else handled (send_error eperm b)

  unfoldable pub handle_query_halt_reason : GdbBridge D → Handled D
  unfolding halt_reason_reply
  handle_query_halt_reason b = halt_reason_reply (debugger.first_stopped_thread b.debugger) b

  unfoldable pub interrupted : Option Thread → GdbBridge D → Handled D
  unfolding send_ok
  interrupted none b = undefined_behaviour
  interrupted (some thread) b = handled (ok_unless_sent (send_thread_stop_packet (some thread) b))

  unfoldable pub halted : Bool × D → GdbBridge D → Handled D
  unfolding interrupted send_error
  halted (false, d) b = handled (send_error ebadmsg (with_debugger d b))
  halted (true, d) b =
      let e = if debugger.is_started d then d else (debugger.go d).1 in
      interrupted (debugger.active_thread e) (with_debugger e b)

  -- `HandleInterruptRequest`; the assertion is that there is an active thread.
  unfoldable pub handle_interrupt_request : GdbBridge D → Handled D
  unfolding halted
  handle_interrupt_request b = halted (debugger.halt_all b.debugger) b

  -- `HandleDetach`.
  unfoldable pub handle_detach : GdbBridge D → Handled D
  unfolding send_ok
  handle_detach b =
      handled (send_ok (with_debugger (debugger.go (debugger.continue_all true b.debugger).1).1 b))
