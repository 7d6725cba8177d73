-- ===== src/Bridge/Commands/Notifications.antt =====
-- `OnNotification` of src/xbox/bridge/gdb_bridge.cpp and what it calls.
pub mod Once
use xbdm_gdb_bridge.Prelude.{Bool, false, if◌then◌else◌, true}
use xbdm_gdb_bridge.Bridge.Interface.{Debugger}
use xbdm_gdb_bridge.Bridge.State.{GdbBridge, send_thread_stop_packet}

-- `NotificationType`, as far as the bridge tells the types apart; the change of the execution state
-- carries whether the state is `S_STOPPED`.
pub data Notification : Type 0 where
  nt_execution_state_changed : Bool → Notification
  nt_breakpoint nt_watchpoint nt_single_step nt_exception nt_invalid nt_other : Notification

module _ {D : Type 0} (debugger : Debugger D) where
  -- What the handlers share.
  unfoldable pub stop_if_waiting : GdbBridge D → GdbBridge D
  unfolding send_thread_stop_packet
  stop_if_waiting b =
      if b.waiting_on_stop_packet
      then (send_thread_stop_packet (debugger.active_thread b.debugger) b).1
      else b

  -- `OnExecutionStateChanged`.
  unfoldable pub on_execution_state_changed : Bool → GdbBridge D → GdbBridge D
  unfolding stop_if_waiting
  on_execution_state_changed true b = stop_if_waiting b
  on_execution_state_changed false b = b

  unfoldable pub on_notification : Notification → GdbBridge D → GdbBridge D
  unfolding on_execution_state_changed stop_if_waiting
  on_notification (nt_execution_state_changed is_stopped) b =
      on_execution_state_changed is_stopped b
  on_notification nt_breakpoint b = stop_if_waiting b
  on_notification nt_watchpoint b = stop_if_waiting b
  on_notification nt_single_step b = stop_if_waiting b
  on_notification nt_exception b = stop_if_waiting b
  on_notification nt_invalid b = b
  on_notification nt_other b = b
