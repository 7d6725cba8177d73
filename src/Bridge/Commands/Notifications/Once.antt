-- ===== src/Bridge/Commands/Notifications/Once.antt =====
-- How often `OnNotification` of src/xbox/bridge/gdb_bridge.cpp tells GDB that the program has
-- stopped.
use xbdm_gdb_bridge.Prelude.{
  Bool-cases, List, Option, [], ap, false, inl, inr, none, refl, some, true, ℕ, ◌&&◌, ◌∙◌, ◌∷◌, ◌≡◌,
  ◌⊎◌,
}
use xbdm_gdb_bridge.Bridge.Interface.{Debugger, StopReason, Thread}
use xbdm_gdb_bridge.Bridge.State.{GdbBridge, reply, send_stop, send_thread_stop_packet}
use xbdm_gdb_bridge.Bridge.Commands.Notifications.{
  Notification, nt_breakpoint, nt_exception, nt_execution_state_changed, nt_invalid, nt_other,
  nt_single_step, nt_watchpoint, on_execution_state_changed, on_notification, stop_if_waiting,
}

module _ {D : Type 0} (debugger : Debugger D) where
  -- The notifications, one after the other, while the debugger stays as it is.
  unfoldable pub on_notifications : List Notification → GdbBridge D → GdbBridge D
  unfolding on_notification
  on_notifications [] b = b
  on_notifications (n ∷ ns) b = on_notifications ns (on_notification debugger n b)

  -- The bridge after one stop packet for the active thread.
  abbrev pub stopped_once : GdbBridge D → GdbBridge D
  stopped_once b = (send_thread_stop_packet (debugger.active_thread b.debugger) b).1

  -- What a stop packet leaves: it was not sent and nothing changed, or nobody waits any more.
  send_stop_cases :
      (reason : Option StopReason) (thread_id : ℕ) (b : GdbBridge D)
      → ((send_stop reason thread_id b).1 ≡ b)
        ⊎ ((send_stop reason thread_id b).1.waiting_on_stop_packet ≡ false)
  unfolding send_stop reply
  send_stop_cases none thread_id b = inl refl
  send_stop_cases (some reason) thread_id b = inr refl

  send_thread_stop_packet_cases :
      (thread : Option Thread) (b : GdbBridge D)
      → ((send_thread_stop_packet thread b).1 ≡ b)
        ⊎ ((send_thread_stop_packet thread b).1.waiting_on_stop_packet ≡ false)
  unfolding send_thread_stop_packet
  send_thread_stop_packet_cases none b = inl refl
  send_thread_stop_packet_cases (some thread) b =
      elim (Bool-cases (b.is_connected && thread.stopped)) [
        | inl e ↦
            rw (send_thread_stop_packet, e)
              (send_stop_cases thread.last_stop_reason thread.thread_id b)
        | inr e ↦ rw (send_thread_stop_packet, e) (inl refl)
      ]

  stop_if_waiting-idle :
      (b : GdbBridge D) → b.waiting_on_stop_packet ≡ false → stop_if_waiting debugger b ≡ b
  unfolding stop_if_waiting
  stop_if_waiting-idle b e = simp (stop_if_waiting, e)

  on_notification-idle :
      (n : Notification) (b : GdbBridge D)
      → b.waiting_on_stop_packet ≡ false
      → on_notification debugger n b ≡ b
  unfolding on_notification on_execution_state_changed
  on_notification-idle (nt_execution_state_changed true) b e = stop_if_waiting-idle b e
  on_notification-idle (nt_execution_state_changed false) b e = refl
  on_notification-idle nt_breakpoint b e = stop_if_waiting-idle b e
  on_notification-idle nt_watchpoint b e = stop_if_waiting-idle b e
  on_notification-idle nt_single_step b e = stop_if_waiting-idle b e
  on_notification-idle nt_exception b e = stop_if_waiting-idle b e
  on_notification-idle nt_invalid b e = refl
  on_notification-idle nt_other b e = refl

  on_notifications-idle :
      (ns : List Notification) (b : GdbBridge D)
      → b.waiting_on_stop_packet ≡ false
      → on_notifications ns b ≡ b
  unfolding on_notifications
  on_notifications-idle [] b e = refl
  on_notifications-idle (n ∷ ns) b e =
      ap (on_notifications ns) (on_notification-idle n b e) ∙ on_notifications-idle ns b e

  stop_if_waiting_cases :
      (b : GdbBridge D)
      → (stop_if_waiting debugger b ≡ b)
        ⊎ ((stop_if_waiting debugger b ≡ stopped_once b)
            × (stopped_once b).waiting_on_stop_packet ≡ false)
  unfolding stop_if_waiting
  stop_if_waiting_cases b = elim (Bool-cases b.waiting_on_stop_packet) [
    | inl e ↦
        let sends : stop_if_waiting debugger b ≡ stopped_once b = simp (stop_if_waiting, e) in
        elim (send_thread_stop_packet_cases (debugger.active_thread b.debugger) b) [
          | inl k ↦ inl (sends ∙ k)
          | inr k ↦ inr (sends, k)
        ]
    | inr e ↦ inl (stop_if_waiting-idle b e)
  ]

  on_notification_cases :
      (n : Notification) (b : GdbBridge D)
      → (on_notification debugger n b ≡ b)
        ⊎ ((on_notification debugger n b ≡ stopped_once b)
            × (stopped_once b).waiting_on_stop_packet ≡ false)
  unfolding on_notification on_execution_state_changed
  on_notification_cases (nt_execution_state_changed true) b = stop_if_waiting_cases b
  on_notification_cases (nt_execution_state_changed false) b = inl refl
  on_notification_cases nt_breakpoint b = stop_if_waiting_cases b
  on_notification_cases nt_watchpoint b = stop_if_waiting_cases b
  on_notification_cases nt_single_step b = stop_if_waiting_cases b
  on_notification_cases nt_exception b = stop_if_waiting_cases b
  on_notification_cases nt_invalid b = inl refl
  on_notification_cases nt_other b = inl refl

  -- However many notifications arrive while the debugger stays as it is: nothing is sent, or one
  -- stop packet for the active thread.
  pub on_notifications-once :
      (ns : List Notification) (b : GdbBridge D)
      → (on_notifications ns b ≡ b) ⊎ (on_notifications ns b ≡ stopped_once b)
  unfolding on_notifications
  on_notifications-once [] b = inl refl
  on_notifications-once (n ∷ ns) b = elim (on_notification_cases n b) [
    | inl e ↦ elim (on_notifications-once ns b) [
      | inl k ↦ inl (ap (on_notifications ns) e ∙ k)
      | inr k ↦ inr (ap (on_notifications ns) e ∙ k)
    ]
    | inr (e, idle) ↦
        inr (ap (on_notifications ns) e ∙ on_notifications-idle ns (stopped_once b) idle)
  ]
