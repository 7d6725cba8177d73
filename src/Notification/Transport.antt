-- ===== src/Notification/Transport.antt =====
-- src/notification/xbdm_notification_transport.cpp: the lines of the notification channel.
pub mod Chunks
pub mod Splitting
pub mod Lines
use xbdm_gdb_bridge.Prelude.{
  Bytes, List, Option, [], codes, drop, if◌then◌else◌, length, none, same, some, suc, take, zero, ℕ,
  ◌++◌, ◌+◌, ◌∷◌,
}
use xbdm_gdb_bridge.Rdcp.Response.{search_for, terminator}
use xbdm_gdb_bridge.Net.Connection.{shift_read_buffer}
use xbdm_gdb_bridge.Notification.Parse.{
  NotificationType, ParsedNotification, notification, parse_xbdm_notification, past_the_end,
  unhandled,
}

-- The buffer, and the calls of `HandleNotification` in order, each with its message.
pub record NotificationTransport : Type 0 where
  pub read_buffer : Bytes
  pub calls : List Bytes

abbrev pub add_call : Bytes → Option (List Bytes × ℕ) → Option (List Bytes × ℕ)
add_call message none = none
add_call message (some (calls, processed)) = some (message ∷ calls, processed)

-- The loop of `OnBytesRead`, on fuel for its rounds: the messages, and `bytes_processed`.
unfoldable pub message_loop : ℕ → ℕ → Bytes → Option (List Bytes × ℕ)
unfolding search_for
message_loop zero processed buffer = none
message_loop (suc fuel) processed buffer = elim (search_for terminator buffer) [
  | none ↦ some ([], processed)
  | some size ↦
      add_call (take size buffer)
        (message_loop fuel (processed + (size + 2)) (drop (size + 2) buffer))
]

unfoldable pub after_loop :
    NotificationTransport → Option (List Bytes × ℕ) → Option NotificationTransport
unfolding shift_read_buffer
after_loop t none = none
after_loop t (some (calls, processed)) =
    some
      (record { read_buffer = shift_read_buffer processed t.read_buffer; calls = t.calls ++ calls })

-- Each round takes two bytes at least, so the length of the buffer bounds the rounds.
unfoldable pub on_bytes_read : NotificationTransport → Option NotificationTransport
unfolding message_loop after_loop
on_bytes_read t = after_loop t (message_loop (length t.read_buffer + 1) 0 t.read_buffer)

-- `TCPConnection::DoReceive` with the bytes that `recv` returned, and `OnBytesRead`.
unfoldable pub receive : Bytes → NotificationTransport → Option NotificationTransport
unfolding on_bytes_read
receive bytes t = on_bytes_read (record t { read_buffer = t.read_buffer ++ bytes })

-- What `HandleNotification` does: `hello` is noted, an unknown message is only logged, and the
-- handler is called with the others.
pub data NotificationAction : Type 0 where
  hello_received ignored undefined_read : NotificationAction
  handler_called : NotificationType → Bytes → NotificationAction

unfoldable pub on_parsed_notification : ParsedNotification → NotificationAction
on_parsed_notification unhandled = ignored
on_parsed_notification past_the_end = undefined_read
on_parsed_notification (notification notification_type text) = handler_called notification_type text

unfoldable pub handle_notification : List Bytes → Bytes → ℕ → NotificationAction
unfolding parse_xbdm_notification on_parsed_notification
handle_notification registered arrived size =
    if same (take size arrived) (codes "hello")
    then hello_received
    else on_parsed_notification (parse_xbdm_notification registered arrived size)
