-- ===== src/Notification/Tests.antt =====
-- The theorems on notifications, at concrete inputs.
use xbdm_gdb_bridge.Prelude.{[], codes, refl, some, ◌++◌, ◌∷◌, ◌≡◌}
use xbdm_gdb_bridge.Rdcp.Response.{starts_with}
use xbdm_gdb_bridge.Notification.Parse.{
  find_prefix, is_registered, parse_custom, parse_xbdm_notification, strchr_from,
}
use xbdm_gdb_bridge.Notification.Transport.{
  NotificationTransport, handle_notification, on_parsed_notification, receive, undefined_read,
}
use xbdm_gdb_bridge.Notification.Transport.Splitting.{and_then, receive-append}
use xbdm_gdb_bridge.Notification.Transport.Lines.{lines, receive-lines}

abbrev quiet_channel : NotificationTransport
quiet_channel = record { read_buffer = codes "he"; calls = [] }

receive-append_example :
    and_then (receive (codes "llo" ++ 13 ∷ []) quiet_channel) (receive (10 ∷ codes "vx!"))
    ≡ receive ((codes "llo" ++ 13 ∷ []) ++ 10 ∷ codes "vx!") quiet_channel
receive-append_example = receive-append (codes "llo" ++ 13 ∷ []) (10 ∷ codes "vx!") quiet_channel

receive-lines_example :
    receive (lines (codes "hello" ∷ codes "vx!a" ∷ [])) (record { read_buffer = []; calls = [] })
    ≡ some (record { read_buffer = []; calls = codes "hello" ∷ codes "vx!a" ∷ [] })
receive-lines_example =
    receive-lines (codes "hello" ∷ codes "vx!a" ∷ []) []
      ((refl, (refl, (refl, (refl, (refl, tt))))), ((refl, (refl, (refl, (refl, tt)))), tt))

-- `strchr` finds the exclamation mark of the next message, which lies behind the end of this one.
past_the_message : handle_notification (codes "who" ∷ []) (codes "who!") 3 ≡ undefined_read
unfolding handle_notification parse_xbdm_notification find_prefix starts_with parse_custom
    strchr_from on_parsed_notification is_registered
past_the_message = refl
