-- ===== src/Notification/Transport/Lines.antt =====
-- The messages of the notification channel (src/notification/xbdm_notification_transport.cpp), as
-- the debug monitor writes them.
use xbdm_gdb_bridge.Prelude.{
  Bytes, List, [], ap, append_assoc, ap₂, arith, drop, drop_of_length, length, length-append, none,
  refl, some, subst, sym, take-length_append, ◌++◌, ◌+◌, ◌∙◌, ◌∷◌, ◌≡◌,
}
use xbdm_gdb_bridge.Cstd.Laws.{Lacks}
use xbdm_gdb_bridge.Rdcp.Response.{search_for, terminator}
use xbdm_gdb_bridge.Rdcp.Response.Framing.{search_for-Lacks}
use xbdm_gdb_bridge.Notification.Transport.{NotificationTransport, receive}
use xbdm_gdb_bridge.Notification.Transport.Chunks.{Drains, Reads, message, receive-Reads, rest}
use xbdm_gdb_bridge.Notification.Transport.Splitting.{Drains-unique}

-- Each message with its line end.
abbrev pub lines : List Bytes → Bytes
lines [] = []
lines (message_text ∷ messages) = message_text ++ 13 ∷ 10 ∷ lines messages

abbrev pub AllLines : List Bytes → Type 0
AllLines [] = Unit {0}
AllLines (message_text ∷ messages) = Lacks 13 message_text × AllLines messages

search_for-nothing : search_for terminator [] ≡ none
unfolding search_for
search_for-nothing = refl

lines-Drains : (messages : List Bytes) → AllLines messages → Drains (lines messages) messages []
lines-Drains [] h = rest [] search_for-nothing
lines-Drains (text ∷ messages) h =
    let buffer : Bytes = text ++ 13 ∷ 10 ∷ lines messages in
    let found : search_for terminator buffer ≡ some (length text) =
      search_for-Lacks text (lines messages) h.0 in
    let count : length text + 2 ≡ length (text ++ 13 ∷ 10 ∷ []) =
      omega (arith, length-append text (13 ∷ 10 ∷ [])) in
    let behind : drop (length text + 2) buffer ≡ lines messages =
      ap (drop (length text + 2)) (sym (append_assoc text (13 ∷ 10 ∷ []) (lines messages)))
      ∙ drop_of_length (length text + 2) (text ++ 13 ∷ 10 ∷ []) (lines messages) count in
    subst (λ m. Drains buffer (m ∷ messages) [])
      (take-length_append text (13 ∷ 10 ∷ lines messages))
      (message buffer (length text) found
        (subst (λ xs. Drains xs messages []) (sym behind) (lines-Drains messages h.1)))

-- On an empty buffer, a read of messages without carriage returns, each with its line end, passes
-- all of them on, in order, and leaves nothing.
pub receive-lines :
    (messages calls : List Bytes)
    → AllLines messages
    → receive (lines messages) (record { read_buffer = []; calls = calls })
      ≡ some (record { read_buffer = []; calls = calls ++ messages })
receive-lines messages calls h =
    let t : NotificationTransport = record { read_buffer = []; calls = calls } in
    let r : Reads (lines messages) t = receive-Reads (lines messages) t in
    let same_end = Drains-unique r.drains (lines-Drains messages h) in
    r.result
    ∙ ap₂ (λ left ms. some (record { read_buffer = left; calls = calls ++ ms })) same_end.1
        same_end.0
