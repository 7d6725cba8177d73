-- ===== src/Notification/Parse.antt =====
-- `ParseXBDMNotification` of src/notification/xbdm_notification.cpp, as far as it chooses the type
-- of the notification and its text, and the constructors that are registered for other prefixes.
use xbdm_gdb_bridge.Prelude.{
  Bool, Bytes, List, Option, [], codes, drop, false, if◌then◌else◌, length, ltb, none, not, same,
  some, take, true, ℕ, ◌+◌, ◌-◌, ◌==◌, ◌||◌, ◌∷◌,
}
use xbdm_gdb_bridge.Rdcp.Response.{starts_with}

-- The types of xbdm_notification.h, and that of a registered constructor, by its prefix.
pub data NotificationType : Type 0 where
  vx debugstr module_loaded section_loaded section_unloaded thread_created : NotificationType
  thread_terminated execution_state_changed breakpoint watchpoint single_step exception :
      NotificationType
  custom : Bytes → NotificationType

-- The prefixes, in the order of the tests.
abbrev pub prefixes : List (Bytes × NotificationType)
prefixes =
    (codes "vx!", vx)
    ∷ (codes "debugstr ", debugstr)
    ∷ (codes "modload ", module_loaded)
    ∷ (codes "sectload ", section_loaded)
    ∷ (codes "sectunload ", section_unloaded)
    ∷ (codes "create ", thread_created)
    ∷ (codes "terminate ", thread_terminated)
    ∷ (codes "execution ", execution_state_changed)
    ∷ (codes "break ", breakpoint)
    ∷ (codes "data ", watchpoint)
    ∷ (codes "singlestep ", single_step)
    ∷ (codes "exception ", exception)
    ∷ []

-- `StartsWith`.
unfoldable pub message_starts_with : Bytes → Bytes → Bool
unfolding starts_with
message_starts_with message prefix =
    if ltb (length message) (length prefix) then false else starts_with prefix message

-- The type and the text behind the prefix.
unfoldable pub find_prefix :
    Bytes → List (Bytes × NotificationType) → Option (NotificationType × Bytes)
unfolding message_starts_with
find_prefix message [] = none
find_prefix message ((prefix, notification_type) ∷ others) =
    let rest = find_prefix message others in
    if message_starts_with message prefix
    then some (notification_type, drop (length prefix) message)
    else rest

-- The registered prefixes: `RegisterXBDMNotificationConstructor` and
-- `UnregisterXBDMNotificationConstructor`.
unfoldable pub is_registered : Bytes → List Bytes → Bool
is_registered prefix [] = false
is_registered prefix (p ∷ ps) = let rest = is_registered prefix ps in same prefix p || rest

unfoldable pub register_constructor : Bytes → List Bytes → Bool × List Bytes
unfolding is_registered
register_constructor prefix registered =
    if is_registered prefix registered then (false, registered) else (true, prefix ∷ registered)

unfoldable pub remove_prefix : Bytes → List Bytes → List Bytes
remove_prefix prefix [] = []
remove_prefix prefix (p ∷ ps) =
    let rest = remove_prefix prefix ps in if same prefix p then rest else p ∷ rest

unfoldable pub unregister_constructor : Bytes → List Bytes → Bool × List Bytes
unfolding is_registered remove_prefix
unregister_constructor prefix registered =
    if is_registered prefix registered
    then (true, remove_prefix prefix registered)
    else (false, registered)

-- What the parsing of a message gives: nothing, a notification, or undefined behaviour.
pub data ParsedNotification : Type 0 where
  unhandled past_the_end : ParsedNotification
  notification : NotificationType → Bytes → ParsedNotification

-- `strchr` of `!`, which knows no end of the message: it looks through all bytes that have
-- been received up to a NUL, and behind them.
pub data Found : Type 0 where
  not_found runs_over : Found
  found_at : ℕ → Found

unfoldable pub strchr_from : ℕ → Bytes → Found
strchr_from i [] = runs_over
strchr_from i (c ∷ cs) =
    let rest = strchr_from (i + 1) cs in
    if c == b'!' then found_at i else if c == 0 then not_found else rest

-- Behind `strchr`; a text that would start behind the end of the message is undefined behaviour.
unfoldable pub parse_custom : List Bytes → Bytes → ℕ → Found → ParsedNotification
unfolding is_registered
parse_custom registered arrived size not_found = unhandled
parse_custom registered arrived size runs_over = past_the_end
parse_custom registered arrived size (found_at i) =
    if not (is_registered (take i arrived) registered)
    then unhandled
    else if ltb size (i + 1)
    then past_the_end
    else notification (custom (take i arrived)) (take (size - (i + 1)) (drop (i + 1) arrived))

-- The message is the first `size` of the bytes that have been received from its start on.
unfoldable pub parse_xbdm_notification : List Bytes → Bytes → ℕ → ParsedNotification
unfolding find_prefix parse_custom strchr_from
parse_xbdm_notification registered arrived size = elim (find_prefix (take size arrived) prefixes) [
  | none ↦ parse_custom registered arrived size (strchr_from 0 arrived)
  | some (notification_type, text) ↦ notification notification_type text
]
