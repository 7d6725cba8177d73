-- ===== src/Bridge/Commands/Queries.antt =====
-- `HandleQuerySupported` and `HandleQueryThreadExtraInfo` of src/xbox/bridge/gdb_bridge.cpp.
use xbdm_gdb_bridge.Prelude.{
  Bool, Bytes, List, Option, [], codes, drop, false, if◌then◌else◌, leb, length, none, same, some,
  true, ℕ, ◌++◌, ◌+◌, ◌==◌, ◌∷◌,
}
use xbdm_gdb_bridge.Bridge.Interface.{
  Boost, Debugger, StopReason, StopReasonType, Thread, srt_assertion, srt_breakpoint, srt_debugstr,
  srt_exception, srt_execution_state_changed, srt_module_loaded, srt_rip, srt_rip_stop,
  srt_section_loaded, srt_section_unloaded, srt_single_step, srt_thread_created,
  srt_thread_terminated, srt_unknown, srt_watchpoint,
}
use xbdm_gdb_bridge.Bridge.State.{
  GdbBridge, Handled, ebadmsg, handled, maybe_parse_hex_int, print_signed, reply, send_empty,
  send_error, undefined_behaviour,
}
use xbdm_gdb_bridge.Gdb.Packet.{find_first}
use xbdm_gdb_bridge.Bridge.Commands.Memory.{offset_of}

-- The features that are answered by name.
abbrev pub known_features : List (Bytes × Bytes)
known_features =
    (codes "multiprocess+", codes "multiprocess-;")
    ∷ (codes "swbreak+", codes "swbreak+;")
    ∷ (codes "hwbreak+", codes "hwbreak-;")
    ∷ (codes "qRelocInsn+", codes "qRelocInsn-;")
    ∷ (codes "fork-events+", codes "fork-events-;")
    ∷ (codes "vfork-events+", codes "vfork-events-;")
    ∷ (codes "exec-events+", codes "exec-events-;")
    ∷ (codes "vContSupported+", codes "vContSupported+;")
    ∷ (codes "QThreadEvents+", codes "QThreadEvents-;")
    ∷ (codes "no-resumed+", codes "no-resumed-;")
    ∷ (codes "xmlRegisters=i386", [])
    ∷ []

unfoldable pub find_feature : Bytes → List (Bytes × Bytes) → Option Bytes
find_feature feature [] = none
find_feature feature ((name, answer) ∷ others) =
    let rest = find_feature feature others in if same name feature then some answer else rest

-- A feature that is not known: a plus at its end becomes a minus, and others are not answered. The
-- last character of an empty text is undefined behaviour.
unfoldable pub disable_feature : Bytes → Option Bytes
disable_feature [] = none
disable_feature (c ∷ []) = some (if c == b'+' then b'-' ∷ [] else [])
disable_feature (c ∷ d ∷ ds) = elim (disable_feature (d ∷ ds)) [
  | none ↦ none
  | some [] ↦ some []
  | some (e ∷ es) ↦ some (c ∷ e ∷ es)
]

unfoldable pub answer_feature : Bytes → Option Bytes
unfolding find_feature disable_feature
answer_feature feature = elim (find_feature feature known_features) [
  | none ↦ disable_feature feature
  | some answer ↦ some answer
]

-- The loop over the features.
unfoldable pub append_features : Bytes → List Bytes → Option Bytes
unfolding answer_feature
append_features response [] = some response
append_features response (feature ∷ features) = elim (answer_feature feature) [
  | none ↦ none
  | some answer ↦ append_features (response ++ answer) features
]

abbrev pub first_features : Bytes
first_features = codes "PacketSize=4096;qXfer:features:read+;"

module _ {D : Type 0} where
  unfoldable pub reply_or_undefined : Option Bytes → GdbBridge D → Handled D
  unfolding reply
  reply_or_undefined none b = undefined_behaviour
  reply_or_undefined (some response) b = handled (reply response b)

module _ {D : Type 0} (boost : Boost) where
  -- `HandleQuerySupported`.
  unfoldable pub handle_query_supported : Bytes → GdbBridge D → Handled D
  unfolding find_first send_empty append_features reply_or_undefined
  handle_query_supported payload b =
      let split = offset_of b':' payload in
      if leb (length payload) split
      then handled (send_empty b)
      else reply_or_undefined
          (append_features first_features (boost.split b';' (drop (split + 1) payload))) b

-- The `switch` on the type of the stop reason.
unfoldable pub stop_reason_name : StopReasonType → Bytes
stop_reason_name srt_debugstr = codes "debugstr"
stop_reason_name srt_assertion = codes "assert"
stop_reason_name srt_breakpoint = codes "breakpoint"
stop_reason_name srt_single_step = codes "single_step"
stop_reason_name (srt_watchpoint access address) = codes "watchpoint"
stop_reason_name srt_execution_state_changed = codes "execution_state_changed"
stop_reason_name srt_exception = codes "exception"
stop_reason_name srt_thread_created = codes "thread_created"
stop_reason_name srt_thread_terminated = codes "thread_terminated"
stop_reason_name srt_module_loaded = codes "module_loaded"
stop_reason_name srt_section_loaded = codes "section_loaded"
stop_reason_name srt_section_unloaded = codes "section_unloaded"
stop_reason_name srt_rip = codes "RIP"
stop_reason_name srt_rip_stop = codes "RIP_Stop"
stop_reason_name srt_unknown = codes "UNKNOWN_STATE"

-- A stopped thread without a reason is a null pointer that is dereferenced.
unfoldable pub thread_state_name : Bool → Option StopReason → Option Bytes
unfolding stop_reason_name
thread_state_name false reason = some (codes "Running")
thread_state_name true none = none
thread_state_name true (some reason) = some (stop_reason_name reason.reason_type)

module _ {D : Type 0} (boost : Boost) (debugger : Debugger D) where
  -- The text is hexadecimal on the wire.
  unfoldable pub extra_info_text : ℕ → Option Bytes → Option Bytes
  unfolding print_signed
  extra_info_text thread_id none = none
  extra_info_text thread_id (some name) = some (boost.hex (print_signed thread_id ++ b' ' ∷ name))

  unfoldable pub extra_info : ℕ → Option Thread → GdbBridge D → Handled D
  unfolding send_error thread_state_name reply_or_undefined extra_info_text
  extra_info thread_id none b = handled (send_error ebadmsg b)
  extra_info thread_id (some thread) b =
      reply_or_undefined
        (extra_info_text thread_id (thread_state_name thread.stopped thread.last_stop_reason)) b

  -- `HandleQueryThreadExtraInfo`; without a comma the offset is behind the end.
  unfoldable pub handle_query_thread_extra_info : Bytes → GdbBridge D → Handled D
  unfolding find_first maybe_parse_hex_int send_error extra_info
  handle_query_thread_extra_info payload b =
      let split = offset_of b',' payload in
      if leb (length payload) split
      then undefined_behaviour
      else elim (maybe_parse_hex_int 32 (drop (split + 1) payload)) [
        | none ↦ handled (send_error ebadmsg b)
        | some thread_id ↦ extra_info thread_id (debugger.get_thread thread_id b.debugger) b
      ]
