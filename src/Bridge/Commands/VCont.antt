-- ===== src/Bridge/Commands/VCont.antt =====
-- `HandleVCont` and `MarkWaitingForStopPacket` of src/xbox/bridge/gdb_bridge.cpp.
pub mod Others
use xbdm_gdb_bridge.Prelude.{
  Bool, Bytes, List, Option, [], false, if◌then◌else◌, length, ltb, none, some, true, ℕ, ◌&&◌, ◌==◌,
  ◌^◌, ◌||◌, ◌∷◌,
}
use xbdm_gdb_bridge.Bridge.Interface.{Boost, Debugger, Thread}
use xbdm_gdb_bridge.Bridge.State.{
  GdbBridge, Handled, ebadmsg, efault, handled, maybe_parse_hex_int, minus_one, send_empty,
  send_error, send_thread_stop_packet, undefined_behaviour, with_debugger,
}
use xbdm_gdb_bridge.Gdb.Packet.{command}

unfoldable pub contains : ℕ → List ℕ → Bool
contains x [] = false
contains x (y ∷ ys) = let rest = contains x ys in x == y || rest

-- `thread_id > 0`, of a 32-bit pattern.
abbrev pub is_positive : ℕ → Bool
is_positive n = ltb 0 n && ltb n (2 ^ 31)

-- What the text in front of the loop's `switch` finds: the thread id, or -1.
unfoldable pub vcont_thread : List Bytes → Option ℕ
unfolding maybe_parse_hex_int
vcont_thread [] = some minus_one
vcont_thread (action ∷ []) = some minus_one
vcont_thread (action ∷ thread ∷ others) = maybe_parse_hex_int 32 thread

module _ {D : Type 0} (debugger : Debugger D) where
  -- The loop over `Threads()`: what is continued is the thread of the command.
  unfoldable pub continue_others : ℕ → List ℕ → List ℕ → D → D
  unfolding contains
  continue_others thread_id processed [] d = d
  continue_others thread_id processed (id ∷ ids) d =
      continue_others thread_id processed ids
        (if contains id processed then d else (debugger.continue_thread thread_id d).1)

  -- The case of `c`.
  unfoldable pub vcont_continue : ℕ → List ℕ → D → D
  unfolding continue_others
  vcont_continue thread_id processed d =
      if is_positive thread_id then (debugger.continue_thread thread_id d).1 else elim processed [
        | [] ↦ (debugger.continue_all false d).1
        | id ∷ ids ↦ continue_others thread_id (id ∷ ids) (debugger.thread_ids d) d
      ]

  unfoldable pub after_step : Bool × D → GdbBridge D → GdbBridge D
  unfolding send_error
  after_step (true, d) b = with_debugger d b
  after_step (false, d) b = send_error efault (with_debugger d b)

  -- The case of `s`.
  unfoldable pub vcont_step : ℕ → GdbBridge D → GdbBridge D
  unfolding send_error after_step
  vcont_step thread_id b =
      if is_positive thread_id
      then after_step (debugger.step_instruction (debugger.set_active_thread thread_id b.debugger))
          b
      else send_error ebadmsg b

  abbrev pub add_processed : ℕ → List ℕ → List ℕ
  add_processed thread_id processed =
      if is_positive thread_id then thread_id ∷ processed else processed

  -- The first character of the command chooses; an empty one has none.
  unfoldable pub vcont_action : Bytes → ℕ → List ℕ → GdbBridge D → Option (GdbBridge D)
  unfolding vcont_continue vcont_step send_empty
  vcont_action [] thread_id processed b = none
  vcont_action (c ∷ cs) thread_id processed b =
      if c == b'c'
      then some (with_debugger (vcont_continue thread_id processed b.debugger) b)
      else if c == b's'
      then some (vcont_step thread_id b)
      else some (send_empty b)

  module _ (boost : Boost) where
    -- The loop; `processed` is `processed_threads`.
    unfoldable pub vcont_loop : List Bytes → List ℕ → GdbBridge D → Option (GdbBridge D)
    unfolding vcont_thread vcont_action send_error
    vcont_loop [] processed b = some b
    vcont_loop (command ∷ commands) processed b = elim (vcont_thread (boost.split b':' command)) [
      | none ↦ vcont_loop commands processed (send_error ebadmsg b)
      | some thread_id ↦
          elim (vcont_action command thread_id (add_processed thread_id processed) b) [
            | none ↦ none
            | some c ↦ vcont_loop commands (add_processed thread_id processed) c
          ]
    ]

  unfoldable pub mark_waiting : Option Thread → GdbBridge D → GdbBridge D
  unfolding send_thread_stop_packet
  mark_waiting none b = record b { waiting_on_stop_packet = true }
  mark_waiting (some thread) b = record (send_thread_stop_packet (some thread) b).1 {
    waiting_on_stop_packet = false;
  }

  -- `MarkWaitingForStopPacket`.
  unfoldable pub mark_waiting_for_stop_packet : GdbBridge D → GdbBridge D
  unfolding mark_waiting
  mark_waiting_for_stop_packet b = mark_waiting (debugger.first_stopped_thread b.debugger) b

  -- Behind the loop.
  unfoldable pub vcont_end : Option (GdbBridge D) → Handled D
  unfolding mark_waiting_for_stop_packet
  vcont_end none = undefined_behaviour
  vcont_end (some b) =
      let c = mark_waiting_for_stop_packet b in handled (with_debugger (debugger.go c.debugger).1 c)

  module _ (boost : Boost) where
    -- `HandleVCont`; an empty text is an error, but is handled nevertheless.
    unfoldable pub handle_vcont : Bytes → GdbBridge D → Handled D
    unfolding vcont_loop vcont_end send_error
    handle_vcont args b =
        let c = if length args == 0 then send_error ebadmsg b else b in
        vcont_end (vcont_loop boost (boost.split b';' args) [] c)
