-- ===== src/Bridge/Commands/Breakpoints.antt =====
-- `ExtractBreakpointCommandParams`, `HandleRemoveBreakpointType` and `HandleInsertBreakpointType`
-- of src/xbox/bridge/gdb_bridge.cpp. Only a warning depends on the arguments behind the semicolon.
use xbdm_gdb_bridge.Prelude.{Bytes, List, Option, [], if◌then◌else◌, some, ℕ, ◌==◌, ◌∷◌}
use xbdm_gdb_bridge.Bridge.Interface.{Boost, Debugger}
use xbdm_gdb_bridge.Bridge.State.{
  GdbBridge, Handled, ebadmsg, handled, maybe_parse_hex_int, send_empty, send_error, send_ok,
  undefined_behaviour, with_debugger,
}

-- `BreakpointType`, by its value as a 32-bit pattern.
pub data BreakpointType : Type 0 where
  bp_software bp_hardware bp_write bp_read bp_access bp_other : BreakpointType

unfoldable pub breakpoint_type : ℕ → BreakpointType
breakpoint_type value =
    if value == 0
    then bp_software
    else if value == 1
    then bp_hardware
    else if value == 2
    then bp_write
    else if value == 3
    then bp_read
    else if value == 4
    then bp_access
    else bp_other

-- What `ExtractBreakpointCommandParams` returns; `erase` of the first character needs one.
pub data BreakpointParams : Type 0 where
  no_params empty_command : BreakpointParams
  params : ℕ → ℕ → ℕ → BreakpointParams

unfoldable pub three_params : Option ℕ → Option ℕ → Option ℕ → BreakpointParams
three_params (some bp_type) (some address) (some kind) = params bp_type address kind
three_params _ _ _ = no_params

unfoldable pub params_of : List Bytes → BreakpointParams
unfolding three_params maybe_parse_hex_int
params_of ([] ∷ address ∷ kind ∷ []) = empty_command
params_of ((c ∷ bp_type) ∷ address ∷ kind ∷ []) =
    three_params (maybe_parse_hex_int 32 bp_type) (maybe_parse_hex_int 32 address)
      (maybe_parse_hex_int 32 kind)
params_of _ = no_params

module _ (boost : Boost) where
  unfoldable pub params_of_front : List Bytes → BreakpointParams
  unfolding params_of
  params_of_front [] = no_params
  params_of_front (front ∷ args) = params_of (boost.split b',' front)

  unfoldable pub extract_breakpoint_command_params : Bytes → BreakpointParams
  unfolding params_of_front
  extract_breakpoint_command_params payload = params_of_front (boost.split b';' payload)

module _ {D : Type 0} (debugger : Debugger D) where
  -- The `switch` of `HandleRemoveBreakpointType`.
  unfoldable pub remove_breakpoint_of : BreakpointType → ℕ → ℕ → GdbBridge D → GdbBridge D
  unfolding send_ok send_empty
  remove_breakpoint_of bp_software address kind b =
      send_ok (with_debugger (debugger.remove_breakpoint address b.debugger) b)
  remove_breakpoint_of bp_hardware address kind b = send_empty b
  remove_breakpoint_of bp_write address kind b =
      send_ok (with_debugger (debugger.remove_write_watch address kind b.debugger) b)
  remove_breakpoint_of bp_read address kind b =
      send_ok (with_debugger (debugger.remove_read_watch address kind b.debugger) b)
  remove_breakpoint_of bp_access address kind b = send_ok (
      with_debugger
        (debugger.remove_write_watch address kind
          (debugger.remove_read_watch address kind b.debugger))
        b)
  remove_breakpoint_of bp_other address kind b = send_empty b

  -- The `switch` of `HandleInsertBreakpointType`.
  unfoldable pub insert_breakpoint_of : BreakpointType → ℕ → ℕ → GdbBridge D → GdbBridge D
  unfolding send_ok send_empty
  insert_breakpoint_of bp_software address kind b =
      send_ok (with_debugger (debugger.add_breakpoint address b.debugger) b)
  insert_breakpoint_of bp_hardware address kind b = send_empty b
  insert_breakpoint_of bp_write address kind b =
      send_ok (with_debugger (debugger.add_write_watch address kind b.debugger) b)
  insert_breakpoint_of bp_read address kind b =
      send_ok (with_debugger (debugger.add_read_watch address kind b.debugger) b)
  insert_breakpoint_of bp_access address kind b = send_ok (
      with_debugger
        (debugger.add_write_watch address kind (debugger.add_read_watch address kind b.debugger)) b)
  insert_breakpoint_of bp_other address kind b = send_empty b

  unfoldable pub on_params :
      (BreakpointType → ℕ → ℕ → GdbBridge D → GdbBridge D)
      → BreakpointParams
      → GdbBridge D
      → Handled D
  unfolding breakpoint_type send_error
  on_params change no_params b = handled (send_error ebadmsg b)
  on_params change empty_command b = undefined_behaviour
  on_params change (params bp_type address kind) b =
      handled (change (breakpoint_type bp_type) address kind b)

  module _ (boost : Boost) where
    unfoldable pub handle_remove_breakpoint_type : Bytes → GdbBridge D → Handled D
    unfolding on_params extract_breakpoint_command_params remove_breakpoint_of
    handle_remove_breakpoint_type payload b =
        on_params remove_breakpoint_of (extract_breakpoint_command_params boost payload) b

    unfoldable pub handle_insert_breakpoint_type : Bytes → GdbBridge D → Handled D
    unfolding on_params extract_breakpoint_command_params insert_breakpoint_of
    handle_insert_breakpoint_type payload b =
        on_params insert_breakpoint_of (extract_breakpoint_command_params boost payload) b
