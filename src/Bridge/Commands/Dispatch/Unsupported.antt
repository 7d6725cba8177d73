-- ===== src/Bridge/Commands/Dispatch/Unsupported.antt =====
-- The commands that `HandlePacket` of src/xbox/bridge/gdb_bridge.cpp does not support.
use xbdm_gdb_bridge.Prelude.{Bytes, [], codes, false, refl, ℕ, ◌==◌, ◌∷◌, ◌≡◌}
use xbdm_gdb_bridge.Bridge.Interface.{Boost, Debugger}
use xbdm_gdb_bridge.Bridge.State.{GdbBridge, handled, send_empty}
use xbdm_gdb_bridge.Gdb.Packet.{make}
use xbdm_gdb_bridge.Bridge.Commands.Dispatch.{handle_command, handle_packet, unsupported_packet}

-- The first characters of the commands that do something.
abbrev pub supported : Bytes
supported = 0x03 ∷ codes "?bDgHmMpPqQvXzZ"

-- The letter is none of these.
abbrev pub IsNoneOf : ℕ → Bytes → Type 0
IsNoneOf letter [] = Unit {0}
IsNoneOf letter (c ∷ cs) = ((letter == c) ≡ false) × IsNoneOf letter cs

module _ {D : Type 0} (boost : Boost) (debugger : Debugger D) (target_xml : Bytes)
    (swap : ℕ → ℕ) where
  -- Any other command is answered by an empty packet and changes nothing else, whatever its
  -- arguments.
  pub handle_packet-unsupported :
      (letter : ℕ) (rest : Bytes) (b : GdbBridge D)
      → IsNoneOf letter supported
      → handle_packet boost debugger target_xml swap (make (letter ∷ rest)) b
        ≡ handled (send_empty b)
  unfolding handle_packet unsupported_packet
  handle_packet-unsupported letter rest b h =
      rw
        (
          handle_command, h.0, h.1.0, h.1.1.0, h.1.1.1.0, h.1.1.1.1.0, h.1.1.1.1.1.0,
          h.1.1.1.1.1.1.0, h.1.1.1.1.1.1.1.0, h.1.1.1.1.1.1.1.1.0, h.1.1.1.1.1.1.1.1.1.0,
          h.1.1.1.1.1.1.1.1.1.1.0, h.1.1.1.1.1.1.1.1.1.1.1.0, h.1.1.1.1.1.1.1.1.1.1.1.1.0,
          h.1.1.1.1.1.1.1.1.1.1.1.1.1.0, h.1.1.1.1.1.1.1.1.1.1.1.1.1.1.0,
          h.1.1.1.1.1.1.1.1.1.1.1.1.1.1.1.0,
        )
        refl
