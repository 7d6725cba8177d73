-- ===== src/Bridge/State.antt =====
-- The state of `GDBBridge` (src/xbox/bridge/gdb_bridge.h), its replies, the texts of numbers, and
-- `SendThreadStopPacket`.
use xbdm_gdb_bridge.Prelude.{
  Bool, Bytes, List, Option, codes, false, if◌then◌else◌, leb, ltb, none, some, suc, true, zero, ℕ,
  ◌%◌, ◌&&◌, ◌++◌, ◌+◌, ◌-◌, ◌/◌, ◌==◌, ◌^◌, ◌∷◌, [],
}
use xbdm_gdb_bridge.Bridge.Interface.{
  AccessType, StopReason, StopReasonType, Thread, at_execute, at_read, at_unknown, at_write,
  srt_watchpoint,
}
use xbdm_gdb_bridge.Bridge.Serialize.{hex_fixed}
use xbdm_gdb_bridge.Gdb.Packet.{make}
use xbdm_gdb_bridge.Gdb.Transport.{GdbTransport, send}
use xbdm_gdb_bridge.Cstd.{hex_byte, scan, to_ulong}

-- `gdb_` with whether it is connected, the debugger, `thread_id_for_command_` with the latest entry
-- in front, `thread_info_buffer_` and `waiting_on_stop_packet_`. `send_thread_events_` only chooses
-- what is logged.
pub record GdbBridge (D : Type 0) : Type 0 where
  pub transport : GdbTransport
  pub is_connected : Bool
  pub debugger : D
  pub thread_id_for_command : List (ℕ × ℕ)
  pub thread_info_buffer : List ℕ
  pub waiting_on_stop_packet : Bool

-- What a handler leaves: the bridge, an exception of boost that nothing catches, or undefined
-- behaviour (an assertion that fails, an iterator behind the end, the last character of an empty
-- text).
pub data Handled (D : Type 0) : Type 0 where
  handled : GdbBridge D → Handled D
  exception_thrown undefined_behaviour : Handled D

abbrev pub eperm : ℕ
eperm = 1

abbrev pub efault : ℕ
efault = 14

abbrev pub ebusy : ℕ
ebusy = 16

abbrev pub einval : ℕ
einval = 22

abbrev pub ebadmsg : ℕ
ebadmsg = 74

-- Without the zeros in front, but for the last digit.
unfoldable pub trim_zeros : Bytes → Bytes
trim_zeros [] = []
trim_zeros (c ∷ []) = c ∷ []
trim_zeros (c ∷ d ∷ ds) = let rest = trim_zeros (d ∷ ds) in if c == b'0' then rest else c ∷ d ∷ ds

-- `%x` and `%llx` of at most 64 bits.
unfoldable pub print_hex : ℕ → Bytes
unfolding hex_fixed trim_zeros
print_hex n = trim_zeros (hex_fixed 16 n)

-- `%02x` of at most 32 bits.
unfoldable pub print_hex2 : ℕ → Bytes
unfolding print_hex
print_hex2 n = if ltb n 16 then hex_fixed 2 n else print_hex n

-- `%u` of at most 64 bits.
unfoldable pub dec_fixed : ℕ → ℕ → Bytes
dec_fixed zero n = []
dec_fixed (suc width) n = dec_fixed width (n / 10) ++ (b'0' + n % 10) ∷ []

unfoldable pub print_unsigned : ℕ → Bytes
unfolding dec_fixed trim_zeros
print_unsigned n = trim_zeros (dec_fixed 20 n)

-- `%d` of a 32-bit pattern.
unfoldable pub print_signed : ℕ → Bytes
unfolding print_unsigned
print_signed n = if ltb n (2 ^ 31) then print_unsigned n else b'-' ∷ print_unsigned (2 ^ 32 - n)

-- `MaybeParseHexInt` for an integer of this many bits: `strtoull` in base 16.
unfoldable pub maybe_parse_hex_int : ℕ → Bytes → Option ℕ
unfolding scan to_ulong
maybe_parse_hex_int bits s = elim (scan 16 s) [
  | none ↦ none
  | some n ↦ some (to_ulong n % 2 ^ bits)
]

-- An `int32_t` below 0.
abbrev pub is_negative : ℕ → Bool
is_negative n = leb (2 ^ 31) n

-- The `-1` of an `int32_t`.
abbrev pub minus_one : ℕ
minus_one = 2 ^ 32 - 1

module _ {D : Type 0} where
  -- `gdb_->Send(GDBPacket(...))`.
  unfoldable pub reply : Bytes → GdbBridge D → GdbBridge D
  unfolding send make
  reply payload b = record b { transport = send b.transport (make payload) }

  unfoldable pub reply_if_connected : Bytes → GdbBridge D → GdbBridge D
  unfolding reply
  reply_if_connected payload b = if b.is_connected then reply payload b else b

  -- `SendOK`.
  unfoldable pub send_ok : GdbBridge D → GdbBridge D
  unfolding reply_if_connected
  send_ok b = reply_if_connected (codes "OK") b

  -- `SendEmpty`.
  unfoldable pub send_empty : GdbBridge D → GdbBridge D
  unfolding reply_if_connected
  send_empty b = reply_if_connected [] b

  -- `SendError` of a byte.
  unfoldable pub send_error : ℕ → GdbBridge D → GdbBridge D
  unfolding reply_if_connected hex_byte
  send_error code b = reply_if_connected (b'E' ∷ hex_byte code) b

  abbrev pub with_debugger : D → GdbBridge D → GdbBridge D
  with_debugger d b = record b { debugger = d }

-- `access_type`, or nothing.
unfoldable pub access_name : AccessType → Bytes
access_name at_unknown = []
access_name at_read = codes "rwatch"
access_name at_write = codes "watch"
access_name at_execute = []

unfoldable pub watch_text : Bytes → ℕ → Bytes
unfolding hex_fixed
watch_text [] address = []
watch_text (c ∷ cs) address = (c ∷ cs) ++ (b':' ∷ (hex_fixed 8 address ++ b';' ∷ []))

-- What the `switch` appends.
unfoldable pub reason_text : StopReasonType → Bytes
unfolding access_name watch_text
reason_text (srt_watchpoint access address) = watch_text (access_name access) address
reason_text _ = []

-- The text in `buffer`, which is never longer than the 63 characters that fit.
unfoldable pub stop_text : StopReason → ℕ → Bytes
unfolding print_hex2 print_hex reason_text
stop_text reason thread_id =
    b'T'
    ∷ (print_hex2 reason.signal
        ++ (codes "thread:" ++ (print_hex thread_id ++ (b';' ∷ reason_text reason.reason_type))))

module _ {D : Type 0} where
  unfoldable pub send_stop : Option StopReason → ℕ → GdbBridge D → Bool × GdbBridge D
  unfolding stop_text reply
  send_stop none thread_id b = (false, b)
  send_stop (some reason) thread_id b =
      (true, reply (stop_text reason thread_id) (record b { waiting_on_stop_packet = false }))

  -- `SendThreadStopPacket`, of a thread that may be null.
  unfoldable pub send_thread_stop_packet : Option Thread → GdbBridge D → Bool × GdbBridge D
  unfolding send_stop
  send_thread_stop_packet none b = (false, b)
  send_thread_stop_packet (some thread) b =
      if b.is_connected && thread.stopped
      then send_stop thread.last_stop_reason thread.thread_id b
      else (false, b)
