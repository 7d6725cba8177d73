-- ===== src/Rdcp/Requests/Breakpoints.antt =====
-- The requests of src/rdcp/xbdm_requests.h for breakpoints and the events to stop on.
use xbdm_gdb_bridge.Prelude.{Bool, Bytes, codes, if◌then◌else◌, not, ℕ, ◌%◌, ◌++◌, ◌/◌, ◌==◌}
use xbdm_gdb_bridge.Rdcp.Request.{RdcpRequest}
use xbdm_gdb_bridge.Rdcp.Requests.{flag_text, hex_string, plain_request}

unfoldable pub break_now : RdcpRequest
unfolding plain_request
break_now = plain_request (codes "break") (codes " now")

unfoldable pub break_at_start : RdcpRequest
unfolding plain_request
break_at_start = plain_request (codes "break") (codes " start")

unfoldable pub break_clear_all : RdcpRequest
unfolding plain_request
break_clear_all = plain_request (codes "break") (codes " clearall")

unfoldable pub break_address : ℕ → Bool → RdcpRequest
unfolding plain_request flag_text hex_string
break_address address clear =
    plain_request (codes "break")
      (flag_text clear (codes " clear") ++ (codes " addr=" ++ hex_string address))

unfoldable pub break_range : Bytes → ℕ → ℕ → Bool → RdcpRequest
unfolding plain_request flag_text hex_string
break_range kind address size clear = plain_request (codes "break") (
    (if clear then codes " clear " else codes " ")
    ++ (kind
        ++ (codes "="
            ++ (hex_string address ++ flag_text (not clear) (codes " size=" ++ hex_string size)))))

unfoldable pub break_on_read : ℕ → ℕ → Bool → RdcpRequest
unfolding break_range
break_on_read = break_range (codes "read")

unfoldable pub break_on_write : ℕ → ℕ → Bool → RdcpRequest
unfolding break_range
break_on_write = break_range (codes "write")

unfoldable pub break_on_execute : ℕ → ℕ → Bool → RdcpRequest
unfolding break_range
break_on_execute = break_range (codes "execute")

unfoldable pub is_break : ℕ → RdcpRequest
unfolding plain_request hex_string
is_break address = plain_request (codes "isbreak") (codes " addr=" ++ hex_string address)

-- A bit of the events, by its value.
unfoldable pub has_flag : ℕ → ℕ → Bool
has_flag events flag = events / flag % 2 == 1

-- `kAll` is all 32 bits.
unfoldable pub stop_on_base : Bytes → ℕ → RdcpRequest
unfolding plain_request flag_text has_flag
stop_on_base command events = plain_request command (
    if events == 0xFFFFFFFF
    then codes " all"
    else flag_text (has_flag events 1) (codes " createthread")
      ++ (flag_text (has_flag events 2) (codes " fce")
          ++ (flag_text (has_flag events 4) (codes " debugstr")
              ++ flag_text (has_flag events 8) (codes " stacktrace"))))

unfoldable pub no_stop_on : ℕ → RdcpRequest
unfolding stop_on_base
no_stop_on = stop_on_base (codes "nostopon")

unfoldable pub stop_on : ℕ → RdcpRequest
unfolding stop_on_base
stop_on = stop_on_base (codes "stopon")
