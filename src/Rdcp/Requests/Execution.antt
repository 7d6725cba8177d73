-- ===== src/Rdcp/Requests/Execution.antt =====
-- The requests of src/rdcp/xbdm_requests.h for threads, for the debugger, and for the system.
use xbdm_gdb_bridge.Prelude.{
  Bool, Bytes, Option, [], codes, if◌then◌else◌, none, some, ℕ, ◌++◌, ◌||◌,
}
use xbdm_gdb_bridge.Rdcp.Request.{RdcpRequest}
use xbdm_gdb_bridge.Rdcp.Requests.{flag_text, hex_string, hex_string64, plain_request}
use xbdm_gdb_bridge.Rdcp.Requests.Breakpoints.{has_flag}

unfoldable pub continue_thread : ℕ → Bool → RdcpRequest
unfolding plain_request flag_text hex_string
continue_thread thread_id exception =
    plain_request (codes "continue")
      (codes " thread=" ++ (hex_string thread_id ++ flag_text exception (codes " exception")))

-- The requests that name a thread and nothing else.
unfoldable pub thread_request : Bytes → ℕ → RdcpRequest
unfolding plain_request hex_string
thread_request command thread_id = plain_request command (codes " thread=" ++ hex_string thread_id)

unfoldable pub func_call : ℕ → RdcpRequest
unfolding thread_request
func_call = thread_request (codes "funccall")

unfoldable pub halt_thread : ℕ → RdcpRequest
unfolding thread_request
halt_thread = thread_request (codes "halt")

unfoldable pub is_stopped : ℕ → RdcpRequest
unfolding thread_request
is_stopped = thread_request (codes "isstopped")

unfoldable pub resume : ℕ → RdcpRequest
unfolding thread_request
resume = thread_request (codes "resume")

unfoldable pub suspend : ℕ → RdcpRequest
unfolding thread_request
suspend = thread_request (codes "suspend")

unfoldable pub thread_info : ℕ → RdcpRequest
unfolding thread_request
thread_info = thread_request (codes "threadinfo")

-- The constructor asserts that a flag is set.
unfoldable pub get_context : ℕ → Bool → Bool → Bool → Option RdcpRequest
unfolding plain_request flag_text hex_string
get_context thread_id control integer float =
    if control || (integer || float)
    then some (
        plain_request (codes "getcontext") (
          codes " thread="
          ++ (hex_string thread_id
              ++ (flag_text control (codes " control")
                  ++ (flag_text integer (codes " int") ++ flag_text float (codes " fp"))))))
    else none

unfoldable pub go : RdcpRequest
unfolding plain_request
go = plain_request (codes "go") []

unfoldable pub stop : RdcpRequest
unfolding plain_request
stop = plain_request (codes "stop") []

unfoldable pub halt : RdcpRequest
unfolding plain_request
halt = plain_request (codes "halt") []

unfoldable pub bye : RdcpRequest
unfolding plain_request
bye = plain_request (codes "bye") []

unfoldable pub debugger : Bool → RdcpRequest
unfolding plain_request
debugger connect =
    plain_request (codes "debugger") (if connect then codes " connect" else codes " disconnect")

unfoldable pub debug_mode : Bool → RdcpRequest
unfolding plain_request
debug_mode enable =
    plain_request (codes "debugmode") (if enable then codes " enabled" else codes " disabled")

unfoldable pub set_debug_options : Bool → Bool → RdcpRequest
unfolding plain_request
set_debug_options crashdump dpctrace = plain_request (codes "dbgoptions") (
    codes " crashdump="
    ++ ((if crashdump then codes "1" else codes "0")
        ++ (codes " dpctrace=" ++ (if dpctrace then codes "1" else codes "0"))))

unfoldable pub reboot : ℕ → RdcpRequest
unfolding plain_request flag_text has_flag
reboot flags = plain_request (codes "reboot") (
    flag_text (has_flag flags 1) (codes " wait")
    ++ (flag_text (has_flag flags 2) (codes " warm")
        ++ (flag_text (has_flag flags 4) (codes " nodebug")
            ++ flag_text (has_flag flags 8) (codes " stop"))))

unfoldable pub lock_mode : ℕ → Bool → RdcpRequest
unfolding plain_request flag_text hex_string64
lock_mode box_id encrypt =
    plain_request (codes "lockmode")
      (codes " boxid=" ++ (hex_string64 box_id ++ flag_text encrypt (codes " encrypt")))

unfoldable pub unlock : RdcpRequest
unfolding plain_request
unlock = plain_request (codes "lockmode") (codes " unlock")
