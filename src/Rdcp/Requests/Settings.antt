-- ===== src/Rdcp/Requests/Settings.antt =====
-- The requests of src/rdcp/xbdm_requests.h for options, passwords, security and the channel of
-- notifications.
-- `AppendDecimalString`.
use xbdm_gdb_bridge.Prelude.{
  Bool, Bytes, Option, [], codes, if◌then◌else◌, none, some, ℕ, ◌*◌, ◌++◌, ◌+◌, ◌==◌, ◌^◌,
}
use xbdm_gdb_bridge.Rdcp.Request.{RdcpRequest}
use xbdm_gdb_bridge.Rdcp.Requests.{flag_text, hex_string, hex_string64, plain_request, quoted}
use xbdm_gdb_bridge.Bridge.State.{print_unsigned}

unfoldable pub decimal_string : ℕ → Bytes
unfolding print_unsigned
decimal_string = print_unsigned

-- Two halves of a 64-bit number.
unfoldable pub admin_pw : ℕ → ℕ → RdcpRequest
unfolding plain_request hex_string64
admin_pw high_part low_part =
    plain_request (codes "adminpw")
      (codes " passwd=" ++ hex_string64 (high_part * 2 ^ 32 + low_part))

unfoldable pub auth_user : Bytes → ℕ → ℕ → Bool → RdcpRequest
unfolding plain_request quoted hex_string64
auth_user username high low is_passwd = plain_request (codes "authuser") (
    quoted (codes " name=") username
    ++ (codes " "
        ++ ((if is_passwd then codes "passwd=" else codes "resp=")
            ++ hex_string64 (high * 2 ^ 32 + low))))

unfoldable pub auth_admin : ℕ → ℕ → RdcpRequest
unfolding plain_request hex_string64
auth_admin high low =
    plain_request (codes "authuser") (codes " admin resp=" ++ hex_string64 (high * 2 ^ 32 + low))

unfoldable pub set_devkit_name : Bytes → RdcpRequest
unfolding plain_request
set_devkit_name new_name = plain_request (codes "dbgname") (codes " name=" ++ new_name)

unfoldable pub set_enable_crashdump : Bool → RdcpRequest
unfolding plain_request
set_enable_crashdump enable =
    plain_request (codes "dbgoptions")
      (codes " crashdump=" ++ (if enable then codes "1" else codes "0"))

unfoldable pub set_enable_dpctrace : Bool → RdcpRequest
unfolding plain_request
set_enable_dpctrace enable =
    plain_request (codes "dbgoptions")
      (codes " dpctrace=" ++ (if enable then codes "1" else codes "0"))

-- The commands of the profiler and of the kernel debugger.
pub data CaptureCommand : Type 0 where
  start_capture stop_capture is_fast_cap_enabled : CaptureCommand

unfoldable pub profiler_capture_control : CaptureCommand → Bytes → ℕ → RdcpRequest
unfolding plain_request quoted decimal_string
profiler_capture_control start_capture name buffer_size_mb = plain_request (codes "capctrl") (
    codes " start"
    ++ (quoted (codes " name=") name
        ++ (if buffer_size_mb == 0
            then []
            else codes " buffersize=" ++ decimal_string buffer_size_mb)))
profiler_capture_control stop_capture name buffer_size_mb =
    plain_request (codes "capctrl") (codes " stop")
profiler_capture_control is_fast_cap_enabled name buffer_size_mb =
    plain_request (codes "capctrl") (codes " fastcapenabled")

pub data KernelDebugMode : Type 0 where
  enable disable except except_if : KernelDebugMode

unfoldable pub kernel_debug : KernelDebugMode → RdcpRequest
unfolding plain_request
kernel_debug enable = plain_request (codes "kd") (codes " enable")
kernel_debug disable = plain_request (codes "kd") (codes " disable")
kernel_debug except = plain_request (codes "kd") (codes " except")
kernel_debug except_if = plain_request (codes "kd") (codes " exceptif")

-- A handler that may be null.
unfoldable pub dedicate : Option Bytes → RdcpRequest
unfolding plain_request quoted
dedicate none = plain_request (codes "dedicate") (codes " global")
dedicate (some handler_name) =
    plain_request (codes "dedicate") (quoted (codes " handler=") handler_name)

-- The port is written in decimal, but in hexadecimal where there is an address.
unfoldable pub notify_at : ℕ → Bool → Bool → RdcpRequest
unfolding plain_request flag_text decimal_string
notify_at port drop_flag debug_flag = plain_request (codes "notifyat") (
    codes " Port="
    ++ (decimal_string port
        ++ (flag_text drop_flag (codes " drop") ++ flag_text debug_flag (codes " debug"))))

unfoldable pub notify_at_address : ℕ → Bytes → Bool → Bool → RdcpRequest
unfolding plain_request flag_text hex_string
notify_at_address port address drop_flag debug_flag = plain_request (codes "notifyat") (
    codes " Port="
    ++ (hex_string port
        ++ (codes " addr="
            ++ (address
                ++ (flag_text drop_flag (codes " drop")
                    ++ flag_text debug_flag (codes " debug"))))))
