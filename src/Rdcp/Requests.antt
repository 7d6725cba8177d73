-- ===== src/Rdcp/Requests.antt =====
-- How the requests of src/rdcp/xbdm_requests.h are put together, by the functions of
-- rdcp_request.h.
pub mod Breakpoints
pub mod Execution
pub mod Files
pub mod Memory
pub mod Profiling
pub mod Settings
pub mod Devices
pub mod Sizes
pub mod Numbers
use xbdm_gdb_bridge.Prelude.{Bool, Bytes, [], codes, if◌then◌else◌, none, ℕ, ◌%◌, ◌++◌, ◌^◌, ◌∷◌}
use xbdm_gdb_bridge.Rdcp.Request.{RdcpRequest}
use xbdm_gdb_bridge.Bridge.Serialize.{hex_fixed}

-- `AppendHexString` of 32 bits, or of fewer, as its 32-bit pattern: `0x%08x`.
unfoldable pub hex_string : ℕ → Bytes
unfolding hex_fixed
hex_string n = codes "0x" ++ hex_fixed 8 (n % 2 ^ 32)

-- `AppendHexString` of 64 bits: `0q%016llx`.
unfoldable pub hex_string64 : ℕ → Bytes
unfolding hex_fixed
hex_string64 n = codes "0q" ++ hex_fixed 16 (n % 2 ^ 64)

-- A request with this command and this data, and with nothing else.
unfoldable pub plain_request : Bytes → Bytes → RdcpRequest
plain_request command data_bytes = record {
  command = command;
  data_bytes = data_bytes;
  binary_response_size_parser = none;
  binary_payload = none;
}

-- A name between quotes, which nothing escapes, behind the text in front of it.
unfoldable pub quoted : Bytes → Bytes → Bytes
quoted label name = label ++ b'"' ∷ (name ++ b'"' ∷ [])

-- A text that is only there if a flag is set.
unfoldable pub flag_text : Bool → Bytes → Bytes
flag_text flag text = if flag then text else []
