-- ===== src/Rdcp/Request.antt =====
-- src/rdcp/rdcp_request.h and rdcp_request.cpp: the text of a request.
use xbdm_gdb_bridge.Prelude.{Bytes, Option, ◌++◌}
use xbdm_gdb_bridge.Rdcp.Response.{SizeParser, terminator}

-- `command_`, `data_` and `binary_response_size_parser_`; `binary_payload` is what the virtual
-- `BinaryPayload` returns, which may be null.
pub record RdcpRequest : Type 0 where
  pub command : Bytes
  pub data_bytes : Bytes
  pub binary_response_size_parser : SizeParser
  pub binary_payload : Option Bytes

-- The conversion to a vector: the command, its data and the line end.
unfoldable pub to_bytes : RdcpRequest → Bytes
to_bytes r = r.command ++ (r.data_bytes ++ terminator)
