-- ===== src/Rdcp/Requests/Memory.antt =====
-- The requests of src/rdcp/xbdm_requests.h and xbdm_requests.cpp for memory; the function of boost
-- that `AppendHexBuffer` calls is a parameter.
use xbdm_gdb_bridge.Prelude.{
  Bytes, Option, codes, if◌then◌else◌, leb, length, none, some, ℕ, ◌%◌, ◌&&◌, ◌*◌, ◌++◌, ◌+◌, ◌-◌,
  ◌/◌, ◌==◌, ◌^◌, ◌∷◌,
}
use xbdm_gdb_bridge.Rdcp.Request.{RdcpRequest}
use xbdm_gdb_bridge.Rdcp.Requests.{hex_string, plain_request, quoted}

unfoldable pub get_mem : ℕ → ℕ → RdcpRequest
unfolding plain_request hex_string
get_mem addr size =
    plain_request (codes "getmem")
      (codes " addr=" ++ (hex_string addr ++ (codes " length=" ++ hex_string size)))

-- The size of the response is known from the request.
unfoldable pub get_mem_binary : ℕ → ℕ → RdcpRequest
unfolding plain_request hex_string
get_mem_binary addr size =
    record (plain_request (codes "getmem2")
      (codes " ADDR=" ++ (hex_string addr ++ (codes " LENGTH=" ++ hex_string size)))) {
        binary_response_size_parser = some (λ _. some (size, 0));
      }

-- Behind the assertions; a block size of 0, which they let pass, is divided by.
unfoldable pub checksum_request : ℕ → ℕ → ℕ → RdcpRequest
unfolding plain_request hex_string
checksum_request addr size blocksize =
    record (plain_request (codes "getsum") (
      codes " ADDR="
      ++ (hex_string addr
          ++ (codes " LENGTH="
              ++ (hex_string size ++ (codes " BLOCKSIZE=" ++ hex_string blocksize)))))) {
                binary_response_size_parser = some (λ _. some (size / blocksize * 4 % 2 ^ 32, 0));
              }

unfoldable pub get_checksum : ℕ → ℕ → ℕ → Option RdcpRequest
unfolding checksum_request
get_checksum addr size blocksize =
    if addr % 8 == 0 && (size % 8 == 0 && blocksize % 8 == 0)
    then (if blocksize == 0 then none else some (checksum_request addr size blocksize))
    else none

abbrev pub maximum_send_length : ℕ
maximum_send_length = 512

abbrev pub k_maximum_data_size : ℕ
k_maximum_data_size = (maximum_send_length - 32) / 4

-- The two constructors of `SetMem`, which assert that the data are small enough.
unfoldable pub set_mem : (Bytes → Bytes) → ℕ → Bytes → Option RdcpRequest
unfolding plain_request hex_string
set_mem hex address bytes =
    if leb (length bytes) k_maximum_data_size
    then some (
        plain_request (codes "setmem")
          (codes " addr=" ++ (hex_string address ++ (codes " data=" ++ hex bytes))))
    else none

unfoldable pub set_mem_text : ℕ → Bytes → Option RdcpRequest
unfolding plain_request hex_string
set_mem_text address hex_data =
    if leb (length hex_data) (maximum_send_length - 32)
    then some (
        plain_request (codes "setmem")
          (codes " addr=" ++ (hex_string address ++ (codes " data=" ++ hex_data))))
    else none

unfoldable pub pdb_info : ℕ → RdcpRequest
unfolding plain_request hex_string
pdb_info address = plain_request (codes "pdbinfo") (codes " addr=" ++ hex_string address)

unfoldable pub set_nvram_config : ℕ → ℕ → RdcpRequest
unfolding plain_request hex_string
set_nvram_config index value =
    plain_request (codes "setconfig")
      (codes " index=" ++ (hex_string index ++ (codes " value=" ++ hex_string value)))

unfoldable pub set_system_time : ℕ → RdcpRequest
unfolding plain_request hex_string
set_system_time nt_timestamp = plain_request (codes "setsystime") (
    codes " clocklo="
    ++ (hex_string (nt_timestamp % 2 ^ 32)
        ++ (codes " clockhi=" ++ hex_string (nt_timestamp / 2 ^ 32 % 2 ^ 32))))

-- `BinarySizeInt32Prefix`, on a host that puts the low byte first.
unfoldable pub binary_size_int32_prefix : Bytes → Option (ℕ × ℕ)
binary_size_int32_prefix (a ∷ b ∷ c ∷ d ∷ _) = some (a + b * 2 ^ 8 + c * 2 ^ 16 + d * 2 ^ 24, 4)
binary_size_int32_prefix _ = none

unfoldable pub get_ext_context : ℕ → RdcpRequest
unfolding plain_request hex_string binary_size_int32_prefix
get_ext_context thread_id =
    record (plain_request (codes "getextcontext") (codes " thread=" ++ hex_string thread_id)) {
      binary_response_size_parser = some binary_size_int32_prefix;
    }

-- The whole of a file, and a part of it.
unfoldable pub get_file : Bytes → RdcpRequest
unfolding plain_request quoted binary_size_int32_prefix
get_file path = record (plain_request (codes "getfile") (quoted (codes " name=") path)) {
  binary_response_size_parser = some binary_size_int32_prefix;
}

unfoldable pub get_file_part : Bytes → ℕ → ℕ → RdcpRequest
unfolding plain_request quoted hex_string binary_size_int32_prefix
get_file_part path offset size =
    record (plain_request (codes "getfile") (
      quoted (codes " name=") path
      ++ (codes " offset=" ++ (hex_string offset ++ (codes " size=" ++ hex_string size))))) {
        binary_response_size_parser = some binary_size_int32_prefix;
      }
