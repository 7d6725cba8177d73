-- ===== src/Rdcp/Requests/Devices.antt =====
-- The requests of src/rdcp/xbdm_requests.h for the graphics processor, the disc and the hard disk.
use xbdm_gdb_bridge.Prelude.{
  Bool, Bytes, Option, [], codes, if◌then◌else◌, length, none, some, ℕ, ◌%◌, ◌++◌, ◌/◌, ◌==◌, ◌^◌,
  ◌∷◌,
}
use xbdm_gdb_bridge.Rdcp.Request.{RdcpRequest}
use xbdm_gdb_bridge.Rdcp.Requests.{flag_text, hex_string, plain_request, quoted}

unfoldable pub d3d_opcode : ℕ → ℕ → ℕ → ℕ → ℕ → ℕ → RdcpRequest
unfolding plain_request hex_string
d3d_opcode p0 p1 p2 p3 p4 p5 = plain_request (codes "d3dopcode") (
    codes " 0="
    ++ (hex_string p0
        ++ (codes " 1="
            ++ (hex_string p1
                ++ (codes " 2="
                    ++ (hex_string p2
                        ++ (codes " 3="
                            ++ (hex_string p3
                                ++ (codes " 4="
                                    ++ (hex_string p4 ++ (codes " 5=" ++ hex_string p5)))))))))))

unfoldable pub enable_gpu_counter : Bool → RdcpRequest
unfolding plain_request
enable_gpu_counter on =
    plain_request (codes "gpucount") (if on then codes " enable" else codes " disable")

unfoldable pub get_palette : ℕ → RdcpRequest
unfolding plain_request hex_string
get_palette stage = plain_request (codes "getpalette") (codes " STAGE=" ++ hex_string stage)

unfoldable pub get_surface : ℕ → RdcpRequest
unfolding plain_request hex_string
get_surface surface_id = plain_request (codes "getsurf") (codes " id=" ++ hex_string surface_id)

unfoldable pub ps_snap : ℕ → ℕ → ℕ → ℕ → RdcpRequest
unfolding plain_request hex_string
ps_snap x y flags marker = plain_request (codes "pssnap") (
    codes " x="
    ++ (hex_string x
        ++ (codes " y="
            ++ (hex_string y
                ++ ((if flags == 0 then [] else codes " flags=" ++ hex_string flags)
                    ++ (if marker == 0 then [] else codes " marker=" ++ hex_string marker))))))

unfoldable pub query_performance_counter : Bytes → RdcpRequest
unfolding plain_request quoted
query_performance_counter name = plain_request (codes "querypc") (quoted (codes " name=") name)

unfoldable pub query_performance_counter_type : Bytes → ℕ → RdcpRequest
unfolding plain_request quoted hex_string
query_performance_counter_type name counter_type =
    plain_request (codes "querypc")
      (quoted (codes " name=") name ++ (codes " type=" ++ hex_string counter_type))

unfoldable pub dvd_blk : Bytes → ℕ → ℕ → RdcpRequest
unfolding plain_request quoted hex_string
dvd_blk name addr size = plain_request (codes "dvdblk") (
    quoted (codes " name=") name
    ++ (codes " addr=" ++ (hex_string addr ++ (codes " size=" ++ hex_string size))))

-- `DvdPerf::Action`.
pub data DvdAction : Type 0 where
  start_profile stop_profile stop_report : DvdAction

unfoldable pub dvd_perf : DvdAction → RdcpRequest
unfolding plain_request
dvd_perf start_profile = plain_request (codes "dvdperf") (codes " start")
dvd_perf stop_profile = plain_request (codes "dvdperf") (codes " stop")
dvd_perf stop_report = plain_request (codes "dvdperf") (codes " stop report")

unfoldable pub fmt_fat : ℕ → RdcpRequest
unfolding plain_request hex_string
fmt_fat partition = plain_request (codes "fmtfat") (codes " partition=" ++ hex_string partition)

-- The image is the payload.
unfoldable pub flash : Bytes → ℕ → Bool → RdcpRequest
unfolding plain_request flag_text hex_string
flash buffer crc ignore_version_checking =
    record (plain_request (codes "flash") (
      codes " length="
      ++ (hex_string (length buffer)
          ++ (codes " crc="
              ++ (hex_string crc
                  ++ flag_text ignore_version_checking (codes " ignoreversionchecking=1")))))) {
                    binary_payload = some buffer;
                  }

-- The two halves of a file time, and the two ways to update a system file. A payload without bytes
-- is null.
unfoldable pub file_time_text : ℕ → Bytes
unfolding hex_string
file_time_text filetime =
    codes " ftimelo="
    ++ (hex_string (filetime % 2 ^ 32)
        ++ (codes " ftimehi=" ++ hex_string (filetime / 2 ^ 32 % 2 ^ 32)))

unfoldable pub non_empty : Bytes → Option Bytes
non_empty [] = none
non_empty (c ∷ cs) = some (c ∷ cs)

unfoldable pub sys_file_upd_local : Bytes → Bytes → ℕ → RdcpRequest
unfolding plain_request quoted file_time_text
sys_file_upd_local path local_src filetime = plain_request (codes "sysfileupd") (
    quoted (codes " name=") path
    ++ (quoted (codes " localsrc=") local_src ++ file_time_text filetime))

unfoldable pub sys_file_upd_stream : Bytes → Bytes → ℕ → ℕ → RdcpRequest
unfolding plain_request quoted hex_string file_time_text non_empty
sys_file_upd_stream path stream_bytes crc filetime =
    record (plain_request (codes "sysfileupd") (
      quoted (codes " name=") path
      ++ (codes " size="
          ++ (hex_string (length stream_bytes)
              ++ (codes " crc=" ++ (hex_string crc ++ file_time_text filetime)))))) {
                binary_payload = non_empty stream_bytes;
              }

unfoldable pub sign_content : Bytes → ℕ → RdcpRequest
unfolding plain_request quoted hex_string
sign_content path title_id = plain_request (codes "signcontent") (
    quoted (codes " name=") path
    ++ (if title_id == 0 then [] else codes " titleid=" ++ hex_string title_id))
