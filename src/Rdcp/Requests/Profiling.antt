-- ===== src/Rdcp/Requests/Profiling.antt =====
-- The requests of src/rdcp/xbdm_requests.h for the low overhead profiler and the tracking of
-- memory, where nothing is returned for a command that an assertion refuses. `LOP::Command`.
use xbdm_gdb_bridge.Prelude.{Bytes, Option, codes, none, some, ℕ, ◌++◌}
use xbdm_gdb_bridge.Rdcp.Request.{RdcpRequest}
use xbdm_gdb_bridge.Rdcp.Requests.{hex_string, plain_request, quoted}

pub data LopCommand : Type 0 where
  start_event start_counter stop_lop info : LopCommand

unfoldable pub lop : LopCommand → ℕ → RdcpRequest
unfolding plain_request hex_string
lop start_event n = plain_request (codes "lop") (codes " cmd=start event=" ++ hex_string n)
lop start_counter n = plain_request (codes "lop") (codes " cmd=start counter=" ++ hex_string n)
lop stop_lop n = plain_request (codes "lop") (codes " cmd=stop")
lop info n = plain_request (codes "lop") (codes " cmd=info")

-- `MemTrack::Command`, and the four constructors.
pub data MemTrackCommand : Type 0 where
  enable_track enable_once disable_track save : MemTrackCommand
  query_stack_depth query_type query_flags : MemTrackCommand

unfoldable pub mem_track : MemTrackCommand → Option RdcpRequest
unfolding plain_request
mem_track disable_track = some (plain_request (codes "memtrack") (codes " cmd=disable"))
mem_track query_stack_depth = some (plain_request (codes "memtrack") (codes " cmd=querystackdepth"))
mem_track query_flags = some (plain_request (codes "memtrack") (codes " cmd=queryflags"))
mem_track _ = none

unfoldable pub mem_track_flags : MemTrackCommand → ℕ → ℕ → Option RdcpRequest
unfolding plain_request hex_string
mem_track_flags enable_track stack_depth flags = some (
    plain_request (codes "memtrack") (
      codes " cmd=enable"
      ++ (codes " stackdepth="
          ++ (hex_string stack_depth ++ (codes " flags=" ++ hex_string flags)))))
mem_track_flags enable_once stack_depth flags = some (
    plain_request (codes "memtrack") (
      codes " cmd=enableonce"
      ++ (codes " stackdepth="
          ++ (hex_string stack_depth ++ (codes " flags=" ++ hex_string flags)))))
mem_track_flags _ stack_depth flags = none

unfoldable pub mem_track_file : MemTrackCommand → Bytes → Option RdcpRequest
unfolding plain_request quoted
mem_track_file save filename =
    some
      (plain_request (codes "memtrack") (codes " cmd=save" ++ quoted (codes " filename=") filename))
mem_track_file _ filename = none

unfoldable pub mem_track_type : MemTrackCommand → ℕ → Option RdcpRequest
unfolding plain_request hex_string
mem_track_type query_type kind =
    some (plain_request (codes "memtrack") (codes " cmd=querytype type=" ++ hex_string kind))
mem_track_type _ kind = none
