-- ===== src/Rdcp/Requests/Files.antt =====
-- The requests of src/rdcp/xbdm_requests.h for files, modules and titles.
use xbdm_gdb_bridge.Prelude.{
  Bool, Bytes, Option, [], codes, if◌then◌else◌, length, none, some, ℕ, ◌%◌, ◌++◌, ◌/◌, ◌^◌, ◌∷◌,
}
use xbdm_gdb_bridge.Rdcp.Request.{RdcpRequest}
use xbdm_gdb_bridge.Rdcp.Requests.{flag_text, hex_string, plain_request, quoted}

unfoldable pub delete : Bytes → Bool → RdcpRequest
unfolding plain_request flag_text quoted
delete path is_directory =
    plain_request (codes "delete")
      (quoted (codes " name=") path ++ flag_text is_directory (codes " dir"))

unfoldable pub file_eof : Bytes → ℕ → RdcpRequest
unfolding plain_request quoted hex_string
file_eof path size =
    plain_request (codes "fileeof")
      (quoted (codes " name=") path ++ (codes " size=" ++ hex_string size))

unfoldable pub mkdir : Bytes → RdcpRequest
unfolding plain_request quoted
mkdir name = plain_request (codes "mkdir") (quoted (codes " name=") name)

unfoldable pub rename : Bytes → Bytes → RdcpRequest
unfolding plain_request quoted
rename name new_name =
    plain_request (codes "rename")
      (quoted (codes " name=") name ++ quoted (codes " newname=") new_name)

-- The body of the file is the payload, which the transport sends when it is asked for it.
unfoldable pub send_file : Bytes → Bytes → RdcpRequest
unfolding plain_request quoted hex_string
send_file name buffer =
    record (plain_request (codes "sendfile")
      (quoted (codes " name=") name ++ (codes " length=" ++ hex_string (length buffer)))) {
        binary_payload = some buffer;
      }

unfoldable pub magic_boot : Bytes → Bool → Bool → RdcpRequest
unfolding plain_request flag_text quoted
magic_boot title debug cold = plain_request (codes "magicboot") (
    quoted (codes " title=") title
    ++ (flag_text debug (codes " debug") ++ flag_text cold (codes " cold")))

unfoldable pub def_title : Bytes → Bytes → RdcpRequest
unfolding plain_request quoted
def_title name directory =
    plain_request (codes "deftitle")
      (quoted (codes " name=") name ++ quoted (codes " dir=") directory)

-- A directory and a command line that may be missing.
unfoldable pub directory_text : Option Bytes → Bytes
unfolding quoted
directory_text none = []
directory_text (some directory) = quoted (codes " dir=") directory

unfoldable pub command_line_text : Bytes → Bytes
unfolding quoted
command_line_text [] = []
command_line_text (c ∷ cs) = quoted (codes " cmdline=") (c ∷ cs)

unfoldable pub load_on_boot_title : Bytes → Option Bytes → Bytes → Bool → RdcpRequest
unfolding plain_request flag_text quoted directory_text command_line_text
load_on_boot_title name directory command_line persist = plain_request (codes "title") (
    quoted (codes " name=") name
    ++ (directory_text directory
        ++ (command_line_text command_line ++ flag_text persist (codes " persist"))))

-- The requests that name a file, a drive or a module and nothing else.
unfoldable pub dir_list : Bytes → RdcpRequest
unfolding plain_request quoted
dir_list path = plain_request (codes "dirlist") (quoted (codes " name=") path)

unfoldable pub drive_free_space : Bytes → RdcpRequest
unfolding plain_request quoted
drive_free_space name = plain_request (codes "drivefreespace") (quoted (codes " name=") name)

unfoldable pub get_file_attributes : Bytes → RdcpRequest
unfolding plain_request quoted
get_file_attributes path = plain_request (codes "getfileattributes") (quoted (codes " name=") path)

unfoldable pub mod_long_name : Bytes → RdcpRequest
unfolding plain_request quoted
mod_long_name name = plain_request (codes "modlong") (quoted (codes " name=") name)

unfoldable pub mod_sections : Bytes → RdcpRequest
unfolding plain_request quoted
mod_sections name = plain_request (codes "modsections") (quoted (codes " name=") name)

unfoldable pub unpersist_title : RdcpRequest
unfolding plain_request
unpersist_title = plain_request (codes "title") (codes " nopersist")

-- The attributes that are to be set.
unfoldable pub option_flag : Bytes → Option Bool → Bytes
option_flag label none = []
option_flag label (some flag) = label ++ (if flag then codes "1" else codes "0")

unfoldable pub option_time : Bytes → Bytes → Option ℕ → Bytes
unfolding hex_string
option_time high_label low_label none = []
option_time high_label low_label (some timestamp) =
    high_label
    ++ (hex_string (timestamp / 2 ^ 32) ++ (low_label ++ hex_string (timestamp % 2 ^ 32)))

unfoldable pub set_file_attributes :
    Bytes → Option Bool → Option Bool → Option ℕ → Option ℕ → RdcpRequest
unfolding plain_request quoted option_flag option_time
set_file_attributes name readonly hidden create_timestamp change_timestamp =
    plain_request (codes "setfileattributes") (
      quoted (codes " name=") name
      ++ (option_flag (codes " readonly=") readonly
          ++ (option_flag (codes " hidden=") hidden
              ++ (option_time (codes " createhi=") (codes " createlo=") create_timestamp
                  ++ option_time (codes " changehi=") (codes " changelo=") change_timestamp))))
