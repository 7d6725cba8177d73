-- ===== src/Rdcp/Tests.antt =====
-- The theorems on the replies of the debug monitor, at concrete inputs.
use xbdm_gdb_bridge.Prelude.{
  Bytes, List, Option, [], arith, codes, false, length, none, refl, same, some, true, ℕ, ◌%◌, ◌*◌,
  ◌++◌, ◌+◌, ◌/◌, ◌^◌, ◌∷◌, ◌≡◌, ◌≤◌,
}
use xbdm_gdb_bridge.Bridge.Serialize.{hex_fixed}
use xbdm_gdb_bridge.Cstd.{hex_digit, lower, scan}
use xbdm_gdb_bridge.Net.Connection.{TcpConnection, close_socket}
use xbdm_gdb_bridge.Rdcp.Request.{RdcpRequest, to_bytes}
use xbdm_gdb_bridge.Rdcp.Requests.{hex_string, plain_request}
use xbdm_gdb_bridge.Rdcp.Requests.Memory.{get_file, maximum_send_length, set_mem}
use xbdm_gdb_bridge.Rdcp.Requests.Sizes.{get_file-reply, set_mem-maximum, size_prefix}
use xbdm_gdb_bridge.Rdcp.Response.{
  multiline_terminator, out_of_bounds, parse, parsed, read_status, search_for,
}
use xbdm_gdb_bridge.Rdcp.Response.Bodies.{parse-binary_reply, parse-multiline_reply}
use xbdm_gdb_bridge.Rdcp.Response.Bounds.{Within, parse-Within}
use xbdm_gdb_bridge.Rdcp.Response.Framing.{first_line}
use xbdm_gdb_bridge.Rdcp.Transport.{
  XbdmTransport, close, completed, faulted, init, null_response, receive, running, send,
}
use xbdm_gdb_bridge.Rdcp.Transport.Answers.{
  IsLine, IsSimple, Reply, online, reads, receive-reply, reply_text, response_of, run-reads, texts,
}
use xbdm_gdb_bridge.Rdcp.Transport.Faults.{quiet, receive-greeting, receive-malformed}
use xbdm_gdb_bridge.Rdcp.Transport.Order.{AllAnswered, accounted, run-AllAnswered, run-accounted}
use xbdm_gdb_bridge.Rdcp.Transport.Queue.{
  Event, Refines, all_offered, closing, continue, receiving, run, sending, step, view,
}
use xbdm_gdb_bridge.Rdcp.Transport.Refinement.{run-Refines}
use xbdm_gdb_bridge.Rdcp.Transport.Sending.{copies, run-sends, run-upload, sends}
use xbdm_gdb_bridge.Rdcp.MapResponse.{add_tokens, empty_response, get_qword}
use xbdm_gdb_bridge.Rdcp.MapResponse.Fields.{field, get_qword-fields}

-- One byte of size in front of the body.
abbrev one_byte_size : Bytes → Option (ℕ × ℕ)
one_byte_size [] = none
one_byte_size (n ∷ _) = some (n, 1)

abbrev threads : Bytes
threads = codes "28" ++ 13 ∷ 10 ∷ codes "29"

abbrev module_name : Bytes
module_name = codes "xmem"

parse-multiline_reply_example :
    parse none
      (first_line 202 (codes "ok") ++ 13 ∷ 10 ∷ (threads ++ (multiline_terminator ++ codes "2")))
    ≡ parsed (2 + 7 + 6 + 5) (record { status = 202; message = codes "ok"; payload = threads })
unfolding search_for
parse-multiline_reply_example =
    parse-multiline_reply none (codes "ok") threads (codes "2") (refl, (refl, tt)) refl

parse-binary_reply_example :
    parse
      (some one_byte_size)
      (first_line 203 (codes "b") ++ 13 ∷ 10 ∷ ((4 ∷ []) ++ (module_name ++ codes "20")))
    ≡ parsed (1 + 7 + 1 + 4) (record { status = 203; message = []; payload = module_name })
parse-binary_reply_example =
    parse-binary_reply one_byte_size (codes "b") (4 ∷ []) module_name (codes "20") (refl, tt) refl
      (omega arith)

parse-Within_example : Within 9 (parse none (codes "200- ok" ++ 13 ∷ 10 ∷ []))
parse-Within_example = parse-Within none (codes "200- ok" ++ 13 ∷ 10 ∷ [])

-- A line that ends behind the dash makes the range of the message start behind its end.
no_message : parse none (codes "200-" ++ 13 ∷ 10 ∷ []) ≡ out_of_bounds
unfolding parse read_status scan
no_message = refl

-- A connected transport, its requests and its replies.
abbrev open_connection : TcpConnection
open_connection = record {
  has_pipe = true;
  is_open = true;
  is_shutdown = false;
  close_after_flush = false;
  read_buffer = [];
  write_buffer = [];
  sent = [];
}

abbrev threads_request : RdcpRequest
threads_request = record {
  command = codes "threads";
  data_bytes = [];
  binary_response_size_parser = none;
  binary_payload = none;
}

abbrev bye_request : RdcpRequest
bye_request = record {
  command = codes "bye";
  data_bytes = [];
  binary_response_size_parser = none;
  binary_payload = none;
}

abbrev upload_request : RdcpRequest
upload_request = record {
  command = codes "sendfile";
  data_bytes = codes " name=a length=2";
  binary_response_size_parser = none;
  binary_payload = some (codes "ab");
}

abbrev ok_reply : Reply
ok_reply = record { status = 200; message = codes "ok" }

ok_reply-IsLine : IsLine ok_reply
ok_reply-IsLine = record {
  three_digits = omega arith;
  no_lines = λ e. omega (arith, e);
  no_binary = λ e. omega (arith, e);
  one_line = (refl, (refl, tt));
}

ok_reply-IsSimple : IsSimple ok_reply
ok_reply-IsSimple = record { line = ok_reply-IsLine; no_request = λ e. omega (arith, e) }

abbrev online_empty : XbdmTransport
online_empty = online open_connection [] [] [] []

-- A request that is given up.
abbrev closed_run : List Event
closed_run = sending threads_request ∷ closing ∷ []

abbrev after_close : XbdmTransport
after_close = close (send threads_request online_empty)

closed_run_ends : run closed_run online_empty ≡ running after_close
unfolding run step continue
closed_run_ends = refl

run-Refines_example :
    Refines (view online_empty) (all_offered closed_run) (run closed_run online_empty)
run-Refines_example = run-Refines closed_run online_empty

run-accounted_example : accounted (view after_close) ≡ [] ++ all_offered closed_run
run-accounted_example = run-accounted closed_run online_empty after_close closed_run_ends

run-AllAnswered_example : AllAnswered after_close.endings
run-AllAnswered_example = run-AllAnswered closed_run online_empty after_close closed_run_ends tt

receive-reply_example :
    receive
      (reply_text ok_reply ++ codes "200")
      (online open_connection [] [] (threads_request ∷ bye_request ∷ []) [])
    ≡ running (
        online open_connection
          (codes "200")
          (to_bytes bye_request)
          (bye_request ∷ [])
          (completed threads_request (response_of ok_reply) ∷ []))
receive-reply_example =
    receive-reply open_connection [] threads_request (bye_request ∷ []) [] ok_reply (codes "200")
      ok_reply-IsSimple

run-reads_example :
    run
      (reads (ok_reply ∷ ok_reply ∷ []))
      (online open_connection [] [] (threads_request ∷ bye_request ∷ []) [])
    ≡ running (
        online open_connection [] (texts (bye_request ∷ [])) [] (
          completed threads_request (response_of ok_reply)
          ∷ completed bye_request (response_of ok_reply)
          ∷ []))
run-reads_example =
    run-reads open_connection [] (threads_request ∷ bye_request ∷ []) [] (ok_reply ∷ ok_reply ∷ [])
      refl (ok_reply-IsSimple, (ok_reply-IsSimple, tt))

run-sends_example :
    run (sends (threads_request ∷ bye_request ∷ [])) online_empty
    ≡ running (
        online open_connection []
          (copies 2 (to_bytes threads_request))
          (threads_request ∷ bye_request ∷ [])
          [])
run-sends_example = run-sends open_connection [] [] threads_request (bye_request ∷ [])

run-upload_example :
    run
      (receiving (reply_text (record { status = 204; message = codes "go" }))
        ∷ receiving (reply_text ok_reply)
        ∷ [])
      (online open_connection [] [] (upload_request ∷ []) [])
    ≡ running (
        online open_connection []
          (codes "ab")
          []
          (completed upload_request (response_of ok_reply) ∷ []))
run-upload_example =
    run-upload open_connection [] [] upload_request (codes "ab") (codes "go") ok_reply refl
      (refl, (refl, tt)) ok_reply-IsSimple

receive-malformed_example :
    receive (codes "xbox" ++ 13 ∷ 10 ∷ []) (online open_connection [] [] (bye_request ∷ []) [])
    ≡ faulted null_response
receive-malformed_example =
    receive-malformed (codes "xbox") [] open_connection [] (bye_request ∷ []) []
      (refl, (refl, (refl, (refl, tt)))) (omega arith) refl

receive-greeting_example :
    receive (reply_text ok_reply) (quiet open_connection init [])
    ≡ running (quiet (close_socket open_connection) init [])
receive-greeting_example = receive-greeting open_connection [] init ok_reply ok_reply-IsLine

abbrev two_digits : Bytes → Bytes
two_digits [] = []
two_digits (c ∷ cs) = hex_digit (c / 16 % 16) ∷ hex_digit (c % 16) ∷ two_digits cs

length-two_digits : (bytes : Bytes) → length (two_digits bytes) ≡ 2 * length bytes
length-two_digits [] = refl
length-two_digits (c ∷ cs) = omega (arith, length-two_digits cs)

abbrev two_bytes_request : RdcpRequest
two_bytes_request = record {
  command = codes "setmem";
  data_bytes = codes " addr=0x00001000 data=7f00";
  binary_response_size_parser = none;
  binary_payload = none;
}

two_bytes : set_mem two_digits 4096 (127 ∷ 0 ∷ []) ≡ some two_bytes_request
unfolding set_mem plain_request hex_string hex_fixed hex_digit
two_bytes = refl

set_mem-maximum_example :
    (length (to_bytes two_bytes_request) ≡ 30 + 2 * 2)
    × (length (to_bytes two_bytes_request) ≤ maximum_send_length)
set_mem-maximum_example =
    set_mem-maximum two_digits 4096 (127 ∷ 0 ∷ []) two_bytes_request length-two_digits two_bytes

get_file-reply_example :
    parse
      (get_file (codes "e:a.txt")).binary_response_size_parser
      (first_line 203 (codes "ok") ++ 13 ∷ 10 ∷ (size_prefix 2 ++ (codes "hi" ++ [])))
    ≡ parsed (2 + 7 + 4 + 2) (record { status = 203; message = []; payload = codes "hi" })
get_file-reply_example =
    get_file-reply (codes "e:a.txt") (codes "ok") (codes "hi") [] (refl, (refl, tt)) (omega arith)

different_keys : same (lower (codes "clocklo")) (lower (codes "clockhi")) ≡ false
unfolding lower
different_keys = refl

get_qword-fields_example :
    get_qword
      (add_tokens
        (λ text. text)
        (field (codes "clocklo") (hex_string (0x123456789A % 2 ^ 32))
          ∷ field (codes "clockhi") (hex_string (0x123456789A / 2 ^ 32))
          ∷ [])
        empty_response)
      (codes "clocklo")
      (codes "clockhi")
      0
    ≡ 0x123456789A
get_qword-fields_example =
    get_qword-fields (λ text. text) empty_response (codes "clocklo") (codes "clockhi") 0x123456789A
      0 (refl, (refl, (refl, (refl, (refl, (refl, (refl, tt)))))))
      (refl, (refl, (refl, (refl, (refl, (refl, (refl, tt))))))) different_keys (omega arith)
