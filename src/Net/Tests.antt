-- ===== src/Net/Tests.antt =====
-- The theorems on connections, at concrete inputs.
use xbdm_gdb_bridge.Prelude.{List, [], arith, codes, false, map, refl, true, ◌++◌, ◌∷◌, ◌≡◌}
use xbdm_gdb_bridge.Net.Connection.{TcpConnection, remote_closed, send_failed}
use xbdm_gdb_bridge.Net.Connection.Order.{
  Event, flushing, outgoing, processing, run, run-outgoing, sending, sendings,
}
use xbdm_gdb_bridge.Net.Connection.Flush.{Flushed, flush_and_close-Flushed, writing}

-- An open connection with two bytes to send.
abbrev two_waiting : TcpConnection
two_waiting = record {
  has_pipe = true;
  is_open = true;
  is_shutdown = false;
  close_after_flush = false;
  read_buffer = [];
  write_buffer = codes "hi";
  sent = [];
}

-- Three more bytes, of which and of the others one write takes two; then the connection breaks.
abbrev broken_run : List Event
broken_run =
    sending (codes "abc")
    ∷ writing 1
    ∷ processing (record { exceptional = false; writable = true; readable = true }) send_failed
        remote_closed
    ∷ []

run-outgoing_example : outgoing (run broken_run two_waiting) ≡ codes "hi" ++ codes "abc"
unfolding sendings
run-outgoing_example = run-outgoing broken_run two_waiting

flush_and_close-Flushed_example :
    Flushed (codes "hi") (run (flushing ∷ map writing (0 ∷ 0 ∷ [])) two_waiting)
flush_and_close-Flushed_example =
    flush_and_close-Flushed (0 ∷ 0 ∷ []) two_waiting refl refl (omega arith)
