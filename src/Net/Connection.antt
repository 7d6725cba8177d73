-- ===== src/Net/Connection.antt =====
-- src/net/tcp_connection.cpp on top of tcp_socket_base.cpp and signaling_base.cpp: the buffers of a
-- connection and when it closes. The system calls are not modelled: what `select`, `send` and
-- `recv` report are arguments. The locks are left out, since one thread runs these handlers.
pub mod Buffers
pub mod Order
pub mod Flush
use xbdm_gdb_bridge.Prelude.{
  Bool, Bytes, [], drop, false, if◌then◌else◌, length, ltb, not, take, true, ℕ, ◌&&◌, ◌++◌, ◌==◌,
}

-- `has_pipe` and `is_open` say that `pipe_fds_[0]` and `socket_` are not negative; `sent` is what
-- `send` has taken so far.
pub record TcpConnection : Type 0 where
  pub has_pipe : Bool
  pub is_open : Bool
  pub is_shutdown : Bool
  pub close_after_flush : Bool
  pub read_buffer : Bytes
  pub write_buffer : Bytes
  pub sent : Bytes

-- `ShiftReadBuffer`: a shift past the end does nothing.
unfoldable pub shift_read_buffer : ℕ → Bytes → Bytes
shift_read_buffer n buffer =
    if n == 0 then buffer else if ltb (length buffer) n then buffer else drop n buffer

-- `Send`.
abbrev pub send_bytes : TcpConnection → Bytes → TcpConnection
send_bytes c bytes = record c { write_buffer = c.write_buffer ++ bytes }

-- `TCPSocketBase::Close` with `SignalingBase::Close`.
abbrev pub close_socket : TcpConnection → TcpConnection
close_socket c = record c { has_pipe = false; is_shutdown = true; is_open = false }

-- What `send` returns: a negative number, or how many bytes it took.
pub data SendResult : Type 0 where
  send_failed : SendResult
  taken : ℕ → SendResult

-- What `recv` returns: zero, a negative number, or the bytes in the buffer.
pub data RecvResult : Type 0 where
  remote_closed recv_failed : RecvResult
  received : Bytes → RecvResult

abbrev pub is_empty : Bytes → Bool
is_empty bytes = length bytes == 0

-- `DoSend`.
unfoldable pub do_send : SendResult → TcpConnection → TcpConnection
do_send send_failed c = close_socket c
do_send (taken n) c = record c {
  write_buffer = drop n c.write_buffer;
  sent = c.sent ++ take n c.write_buffer;
}

-- `DoReceive`.
unfoldable pub do_receive : RecvResult → TcpConnection → Bool × TcpConnection
do_receive remote_closed c = (false, close_socket c)
do_receive recv_failed c = (false, close_socket c)
do_receive (received bytes) c = (true, record c { read_buffer = c.read_buffer ++ bytes })

-- `FlushAndClose`.
unfoldable pub flush_and_close : TcpConnection → TcpConnection
flush_and_close c =
    if is_empty c.write_buffer then close_socket c else record c { close_after_flush = true }

-- The three sets of `select`, as far as `socket_` is in them.
pub record Ready : Type 0 where
  pub exceptional : Bool
  pub writable : Bool
  pub readable : Bool

-- Behind `DoReceive`.
unfoldable pub after_receive :
    (TcpConnection → TcpConnection) → Bool × TcpConnection → Bool × TcpConnection
after_receive on_bytes_read (got, c) = (true, if got then on_bytes_read c else c)

-- The part of `Process` for a readable socket.
unfoldable pub process_read :
    (TcpConnection → TcpConnection) → Bool → RecvResult → TcpConnection → Bool × TcpConnection
unfolding do_receive after_receive
process_read on_bytes_read readable result c =
    if readable then after_receive on_bytes_read (do_receive result c) else (true, c)

-- The part of `Process` for a writable socket, up to the test of `close_after_flush_`.
unfoldable pub process_write : Bool → SendResult → TcpConnection → TcpConnection
unfolding do_send
process_write writable result c = if writable then do_send result c else c

-- `close_after_flush_ && write_buffer_.empty()`, which is only tested after a write.
abbrev pub must_close : Bool → TcpConnection → Bool
must_close writable c = writable && (c.close_after_flush && is_empty c.write_buffer)

-- `Process`; `on_bytes_read` is the virtual `OnBytesRead`.
unfoldable pub process :
    (TcpConnection → TcpConnection)
    → Ready
    → SendResult
    → RecvResult
    → TcpConnection
    → Bool × TcpConnection
unfolding process_read process_write
process on_bytes_read ready send_result recv_result c =
    let d = process_write ready.writable send_result c in
    if not (c.has_pipe && c.is_open)
    then (not c.is_shutdown, c)
    else if ready.exceptional
    then (false, close_socket c)
    else if must_close ready.writable d
    then (false, record (close_socket d) { close_after_flush = false })
    else process_read on_bytes_read ready.readable recv_result d
