-- ===== src/Net/Connection/Buffers.antt =====
-- `ShiftReadBuffer` of src/net/tcp_connection.cpp.
use xbdm_gdb_bridge.Prelude.{
  Bytes, ap, append-nil, arith, drop, drop_of_length, false, length, length-append, ltb, refl, suc,
  sym, zero, ℕ, ◌++◌, ◌∙◌, ◌≡◌, ◌≤◌, [],
}
use xbdm_gdb_bridge.Net.Connection.{shift_read_buffer}

pub shift_read_buffer-drop :
    (n : ℕ) (buffer : Bytes) → n ≤ length buffer → shift_read_buffer n buffer ≡ drop n buffer
unfolding shift_read_buffer
shift_read_buffer-drop zero buffer h = refl
shift_read_buffer-drop (suc n) buffer h =
    let fits : ltb (length buffer) (suc n) ≡ false = ground arith in rw fits (ground arith)

pub shift_read_buffer-append :
    (n : ℕ) (xs ys : Bytes) → n ≡ length xs → shift_read_buffer n (xs ++ ys) ≡ ys
shift_read_buffer-append n xs ys e =
    shift_read_buffer-drop n (xs ++ ys) (omega (arith, e, length-append xs ys))
    ∙ drop_of_length n xs ys e

pub shift_read_buffer_all : (buffer : Bytes) → shift_read_buffer (length buffer) buffer ≡ []
shift_read_buffer_all buffer =
    ap (shift_read_buffer (length buffer)) (sym (append-nil buffer))
    ∙ shift_read_buffer-append (length buffer) buffer [] refl
