-- ===== src/Bridge/Commands/Memory/Coherence.antt =====
-- The memory commands of GDB through `HandlePacket` of src/xbox/bridge/gdb_bridge.cpp, with the
-- debugger's memory behind them.
use xbdm_gdb_bridge.Prelude.{
  Bool-cases, Bytes, Option, [], ap, arith, codes, inl, inr, length, none, refl, some, true, ℕ,
  ◌++◌, ◌<◌, ◌==◌, ◌^◌, ◌∙◌, ◌∷◌, ◌≡◌,
}
use xbdm_gdb_bridge.Bridge.Commands.Dispatch.{handle_packet}
use xbdm_gdb_bridge.Bridge.Commands.Memory.{
  handle_write_memory, handle_write_memory_binary, memory_reply, set_memory_reply, store_memory,
  unhex_into_empty, unhexed,
}
use xbdm_gdb_bridge.Bridge.Commands.Memory.Access.{
  dispatch_read, dispatch_write, dispatch_write_hex, handle_read_memory-request,
  read_memory_at-answer, read_request, write_request,
}
use xbdm_gdb_bridge.Bridge.Commands.Memory.RoundTrip.{write_memory_with-request}
use xbdm_gdb_bridge.Bridge.Interface.{AreCodes, Boost, Debugger, IsBoost}
use xbdm_gdb_bridge.Bridge.State.{
  GdbBridge, efault, exception_thrown, handled, print_hex, reply, reply_if_connected, send_error,
  send_ok, undefined_behaviour, with_debugger,
}
use xbdm_gdb_bridge.Gdb.Packet.{make}

module _ {D : Type 0} where
  debugger-reply_if_connected :
      (payload : Bytes) (b : GdbBridge D) → (reply_if_connected payload b).debugger ≡ b.debugger
  unfolding reply_if_connected reply
  debugger-reply_if_connected payload b = elim (Bool-cases b.is_connected) [
    | inl e ↦ rw (reply_if_connected, e) refl
    | inr e ↦ rw (reply_if_connected, e) refl
  ]

  pub debugger-send_ok : (b : GdbBridge D) → (send_ok b).debugger ≡ b.debugger
  unfolding send_ok
  debugger-send_ok b = debugger-reply_if_connected (codes "OK") b

module _ {D : Type 0} (boost : Boost) (debugger : Debugger D) (target_xml : Bytes)
    (swap : ℕ → ℕ) where
  memory_reply-some :
      (memory : Bytes) (b : GdbBridge D)
      → memory_reply boost debugger (some memory) b ≡ handled (reply (boost.hex memory) b)
  unfolding memory_reply
  memory_reply-some memory b = refl

  memory_reply-none :
      (b : GdbBridge D) → memory_reply boost debugger none b ≡ handled (send_error efault b)
  unfolding memory_reply
  memory_reply-none b = refl

  read_packet :
      (address size : ℕ) (memory : Option Bytes) (d : D) (b : GdbBridge D)
      → address < 2 ^ 32
      → size < 2 ^ 32
      → debugger.get_memory address size b.debugger ≡ (memory, d)
      → handle_packet boost debugger target_xml swap (make (read_request address size)) b
        ≡ memory_reply boost debugger memory (with_debugger d b)
  unfolding read_request
  read_packet address size memory d b h k e =
      dispatch_read boost debugger target_xml swap (print_hex address ++ b',' ∷ print_hex size) b
      ∙ (handle_read_memory-request boost debugger address size b h k
          ∙ read_memory_at-answer boost debugger address size memory d b e)

  store_memory-true :
      (address : ℕ) (bytes : Bytes) (d : D) (b : GdbBridge D)
      → debugger.set_memory address bytes b.debugger ≡ (true, d)
      → store_memory boost debugger address (length bytes) bytes b
        ≡ handled (send_ok (with_debugger d b))
  unfolding store_memory set_memory_reply
  store_memory-true address bytes d b e =
      let same_size : (length bytes == length bytes) ≡ true = ground arith in
      rw (store_memory, same_size) (ap (λ r. set_memory_reply boost debugger r b) e)

  write_packet :
      (address : ℕ) (bytes : Bytes) (d : D) (b : GdbBridge D)
      → address < 2 ^ 32
      → length bytes < 2 ^ 32
      → debugger.set_memory address bytes b.debugger ≡ (true, d)
      → handle_packet boost debugger target_xml swap
          (make (write_request b'X' address (length bytes) bytes))
          b
        ≡ handled (send_ok (with_debugger d b))
  unfolding write_request handle_write_memory_binary
  write_packet address bytes d b h k e =
      dispatch_write boost debugger target_xml swap
        (print_hex address ++ b',' ∷ (print_hex (length bytes) ++ b':' ∷ bytes)) b
      ∙ (write_memory_with-request boost debugger
            (λ text a n c. store_memory boost debugger a n text c) b'X' address (length bytes) bytes
            b refl refl h k
          ∙ store_memory-true address bytes d b e)

  -- Where the debugger takes the bytes of a write request, whose address and size fit 32 bits, and
  -- its memory answers with them afterwards: the request is acknowledged, and the reply to the read
  -- request for that place is their hexadecimal text.
  pub write-then-read :
      (address : ℕ) (bytes : Bytes) (d e : D) (b : GdbBridge D)
      → address < 2 ^ 32
      → length bytes < 2 ^ 32
      → debugger.set_memory address bytes b.debugger ≡ (true, d)
      → debugger.get_memory address (length bytes) d ≡ (some bytes, e)
      → (handle_packet boost debugger target_xml swap
            (make (write_request b'X' address (length bytes) bytes))
            b
          ≡ handled (send_ok (with_debugger d b)))
        × (handle_packet boost debugger target_xml swap
              (make (read_request address (length bytes)))
              (send_ok (with_debugger d b))
            ≡ handled (reply (boost.hex bytes) (with_debugger e (send_ok (with_debugger d b)))))
  write-then-read address bytes d e b h k stores answers =
      let c = send_ok (with_debugger d b) in
      let now : debugger.get_memory address (length bytes) c.debugger ≡ (some bytes, e) =
        ap (debugger.get_memory address (length bytes)) (debugger-send_ok (with_debugger d b))
        ∙ answers in
      (
        write_packet address bytes d b h k stores,
        read_packet address (length bytes) (some bytes) e c h k now
            ∙ memory_reply-some bytes (with_debugger e c),
      )

  -- Where the debugger has no memory for a read request whose address and size fit 32 bits, the
  -- reply is the error EFAULT.
  pub read_packet-efault :
      (address size : ℕ) (d : D) (b : GdbBridge D)
      → address < 2 ^ 32
      → size < 2 ^ 32
      → debugger.get_memory address size b.debugger ≡ (none, d)
      → handle_packet boost debugger target_xml swap (make (read_request address size)) b
        ≡ handled (send_error efault (with_debugger d b))
  read_packet-efault address size d b h k e =
      read_packet address size none d b h k e ∙ memory_reply-none (with_debugger d b)

  -- A write request whose address and size fit 32 bits, with the hexadecimal text of at least one
  -- byte, makes `unhex` write behind the end of a vector without elements, where boost does what it
  -- documents.
  pub write_hex-overruns :
      (address size c : ℕ) (cs : Bytes) (b : GdbBridge D)
      → IsBoost boost
      → AreCodes (c ∷ cs)
      → address < 2 ^ 32
      → size < 2 ^ 32
      → handle_packet boost debugger target_xml swap
          (make (write_request b'M' address size (boost.hex (c ∷ cs))))
          b
        ≡ undefined_behaviour
  unfolding write_request handle_write_memory unhex_into_empty unhexed
  write_hex-overruns address size c cs b documented codes_fit h k =
      dispatch_write_hex boost debugger target_xml swap
        (print_hex address ++ b',' ∷ (print_hex size ++ b':' ∷ boost.hex (c ∷ cs))) b
      ∙ (write_memory_with-request boost debugger (unhex_into_empty boost debugger) b'M' address
            size (boost.hex (c ∷ cs)) b refl refl h k
          ∙ ap (λ r. unhexed boost debugger r address size b)
              (documented.unhex-hex (c ∷ cs) codes_fit))

  -- Where `unhex` throws on the text of such a request before it has written a byte, the exception
  -- leaves the handler.
  pub write_hex-throws :
      (address size : ℕ) (text : Bytes) (b : GdbBridge D)
      → boost.unhex text ≡ ([], true)
      → address < 2 ^ 32
      → size < 2 ^ 32
      → handle_packet boost debugger target_xml swap (make (write_request b'M' address size text)) b
        ≡ exception_thrown
  unfolding write_request handle_write_memory unhex_into_empty unhexed
  write_hex-throws address size text b throws h k =
      dispatch_write_hex boost debugger target_xml swap
        (print_hex address ++ b',' ∷ (print_hex size ++ b':' ∷ text)) b
      ∙ (write_memory_with-request boost debugger (unhex_into_empty boost debugger) b'M' address
            size text b refl refl h k
          ∙ ap (λ r. unhexed boost debugger r address size b) throws)
