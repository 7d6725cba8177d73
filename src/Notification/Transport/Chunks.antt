-- ===== src/Notification/Transport/Chunks.antt =====
-- How the bytes of the notification channel (src/notification/xbdm_notification_transport.cpp) are
-- cut into reads: it makes no difference.
use xbdm_gdb_bridge.Prelude.{
  Bytes, List, Option-cases, [], ap, arith, drop, drop-add, inl, inr, length, length-drop, none,
  some, subst, suc, sym, take, zero, ℕ, ◌++◌, ◌+◌, ◌<◌, ◌∙◌, ◌∷◌, ◌≡◌, ◌≤◌,
}
use xbdm_gdb_bridge.Rdcp.Response.{search_for, terminator}
use xbdm_gdb_bridge.Rdcp.Response.Bounds.{search_for-le}
use xbdm_gdb_bridge.Net.Connection.{shift_read_buffer}
use xbdm_gdb_bridge.Net.Connection.Buffers.{shift_read_buffer-drop}
use xbdm_gdb_bridge.Notification.Transport.{
  NotificationTransport, add_call, after_loop, message_loop, on_bytes_read, receive,
}

-- The messages of a buffer, and what is left behind the last of them.
pub data Drains : Bytes → List Bytes → Bytes → Type 0 where
  rest : (buffer : Bytes) → search_for terminator buffer ≡ none → Drains buffer [] buffer
  message :
      {messages : List Bytes} {left : Bytes} (buffer : Bytes) (size : ℕ)
      → search_for terminator buffer ≡ some size
      → Drains (drop (size + 2) buffer) messages left
      → Drains buffer (take size buffer ∷ messages) left

-- What the loop does on a buffer, with the bytes that it processes.
record Processes (fuel processed : ℕ) (buffer : Bytes) : Type 0 where
  messages : List Bytes
  count : ℕ
  result : message_loop fuel processed buffer ≡ some (messages, processed + count)
  within : count ≤ length buffer
  drains : Drains buffer messages (drop count buffer)

Processes-none :
    (fuel processed : ℕ) (buffer : Bytes)
    → search_for terminator buffer ≡ none
    → Processes (suc fuel) processed buffer
unfolding message_loop
Processes-none fuel processed buffer e = record {
  messages = [];
  count = 0;
  result = rw (message_loop, e) (ap (λ n. some ([], n)) (omega arith));
  within = omega arith;
  drains = rest buffer e;
}

Processes-some :
    (fuel processed : ℕ) (buffer : Bytes) (size : ℕ)
    → search_for terminator buffer ≡ some size
    → size + 2 ≤ length buffer
    → Processes fuel (processed + (size + 2)) (drop (size + 2) buffer)
    → Processes (suc fuel) processed buffer
unfolding message_loop
Processes-some fuel processed buffer size e inside others =
    let m : List Bytes = others.messages in
    let n : ℕ = others.count in
    let sum : processed + (size + 2) + n ≡ processed + (size + 2 + n) = omega arith in
    record {
      messages = take size buffer ∷ m;
      count = size + 2 + n;
      result =
          rw (message_loop, e)
            (ap (add_call (take size buffer)) others.result
              ∙ ap (λ k. some (take size buffer ∷ m, k)) sum);
      within = omega (arith, others.within, length-drop (size + 2) buffer, inside);
      drains = message buffer size e (
          subst (Drains (drop (size + 2) buffer) m) (sym (drop-add (size + 2) n buffer))
            others.drains);
    }

message_loop-Processes :
    (fuel processed : ℕ) (buffer : Bytes) → length buffer < fuel → Processes fuel processed buffer
message_loop-Processes zero processed buffer h = absurd (omega (arith, h))
message_loop-Processes (suc fuel) processed buffer h =
    elim (Option-cases (search_for terminator buffer)) [
      | inl e ↦ Processes-none fuel processed buffer e
      | inr (size, e) ↦
          let inside : size + 2 ≤ length buffer = search_for-le terminator buffer size e in
          Processes-some fuel processed buffer size e inside (
            message_loop-Processes fuel (processed + (size + 2)) (drop (size + 2) buffer)
              (omega (arith, length-drop (size + 2) buffer, inside, h)))
    ]

-- What a read leaves.
pub record Reads (bytes : Bytes) (t : NotificationTransport) : Type 0 where
  pub messages : List Bytes
  pub left : Bytes
  pub result : receive bytes t ≡ some (record { read_buffer = left; calls = t.calls ++ messages })
  pub drains : Drains (t.read_buffer ++ bytes) messages left

pub receive-Reads : (bytes : Bytes) (t : NotificationTransport) → Reads bytes t
unfolding receive on_bytes_read after_loop
receive-Reads bytes t =
    let buffer : Bytes = t.read_buffer ++ bytes in
    let p : Processes (length buffer + 1) 0 buffer =
      message_loop-Processes (length buffer + 1) 0 buffer (omega arith) in
    let count : 0 + p.count ≡ p.count = omega arith in
    record {
      messages = p.messages;
      left = drop p.count buffer;
      result =
          ap (after_loop (record t { read_buffer = buffer })) p.result
          ∙ ap (λ left. some (record { read_buffer = left; calls = t.calls ++ p.messages }))
              (ap (λ n. shift_read_buffer n buffer) count
                ∙ shift_read_buffer-drop p.count buffer p.within);
      drains = p.drains;
    }
