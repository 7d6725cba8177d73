-- ===== src/Bridge/Tests.antt =====
-- The theorems on the registers, at concrete inputs.
use xbdm_gdb_bridge.Prelude.{
  Bytes, [], arith, codes, false, none, refl, some, take, true, ℕ, ◌∷◌, ◌≡◌, ◌⊎◌,
}
use xbdm_gdb_bridge.Bridge.Commands.Dispatch.{handle_packet}
use xbdm_gdb_bridge.Bridge.Commands.Features.Document.{read_document, read_document_whole}
use xbdm_gdb_bridge.Bridge.Commands.Memory.Access.{read_request, write_request}
use xbdm_gdb_bridge.Bridge.Commands.Memory.Coherence.{write-then-read, write_hex-overruns}
use xbdm_gdb_bridge.Bridge.Commands.Notifications.{nt_breakpoint, nt_exception}
use xbdm_gdb_bridge.Bridge.Commands.Notifications.Once.{
  on_notifications, on_notifications-once, stopped_once,
}
use xbdm_gdb_bridge.Bridge.Commands.Threads.{get_thread_id_for_command}
use xbdm_gdb_bridge.Bridge.Commands.Threads.Listing.{Lists, ask, list_complete}
use xbdm_gdb_bridge.Bridge.Commands.Threads.Selection.{
  select-get_thread_id, select_request, selected,
}
use xbdm_gdb_bridge.Bridge.Commands.VCont.Others.{step_one, vcont_continue-others}
use xbdm_gdb_bridge.Bridge.Interface.{Boost, Debugger, Thread, srt_breakpoint}
use xbdm_gdb_bridge.Bridge.Registers.{fetched, get_register, set_register, sign_extend}
use xbdm_gdb_bridge.Bridge.Registers.Laws.{get_register-set_register}
use xbdm_gdb_bridge.Bridge.Serialize.{register_text}
use xbdm_gdb_bridge.Bridge.State.{
  GdbBridge, handled, reply, send_ok, undefined_behaviour, with_debugger,
}
use xbdm_gdb_bridge.Gdb.Packet.{make}
use xbdm_gdb_bridge.Types.ThreadContext.{ThreadContext, ThreadFloatContext, empty_context}
use xbdm_gdb_bridge.Bridge.ConcreteBoost.{concrete_boost, concrete_boost-IsBoost}

abbrev context : ThreadContext
context = record empty_context { eax = some 7; esp = some 0x8000_0000 }

abbrev floats : ThreadFloatContext
floats = record { st0 = 0; st1 = 1; st2 = 2; st3 = 3; st4 = 4; st5 = 5; st6 = 6; st7 = 7 }

get_register-set_register_example :
    (get_register 4 (set_register 4 0x8000_0001 (some context)).1 none
      ≡ fetched (some (sign_extend 0x8000_0001)))
    × (get_register 0 (set_register 4 0x8000_0001 (some context)).1 none
        ≡ get_register 0 (some context) none)
get_register-set_register_example =
    get_register-set_register 4 0 0x8000_0001 context none (omega arith) (λ e. omega (arith, e))

low_byte_first : register_text (some 0x1234_5678) ≡ codes "78563412"
unfolding register_text
low_byte_first = refl

abbrev stopped_thread : Thread
stopped_thread = record {
  thread_id = 1;
  stopped = true;
  last_stop_reason = some (record { reason_type = srt_breakpoint; signal = 5 });
  context = some context;
  float_context = some floats;
}

-- A debugger whose state is its memory, which starts at 0, with three threads.
abbrev toy : Debugger Bytes
toy = record {
  halt_all = λ d. (true, d);
  go = λ d. (true, d);
  is_started = λ d. true;
  active_thread = λ d. some stopped_thread;
  first_stopped_thread = λ d. none;
  continue_all = λ force d. (true, d);
  continue_thread = λ id d. (true, id ∷ d);
  set_active_thread = λ id d. d;
  step_instruction = λ d. (true, d);
  any_thread_id = λ d. some 1;
  get_thread = λ id d. some stopped_thread;
  fetch_threads = λ d. (true, d);
  thread_ids = λ d. 1 ∷ 2 ∷ 3 ∷ [];
  fetch_context = λ id d. (true, d);
  push_context = λ id d. (true, d);
  fetch_float_context = λ id d. (true, d);
  push_float_context = λ id d. (true, d);
  store_context = λ id c d. d;
  store_float_context = λ id c d. d;
  get_memory = λ address size d. (some (take size d), d);
  set_memory = λ address bytes d. (true, bytes);
  add_breakpoint = λ address d. d;
  remove_breakpoint = λ address d. d;
  add_read_watch = λ address size d. d;
  remove_read_watch = λ address size d. d;
  add_write_watch = λ address size d. d;
  remove_write_watch = λ address size d. d;
}

abbrev plain_boost : Boost
plain_boost = record {
  hex = λ bytes. bytes;
  split = λ c bytes. bytes ∷ [];
  has_prefix = λ query prefix. false;
  unhex = λ bytes. (bytes, false);
}

abbrev idle_bridge : GdbBridge Bytes
idle_bridge = record {
  transport = record {
    no_ack_mode = false;
    read_buffer = [];
    unescaped_read_buffer = [];
    ack_buffer = [];
    write_buffer = [];
    delivered = [];
  };
  is_connected = true;
  debugger = [];
  thread_id_for_command = [];
  thread_info_buffer = [];
  waiting_on_stop_packet = true;
}

abbrev same_value : ℕ → ℕ
same_value v = v

write-then-read_example :
    (handle_packet plain_boost toy [] same_value
        (make (write_request b'X' 4096 2 (7 ∷ 8 ∷ [])))
        idle_bridge
      ≡ handled (send_ok (with_debugger (7 ∷ 8 ∷ []) idle_bridge)))
    × (handle_packet plain_boost toy [] same_value
          (make (read_request 4096 2))
          (send_ok (with_debugger (7 ∷ 8 ∷ []) idle_bridge))
        ≡ handled (
            reply
              (7 ∷ 8 ∷ [])
              (with_debugger (7 ∷ 8 ∷ []) (send_ok (with_debugger (7 ∷ 8 ∷ []) idle_bridge)))))
write-then-read_example =
    write-then-read plain_boost toy [] same_value 4096 (7 ∷ 8 ∷ []) (7 ∷ 8 ∷ []) (7 ∷ 8 ∷ [])
      idle_bridge (omega arith) (omega arith) refl refl

write_hex-overruns_example :
    handle_packet concrete_boost toy [] same_value
      (make (write_request b'M' 4096 1 (concrete_boost.hex (42 ∷ []))))
      idle_bridge
    ≡ undefined_behaviour
write_hex-overruns_example =
    write_hex-overruns concrete_boost toy [] same_value 4096 1 42 [] idle_bridge
      concrete_boost-IsBoost (omega arith, tt) (omega arith) (omega arith)

read_document_whole_example : read_document 7 (codes "<root>") 0 4 ≡ codes "<root>"
read_document_whole_example = read_document_whole (codes "<root>") 4 (omega arith) (omega arith)

select-get_thread_id_example :
    (handle_packet plain_boost toy [] same_value (make (select_request b'g' 28)) idle_bridge
      ≡ handled (send_ok (selected b'g' 28 idle_bridge)))
    × (get_thread_id_for_command b'g' (send_ok (selected b'g' 28 idle_bridge)) ≡ 28)
    × (get_thread_id_for_command b'p' (send_ok (selected b'g' 28 idle_bridge))
        ≡ get_thread_id_for_command b'p' idle_bridge)
select-get_thread_id_example =
    select-get_thread_id plain_boost toy [] same_value b'g' 28 b'p' idle_bridge (omega arith) refl

list_complete_example : Lists (ask concrete_boost toy [] same_value) idle_bridge [] 1 (2 ∷ 3 ∷ [])
list_complete_example =
    list_complete concrete_boost toy [] same_value [] 1 2 (3 ∷ []) idle_bridge
      concrete_boost-IsBoost refl refl (omega arith, (omega arith, (omega arith, tt)))

vcont_continue-others_example :
    handle_packet concrete_boost toy [] same_value (make (step_one 2)) idle_bridge
    ≡ handled (record idle_bridge { debugger = 0xFFFF_FFFF ∷ 0xFFFF_FFFF ∷ [] })
vcont_continue-others_example =
    vcont_continue-others toy concrete_boost [] same_value 2 [] idle_bridge concrete_boost-IsBoost
      (omega arith) (omega arith) refl refl

on_notifications-once_example :
    (on_notifications toy (nt_breakpoint ∷ nt_exception ∷ []) idle_bridge ≡ idle_bridge)
    ⊎ (on_notifications toy (nt_breakpoint ∷ nt_exception ∷ []) idle_bridge
        ≡ stopped_once toy idle_bridge)
on_notifications-once_example =
    on_notifications-once toy (nt_breakpoint ∷ nt_exception ∷ []) idle_bridge
