-- ===== src/Bridge/Interface.antt =====
-- What src/xbox/bridge/gdb_bridge.cpp uses of the other parts: the operations of `XBDMDebugger`
-- and `Thread` (src/xbox/debugger) on a state of their own, the stop reasons of
-- src/rdcp/xbdm_stop_reasons.h, and four functions of boost.
use xbdm_gdb_bridge.Prelude.{Bool, Bytes, List, Option, [], false, ℕ, ◌++◌, ◌<◌, ◌∷◌, ◌≡◌}
use xbdm_gdb_bridge.Types.ThreadContext.{ThreadContext, ThreadFloatContext}
use xbdm_gdb_bridge.Cstd.Laws.{Lacks}
use xbdm_gdb_bridge.Rdcp.Response.{starts_with}

-- `StopReasonDataBreakpoint::AccessType`.
pub data AccessType : Type 0 where
  at_unknown at_read at_write at_execute : AccessType

-- `StopReasonType`; a watchpoint carries `access_type` and `access_address`.
pub data StopReasonType : Type 0 where
  srt_unknown srt_debugstr srt_assertion srt_breakpoint srt_single_step : StopReasonType
  srt_watchpoint : AccessType → ℕ → StopReasonType
  srt_execution_state_changed srt_exception srt_thread_created srt_thread_terminated :
      StopReasonType
  srt_module_loaded srt_section_loaded srt_section_unloaded srt_rip srt_rip_stop : StopReasonType

-- `StopReasonBase_`: its type and its signal, a 32-bit pattern.
pub record StopReason : Type 0 where
  pub reason_type : StopReasonType
  pub signal : ℕ

-- The fields of `Thread` that the bridge reads; the thread id is a 32-bit pattern.
pub record Thread : Type 0 where
  pub thread_id : ℕ
  pub stopped : Bool
  pub last_stop_reason : Option StopReason
  pub context : Option ThreadContext
  pub float_context : Option ThreadFloatContext

-- The calls of `XBDMDebugger` and of the threads that it holds. The answer comes with the state
-- after the call. A thread is named by its id, since the bridge and the debugger share it.
pub record Debugger (D : Type 0) : Type 0 where
  pub halt_all : D → Bool × D
  pub go : D → Bool × D
  pub is_started : D → Bool
  pub active_thread : D → Option Thread
  pub first_stopped_thread : D → Option Thread
  pub continue_all : Bool → D → Bool × D
  pub continue_thread : ℕ → D → Bool × D
  pub set_active_thread : ℕ → D → D
  pub step_instruction : D → Bool × D
  pub any_thread_id : D → Option ℕ
  pub get_thread : ℕ → D → Option Thread
  pub fetch_threads : D → Bool × D
  pub thread_ids : D → List ℕ
  pub fetch_context : ℕ → D → Bool × D
  pub push_context : ℕ → D → Bool × D
  pub fetch_float_context : ℕ → D → Bool × D
  pub push_float_context : ℕ → D → Bool × D
  pub store_context : ℕ → Option ThreadContext → D → D
  pub store_float_context : ℕ → Option ThreadFloatContext → D → D
  pub get_memory : ℕ → ℕ → D → Option Bytes × D
  pub set_memory : ℕ → Bytes → D → Bool × D
  pub add_breakpoint : ℕ → D → D
  pub remove_breakpoint : ℕ → D → D
  pub add_read_watch : ℕ → ℕ → D → D
  pub remove_read_watch : ℕ → ℕ → D → D
  pub add_write_watch : ℕ → ℕ → D → D
  pub remove_write_watch : ℕ → ℕ → D → D

-- `boost::algorithm::hex`, `boost::split` at one character, `boost::algorithm::starts_with` of a
-- text and a prefix, and `boost::algorithm::unhex`: what it writes before it returns or throws, and
-- whether it throws.
pub record Boost : Type 0 where
  pub hex : Bytes → Bytes
  pub split : ℕ → Bytes → List Bytes
  pub has_prefix : Bytes → Bytes → Bool
  pub unhex : Bytes → Bytes × Bool

-- The numbers are bytes.
abbrev pub AreCodes : Bytes → Type 0
AreCodes [] = Unit {0}
AreCodes (c ∷ cs) = (c < 256) × AreCodes cs

-- What boost documents of them.
pub record IsBoost (boost : Boost) : Type 0 where
  pub prefix_test : (text prefix : Bytes) → boost.has_prefix text prefix ≡ starts_with prefix text
  pub split_last : (c : ℕ) (text : Bytes) → Lacks c text → boost.split c text ≡ text ∷ []
  pub split_first :
      (c : ℕ) (front rest : Bytes)
      → Lacks c front
      → boost.split c (front ++ c ∷ rest) ≡ front ∷ boost.split c rest
  pub unhex-hex : (bytes : Bytes) → AreCodes bytes → boost.unhex (boost.hex bytes) ≡ (bytes, false)
