-- ===== src/Types/ThreadContext.antt =====
-- src/rdcp/types/thread_context.h: the registers of a stopped thread. An `int32_t` is its 32-bit
-- pattern, an `int64_t` its 64-bit pattern. Of the float context the eight stack registers are
-- here, which are all that the register code reads.
use xbdm_gdb_bridge.Prelude.{Option, none, some, ℕ, ◌<◌, ◌^◌}

pub record ThreadContext : Type 0 where
  pub ebp : Option ℕ
  pub esp : Option ℕ
  pub eip : Option ℕ
  pub eflags : Option ℕ
  pub eax : Option ℕ
  pub ebx : Option ℕ
  pub ecx : Option ℕ
  pub edx : Option ℕ
  pub edi : Option ℕ
  pub esi : Option ℕ
  pub cr0_npx_state : Option ℕ

-- `Reset`, and a default-constructed context.
abbrev pub empty_context : ThreadContext
empty_context = record {
  ebp = none;
  esp = none;
  eip = none;
  eflags = none;
  eax = none;
  ebx = none;
  ecx = none;
  edx = none;
  edi = none;
  esi = none;
  cr0_npx_state = none;
}

pub record ThreadFloatContext : Type 0 where
  pub st0 : ℕ
  pub st1 : ℕ
  pub st2 : ℕ
  pub st3 : ℕ
  pub st4 : ℕ
  pub st5 : ℕ
  pub st6 : ℕ
  pub st7 : ℕ

-- A register that is present holds a 32-bit pattern.
abbrev pub Fits32 : Option ℕ → Type 0
Fits32 none = Unit {0}
Fits32 (some v) = v < 2 ^ 32

pub record IsContext (c : ThreadContext) : Type 0 where
  pub ebp_fits : Fits32 c.ebp
  pub esp_fits : Fits32 c.esp
  pub eip_fits : Fits32 c.eip
  pub eflags_fits : Fits32 c.eflags
  pub eax_fits : Fits32 c.eax
  pub ebx_fits : Fits32 c.ebx
  pub ecx_fits : Fits32 c.ecx
  pub edx_fits : Fits32 c.edx
  pub edi_fits : Fits32 c.edi
  pub esi_fits : Fits32 c.esi
