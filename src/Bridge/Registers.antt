-- ===== src/Bridge/Registers.antt =====
-- src/xbox/bridge/gdb_registers.cpp: the registers by the index that GDB gives them, and the reply
-- to its request for all of them. An `int32_t` is its 32-bit pattern, an `int64_t` its 64-bit one.
pub mod Laws
use xbdm_gdb_bridge.Prelude.{
  Bool, Bytes, Option, [], codes, false, if◌then◌else◌, ltb, none, some, true, zero, suc, ℕ, ◌%◌,
  ◌*◌, ◌++◌, ◌+◌, ◌-◌, ◌/◌, ◌==◌, ◌^◌, ◌∷◌, take, leb, List,
}
use xbdm_gdb_bridge.Cstd.{hex_digit}
use xbdm_gdb_bridge.Types.ThreadContext.{ThreadContext, ThreadFloatContext}

abbrev pub float_register_offset : ℕ
float_register_offset = 19

-- `int32_t` to `uint64_t`: the sign is extended.
unfoldable pub sign_extend : ℕ → ℕ
sign_extend v = if leb (2 ^ 31) v then v + (2 ^ 64 - 2 ^ 32) else v

unfoldable pub widen : Option ℕ → Option ℕ
unfolding sign_extend
widen none = none
widen (some v) = some (sign_extend v)

-- What `GetRegister` does: without a context it answers nothing; a float register is read through
-- the float context whether there is one or not.
pub data Fetched : Type 0 where
  fetched : Option ℕ → Fetched
  no_float_context : Fetched

unfoldable pub get_float : Option ThreadFloatContext → (ThreadFloatContext → ℕ) → Fetched
get_float none field = no_float_context
get_float (some c) field = fetched (some (field c))

-- The `switch` of `GetRegister`, on the float registers.
unfoldable pub get_float_register : ℕ → Option ThreadFloatContext → Fetched
unfolding get_float
get_float_register gdb_index float_context =
    if gdb_index == float_register_offset + 0
    then get_float float_context (λ c. c.st0)
    else if gdb_index == float_register_offset + 1
    then get_float float_context (λ c. c.st1)
    else if gdb_index == float_register_offset + 2
    then get_float float_context (λ c. c.st2)
    else if gdb_index == float_register_offset + 3
    then get_float float_context (λ c. c.st3)
    else if gdb_index == float_register_offset + 4
    then get_float float_context (λ c. c.st4)
    else if gdb_index == float_register_offset + 5
    then get_float float_context (λ c. c.st5)
    else if gdb_index == float_register_offset + 6
    then get_float float_context (λ c. c.st6)
    else if gdb_index == float_register_offset + 7
    then get_float float_context (λ c. c.st7)
    else fetched none

-- The `switch`, on the registers of the processor.
unfoldable pub get_context_register : ℕ → ThreadContext → Option ThreadFloatContext → Fetched
unfolding widen get_float_register
get_context_register gdb_index context float_context =
    if gdb_index == 0
    then fetched (widen context.eax)
    else if gdb_index == 1
    then fetched (widen context.ecx)
    else if gdb_index == 2
    then fetched (widen context.edx)
    else if gdb_index == 3
    then fetched (widen context.ebx)
    else if gdb_index == 4
    then fetched (widen context.esp)
    else if gdb_index == 5
    then fetched (widen context.ebp)
    else if gdb_index == 6
    then fetched (widen context.esi)
    else if gdb_index == 7
    then fetched (widen context.edi)
    else if gdb_index == 8
    then fetched (widen context.eip)
    else if gdb_index == 9
    then fetched (widen context.eflags)
    else get_float_register gdb_index float_context

unfoldable pub get_register : ℕ → Option ThreadContext → Option ThreadFloatContext → Fetched
unfolding get_context_register
get_register gdb_index none float_context = fetched none
get_register gdb_index (some context) float_context =
    get_context_register gdb_index context float_context

-- The `switch` of `SetRegister`: the answer, and the context that the call leaves.
unfoldable pub set_context_register : ℕ → ℕ → ThreadContext → Bool × ThreadContext
set_context_register gdb_index value context =
    if gdb_index == 0
    then (true, record context { eax = some value })
    else if gdb_index == 1
    then (true, record context { ecx = some value })
    else if gdb_index == 2
    then (true, record context { edx = some value })
    else if gdb_index == 3
    then (true, record context { ebx = some value })
    else if gdb_index == 4
    then (true, record context { esp = some value })
    else if gdb_index == 5
    then (true, record context { ebp = some value })
    else if gdb_index == 6
    then (true, record context { esi = some value })
    else if gdb_index == 7
    then (true, record context { edi = some value })
    else if gdb_index == 8
    then (true, record context { eip = some value })
    else if gdb_index == 9
    then (true, record context { eflags = some value })
    else (false, context)

abbrev pub into_option {ℓ} : {A : Type ℓ} → Bool × A → Bool × Option A
into_option (answer, a) = (answer, some a)

unfoldable pub set_register : ℕ → ℕ → Option ThreadContext → Bool × Option ThreadContext
unfolding set_context_register
set_register gdb_index value none = (false, none)
set_register gdb_index value (some context) =
    into_option (set_context_register gdb_index value context)

unfoldable pub set_float_field : ℕ → ℕ → ThreadFloatContext → Bool × ThreadFloatContext
set_float_field gdb_index value c =
    if gdb_index == float_register_offset + 0
    then (true, record c { st0 = value })
    else if gdb_index == float_register_offset + 1
    then (true, record c { st1 = value })
    else if gdb_index == float_register_offset + 2
    then (true, record c { st2 = value })
    else if gdb_index == float_register_offset + 3
    then (true, record c { st3 = value })
    else if gdb_index == float_register_offset + 4
    then (true, record c { st4 = value })
    else if gdb_index == float_register_offset + 5
    then (true, record c { st5 = value })
    else if gdb_index == float_register_offset + 6
    then (true, record c { st6 = value })
    else if gdb_index == float_register_offset + 7
    then (true, record c { st7 = value })
    else (false, c)

unfoldable pub set_float_register :
    ℕ → ℕ → Option ThreadFloatContext → Bool × Option ThreadFloatContext
unfolding set_float_field
set_float_register gdb_index value none = (false, none)
set_float_register gdb_index value (some c) = into_option (set_float_field gdb_index value c)
