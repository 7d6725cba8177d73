-- ===== src/Bridge/Registers/Laws.antt =====
-- What a read of a register makes of a write.
use xbdm_gdb_bridge.Prelude.{false, Option, arith, ltb, some, ℕ, ◌<◌, ◌≡◌, ◌≢◌, ◌+◌, ◌≤◌}
use xbdm_gdb_bridge.Types.ThreadContext.{ThreadContext, ThreadFloatContext}
use xbdm_gdb_bridge.Bridge.Registers.{
  fetched, get_context_register, get_register, set_context_register, set_register, sign_extend,
  widen, get_float, get_float_register, set_float_field, set_float_register, float_register_offset,
}

-- With a context, `SetRegister` answers true for the indices below 10 and for no other.
pub set_register_answer : (i v : ℕ) (c : ThreadContext) → (set_register i v (some c)).0 ≡ ltb i 10
unfolding set_register set_context_register
set_register_answer i v c = ground arith

-- An index from 10 on is refused, and leaves the context alone.
pub set_register_refuses :
    (i v : ℕ) (c : ThreadContext) → 10 ≤ i → set_register i v (some c) ≡ (false, some c)
unfolding set_register set_context_register
set_register_refuses i v c h = ground arith

-- A register that has been written is read back as the value, its sign extended to 64 bits; a read
-- of another index answers as before.
pub get_register-set_register :
    (i j v : ℕ) (c : ThreadContext) (floats : Option ThreadFloatContext)
    → i < 10
    → j ≢ i
    → (get_register i (set_register i v (some c)).1 floats ≡ fetched (some (sign_extend v)))
      × (get_register j (set_register i v (some c)).1 floats ≡ get_register j (some c) floats)
unfolding get_register get_context_register set_register set_context_register widen
get_register-set_register i j v c floats h other = (ground arith, ground arith)

-- A float register that has been written is read back; a read of another index answers as before.
pub get_register-set_float_register :
    (i j v : ℕ) (context : ThreadContext) (c : ThreadFloatContext)
    → float_register_offset ≤ i
    → i < float_register_offset + 8
    → j ≢ i
    → (get_register i (some context) (set_float_register i v (some c)).1 ≡ fetched (some v))
      × (get_register j (some context) (set_float_register i v (some c)).1
          ≡ get_register j (some context) (some c))
unfolding get_register get_context_register get_float_register get_float set_float_register
    set_float_field
get_register-set_float_register i j v context c low high other = (ground arith, ground arith)
