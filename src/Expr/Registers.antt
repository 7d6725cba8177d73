-- ===== src/Expr/Registers.antt =====
-- `ResolveRegisterValue`: the registers of the context by name, with their 16-bit and 8-bit parts.
pub mod Bounds
use xbdm_gdb_bridge.Prelude.{
  Bytes, Option, codes, if◌then◌else◌, none, same, some, ℕ, ◌%◌, ◌/◌, ◌^◌,
}
use xbdm_gdb_bridge.Cstd.{lower}
use xbdm_gdb_bridge.Types.ThreadContext.{ThreadContext}
use xbdm_gdb_bridge.Expr.Token.{Result, err, ok, register_unavailable, unknown_register, ◌>>=◌}

abbrev pub resolve : Option ℕ → Bytes → Result ℕ
resolve none name = err (register_unavailable name)
resolve (some v) name = ok v

abbrev pub resolve16 : Option ℕ → Bytes → Result ℕ
resolve16 opt name = do v ← resolve opt name; ok (v % 2 ^ 16)

-- `shift` is 0 or 8.
abbrev pub resolve8 : Option ℕ → Bytes → ℕ → Result ℕ
resolve8 opt name shift = do v ← resolve opt name; ok (v / 2 ^ shift % 2 ^ 8)

-- The parts of the registers, from "ax" on.
unfoldable pub resolve_part : ThreadContext → Bytes → Bytes → Result ℕ
resolve_part c reg name =
    if same name (codes "ax")
    then resolve16 c.eax (codes "ax")
    else if same name (codes "bx")
    then resolve16 c.ebx (codes "bx")
    else if same name (codes "cx")
    then resolve16 c.ecx (codes "cx")
    else if same name (codes "dx")
    then resolve16 c.edx (codes "dx")
    else if same name (codes "si")
    then resolve16 c.esi (codes "si")
    else if same name (codes "di")
    then resolve16 c.edi (codes "di")
    else if same name (codes "ah")
    then resolve8 c.eax (codes "eax") 8
    else if same name (codes "bh")
    then resolve8 c.ebx (codes "ebx") 8
    else if same name (codes "ch")
    then resolve8 c.ecx (codes "ecx") 8
    else if same name (codes "dh")
    then resolve8 c.edx (codes "edx") 8
    else if same name (codes "al")
    then resolve8 c.eax (codes "eax") 0
    else if same name (codes "bl")
    then resolve8 c.ebx (codes "ebx") 0
    else if same name (codes "cl")
    then resolve8 c.ecx (codes "ecx") 0
    else if same name (codes "dl")
    then resolve8 c.edx (codes "edx") 0
    else err (unknown_register reg)

-- The 32-bit registers; the name is in lower case, `reg` is as it was written.
unfoldable pub resolve_lower : ThreadContext → Bytes → Bytes → Result ℕ
unfolding resolve_part
resolve_lower c reg name =
    if same name (codes "eax")
    then resolve c.eax (codes "eax")
    else if same name (codes "ebx")
    then resolve c.ebx (codes "ebx")
    else if same name (codes "ecx")
    then resolve c.ecx (codes "ecx")
    else if same name (codes "edx")
    then resolve c.edx (codes "edx")
    else if same name (codes "esi")
    then resolve c.esi (codes "esi")
    else if same name (codes "edi")
    then resolve c.edi (codes "edi")
    else if same name (codes "ebp")
    then resolve c.ebp (codes "ebp")
    else if same name (codes "esp")
    then resolve c.esp (codes "esp")
    else if same name (codes "eip")
    then resolve c.eip (codes "eip")
    else if same name (codes "eflags")
    then resolve c.eflags (codes "eflags")
    else resolve_part c reg name

unfoldable pub resolve_register_value : ThreadContext → Bytes → Result ℕ
unfolding resolve_lower lower
resolve_register_value c reg = resolve_lower c reg (lower reg)
