-- ===== src/Bridge/Serialize.antt =====
-- `SerializeRegisters` of src/xbox/bridge/gdb_registers.cpp: every register in hexadecimal, low
-- byte first, or a row of x for a register whose value is not known.
use xbdm_gdb_bridge.Prelude.{
  Bytes, Option, [], codes, none, some, zero, suc, ℕ, ◌%◌, ◌*◌, ◌++◌, ◌+◌, ◌/◌, ◌^◌, ◌∷◌, take,
  List, refl, ◌≡◌, ◌<◌, length, length-append, arith, ◌∙◌, ap,
}
use xbdm_gdb_bridge.Cstd.{hex_digit, hex_byte}
use xbdm_gdb_bridge.Types.ThreadContext.{ThreadContext, ThreadFloatContext}

-- `snprintf` with `%0<width>x`, of a value that has no more digits than the width.
unfoldable pub hex_fixed : ℕ → ℕ → Bytes
unfolding hex_digit
hex_fixed zero n = []
hex_fixed (suc width) n = hex_fixed width (n / 16) ++ hex_digit (n % 16) ∷ []

-- `htonl` on a host that puts the low byte first.
unfoldable pub htonl : ℕ → ℕ
htonl v = v % 256 * 2 ^ 24 + v / 256 % 256 * 2 ^ 16 + v / 2 ^ 16 % 256 * 2 ^ 8 + v / 2 ^ 24 % 256

-- What `AppendRegister` appends.
unfoldable pub register_text : Option ℕ → Bytes
unfolding hex_fixed htonl
register_text none = codes "xxxxxxxx"
register_text (some v) = hex_fixed 8 (htonl v)

-- What `Append10ByteRegister` appends, with the byte order that the build selects as a parameter.
unfoldable pub long_register_text : (ℕ → ℕ) → Option ℕ → Bytes
unfolding hex_fixed
long_register_text swap none = codes "xxxxxxxxxxxxxxxxxxxx"
long_register_text swap (some v) = take 20 (hex_fixed 20 (swap v))

unfoldable pub append_registers : Bytes → List (Option ℕ) → Bytes
unfolding register_text
append_registers output [] = output
append_registers output (r ∷ rest) = append_registers (output ++ register_text r) rest

unfoldable pub append_long_registers : (ℕ → ℕ) → Bytes → List (Option ℕ) → Bytes
unfolding long_register_text
append_long_registers swap output [] = output
append_long_registers swap output (r ∷ rest) =
    append_long_registers swap (output ++ long_register_text swap r) rest

abbrev pub unsupported : ℕ → List (Option ℕ)
unsupported zero = []
unsupported (suc n) = none ∷ unsupported n

abbrev pub context_registers : Option ThreadContext → List (Option ℕ)
context_registers none = unsupported 10
context_registers (some c) =
    c.eax ∷ c.ecx ∷ c.edx ∷ c.ebx ∷ c.esp ∷ c.ebp ∷ c.esi ∷ c.edi ∷ c.eip ∷ c.eflags ∷ []

abbrev pub float_registers : Option ThreadFloatContext → List (Option ℕ)
float_registers none = unsupported 8
float_registers (some c) =
    some c.st0
    ∷ some c.st1
    ∷ some c.st2
    ∷ some c.st3
    ∷ some c.st4
    ∷ some c.st5
    ∷ some c.st6
    ∷ some c.st7
    ∷ []

unfoldable pub serialize_registers :
    (ℕ → ℕ) → Option ThreadContext → Option ThreadFloatContext → Bytes
unfolding append_registers append_long_registers
serialize_registers swap context float_context =
    let general = append_registers [] (context_registers context) in
    let segments = append_registers general (unsupported 18) in
    let floats = append_long_registers swap segments (float_registers float_context) in
    append_registers floats (unsupported 8)

pub length-hex_fixed : (width n : ℕ) → length (hex_fixed width n) ≡ width
unfolding hex_fixed
length-hex_fixed zero n = refl
length-hex_fixed (suc width) n = omega (
  arith,
  length-append (hex_fixed width (n / 16)) (hex_digit (n % 16) ∷ []),
  length-hex_fixed width (n / 16),
)

length-register_text : (r : Option ℕ) → length (register_text r) ≡ 8
unfolding register_text
length-register_text none = refl
length-register_text (some v) = length-hex_fixed 8 (htonl v)

take-all : (width : ℕ) (bs : Bytes) → length bs ≡ width → take width bs ≡ bs
take-all zero [] h = refl
take-all zero (b ∷ bs) h = absurd (omega arith)
take-all (suc width) [] h = refl
take-all (suc width) (b ∷ bs) h = ap (◌∷◌ b) (take-all width bs (omega arith))

length-long_register_text : (swap : ℕ → ℕ) (r : Option ℕ) → length (long_register_text swap r) ≡ 20
unfolding long_register_text
length-long_register_text swap none = refl
length-long_register_text swap (some v) =
    ap length (take-all 20 (hex_fixed 20 (swap v)) (length-hex_fixed 20 (swap v)))
    ∙ length-hex_fixed 20 (swap v)

length-append_registers :
    (rs : List (Option ℕ)) (output : Bytes)
    → length (append_registers output rs) ≡ length output + 8 * length rs
unfolding append_registers
length-append_registers [] output = omega arith
length-append_registers (r ∷ rest) output = omega (
  arith,
  length-append_registers rest (output ++ register_text r),
  length-append output (register_text r),
  length-register_text r,
)

length-append_long_registers :
    (swap : ℕ → ℕ) (rs : List (Option ℕ)) (output : Bytes)
    → length (append_long_registers swap output rs) ≡ length output + 20 * length rs
unfolding append_long_registers
length-append_long_registers swap [] output = omega arith
length-append_long_registers swap (r ∷ rest) output = omega (
  arith,
  length-append_long_registers swap rest (output ++ long_register_text swap r),
  length-append output (long_register_text swap r),
  length-long_register_text swap r,
)

ten : (context : Option ThreadContext) → length (context_registers context) ≡ 10
ten none = refl
ten (some c) = refl

eight : (c : Option ThreadFloatContext) → length (float_registers c) ≡ 8
eight none = refl
eight (some c) = refl

-- Whichever contexts are known and whatever they hold, and whatever the byte order of the float
-- registers, the reply has 448 characters: 36 registers of 8 and 8 of 20.
pub length-serialize_registers :
    (swap : ℕ → ℕ) (context : Option ThreadContext) (float_context : Option ThreadFloatContext)
    → length (serialize_registers swap context float_context) ≡ 448
unfolding serialize_registers
length-serialize_registers swap context float_context =
    let general = append_registers [] (context_registers context) in
    let segments = append_registers general (unsupported 18) in
    let floats = append_long_registers swap segments (float_registers float_context) in
    omega (
      arith,
      length-append_registers (context_registers context) [],
      ten context,
      length-append_registers (unsupported 18) general,
      length-append_long_registers swap (float_registers float_context) segments,
      eight float_context,
      length-append_registers (unsupported 8) floats,
    )

hex_fixed_bytes :
    (a b c d : ℕ)
    → a < 256
    → b < 256
    → c < 256
    → d < 256
    → hex_fixed 8 (a * 2 ^ 24 + b * 2 ^ 16 + c * 2 ^ 8 + d)
      ≡ hex_byte a ++ (hex_byte b ++ (hex_byte c ++ hex_byte d))
unfolding hex_fixed hex_byte
hex_fixed_bytes a b c d ha hb hc hd =
    let d0 : (a * 2 ^ 24 + b * 2 ^ 16 + c * 2 ^ 8 + d) % 16 ≡ d % 16 = omega arith in
    let d1 : (a * 2 ^ 24 + b * 2 ^ 16 + c * 2 ^ 8 + d) / 16 % 16 ≡ d / 16 % 16 = omega arith in
    let d2 : (a * 2 ^ 24 + b * 2 ^ 16 + c * 2 ^ 8 + d) / 16 / 16 % 16 ≡ c % 16 = omega arith in
    let d3 : (a * 2 ^ 24 + b * 2 ^ 16 + c * 2 ^ 8 + d) / 16 / 16 / 16 % 16 ≡ c / 16 % 16 =
      omega arith in
    let d4 : (a * 2 ^ 24 + b * 2 ^ 16 + c * 2 ^ 8 + d) / 16 / 16 / 16 / 16 % 16 ≡ b % 16 =
      omega arith in
    let d5 : (a * 2 ^ 24 + b * 2 ^ 16 + c * 2 ^ 8 + d) / 16 / 16 / 16 / 16 / 16 % 16 ≡ b / 16 % 16 =
      omega arith in
    let d6 : (a * 2 ^ 24 + b * 2 ^ 16 + c * 2 ^ 8 + d) / 16 / 16 / 16 / 16 / 16 / 16 % 16 ≡ a % 16 =
      omega arith in
    let d7 : (a * 2 ^ 24 + b * 2 ^ 16 + c * 2 ^ 8 + d) / 16 / 16 / 16 / 16 / 16 / 16 / 16 % 16
        ≡ a / 16 % 16 =
      omega arith in
    rw (d0, d1, d2, d3, d4, d5, d6, d7)

-- The text of a register that is known is its four bytes in hexadecimal, the low byte first.
pub register_text-bytes :
    (v : ℕ)
    → register_text (some v)
      ≡ hex_byte (v % 256)
        ++ (hex_byte (v / 256 % 256)
            ++ (hex_byte (v / 2 ^ 16 % 256) ++ hex_byte (v / 2 ^ 24 % 256)))
unfolding register_text htonl
register_text-bytes v =
    hex_fixed_bytes (v % 256) (v / 256 % 256) (v / 2 ^ 16 % 256) (v / 2 ^ 24 % 256) (omega arith)
      (omega arith) (omega arith) (omega arith)
