-- ===== src/Args/Integers.antt =====
-- The integers of src/util/parsing.cpp: 0x in front of a digit means base 16, anything else base
-- 10. An `int32_t` is its 32-bit pattern.
use xbdm_gdb_bridge.Prelude.{
  Bool, Bytes, Option, none, some, if◌then◌else◌, ℕ, ◌%◌, ◌&&◌, ◌==◌, ◌^◌, ◌||◌, ◌∷◌, false,
}
use xbdm_gdb_bridge.Cstd.{Scanned, at_end, scan, to_long, to_ulong}

-- The prefix that `GetIntegerBase` looks for.
unfoldable pub has_hex_prefix : Bytes → Bool
has_hex_prefix (z ∷ x ∷ d ∷ cs) = z == b'0' && (x == b'x' || x == b'X')
has_hex_prefix _ = false

unfoldable pub get_integer_base : Bytes → ℕ
unfolding has_hex_prefix
get_integer_base value = if has_hex_prefix value then 16 else 10

-- A scan that takes the whole text, cast to 32 bits.
unfoldable pub whole : (Scanned → ℕ) → Option Scanned → Option ℕ
unfolding at_end
whole cast none = none
whole cast (some n) = if at_end n.rest then some (cast n % 2 ^ 32) else none

-- A scan that may stop early; 0 where nothing is converted.
unfoldable pub leading : (Scanned → ℕ) → Option Scanned → ℕ
leading cast none = 0
leading cast (some n) = cast n % 2 ^ 32

unfoldable pub parse_int32 : Bytes → ℕ
unfolding get_integer_base scan leading to_long
parse_int32 value = leading to_long (scan (get_integer_base value) value)

unfoldable pub maybe_parse_int32 : Bytes → Option ℕ
unfolding get_integer_base scan whole to_long
maybe_parse_int32 value = whole to_long (scan (get_integer_base value) value)

unfoldable pub parse_uint32 : Bytes → ℕ
unfolding get_integer_base scan leading to_ulong
parse_uint32 value = leading to_ulong (scan (get_integer_base value) value)

unfoldable pub maybe_parse_uint32 : Bytes → Option ℕ
unfolding get_integer_base scan whole to_ulong
maybe_parse_uint32 value = whole to_ulong (scan (get_integer_base value) value)
