-- ===== src/Cstd.antt =====
-- What the program uses of the C standard library: character classes, `tolower`, `memchr`,
-- `strtol`, `strtoul`, `snprintf("%02x")`. A `char` is its byte; text is a list of bytes, and the
-- NUL that ends a C string is the end of the list, or a 0 inside it. A `long` is its 64-bit
-- pattern, so that the casts of the callers are `% 2 ^ 32`.
pub mod Laws
use xbdm_gdb_bridge.Prelude.{
  Bool, Bytes, Option, [], false, if◌then◌else◌, leb, ltb, map, none, some, suc, true, ℕ, ◌%◌, ◌&&◌,
  ◌*◌, ◌+◌, ◌-◌, ◌/◌, ◌==◌, ◌^◌, ◌||◌, ◌∷◌,
}

unfoldable pub is_space : ℕ → Bool
is_space c = c == 32 || (leb 9 c && leb c 13)

unfoldable pub is_digit : ℕ → Bool
is_digit c = leb b'0' c && leb c b'9'

unfoldable pub is_alpha : ℕ → Bool
is_alpha c = (leb b'a' c && leb c b'z') || (leb b'A' c && leb c b'Z')

unfoldable pub to_lower : ℕ → ℕ
to_lower c = if leb b'A' c && leb c b'Z' then c + 32 else c

-- The value of a digit in any base up to 36.
unfoldable pub digit_value : ℕ → Option ℕ
digit_value c =
    if leb b'0' c && leb c b'9'
    then some (c - b'0')
    else if leb b'a' c && leb c b'z'
    then some (c - b'a' + 10)
    else if leb b'A' c && leb c b'Z'
    then some (c - b'A' + 10)
    else none

-- The value of `c` as a digit of the base.
unfoldable pub digit_in : ℕ → ℕ → Option ℕ
unfolding digit_value
digit_in base c = elim (digit_value c) [
  | none ↦ none
  | some v ↦ if ltb v base then some v else none
]

unfoldable pub is_xdigit : ℕ → Bool
unfolding digit_in
is_xdigit c = elim (digit_in 16 c) [ none ↦ false | some _ ↦ true ]

-- The index of the first `c`.
unfoldable pub memchr : ℕ → Bytes → Option ℕ
memchr c [] = none
memchr c (x ∷ xs) =
    let rest = memchr c xs in
    if x == c then some 0 else elim rest [ none ↦ none | some i ↦ some (suc i) ]

unfoldable pub skip_space : Bytes → Bytes
skip_space [] = []
skip_space (c ∷ cs) = let rest = skip_space cs in if is_space c then rest else c ∷ cs

-- The digits at the front, on top of `acc`, and what follows them.
unfoldable pub digits : ℕ → ℕ → Bytes → ℕ × Bytes
unfolding digit_in
digits base acc [] = (acc, [])
digits base acc (c ∷ cs) = elim (digit_in base c) [
  | none ↦ (acc, c ∷ cs)
  | some v ↦ digits base (acc * base + v) cs
]

-- An optional sign: whether it is `-`, and what follows it.
unfoldable pub sign : Bytes → Bool × Bytes
sign [] = (false, [])
sign (c ∷ cs) = if c == b'-' then (true, cs) else if c == b'+' then (false, cs) else (false, c ∷ cs)

-- In base 16 a leading 0x counts only if a digit follows it.
unfoldable pub hex_prefix : ℕ → Bytes → Bytes
unfolding is_xdigit
hex_prefix base (z ∷ x ∷ d ∷ cs) =
    if base == 16 && (z == b'0' && ((x == b'x' || x == b'X') && is_xdigit d))
    then d ∷ cs
    else z ∷ x ∷ d ∷ cs
hex_prefix base s = s

-- What `strtol` and `strtoul` read: the sign, the value before any clamp, and the text at `end`.
pub record Scanned : Type 0 where
  pub negative : Bool
  pub magnitude : ℕ
  pub rest : Bytes

unfoldable pub scan_digits : ℕ → Bool → Bytes → Option Scanned
unfolding digits digit_in
scan_digits base negative [] = none
scan_digits base negative (c ∷ cs) = elim (digit_in base c) [
  | none ↦ none
  | some _ ↦
      let (v, rest) = digits base 0 (c ∷ cs) in
      some (record { negative = negative; magnitude = v; rest = rest })
]

-- `none` when no conversion is made, so that `end` is the start of the text.
unfoldable pub scan : ℕ → Bytes → Option Scanned
unfolding skip_space is_space sign hex_prefix scan_digits
scan base s =
    let (negative, t) = sign (skip_space s) in scan_digits base negative (hex_prefix base t)

-- `unsigned long` of a scan: clamped at ULONG_MAX, then negated.
unfoldable pub to_ulong : Scanned → ℕ
to_ulong n =
    if leb (2 ^ 64) n.magnitude
    then 2 ^ 64 - 1
    else if n.negative
    then (2 ^ 64 - n.magnitude) % 2 ^ 64
    else n.magnitude

-- `long` of a scan, as its 64-bit pattern: clamped at LONG_MIN and LONG_MAX.
unfoldable pub to_long : Scanned → ℕ
to_long n =
    if n.negative
    then (if ltb (2 ^ 63) n.magnitude then 2 ^ 63 else (2 ^ 64 - n.magnitude) % 2 ^ 64)
    else (if leb (2 ^ 63) n.magnitude then 2 ^ 63 - 1 else n.magnitude)

-- Whether `*end` is the NUL behind the text.
unfoldable pub at_end : Bytes → Bool
at_end [] = true
at_end (c ∷ _) = c == 0

-- A lower-case hexadecimal digit, and `%02x` of a byte.
unfoldable pub hex_digit : ℕ → ℕ
hex_digit v = if ltb v 10 then b'0' + v else b'a' + (v - 10)

unfoldable pub hex_byte : ℕ → Bytes
unfolding hex_digit
hex_byte b = hex_digit (b / 16 % 16) ∷ hex_digit (b % 16) ∷ []

unfoldable pub lower : Bytes → Bytes
unfolding to_lower
lower = map to_lower
