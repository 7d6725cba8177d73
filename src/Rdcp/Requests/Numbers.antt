-- ===== src/Rdcp/Requests/Numbers.antt =====
-- The numbers in the requests of src/rdcp/rdcp_request.h, read by src/util/parsing.cpp.
use xbdm_gdb_bridge.Prelude.{
  List, [], ap, arith, false, length, refl, some, true, ℕ, ◌%◌, ◌<◌, ◌^◌, ◌∙◌, ◌∷◌, ◌≡◌, ◌≤◌,
}
use xbdm_gdb_bridge.Cstd.{
  hex_digit, hex_prefix, is_space, is_xdigit, scan, scan_digits, sign, skip_space, to_long,
  to_ulong,
}
use xbdm_gdb_bridge.Args.Integers.{
  get_integer_base, leading, maybe_parse_uint32, parse_int32, parse_uint32, whole,
}
use xbdm_gdb_bridge.Bridge.Numbers.{
  AllDigits, AllDigits-nibbles, digit_text, hex_fixed-nibbles, nibbles, scan_digits-digit_text,
  value_from, value_from-nibbles,
}
use xbdm_gdb_bridge.Rdcp.Requests.{hex_string}

is_xdigit-hex_digit : (v : ℕ) → v < 16 → is_xdigit (hex_digit v) ≡ true
unfolding is_xdigit hex_digit
is_xdigit-hex_digit v h = ground arith

hex_prefix-hex_string :
    (v : ℕ) (vs : List ℕ)
    → AllDigits (v ∷ vs)
    → hex_prefix 16 (b'0' ∷ b'x' ∷ digit_text (v ∷ vs)) ≡ digit_text (v ∷ vs)
unfolding hex_prefix
hex_prefix-hex_string v vs h = rw (hex_prefix, is_xdigit-hex_digit v h.0) refl

scan-0x :
    (v : ℕ) (vs : List ℕ)
    → AllDigits (v ∷ vs)
    → scan 16 (b'0' ∷ b'x' ∷ digit_text (v ∷ vs))
      ≡ some (record { negative = false; magnitude = value_from 0 (v ∷ vs); rest = [] })
unfolding scan skip_space sign scan_digits is_space
scan-0x v vs h =
    ap (scan_digits 16 false) (hex_prefix-hex_string v vs h) ∙ scan_digits-digit_text v vs h

scan_0x_any :
    (vs : List ℕ)
    → 1 ≤ length vs
    → AllDigits vs
    → scan 16 (b'0' ∷ b'x' ∷ digit_text vs)
      ≡ some (record { negative = false; magnitude = value_from 0 vs; rest = [] })
scan_0x_any [] h all = absurd (omega (arith, h))
scan_0x_any (v ∷ vs) h all = scan-0x v vs all

scan-hex_string :
    (n : ℕ)
    → n < 2 ^ 32
    → scan 16 (hex_string n) ≡ some (record { negative = false; magnitude = n; rest = [] })
unfolding hex_string
scan-hex_string n h =
    let m : ℕ = n % 2 ^ 32 in
    let same_number : m ≡ n = omega (arith, h) in
    ap (λ xs. scan 16 (b'0' ∷ b'x' ∷ xs)) (hex_fixed-nibbles 8 m)
    ∙ (scan_0x_any (nibbles 8 m) (omega arith) (AllDigits-nibbles 8 m)
        ∙ ap (λ k. some (record { negative = false; magnitude = k; rest = [] }))
            (value_from-nibbles 8 m (omega arith) ∙ same_number))

-- A number of 32 bits that a request carries is read back as it was.
pub maybe_parse_uint32-hex_string :
    (n : ℕ) → n < 2 ^ 32 → maybe_parse_uint32 (hex_string n) ≡ some n
unfolding maybe_parse_uint32 hex_string get_integer_base whole to_ulong
maybe_parse_uint32-hex_string n h =
    ap (whole to_ulong) (scan-hex_string n h) ∙ ap some (ground (arith, h))

pub parse_uint32-hex_string : (n : ℕ) → n < 2 ^ 32 → parse_uint32 (hex_string n) ≡ n
unfolding parse_uint32 hex_string get_integer_base leading to_ulong
parse_uint32-hex_string n h = ap (leading to_ulong) (scan-hex_string n h) ∙ ground (arith, h)

pub parse_int32-hex_string : (n : ℕ) → n < 2 ^ 32 → parse_int32 (hex_string n) ≡ n
unfolding parse_int32 hex_string get_integer_base leading to_long
parse_int32-hex_string n h = ap (leading to_long) (scan-hex_string n h) ∙ ground (arith, h)
