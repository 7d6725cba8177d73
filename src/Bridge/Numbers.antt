-- ===== src/Bridge/Numbers.antt =====
-- `%x` of src/xbox/bridge/gdb_bridge.cpp and `MaybeParseHexInt` of src/util/parsing.h.
use xbdm_gdb_bridge.Prelude.{
  Bool-cases, Bytes, List, [], ap, append-nil, arith, false, if◌then◌else◌, inl, inr, leb, length,
  map, refl, some, subst, suc, sym, true, zero, ℕ, ◌%◌, ◌*◌, ◌++◌, ◌+◌, ◌/◌, ◌<◌, ◌==◌, ◌^◌, ◌∙◌,
  ◌∷◌, ◌≡◌, ◌≤◌,
}
use xbdm_gdb_bridge.Cstd.{
  digit_in, digit_value, digits, hex_digit, hex_prefix, is_space, scan, scan_digits, sign,
  skip_space, to_ulong,
}
use xbdm_gdb_bridge.Cstd.Laws.{Lacks}
use xbdm_gdb_bridge.Bridge.State.{maybe_parse_hex_int, print_hex, trim_zeros}
use xbdm_gdb_bridge.Bridge.Serialize.{hex_fixed}

abbrev pub AllDigits : List ℕ → Type 0
AllDigits [] = Unit {0}
AllDigits (v ∷ vs) = (v < 16) × AllDigits vs

abbrev pub digit_text : List ℕ → Bytes
digit_text vs = map hex_digit vs

-- The value of the digits, on top of `acc`.
abbrev pub value_from : ℕ → List ℕ → ℕ
value_from acc [] = acc
value_from acc (v ∷ vs) = value_from (acc * 16 + v) vs

-- The digits of a number, and those that are left without the zeros in front.
abbrev pub nibbles : ℕ → ℕ → List ℕ
nibbles zero n = []
nibbles (suc width) n = nibbles width (n / 16) ++ n % 16 ∷ []

abbrev pub trim_digits : List ℕ → List ℕ
trim_digits [] = []
trim_digits (v ∷ []) = v ∷ []
trim_digits (v ∷ w ∷ ws) = let rest = trim_digits (w ∷ ws) in if v == 0 then rest else v ∷ w ∷ ws

pub digit_in-hex_digit : (v : ℕ) → v < 16 → digit_in 16 (hex_digit v) ≡ some v
unfolding digit_in digit_value hex_digit
digit_in-hex_digit v h = ground arith

is_space-hex_digit : (v : ℕ) → v < 16 → is_space (hex_digit v) ≡ false
unfolding is_space hex_digit
is_space-hex_digit v h = ground arith

hex_digit-minus : (v : ℕ) → v < 16 → (hex_digit v == b'-') ≡ false
unfolding hex_digit
hex_digit-minus v h = ground arith

hex_digit-plus : (v : ℕ) → v < 16 → (hex_digit v == b'+') ≡ false
unfolding hex_digit
hex_digit-plus v h = ground arith

hex_digit-x : (v : ℕ) → v < 16 → (hex_digit v == b'x') ≡ false
unfolding hex_digit
hex_digit-x v h = ground arith

hex_digit-X : (v : ℕ) → v < 16 → (hex_digit v == b'X') ≡ false
unfolding hex_digit
hex_digit-X v h = ground arith

hex_digit-zero : (v : ℕ) → v < 16 → (hex_digit v == b'0') ≡ (v == 0)
unfolding hex_digit
hex_digit-zero v h = ground arith

digits_nil : (acc : ℕ) → digits 16 acc [] ≡ (acc, [])
unfolding digits
digits_nil acc = refl

digits-digit_text :
    (acc : ℕ) (vs : List ℕ) (rest : Bytes)
    → AllDigits vs
    → digits 16 acc (digit_text vs ++ rest) ≡ digits 16 (value_from acc vs) rest
unfolding digits
digits-digit_text acc [] rest h = refl
digits-digit_text acc (v ∷ vs) rest h =
    rw (digits, digit_in-hex_digit v h.0) (digits-digit_text (acc * 16 + v) vs rest h.1)

hex_prefix-digit_text : (vs : List ℕ) → AllDigits vs → hex_prefix 16 (digit_text vs) ≡ digit_text vs
unfolding hex_prefix
hex_prefix-digit_text [] h = refl
hex_prefix-digit_text (v ∷ []) h = refl
hex_prefix-digit_text (v ∷ w ∷ []) h = refl
hex_prefix-digit_text (v ∷ w ∷ u ∷ us) h =
    rw (hex_digit-x w h.1.0, hex_digit-X w h.1.0) (ground arith)

pub scan_digits-digit_text :
    (v : ℕ) (vs : List ℕ)
    → AllDigits (v ∷ vs)
    → scan_digits 16 false (digit_text (v ∷ vs))
      ≡ some (record { negative = false; magnitude = value_from 0 (v ∷ vs); rest = [] })
unfolding scan_digits
scan_digits-digit_text v vs h =
    let all : digits 16 0 (digit_text (v ∷ vs)) ≡ (value_from 0 (v ∷ vs), []) =
      ap (digits 16 0) (sym (append-nil (digit_text (v ∷ vs))))
      ∙ digits-digit_text 0 (v ∷ vs) [] h
      ∙ digits_nil (value_from 0 (v ∷ vs)) in
    rw (scan_digits, digit_in-hex_digit v h.0, all) refl

-- A text of digits is read as their value.
scan-digit_text :
    (v : ℕ) (vs : List ℕ)
    → AllDigits (v ∷ vs)
    → scan 16 (digit_text (v ∷ vs))
      ≡ some (record { negative = false; magnitude = value_from 0 (v ∷ vs); rest = [] })
unfolding scan skip_space sign scan_digits
scan-digit_text v vs h =
    rw (is_space-hex_digit v h.0, hex_digit-minus v h.0, hex_digit-plus v h.0)
      (ap (scan_digits 16 false) (hex_prefix-digit_text (v ∷ vs) h) ∙ scan_digits-digit_text v vs h)

map-append : (xs ys : List ℕ) → digit_text (xs ++ ys) ≡ digit_text xs ++ digit_text ys
map-append [] ys = refl
map-append (x ∷ xs) ys = ap (◌∷◌ (hex_digit x)) (map-append xs ys)

pub hex_fixed-nibbles : (width n : ℕ) → hex_fixed width n ≡ digit_text (nibbles width n)
unfolding hex_fixed
hex_fixed-nibbles zero n = refl
hex_fixed-nibbles (suc width) n =
    ap (λ xs. xs ++ hex_digit (n % 16) ∷ []) (hex_fixed-nibbles width (n / 16))
    ∙ sym (map-append (nibbles width (n / 16)) (n % 16 ∷ []))

AllDigits-snoc : (vs : List ℕ) (v : ℕ) → AllDigits vs → v < 16 → AllDigits (vs ++ v ∷ [])
AllDigits-snoc [] v h lt = (lt, tt)
AllDigits-snoc (w ∷ ws) v h lt = (h.0, AllDigits-snoc ws v h.1 lt)

pub AllDigits-nibbles : (width n : ℕ) → AllDigits (nibbles width n)
AllDigits-nibbles zero n = tt
AllDigits-nibbles (suc width) n =
    AllDigits-snoc (nibbles width (n / 16)) (n % 16) (AllDigits-nibbles width (n / 16))
      (omega arith)

value_from-snoc :
    (acc : ℕ) (vs : List ℕ) (v : ℕ) → value_from acc (vs ++ v ∷ []) ≡ value_from acc vs * 16 + v
value_from-snoc acc [] v = refl
value_from-snoc acc (w ∷ ws) v = value_from-snoc (acc * 16 + w) ws v

-- The number has no more digits than the width.
abbrev pub Fits : ℕ → ℕ → Type 0
Fits zero n = n ≡ 0
Fits (suc width) n = Fits width (n / 16)

pub value_from-nibbles : (width n : ℕ) → Fits width n → value_from 0 (nibbles width n) ≡ n
value_from-nibbles zero n h = sym h
value_from-nibbles (suc width) n h =
    value_from-snoc 0 (nibbles width (n / 16)) (n % 16)
    ∙ omega (arith, value_from-nibbles width (n / 16) h)

trim_zeros-digit_text :
    (vs : List ℕ) → AllDigits vs → trim_zeros (digit_text vs) ≡ digit_text (trim_digits vs)
unfolding trim_zeros
trim_zeros-digit_text [] h = refl
trim_zeros-digit_text (v ∷ []) h = refl
trim_zeros-digit_text (v ∷ w ∷ ws) h = elim (Bool-cases (v == 0)) [
  | inl e ↦ rw (hex_digit-zero v h.0, e) (trim_zeros-digit_text (w ∷ ws) h.1)
  | inr e ↦ rw (hex_digit-zero v h.0, e) refl
]

zero_of : (v : ℕ) → (v == 0) ≡ true → 0 ≡ 0 + v
zero_of v e = ground (arith, e)

value_from-trim : (vs : List ℕ) → value_from 0 (trim_digits vs) ≡ value_from 0 vs
value_from-trim [] = refl
value_from-trim (v ∷ []) = refl
value_from-trim (v ∷ w ∷ ws) = elim (Bool-cases (v == 0)) [
  | inl e ↦ rw e (value_from-trim (w ∷ ws) ∙ ap (λ u. value_from (u * 16 + w) ws) (zero_of v e))
  | inr e ↦ rw e refl
]

AllDigits-trim : (vs : List ℕ) → AllDigits vs → AllDigits (trim_digits vs)
AllDigits-trim [] h = tt
AllDigits-trim (v ∷ []) h = h
AllDigits-trim (v ∷ w ∷ ws) h = elim (Bool-cases (v == 0)) [
  | inl e ↦ rw e (AllDigits-trim (w ∷ ws) h.1)
  | inr e ↦ rw e h
]

-- A list of digits that is not empty stays so.
trim_digits-cons :
    (v : ℕ) (vs : List ℕ) → (w : ℕ) × ((ws : List ℕ) × (trim_digits (v ∷ vs) ≡ w ∷ ws))
trim_digits-cons v [] = (v, ([], refl))
trim_digits-cons v (w ∷ ws) = elim (Bool-cases (v == 0)) [
  | inl e ↦ rw e (trim_digits-cons w ws)
  | inr e ↦ rw e (v, (w ∷ ws, refl))
]

scan-trimmed :
    (v : ℕ) (vs : List ℕ)
    → AllDigits (v ∷ vs)
    → scan 16 (digit_text (trim_digits (v ∷ vs)))
      ≡ some (record { negative = false; magnitude = value_from 0 (v ∷ vs); rest = [] })
scan-trimmed v vs h =
    let (w, (ws, e)) = trim_digits-cons v vs in
    let all : AllDigits (w ∷ ws) = subst AllDigits e (AllDigits-trim (v ∷ vs) h) in
    let value : value_from 0 (w ∷ ws) ≡ value_from 0 (v ∷ vs) =
      ap (value_from 0) (sym e) ∙ value_from-trim (v ∷ vs) in
    ap (λ xs. scan 16 (digit_text xs)) e
    ∙ (scan-digit_text w ws all
        ∙ ap (λ n. some (record { negative = false; magnitude = n; rest = [] })) value)

scan_trimmed_any :
    (vs : List ℕ)
    → 1 ≤ length vs
    → AllDigits vs
    → scan 16 (digit_text (trim_digits vs))
      ≡ some (record { negative = false; magnitude = value_from 0 vs; rest = [] })
scan_trimmed_any [] h all = absurd (omega (arith, h))
scan_trimmed_any (v ∷ vs) h all = scan-trimmed v vs all

below-Fits : (n : ℕ) → n < 2 ^ 64 → Fits 16 n
below-Fits n h = omega arith

print_hex-digits : (n : ℕ) → print_hex n ≡ digit_text (trim_digits (nibbles 16 n))
unfolding print_hex
print_hex-digits n =
    ap trim_zeros (hex_fixed-nibbles 16 n)
    ∙ trim_zeros-digit_text (nibbles 16 n) (AllDigits-nibbles 16 n)

scan-print_hex :
    (n : ℕ)
    → n < 2 ^ 64
    → scan 16 (print_hex n) ≡ some (record { negative = false; magnitude = n; rest = [] })
scan-print_hex n h =
    ap (scan 16) (print_hex-digits n)
    ∙ (scan_trimmed_any (nibbles 16 n) (omega arith) (AllDigits-nibbles 16 n)
        ∙ ap (λ m. some (record { negative = false; magnitude = m; rest = [] }))
            (value_from-nibbles 16 n (below-Fits n h)))

-- Within its bits, what is printed is read back.
pub maybe_parse_hex_int-print_hex :
    (bits n : ℕ) → n < 2 ^ 64 → n % 2 ^ bits ≡ n → maybe_parse_hex_int bits (print_hex n) ≡ some n
unfolding maybe_parse_hex_int to_ulong
maybe_parse_hex_int-print_hex bits n h fits =
    let small : leb (2 ^ 64) n ≡ false = ground arith in
    rw (maybe_parse_hex_int, scan-print_hex n h, small) (ap some fits)

-- A character that is no hexadecimal digit is not printed.
abbrev pub IsNoDigit : ℕ → Type 0
IsNoDigit c = (v : ℕ) → v < 16 → (hex_digit v == c) ≡ false

digit_text-Lacks : (c : ℕ) (vs : List ℕ) → IsNoDigit c → AllDigits vs → Lacks c (digit_text vs)
digit_text-Lacks c [] other h = tt
digit_text-Lacks c (v ∷ vs) other h = (other v h.0, digit_text-Lacks c vs other h.1)

pub print_hex-Lacks : (c n : ℕ) → IsNoDigit c → Lacks c (print_hex n)
print_hex-Lacks c n other = subst (Lacks c) (sym (print_hex-digits n)) (
    digit_text-Lacks c (trim_digits (nibbles 16 n)) other
      (AllDigits-trim (nibbles 16 n) (AllDigits-nibbles 16 n)))

pub comma-IsNoDigit : IsNoDigit b','
unfolding hex_digit
comma-IsNoDigit v h = ground arith

pub colon-IsNoDigit : IsNoDigit b':'
unfolding hex_digit
colon-IsNoDigit v h = ground arith

pub semicolon-IsNoDigit : IsNoDigit b';'
unfolding hex_digit
semicolon-IsNoDigit v h = ground arith
