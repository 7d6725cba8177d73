-- ===== src/Expr/Parser/Values.antt =====
-- The values that the parser's helpers return fit 32 bits.
use xbdm_gdb_bridge.Prelude.{
  Bool, Bool-cases, Bytes, Option, [], arith, false, inl, inr, length, ltb, none, refl, some, true,
  ℕ, ◌<◌, ◌==◌, ◌^◌, ◌∷◌, ◌≡◌, ◌≤◌,
}
use xbdm_gdb_bridge.Expr.Parser.{
  Environment, Reading, apply_operator, as_bit, bytes, failed, is_kind, little_endian, perform_read,
  read_value,
}
use xbdm_gdb_bridge.Expr.Token.{
  Ensures, Runs, TokenType, and, asserted, asterisk, eq, get_precedence, gt, gte, holds, lowest,
  lparen, lt, lte, minus, not_eq, or, plus, rejected, returned,
}
use xbdm_gdb_bridge.Types.ThreadContext.{Fits32, IsContext}

abbrev pub AreBytes : Bytes → Type 0
AreBytes [] = Unit {0}
AreBytes (b ∷ bs) = (b < 256) × AreBytes bs

abbrev pub AreRead : Reading → Type 0
AreRead (bytes found) = AreBytes found
AreRead (failed message) = Unit {0}

-- What a reader returns are bytes.
abbrev pub IsReader : Option (ℕ → ℕ → Reading) → Type 0
IsReader none = Unit {0}
IsReader (some reader) = (address size : ℕ) → AreRead (reader address size)

pub record IsEnvironment (env : Environment) : Type 0 where
  pub context_fits : IsContext env.context
  pub thread_fits : Fits32 env.thread_id
  pub reader_fits : IsReader env.memory_reader

abbrev pub Word : ℕ → Type 0
Word v = v < 2 ^ 32

little_endian-lt : (bs : Bytes) → AreBytes bs → length bs ≤ 4 → little_endian bs < 2 ^ 32
unfolding little_endian
little_endian-lt [] h k = omega arith
little_endian-lt (a ∷ []) h k = omega arith
little_endian-lt (a ∷ b ∷ []) h k = omega arith
little_endian-lt (a ∷ b ∷ c ∷ []) h k = omega arith
little_endian-lt (a ∷ b ∷ c ∷ d ∷ []) h k = omega arith
little_endian-lt (a ∷ b ∷ c ∷ d ∷ e ∷ bs) h k = absurd (omega arith)

read_value-Ensures :
    (size : ℕ) (r : Reading) → AreRead r → size ≤ 4 → Ensures Word (read_value size r)
unfolding read_value
read_value-Ensures size (failed message) h k = rejected
read_value-Ensures size (bytes found) h k = elim (Bool-cases (length found == size)) [
  | inl e ↦ rw e (holds (little_endian-lt found h (ground arith)))
  | inr e ↦ rw e rejected
]

perform_read_with :
    (m : Option (ℕ → ℕ → Reading)) (env : Environment) (address size : ℕ)
    → env.memory_reader ≡ m
    → IsReader m
    → Ensures Word (perform_read env address size)
unfolding perform_read
perform_read_with none env address size e h = rw (e, perform_read) rejected
perform_read_with (some reader) env address size e h =
    rw (e, perform_read)
      (elim (Bool-cases (ltb 4 size)) [
        | inl large ↦ rw large rejected
        | inr fits ↦
            rw fits (read_value-Ensures size (reader address size) (h address size) (ground arith))
      ])

pub perform_read-Ensures :
    (env : Environment) (address size : ℕ)
    → IsReader env.memory_reader
    → Ensures Word (perform_read env address size)
perform_read-Ensures env address size h =
    perform_read_with env.memory_reader env address size refl h

as_bit-lt : (b : Bool) → as_bit b < 2 ^ 32
as_bit-lt true = omega arith
as_bit-lt false = omega arith

-- The default of the switch is only reached by a parenthesis, which is taken for an operator.
pub apply_operator-Runs :
    {Asserts : Type 0} (l r : ℕ) (kind : TokenType)
    → ltb lowest (get_precedence kind) ≡ true
    → (is_kind kind lparen ≡ true → Asserts)
    → Runs Asserts Word (apply_operator l r kind)
unfolding apply_operator get_precedence is_kind
apply_operator-Runs l r plus h paren = returned (omega arith)
apply_operator-Runs l r minus h paren = returned (omega arith)
apply_operator-Runs l r asterisk h paren = returned (omega arith)
apply_operator-Runs l r eq h paren = returned (as_bit-lt _)
apply_operator-Runs l r not_eq h paren = returned (as_bit-lt _)
apply_operator-Runs l r lt h paren = returned (as_bit-lt _)
apply_operator-Runs l r gt h paren = returned (as_bit-lt _)
apply_operator-Runs l r lte h paren = returned (as_bit-lt _)
apply_operator-Runs l r gte h paren = returned (as_bit-lt _)
apply_operator-Runs l r and h paren = returned (as_bit-lt _)
apply_operator-Runs l r or h paren = returned (as_bit-lt _)
apply_operator-Runs l r lparen h paren = asserted (paren refl)
apply_operator-Runs l r _ h paren = cc
