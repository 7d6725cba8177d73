-- ===== src/Expr/Parser.antt =====
-- The Pratt parser of debugger_expression_parser.cpp. The state `pos_` is the list of the tokens
-- that are left; what an error leaves of them is not read again. Each call costs a unit of fuel.
pub mod Values
pub mod Total
pub mod Grammar
use xbdm_gdb_bridge.Prelude.{
  Bool, Bytes, Option, [], codes, false, if◌then◌else◌, leb, length, ltb, none, not, same, some,
  suc, true, zero, ℕ, ◌%◌, ◌&&◌, ◌*◌, ◌+◌, ◌-◌, ◌==◌, ◌^◌, ◌||◌, ◌∷◌,
}
use xbdm_gdb_bridge.Types.ThreadContext.{ThreadContext}
use xbdm_gdb_bridge.Expr.Token.{
  assertion_failed, Error, Result, Token, TokenType, Tokens, and, asterisk, at, comma,
  empty_expression, end_of_file, eq, err, expected_rbracket, expected_rparen, get_precedence, gt,
  gte, highest, identifier, int, lbracket, lowest, lparen, lt, lte, minus, not_eq, ok, or,
  out_of_fuel, plus, rbracket, read_too_large, reader_failed, reader_unavailable, register, rparen,
  short_read, tid_unavailable, unexpected_character, unexpected_end, unexpected_token,
  unknown_identifier, ◌>>=◌,
}
use xbdm_gdb_bridge.Expr.Registers.{resolve_register_value}
use xbdm_gdb_bridge.Expr.Lexer.{token, tokenize}

-- What a `MemoryReader` returns: the bytes, or its error message.
pub data Reading : Type 0 where
  bytes : Bytes → Reading
  failed : Bytes → Reading

-- `context_`, `thread_id_` and `memory_reader_`.
pub record Environment : Type 0 where
  pub context : ThreadContext
  pub thread_id : Option ℕ
  pub memory_reader : Option (ℕ → ℕ → Reading)

unfoldable pub peek : Tokens → Token
peek [] = token end_of_file [] 0 0
peek (t ∷ _) = t

-- `Consume` as far as it moves `pos_`.
unfoldable pub consume : Tokens → Tokens
consume [] = []
consume (_ ∷ ts) = ts

-- `==` on `TokenType`.
unfoldable pub is_kind : TokenType → TokenType → Bool
is_kind end_of_file end_of_file = true
is_kind lparen lparen = true
is_kind rparen rparen = true
is_kind comma comma = true
is_kind lbracket lbracket = true
is_kind rbracket rbracket = true
is_kind _ _ = false

-- The bytes as a little-endian number; they do not overlap, so `|=` adds.
unfoldable pub little_endian : Bytes → ℕ
little_endian [] = 0
little_endian (b ∷ bs) = b + 256 * little_endian bs

-- What `perform_read` makes of the reader's answer.
unfoldable pub read_value : ℕ → Reading → Result ℕ
unfolding little_endian
read_value size (failed message) = err (reader_failed message)
read_value size (bytes found) =
    if length found == size then ok (little_endian found) else err short_read

-- The lambda `perform_read`.
unfoldable pub perform_read : Environment → ℕ → ℕ → Result ℕ
unfolding read_value
perform_read env address size = elim env.memory_reader [
  | none ↦ err reader_unavailable
  | some reader ↦ if ltb 4 size then err read_too_large else read_value size (reader address size)
]

abbrev pub as_bit : Bool → ℕ
as_bit b = if b then 1 else 0

-- The switch of `ParseInfix`; its default is an assertion that fails.
unfoldable pub apply_operator : ℕ → ℕ → TokenType → Result ℕ
apply_operator l r plus = ok ((l + r) % 2 ^ 32)
apply_operator l r minus = ok ((l + 2 ^ 32 - r) % 2 ^ 32)
apply_operator l r asterisk = ok (l * r % 2 ^ 32)
apply_operator l r eq = ok (as_bit (l == r))
apply_operator l r not_eq = ok (as_bit (not (l == r)))
apply_operator l r lt = ok (as_bit (ltb l r))
apply_operator l r gt = ok (as_bit (ltb r l))
apply_operator l r lte = ok (as_bit (leb l r))
apply_operator l r gte = ok (as_bit (leb r l))
apply_operator l r and = ok (as_bit (not (l == 0) && not (r == 0)))
apply_operator l r or = ok (as_bit (not (l == 0) || not (r == 0)))
apply_operator l r _ = assertion_failed

-- A value, and the tokens that are left.
abbrev pub Parsed : Type 0
Parsed = ℕ × Tokens

-- The case of an identifier.
unfoldable pub parse_identifier : Environment → Token → Tokens → Result Parsed
parse_identifier env t ts =
    if same t.literal (codes "tid")
    then elim env.thread_id [ none ↦ err tid_unavailable | some id ↦ ok (id, ts) ]
    else err (unknown_identifier t.literal)

-- A closing token, behind which the result of a read is returned.
unfoldable pub read_behind : Environment → TokenType → Error → ℕ → ℕ → Tokens → Result Parsed
unfolding perform_read peek consume is_kind
read_behind env close e address size ts =
    if is_kind (peek ts).kind close
    then perform_read env address size >>= (λ v. ok (v, consume ts))
    else err e

-- `)` behind an expression in parentheses.
unfoldable pub close_group : Parsed → Result Parsed
unfolding peek consume is_kind
close_group (v, ts) =
    if is_kind (peek ts).kind rparen then ok (v, consume ts) else err expected_rparen

unfoldable mutual
  unfolding get_precedence peek consume is_kind parse_identifier read_behind close_group
      apply_operator resolve_register_value

  pub parse_expression : ℕ → Environment → ℕ → Tokens → Result Parsed
  parse_expression zero env precedence ts = out_of_fuel
  parse_expression (suc f) env precedence ts =
      let first = parse_prefix f env (peek ts).kind (peek ts) (consume ts) in
      if is_kind (peek ts).kind end_of_file
      then err unexpected_end
      else first >>= (λ (left, rest). infix_loop f env precedence left rest)

  -- The `while` loop of `ParseExpression`.
  pub infix_loop : ℕ → Environment → ℕ → ℕ → Tokens → Result Parsed
  infix_loop zero env precedence left ts = out_of_fuel
  infix_loop (suc f) env precedence left ts =
      let next = parse_infix f env (peek ts) left (consume ts) in
      if ltb precedence (get_precedence (peek ts).kind)
      then next >>= (λ (value, rest). infix_loop f env precedence value rest)
      else ok (left, ts)

  pub parse_infix : ℕ → Environment → Token → ℕ → Tokens → Result Parsed
  parse_infix zero env op left ts = out_of_fuel
  parse_infix (suc f) env op left ts =
      parse_expression f env (get_precedence op.kind) ts >>= λ (right, rest).
      apply_operator left right op.kind >>= λ value. ok (value, rest)

  pub parse_prefix : ℕ → Environment → TokenType → Token → Tokens → Result Parsed
  parse_prefix zero env kind t ts = out_of_fuel
  parse_prefix (suc f) env int t ts = ok (t.int_value, ts)
  parse_prefix (suc f) env identifier t ts = parse_identifier env t ts
  parse_prefix (suc f) env register t ts =
      resolve_register_value env.context t.literal >>= λ v. ok (v, ts)
  parse_prefix (suc f) env lparen t ts = parse_expression f env lowest ts >>= close_group
  parse_prefix (suc f) env at t ts =
      let call_form = parse_read f env (consume ts) in
      let bare_form = parse_expression f env highest ts >>= parse_offset f env in
      if is_kind (peek ts).kind lparen then call_form else bare_form
  parse_prefix (suc f) env _ t ts = err (unexpected_token t.literal)

  -- `@(addr)` and `@(addr, size)`, behind the parenthesis.
  pub parse_read : ℕ → Environment → Tokens → Result Parsed
  parse_read zero env ts = out_of_fuel
  parse_read (suc f) env ts = parse_expression f env lowest ts >>= λ (address, rest).
      let sized = parse_expression f env lowest (consume rest) >>= λ (size, rest').
      read_behind env rparen expected_rparen address size rest' in
      if is_kind (peek rest).kind comma
      then sized
      else read_behind env rparen expected_rparen address 4 rest

  -- What may follow `@addr`: an offset in brackets, which is added modulo 2 ^ 32.
  pub parse_offset : ℕ → Environment → Parsed → Result Parsed
  parse_offset zero env p = out_of_fuel
  parse_offset (suc f) env (address, ts) =
      let offset_form = parse_expression f env lowest (consume ts) >>= λ (offset, rest).
      read_behind env rbracket expected_rbracket ((address + offset) % 2 ^ 32) 4 rest in
      if is_kind (peek ts).kind lbracket
      then offset_form
      else perform_read env address 4 >>= λ v. ok (v, ts)

-- `Parse` behind the tokenizer. Three units of fuel for each token and four more are enough.
unfoldable pub parse_tokens : Environment → Tokens → Result ℕ
unfolding parse_expression
parse_tokens env ts =
    let whole = parse_expression (3 * length ts + 4) env lowest ts in
    if is_kind (peek ts).kind end_of_file
    then err empty_expression
    else whole >>= λ (v, rest).
        if is_kind (peek rest).kind end_of_file
        then ok v
        else err (unexpected_character (peek rest).start_pos)

unfoldable pub parse : Environment → Bytes → Result ℕ
parse env expr = tokenize expr >>= parse_tokens env
