-- ===== src/Expr/Lexer.antt =====
-- `DebuggerExpressionParser::Tokenize`. `i` is the position in the expression, and the text is what
-- stands from there on. A `char` is taken as its code, below 128.
pub mod Progress
use xbdm_gdb_bridge.Prelude.{
  Bool, Bytes, Option, [], codes, drop, false, if◌then◌else◌, leb, length, none, same, some, suc,
  true, zero, ℕ, ◌%◌, ◌&&◌, ◌++◌, ◌+◌, ◌==◌, ◌^◌, ◌||◌, ◌∷◌,
}
use xbdm_gdb_bridge.Cstd.{digits, is_alpha, is_digit, is_space, is_xdigit, lower}
use xbdm_gdb_bridge.Expr.Token.{
  Result, Token, TokenType, Tokens, and, asterisk, at, comma, empty_register_name, end_of_file, eq,
  err, gt, gte, hexadecimal_out_of_range, identifier, int, invalid_hexadecimal, lbracket, lparen,
  lt, lte, minus, not_eq, number_out_of_range, ok, or, out_of_fuel, plus, rbracket, register,
  rparen, unexpected_character, ◌>>=◌,
}

-- The longest run of bytes that pass the test, and what follows it.
unfoldable pub span : (ℕ → Bool) → Bytes → Bytes × Bytes
span test [] = ([], [])
span test (c ∷ cs) =
    let (run, rest) = span test cs in if test c then (c ∷ run, rest) else ([], c ∷ cs)

-- One step of the loop: the token, the position behind it, and the text from there.
abbrev pub Lexed : Type 0
Lexed = Token × ℕ × Bytes

abbrev pub token : TokenType → Bytes → ℕ → ℕ → Token
token kind literal value start = record {
  kind = kind;
  literal = literal;
  int_value = value;
  start_pos = start;
}

-- The value of a run of digits under `stoul`, which throws above ULONG_MAX, as a `uint32_t`.
unfoldable pub stoul : ℕ → Bytes → Option ℕ
stoul base run = let v = (digits base 0 run).0 in if leb (2 ^ 64) v then none else some (v % 2 ^ 32)

-- A hexadecimal number at `start`, of the digits `run` behind the `0x`.
unfoldable pub hexadecimal_token : ℕ → Bytes → Bytes → Result Lexed
hexadecimal_token start [] rest = err invalid_hexadecimal
hexadecimal_token start (d ∷ ds) rest = elim (stoul 16 (d ∷ ds)) [
  | none ↦ err hexadecimal_out_of_range
  | some v ↦ ok (token int (b'0' ∷ b'x' ∷ d ∷ ds) v start, start + 2 + length (d ∷ ds), rest)
]

-- The text is what follows the `0x`.
unfoldable pub lex_hexadecimal : ℕ → Bytes → Result Lexed
lex_hexadecimal start cs = let (run, rest) = span is_xdigit cs in hexadecimal_token start run rest

-- A decimal number at `start`, of the digits `run`.
unfoldable pub number_token : ℕ → Bytes → Bytes → Result Lexed
number_token start run rest = elim (stoul 10 run) [
  | none ↦ err number_out_of_range
  | some v ↦ ok (token int run v start, start + length run, rest)
]

unfoldable pub lex_number : ℕ → Bytes → Result Lexed
lex_number start cs = let (run, rest) = span is_digit cs in number_token start run rest

-- A register at `start`, of the letters `run` behind the `$`.
unfoldable pub register_token : ℕ → Bytes → Bytes → Result Lexed
register_token start [] rest = err empty_register_name
register_token start (d ∷ ds) rest =
    ok (token register (d ∷ ds) 0 start, start + 1 + length (d ∷ ds), rest)

-- The text is what follows the `$`.
unfoldable pub lex_register : ℕ → Bytes → Result Lexed
lex_register start cs = let (run, rest) = span is_alpha cs in register_token start run rest

-- A word at `start`, of the letters `run`.
unfoldable pub identifier_token : ℕ → Bytes → Bytes → Result Lexed
identifier_token start run rest =
    let literal = lower run in
    if same literal (codes "tid")
    then ok (token identifier literal 0 start, start + length run, rest)
    else if same literal (codes "and")
    then ok (token and literal 0 start, start + length run, rest)
    else if same literal (codes "or")
    then ok (token or literal 0 start, start + length run, rest)
    else err (unexpected_character start)

unfoldable pub lex_identifier : ℕ → Bytes → Result Lexed
lex_identifier start cs = let (run, rest) = span is_alpha cs in identifier_token start run rest

-- An operator of one character.
abbrev pub single : TokenType → ℕ → ℕ → Bytes → Result Lexed
single kind c start cs = ok (token kind (c ∷ []) 0 start, start + 1, cs)

-- An operator of two characters, of which the second is `second`; else `other`.
abbrev pub double : TokenType → ℕ → ℕ → ℕ → Bytes → Result Lexed → Result Lexed
double kind c second start [] other = other
double kind c second start (d ∷ ds) other =
    if d == second then ok (token kind (c ∷ d ∷ []) 0 start, start + 2, ds) else other

-- The switch over the operators; the text is what follows `c`.
unfoldable pub lex_operator : ℕ → ℕ → Bytes → Result Lexed
lex_operator start c cs =
    if c == b'+'
    then single plus c start cs
    else if c == b'-'
    then single minus c start cs
    else if c == b'*'
    then single asterisk c start cs
    else if c == b'('
    then single lparen c start cs
    else if c == b')'
    then single rparen c start cs
    else if c == b'['
    then single lbracket c start cs
    else if c == b']'
    then single rbracket c start cs
    else if c == b','
    then single comma c start cs
    else if c == b'@'
    then single at c start cs
    else if c == b'='
    then double eq c b'=' start cs (err (unexpected_character start))
    else if c == b'!'
    then double not_eq c b'=' start cs (err (unexpected_character start))
    else if c == b'<'
    then double lte c b'=' start cs (single lt c start cs)
    else if c == b'>'
    then double gte c b'=' start cs (single gt c start cs)
    else if c == b'&'
    then double and c b'&' start cs (err (unexpected_character start))
    else if c == b'|'
    then double or c b'|' start cs (err (unexpected_character start))
    else err (unexpected_character start)

-- `c` is a `0` with an `x` behind it.
unfoldable pub is_hexadecimal : ℕ → Bytes → Bool
is_hexadecimal c [] = false
is_hexadecimal c (x ∷ _) = c == b'0' && (x == b'x' || x == b'X')

-- One round of the loop on a character that is no space.
unfoldable pub lex : ℕ → ℕ → Bytes → Result Lexed
lex start c cs =
    if is_hexadecimal c cs
    then lex_hexadecimal start (drop 1 cs)
    else if is_digit c
    then lex_number start (c ∷ cs)
    else if c == b'$'
    then lex_register start cs
    else if is_alpha c
    then lex_identifier start (c ∷ cs)
    else lex_operator start c cs

-- The loop, on fuel for its rounds; `tokens` is what has been pushed.
unfoldable pub tokenize_loop : ℕ → ℕ → Bytes → Tokens → Result Tokens
tokenize_loop zero i text tokens = out_of_fuel
tokenize_loop (suc fuel) i [] tokens = ok (tokens ++ token end_of_file [] 0 i ∷ [])
tokenize_loop (suc fuel) i (c ∷ cs) tokens = elim (is_space c) [
  | true ↦ tokenize_loop fuel (i + 1) cs tokens
  | false ↦ lex i c cs >>= λ (t, j, rest). tokenize_loop fuel j rest (tokens ++ t ∷ [])
]

-- Each round takes a character at least.
unfoldable pub tokenize : Bytes → Result Tokens
tokenize expr = tokenize_loop (length expr + 1) 0 expr []
