-- ===== src/Expr/Evaluate.antt =====
-- `DebuggerExpressionParser::Parse` as a whole, on text.
-- The characters are those for which `isspace` and its relatives are defined as bytes.
use xbdm_gdb_bridge.Prelude.{Bytes, [], inl, inr, true, ℕ, ◌<◌, ◌^◌, ◌∷◌, ◌≡◌, ◌⊎◌}
use xbdm_gdb_bridge.Expr.Token.{
  Ensures-cases, Error, Runs, Runs-cases, Tokens, assertion_failed, err, ok, raised,
}
use xbdm_gdb_bridge.Expr.Lexer.{tokenize}
use xbdm_gdb_bridge.Expr.Lexer.Progress.{tokenize-Ensures}
use xbdm_gdb_bridge.Expr.Parser.{Environment, parse}
use xbdm_gdb_bridge.Expr.Parser.Values.{IsEnvironment}
use xbdm_gdb_bridge.Expr.Parser.Total.{AllFit-AllSound, has_lparen, parse_tokens-Runs}

abbrev pub IsAscii : Bytes → Type 0
IsAscii [] = Unit {0}
IsAscii (c ∷ cs) = (c < 128) × IsAscii cs

-- The tokens of the text have a parenthesis that opens.
abbrev pub OpensGroup : Bytes → Type 0
OpensGroup expr = (ts : Tokens) × ((tokenize expr ≡ ok ts) × (has_lparen ts ≡ true))

parse-Runs :
    (A : Type 0) (env : Environment) (expr : Bytes)
    → IsEnvironment env
    → ((ts : Tokens) → tokenize expr ≡ ok ts → has_lparen ts ≡ true → A)
    → Runs A (λ v. v < 2 ^ 32) (parse env expr)
unfolding parse
parse-Runs A env expr h opens = elim (Ensures-cases (tokenize-Ensures expr)) [
  | inl (message, e) ↦ rw (parse, e) raised
  | inr (ts, fine, e) ↦
      rw (parse, e)
        (parse_tokens-Runs A env ts h (AllFit-AllSound A ts fine.0 (λ paren. opens ts e paren)))
]

-- Where the registers and the thread id fit 32 bits, the reader returns bytes, and the characters
-- of the text are ASCII, the evaluation ends in an error, in a value that fits 32 bits, or in a
-- failed assertion; the assertion only fails where the text has a token for a parenthesis that
-- opens. The fuel of the model never runs out.
pub parse_total :
    (env : Environment) (expr : Bytes)
    → IsEnvironment env
    → IsAscii expr
    → ((e : Error) × (parse env expr ≡ err e))
      ⊎ (((v : ℕ) × (v < 2 ^ 32) × (parse env expr ≡ ok v))
          ⊎ (OpensGroup expr × (parse env expr ≡ assertion_failed)))
parse_total env expr h ascii =
    Runs-cases (parse-Runs (OpensGroup expr) env expr h (λ ts e paren. (ts, (e, paren))))
