-- ===== src/Expr/Parser/Total.antt =====
-- The parser ends: with three units of fuel for each token it never runs out. What it returns fits
-- 32 bits, and it leaves fewer tokens than it was given.
use xbdm_gdb_bridge.Prelude.{
  Bool, Option, [], arith, false, length, ltb, none, refl, some, suc, true, zero, ℕ, ◌*◌, ◌+◌, ◌<◌,
  ◌^◌, ◌||◌, ◌∷◌, ◌≡◌, ◌≤◌,
}
use xbdm_gdb_bridge.Expr.Parser.{
  Environment, Parsed, close_group, consume, infix_loop, is_kind, parse_expression,
  parse_identifier, parse_infix, parse_offset, parse_prefix, parse_read, parse_tokens, peek,
  read_behind,
}
use xbdm_gdb_bridge.Expr.Parser.Values.{IsEnvironment, apply_operator-Runs, perform_read-Ensures}
use xbdm_gdb_bridge.Expr.Registers.Bounds.{resolve_register_value-Ensures}
use xbdm_gdb_bridge.Expr.Token.{
  AllFit, Error, Runs, Runs->>=, Runs-Ensures, Runs-if, Runs-imp, Runs-test, Token, TokenType,
  Tokens, at, comma, end_of_file, expected_rbracket, expected_rparen, get_precedence, highest,
  identifier, int, lbracket, lowest, lparen, or, raised, rbracket, register, returned, rparen,
}
use xbdm_gdb_bridge.Types.ThreadContext.{Fits32}

-- The value of a token fits 32 bits, and a parenthesis that opens may make an assertion fail.
abbrev pub IsSound : Type 0 → Token → Type 0
IsSound A t = (t.int_value < 2 ^ 32) × (is_kind t.kind lparen ≡ true → A)

abbrev pub AllSound : Type 0 → Tokens → Type 0
AllSound A [] = Unit {0}
AllSound A (t ∷ ts) = IsSound A t × AllSound A ts

-- A value in range, with fewer than `n` tokens behind it.
abbrev pub Fine : Type 0 → ℕ → Parsed → Type 0
Fine A n (v, ts) = (v < 2 ^ 32) × (length ts < n) × AllSound A ts

consume-AllSound : (A : Type 0) (ts : Tokens) → AllSound A ts → AllSound A (consume ts)
unfolding consume
consume-AllSound A [] h = tt
consume-AllSound A (t ∷ ts) h = h.1

length-consume : (ts : Tokens) → length (consume ts) ≤ length ts
unfolding consume
length-consume [] = omega arith
length-consume (t ∷ ts) = omega arith

peek-IsSound : (A : Type 0) (ts : Tokens) → AllSound A ts → IsSound A (peek ts)
unfolding peek is_kind
peek-IsSound A [] h = (omega arith, λ e. cc)
peek-IsSound A (t ∷ ts) h = h.0

-- With a token that ends nothing in front, `Consume` takes one.
length-consume_lt :
    (ts : Tokens) → is_kind (peek ts).kind end_of_file ≡ false → length (consume ts) < length ts
unfolding consume peek is_kind
length-consume_lt [] h = cc
length-consume_lt (t ∷ ts) h = omega arith

length-consume_kind :
    (ts : Tokens) (kind : TokenType)
    → is_kind (peek ts).kind kind ≡ true
    → is_kind kind end_of_file ≡ false
    → length (consume ts) < length ts
unfolding consume peek is_kind
length-consume_kind [] end_of_file h k = cc
length-consume_kind [] _ h k = cc
length-consume_kind (t ∷ ts) kind h k = omega arith

length-consume_operator :
    (p : ℕ) (ts : Tokens)
    → 1 ≤ p
    → ltb p (get_precedence (peek ts).kind) ≡ true
    → length (consume ts) < length ts
unfolding consume peek get_precedence
length-consume_operator p [] h k = ground arith
length-consume_operator p (t ∷ ts) h k = omega arith

read_behind-Runs :
    (A : Type 0) (n : ℕ) (env : Environment) (close : TokenType) (e : Error) (address size : ℕ)
    (ts : Tokens)
    → IsEnvironment env
    → length ts < n
    → AllSound A ts
    → Runs A (Fine A n) (read_behind env close e address size ts)
unfolding read_behind
read_behind-Runs A n env close e address size ts env_fits h fit =
    Runs-if (is_kind (peek ts).kind close)
      (Runs->>= (Runs-Ensures (perform_read-Ensures env address size env_fits.reader_fits))
        λ v w. returned (w, omega (arith, length-consume ts), consume-AllSound A ts fit))
      raised

close_group-Runs :
    (A : Type 0) (n : ℕ) (p : Parsed) → Fine A n p → Runs A (Fine A n) (close_group p)
unfolding close_group
close_group-Runs A n (v, ts) h =
    Runs-if (is_kind (peek ts).kind rparen)
      (returned (h.0, omega (arith, length-consume ts), consume-AllSound A ts h.2)) raised

parse_identifier-Runs :
    (A : Type 0) (env : Environment) (t : Token) (ts : Tokens) (id : Option ℕ)
    → env.thread_id ≡ id
    → Fits32 id
    → AllSound A ts
    → Runs A (Fine A (suc (length ts))) (parse_identifier env t ts)
unfolding parse_identifier
parse_identifier-Runs A env t ts none e h fit = rw (e, parse_identifier) (Runs-if _ raised raised)
parse_identifier-Runs A env t ts (some id) e h fit =
    rw (e, parse_identifier) (Runs-if _ (returned (h, omega arith, fit)) raised)

Fine-le : (A : Type 0) {m n : ℕ} → m ≤ n → (p : Parsed) → Fine A m p → Fine A n p
Fine-le A h (v, ts) fine = (fine.0, omega arith, fine.2)

get_precedence-pos : (kind : TokenType) → 1 ≤ get_precedence kind
unfolding get_precedence
get_precedence-pos or = omega arith
get_precedence-pos _ = omega arith

above_lowest : (p q : ℕ) → 1 ≤ p → ltb p q ≡ true → ltb lowest q ≡ true
above_lowest p q pos h = ground arith

mutual
  unfolding parse_expression

  parse_expression-Runs :
      (A : Type 0) (f : ℕ) (env : Environment) (p : ℕ) (ts : Tokens)
      → IsEnvironment env
      → 1 ≤ p
      → AllSound A ts
      → 3 * length ts + 1 ≤ f
      → Runs A (Fine A (length ts)) (parse_expression f env p ts)
  parse_expression-Runs A zero env p ts ok_env pos fit h = absurd (omega arith)
  parse_expression-Runs A (suc f) env p ts ok_env pos fit h =
      Runs-test (is_kind (peek ts).kind end_of_file) (λ _. raised)
        λ more.
          let shorter = length-consume_lt ts more in
          Runs->>=
            (parse_prefix-Runs A f env (peek ts).kind (peek ts) (consume ts) ok_env
              (peek-IsSound A ts fit).0 (consume-AllSound A ts fit) (omega arith))
            λ (left, rest) fine.
              Runs-imp (infix_loop-Runs A f env p left rest ok_env pos fine.0 fine.2 (omega arith))
                (Fine-le A (omega arith))

  infix_loop-Runs :
      (A : Type 0) (f : ℕ) (env : Environment) (p left : ℕ) (ts : Tokens)
      → IsEnvironment env
      → 1 ≤ p
      → left < 2 ^ 32
      → AllSound A ts
      → 3 * length ts + 1 ≤ f
      → Runs A (Fine A (suc (length ts))) (infix_loop f env p left ts)
  infix_loop-Runs A zero env p left ts ok_env pos word fit h = absurd (omega arith)
  infix_loop-Runs A (suc f) env p left ts ok_env pos word fit h =
      Runs-test (ltb p (get_precedence (peek ts).kind))
        (λ more.
          let shorter = length-consume_operator p ts pos more in
          Runs->>=
            (parse_infix-Runs A f env (peek ts) left (consume ts) ok_env
              (above_lowest p (get_precedence (peek ts).kind) pos more) (peek-IsSound A ts fit)
              (consume-AllSound A ts fit) (omega arith))
            λ (value, rest) fine.
              Runs-imp (infix_loop-Runs A f env p value rest ok_env pos fine.0 fine.2 (omega arith))
                (Fine-le A (omega arith)))
        (λ _. returned (word, omega arith, fit))

  parse_infix-Runs :
      (A : Type 0) (f : ℕ) (env : Environment) (op : Token) (left : ℕ) (ts : Tokens)
      → IsEnvironment env
      → ltb lowest (get_precedence op.kind) ≡ true
      → IsSound A op
      → AllSound A ts
      → 3 * length ts + 2 ≤ f
      → Runs A (Fine A (suc (length ts))) (parse_infix f env op left ts)
  parse_infix-Runs A zero env op left ts ok_env binds sound fit h = absurd (omega arith)
  parse_infix-Runs A (suc f) env op left ts ok_env binds sound fit h =
      Runs->>=
        (parse_expression-Runs A f env (get_precedence op.kind) ts ok_env
          (get_precedence-pos op.kind) fit (omega arith))
        λ (right, rest) fine.
          Runs->>= (apply_operator-Runs left right op.kind binds sound.1)
            λ value word. returned (word, omega arith, fine.2)

  parse_prefix-Runs :
      (A : Type 0) (f : ℕ) (env : Environment) (kind : TokenType) (t : Token) (ts : Tokens)
      → IsEnvironment env
      → t.int_value < 2 ^ 32
      → AllSound A ts
      → 3 * length ts + 2 ≤ f
      → Runs A (Fine A (suc (length ts))) (parse_prefix f env kind t ts)
  parse_prefix-Runs A zero env kind t ts ok_env word fit h = absurd (omega arith)
  parse_prefix-Runs A (suc f) env int t ts ok_env word fit h = returned (word, omega arith, fit)
  parse_prefix-Runs A (suc f) env identifier t ts ok_env word fit h =
      parse_identifier-Runs A env t ts env.thread_id refl ok_env.thread_fits fit
  parse_prefix-Runs A (suc f) env register t ts ok_env word fit h =
      Runs->>=
        (Runs-Ensures (resolve_register_value-Ensures env.context t.literal ok_env.context_fits))
        λ v w. returned (w, omega arith, fit)
  parse_prefix-Runs A (suc f) env lparen t ts ok_env word fit h =
      Runs->>= (parse_expression-Runs A f env lowest ts ok_env (omega arith) fit (omega arith))
        λ p fine. close_group-Runs A (suc (length ts)) p (Fine-le A (omega arith) p fine)
  parse_prefix-Runs A (suc f) env at t ts ok_env word fit h =
      Runs-test (is_kind (peek ts).kind lparen)
        (λ call_form.
          let shorter = length-consume_kind ts lparen call_form refl in
          Runs-imp
            (parse_read-Runs A f env (consume ts) ok_env (consume-AllSound A ts fit) (omega arith))
            (Fine-le A (omega arith)))
        (λ _.
          Runs->>= (parse_expression-Runs A f env highest ts ok_env (omega arith) fit (omega arith))
            λ (address, rest) fine.
              Runs-imp (parse_offset-Runs A f env address rest ok_env fine.2 (omega arith))
                (Fine-le A (omega arith)))
  parse_prefix-Runs A (suc f) env _ t ts ok_env word fit h = raised

  parse_read-Runs :
      (A : Type 0) (f : ℕ) (env : Environment) (ts : Tokens)
      → IsEnvironment env
      → AllSound A ts
      → 3 * length ts + 2 ≤ f
      → Runs A (Fine A (suc (length ts))) (parse_read f env ts)
  parse_read-Runs A zero env ts ok_env fit h = absurd (omega arith)
  parse_read-Runs A (suc f) env ts ok_env fit h =
      Runs->>= (parse_expression-Runs A f env lowest ts ok_env (omega arith) fit (omega arith))
        λ (address, rest) fine.
          Runs-test (is_kind (peek rest).kind comma)
            (λ sized.
              let shorter = length-consume_kind rest comma sized refl in
              Runs->>=
                (parse_expression-Runs A f env lowest (consume rest) ok_env (omega arith)
                  (consume-AllSound A rest fine.2) (omega arith))
                λ (size, rest') fine'.
                  read_behind-Runs A _ env rparen expected_rparen address size rest' ok_env
                    (omega arith) fine'.2)
            (λ _.
              read_behind-Runs A _ env rparen expected_rparen address 4 rest ok_env (omega arith)
                fine.2)

  parse_offset-Runs :
      (A : Type 0) (f : ℕ) (env : Environment) (address : ℕ) (ts : Tokens)
      → IsEnvironment env
      → AllSound A ts
      → 3 * length ts + 2 ≤ f
      → Runs A (Fine A (suc (length ts))) (parse_offset f env (address, ts))
  parse_offset-Runs A zero env address ts ok_env fit h = absurd (omega arith)
  parse_offset-Runs A (suc f) env address ts ok_env fit h =
      Runs-test (is_kind (peek ts).kind lbracket)
        (λ bracket.
          let shorter = length-consume_kind ts lbracket bracket refl in
          Runs->>=
            (parse_expression-Runs A f env lowest (consume ts) ok_env (omega arith)
              (consume-AllSound A ts fit) (omega arith))
            λ (offset, rest) fine.
              read_behind-Runs A _ env rbracket expected_rbracket _ 4 rest ok_env (omega arith)
                fine.2)
        (λ _.
          Runs->>= (Runs-Ensures (perform_read-Ensures env address 4 ok_env.reader_fits))
            λ v w. returned (w, omega arith, fit))

-- On tokens with 32-bit values the parser ends within its fuel, in an error, in a value that fits
-- 32 bits, or in a failed assertion that a parenthesis allows.
pub parse_tokens-Runs :
    (A : Type 0) (env : Environment) (ts : Tokens)
    → IsEnvironment env
    → AllSound A ts
    → Runs A (λ v. v < 2 ^ 32) (parse_tokens env ts)
unfolding parse_tokens
parse_tokens-Runs A env ts ok_env fit = Runs-if (is_kind (peek ts).kind end_of_file) raised (
    Runs->>=
      (parse_expression-Runs A (3 * length ts + 4) env lowest ts ok_env (omega arith) fit
        (omega arith))
      λ (v, rest) fine. Runs-if (is_kind (peek rest).kind end_of_file) (returned fine.0) raised)

or-true : (b : Bool) → (b || true) ≡ true
or-true true = refl
or-true false = refl

-- Whether a parenthesis opens among the tokens.
abbrev pub has_lparen : Tokens → Bool
has_lparen [] = false
has_lparen (t ∷ ts) = is_kind t.kind lparen || has_lparen ts

pub AllFit-AllSound :
    (A : Type 0) (ts : Tokens) → AllFit ts → (has_lparen ts ≡ true → A) → AllSound A ts
AllFit-AllSound A [] h paren = tt
AllFit-AllSound A (t ∷ ts) h paren = (
  (h.0, λ e. paren (rw e refl)),
  AllFit-AllSound A ts h.1 (λ e. paren (rw e (or-true (is_kind t.kind lparen)))),
)
