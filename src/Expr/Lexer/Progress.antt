-- ===== src/Expr/Lexer/Progress.antt =====
-- The tokenizer ends, the values of its tokens fit 32 bits, and its positions are offsets into the
-- expression.
use native.Mathlib.Nat.{zero-add}
use xbdm_gdb_bridge.Prelude.{
  Bool, Bool-cases, Bytes, Option-cases, [], append_assoc, arith, codes, drop, inl, inr, length,
  refl, same, some, suc, true, zero, ℕ, ◌++◌, ◌+◌, ◌<◌, ◌==◌, ◌^◌, ◌∙◌, ◌∷◌, ◌≡◌, ◌≤◌,
}
use xbdm_gdb_bridge.Cstd.{is_alpha, is_digit, is_space, is_xdigit, lower}
use xbdm_gdb_bridge.Expr.Token.{
  AllFit, Ensures, Ensures->>=, Ensures-if, Ensures-imp, Ensures-test, Result, Token, TokenType,
  Tokens, and, asterisk, at, comma, end_of_file, eq, gt, gte, holds, lbracket, lparen, lt, lte,
  minus, not_eq, ok, or, plus, rbracket, rejected, rparen,
}
use xbdm_gdb_bridge.Expr.Lexer.{
  Lexed, double, hexadecimal_token, identifier_token, is_hexadecimal, lex, lex_hexadecimal,
  lex_identifier, lex_number, lex_operator, lex_register, number_token, register_token, single,
  span, stoul, token, tokenize, tokenize_loop,
}

-- One round at `start` on a text of `n` characters: the token stands at `start`, the text is
-- shorter behind it, and the position has moved by what was taken.
abbrev pub Moves : ℕ → ℕ → Lexed → Type 0
Moves start n (t, j, rest) =
    (t.int_value < 2 ^ 32)
    × (t.start_pos ≡ start)
    × (length rest < n)
    × (j + length rest ≡ start + n)

length-span :
    (test : ℕ → Bool) (cs : Bytes) → length (span test cs).0 + length (span test cs).1 ≡ length cs
unfolding span
length-span test [] = omega arith
length-span test (c ∷ cs) = ground (arith, length-span test cs)

stoul-lt : (base : ℕ) (run : Bytes) {v : ℕ} → stoul base run ≡ some v → v < 2 ^ 32
unfolding stoul
stoul-lt base run h = ground arith

hexadecimal_token-Ensures :
    (start n : ℕ) (run rest : Bytes)
    → length run + length rest ≡ n
    → Ensures (Moves start (suc (suc n))) (hexadecimal_token start run rest)
unfolding hexadecimal_token
hexadecimal_token-Ensures start n [] rest total = rejected
hexadecimal_token-Ensures start n (d ∷ ds) rest total = elim (Option-cases (stoul 16 (d ∷ ds))) [
  | inl big ↦ rw (big, hexadecimal_token) rejected
  | inr (v, value) ↦
      rw (value, hexadecimal_token)
        (holds (stoul-lt 16 (d ∷ ds) value, refl, omega arith, omega arith))
]

number_token-Ensures :
    (start n : ℕ) (run rest : Bytes)
    → length run + length rest ≡ n
    → 1 ≤ length run
    → Ensures (Moves start n) (number_token start run rest)
unfolding number_token
number_token-Ensures start n run rest total some_run = elim (Option-cases (stoul 10 run)) [
  | inl big ↦ rw (big, number_token) rejected
  | inr (v, value) ↦
      rw (value, number_token) (holds (stoul-lt 10 run value, refl, omega arith, omega arith))
]

register_token-Ensures :
    (start n : ℕ) (run rest : Bytes)
    → length run + length rest ≡ n
    → Ensures (Moves start (suc n)) (register_token start run rest)
unfolding register_token
register_token-Ensures start n [] rest total = rejected
register_token-Ensures start n (d ∷ ds) rest total =
    holds (omega arith, refl, omega arith, omega arith)

identifier_token-Ensures :
    (start n : ℕ) (run rest : Bytes)
    → length run + length rest ≡ n
    → 1 ≤ length run
    → Ensures (Moves start n) (identifier_token start run rest)
unfolding identifier_token
identifier_token-Ensures start n run rest total some_run =
    Ensures-if (same (lower run) (codes "tid")) moved (
      Ensures-if (same (lower run) (codes "and")) moved
        (Ensures-if (same (lower run) (codes "or")) moved rejected))
  where
    moved :
        {kind : TokenType}
        → Ensures (Moves start n) (ok (token kind (lower run) 0 start, start + length run, rest))
    moved = holds (omega arith, refl, omega arith, omega arith)

span-starts :
    (test : ℕ → Bool) (c : ℕ) (cs : Bytes) → test c ≡ true → 1 ≤ length (span test (c ∷ cs)).0
unfolding span
span-starts test c cs h = ground arith

single-Ensures :
    (kind : TokenType) (c start : ℕ) (cs : Bytes)
    → Ensures (Moves start (suc (length cs))) (single kind c start cs)
single-Ensures kind c start cs = holds (omega arith, refl, omega arith, omega arith)

double-Ensures :
    (kind : TokenType) (c second start : ℕ) (cs : Bytes) {other : Result Lexed}
    → Ensures (Moves start (suc (length cs))) other
    → Ensures (Moves start (suc (length cs))) (double kind c second start cs other)
double-Ensures kind c second start [] h = h
double-Ensures kind c second start (d ∷ ds) h =
    Ensures-if (d == second) (holds (omega arith, refl, omega arith, omega arith)) h

lex_operator-Ensures :
    (start c : ℕ) (cs : Bytes) → Ensures (Moves start (suc (length cs))) (lex_operator start c cs)
unfolding lex_operator
lex_operator-Ensures start c cs =
    (Ensures-if (c == b'+') (single-Ensures plus c start cs) (
      Ensures-if (c == b'-') (single-Ensures minus c start cs) (
        Ensures-if (c == b'*') (single-Ensures asterisk c start cs) (
          Ensures-if (c == b'(') (single-Ensures lparen c start cs) (
            Ensures-if (c == b')') (single-Ensures rparen c start cs) (
              Ensures-if (c == b'[') (single-Ensures lbracket c start cs) (
                Ensures-if (c == b']') (single-Ensures rbracket c start cs) (
                  Ensures-if (c == b',') (single-Ensures comma c start cs) (
                    Ensures-if (c == b'@') (single-Ensures at c start cs) (
                      Ensures-if (c == b'=') (double-Ensures eq c b'=' start cs rejected) (
                        Ensures-if (c == b'!') (double-Ensures not_eq c b'=' start cs rejected) (
                          Ensures-if (c == b'<')
                            (double-Ensures lte c b'=' start cs (single-Ensures lt c start cs))
                            (Ensures-if (c == b'>')
                              (double-Ensures gte c b'=' start cs (single-Ensures gt c start cs))
                              (Ensures-if (c == b'&') (double-Ensures and c b'&' start cs rejected)
                                (Ensures-if (c == b'|') (double-Ensures or c b'|' start cs rejected)
                                  rejected)))))))))))))))

lex_hexadecimal-Ensures :
    (start c : ℕ) (cs : Bytes)
    → is_hexadecimal c cs ≡ true
    → Ensures (Moves start (suc (length cs))) (lex_hexadecimal start (drop 1 cs))
unfolding lex_hexadecimal is_hexadecimal
lex_hexadecimal-Ensures start c [] h = cc
lex_hexadecimal-Ensures start c (x ∷ cs) h =
    hexadecimal_token-Ensures start (length cs) (span is_xdigit cs).0 (span is_xdigit cs).1
      (length-span is_xdigit cs)

-- A round on any character ends, and moves.
pub lex-Ensures :
    (start c : ℕ) (cs : Bytes) → Ensures (Moves start (suc (length cs))) (lex start c cs)
unfolding lex lex_number lex_register lex_identifier
lex-Ensures start c cs =
    Ensures-test (is_hexadecimal c cs) (lex_hexadecimal-Ensures start c cs) λ _.
      Ensures-test (is_digit c)
        (λ digit.
          number_token-Ensures start (suc (length cs)) (span is_digit (c ∷ cs)).0
            (span is_digit (c ∷ cs)).1 (length-span is_digit (c ∷ cs))
            (span-starts is_digit c cs digit))
        λ _.
          Ensures-test (c == b'$')
            (λ _.
              register_token-Ensures start (length cs) (span is_alpha cs).0 (span is_alpha cs).1
                (length-span is_alpha cs))
            λ _.
              Ensures-test (is_alpha c)
                (λ letter.
                  identifier_token-Ensures start (suc (length cs)) (span is_alpha (c ∷ cs)).0
                    (span is_alpha (c ∷ cs)).1 (length-span is_alpha (c ∷ cs))
                    (span-starts is_alpha c cs letter))
                λ _. lex_operator-Ensures start c cs

-- The tokens stand at increasing offsets, from `lo` on and up to `hi`.
abbrev pub Positions : ℕ → ℕ → Tokens → Type 0
Positions lo hi [] = Unit {0}
Positions lo hi (t ∷ ts) =
    (lo ≤ t.start_pos) × (t.start_pos ≤ hi) × Positions (suc t.start_pos) hi ts

Positions-le : (lo lo' hi : ℕ) (ts : Tokens) → lo' ≤ lo → Positions lo hi ts → Positions lo' hi ts
Positions-le lo lo' hi [] h p = tt
Positions-le lo lo' hi (t ∷ ts) h p = (omega arith, p.1, p.2)

-- What the loop adds to `tokens`, at position `i` with `n` characters left.
abbrev Adds : Tokens → ℕ → ℕ → Tokens → Type 0
Adds tokens i n result =
    (new : Tokens) × (result ≡ tokens ++ new) × AllFit new × Positions i (i + n) new

Adds-next :
    (tokens : Tokens) (i n j m : ℕ) (t : Token) (result : Tokens)
    → (t.int_value < 2 ^ 32) × (t.start_pos ≡ i) × (suc i ≤ j) × (j + m ≡ i + n)
    → Adds (tokens ++ t ∷ []) j m result
    → Adds tokens i n result
Adds-next tokens i n j m t result h (new, e, fit, order) = (
  t ∷ new,
  e ∙ append_assoc tokens (t ∷ []) new,
  (h.0, fit),
  (
    omega arith,
    omega arith,
    Positions-le j (suc t.start_pos) (i + n) new (omega arith) (rw h.3 at order),
  ),
)

Adds-space :
    (tokens : Tokens) (i n : ℕ) (result : Tokens)
    → Adds tokens (i + 1) n result
    → Adds tokens i (suc n) result
Adds-space tokens i n result (new, e, fit, order) =
    let moved : i + 1 + n ≡ i + suc n = omega arith in
    (new, e, fit, Positions-le (i + 1) i (i + suc n) new (omega arith) (rw moved at order))

tokenize_loop-Ensures :
    (fuel i : ℕ) (text : Bytes) (tokens : Tokens)
    → length text < fuel
    → Ensures (Adds tokens i (length text)) (tokenize_loop fuel i text tokens)
unfolding tokenize_loop
tokenize_loop-Ensures zero i text tokens h = absurd (omega arith)
tokenize_loop-Ensures (suc fuel) i [] tokens h =
    holds (token end_of_file [] 0 i ∷ [], refl, (omega arith, tt), (omega arith, omega arith, tt))
tokenize_loop-Ensures (suc fuel) i (c ∷ cs) tokens h = elim (Bool-cases (is_space c)) [
  | inl space ↦
      rw (space, tokenize_loop)
        (Ensures-imp (tokenize_loop-Ensures fuel (i + 1) cs tokens (omega arith))
          (Adds-space tokens i (length cs)))
  | inr solid ↦
      rw (solid, tokenize_loop)
        (Ensures->>= (lex-Ensures i c cs) λ (t, j, rest) moves.
          Ensures-imp (tokenize_loop-Ensures fuel j rest (tokens ++ t ∷ []) (omega arith)) λ result.
            Adds-next tokens i (suc (length cs)) j (length rest) t result
              (moves.0, moves.1, omega arith, moves.3))
]

-- On every text the tokenizer ends; its tokens hold 32-bit values, and stand at increasing offsets
-- of the text, the end of it included.
pub tokenize-Ensures :
    (expr : Bytes) → Ensures (λ ts. AllFit ts × Positions 0 (length expr) ts) (tokenize expr)
unfolding tokenize
tokenize-Ensures expr =
    Ensures-imp (tokenize_loop-Ensures (length expr + 1) 0 expr [] (omega arith))
      λ result (new, e, fit, order). rw e (fit, rw zero-add at order)
