-- ===== src/Expr/Parser/Grammar/Forms.antt =====
-- The parser on each form of a tree behind its first token: groups and memory reads.
use xbdm_gdb_bridge.Prelude.{
  [], append_assoc, arith, false, refl, suc, sym, true, zero, ℕ, ◌%◌, ◌++◌, ◌+◌, ◌-◌, ◌<◌, ◌^◌, ◌∙◌,
  ◌∷◌, ◌≡◌, ◌≤◌,
}
use xbdm_gdb_bridge.Expr.Token.{
  Error, Result, Token, TokenType, Tokens, at, comma, expected_rbracket, expected_rparen,
  get_precedence, highest, lbracket, lowest, lparen, ok, rbracket, rparen, ◌>>=◌,
}
use xbdm_gdb_bridge.Expr.Parser.{
  Environment, close_group, is_kind, parse_expression, parse_offset, parse_prefix, parse_read, peek,
  perform_read, read_behind,
}
use xbdm_gdb_bridge.Expr.Parser.Grammar.{
  Expr, Fits, Leaf, Place, eval, leaf_token, leaf_value, mark, name, number, print, thread,
}
use xbdm_gdb_bridge.Expr.Parser.Grammar.Reads.{
  Reads, bind-cong, bind_assoc, infix_loop_stops, leaf_not_end, leaf_reads, need, operand,
  prefix_reads,
}

close_group-rparen :
    (v : ℕ) (c : Place) (rest : Tokens) → close_group (v, mark rparen c ∷ rest) ≡ ok (v, rest)
unfolding close_group
close_group-rparen v c rest = refl

read_behind-close :
    (env : Environment) (close : TokenType) (e : Error) (address size : ℕ) (c : Place)
    (rest : Tokens)
    → is_kind close close ≡ true
    → read_behind env close e address size (mark close c ∷ rest)
      ≡ (perform_read env address size >>= λ v. ok (v, rest))
unfolding read_behind
read_behind-close env close e address size c rest h = rw h

-- Off the left edge: an expression between its opening token and a closing one.
inner :
    (env : Environment) (e : Expr)
    → Reads env e
    → (f : ℕ) (close : TokenType) (c : Place) (tail rest : Tokens) → Fits lowest e
    → get_precedence close ≤ lowest
    → is_kind close lbracket ≡ false
    → need e ≤ f
    → parse_expression f env lowest ((print e ++ mark close c ∷ tail) ++ rest)
      ≡ (eval env e >>= λ v. ok (v, mark close c ∷ (tail ++ rest)))
unfolding peek
inner env e reads f close c tail rest fits loose other h =
    rw (append_assoc (print e) (mark close c ∷ tail) rest)
      (operand env e reads lowest f (mark close c ∷ (tail ++ rest)) fits loose other h)

-- What `ParsePrefix` makes of each form behind its first token.
abbrev pub Prefix : Environment → ℕ → TokenType → Token → Tokens → Tokens → Result ℕ → Type 0
Prefix env f kind t ts rest r = parse_prefix f env kind t (ts ++ rest) ≡ (r >>= λ v. ok (v, rest))

pub group_prefix :
    (env : Environment) (e : Expr)
    → Reads env e
    → (f : ℕ) (t : Token) (c : Place) (rest : Tokens) → Fits lowest e
    → need e < f
    → Prefix env f lparen t (print e ++ mark rparen c ∷ []) rest (eval env e)
unfolding parse_prefix
group_prefix env e reads zero t c rest fits h = absurd (omega arith)
group_prefix env e reads (suc f) t c rest fits h =
    rw (inner env e reads f rparen c [] rest fits (omega arith) refl (omega arith)) (
      bind_assoc (eval env e) (λ v. ok (v, mark rparen c ∷ rest)) close_group
      ∙ bind-cong (eval env e) (λ v. close_group-rparen v c rest))

pub read_prefix :
    (env : Environment) (e : Expr)
    → Reads env e
    → (f : ℕ) (t : Token) (o c : Place) (rest : Tokens) → Fits lowest e
    → need e + 1 < f
    → Prefix env f at t
        (mark lparen o ∷ (print e ++ mark rparen c ∷ []))
        rest
        (eval env e >>= λ address. perform_read env address 4)
unfolding parse_prefix parse_read
read_prefix env e reads zero t o c rest fits h = absurd (omega arith)
read_prefix env e reads (suc zero) t o c rest fits h = absurd (omega arith)
read_prefix env e reads (suc (suc f)) t o c rest fits h =
    rw (inner env e reads f rparen c [] rest fits (omega arith) refl (omega arith)) (
      bind_assoc (eval env e) (λ v. ok (v, mark rparen c ∷ rest)) _
      ∙ bind-cong (eval env e) (λ a. read_behind-close env rparen expected_rparen a 4 c rest refl)
      ∙ sym (bind_assoc (eval env e) _ _))

-- The size of a sized read, behind the comma.
size-Reads :
    (env : Environment) (s : Expr)
    → Reads env s
    → (f address : ℕ) (c : Place) (rest : Tokens) → Fits lowest s
    → need s ≤ f
    → (parse_expression f env lowest ((print s ++ mark rparen c ∷ []) ++ rest) >>= λ (size, rest').
        read_behind env rparen expected_rparen address size rest')
      ≡ ((eval env s >>= λ size. perform_read env address size) >>= λ v. ok (v, rest))
unfolding get_precedence is_kind
size-Reads env s reads f address c rest fits h =
    rw (inner env s reads f rparen c [] rest fits (omega arith) refl h) (
      bind_assoc (eval env s) (λ v. ok (v, mark rparen c ∷ rest)) _
      ∙ bind-cong (eval env s)
          (λ size. read_behind-close env rparen expected_rparen address size c rest refl)
      ∙ sym (bind_assoc (eval env s) _ _))

pub sized_prefix :
    (env : Environment) (e s : Expr)
    → Reads env e
    → Reads env s
    → (f : ℕ) (t : Token) (o k c : Place) (rest : Tokens) → Fits lowest e
    → Fits lowest s
    → need e + need s + 1 < f
    → Prefix env f at t
        (mark lparen o ∷ (print e ++ mark comma k ∷ (print s ++ mark rparen c ∷ [])))
        rest
        (eval env e >>= λ address. eval env s >>= λ size. perform_read env address size)
unfolding parse_prefix parse_read
sized_prefix env e s reads reads_size zero t o k c rest fits fits_size h = absurd (omega arith)
sized_prefix env e s reads reads_size (suc zero) t o k c rest fits fits_size h =
    absurd (omega arith)
sized_prefix env e s reads reads_size (suc (suc f)) t o k c rest fits fits_size h =
    let tail = print s ++ mark rparen c ∷ [] in
    rw (inner env e reads f comma k tail rest fits (omega arith) refl (omega arith)) (
      bind_assoc (eval env e) (λ v. ok (v, mark comma k ∷ (tail ++ rest))) _
      ∙ bind-cong (eval env e)
          (λ address. size-Reads env s reads_size f address c rest fits_size (omega arith))
      ∙ sym (bind_assoc (eval env e) _ _))

-- The address of `@addr`.
leaf_operand :
    (env : Environment) (l : Leaf) (f : ℕ) (rest : Tokens)
    → get_precedence (peek rest).kind ≤ highest
    → parse_expression (suc (suc f)) env highest (leaf_token l ∷ rest)
      ≡ (leaf_value env l >>= λ v. ok (v, rest))
leaf_operand env l f rest loose =
    prefix_reads (suc f) env highest (leaf_token l) rest rest (leaf_value env l) (leaf_not_end l)
      (leaf_reads f env l rest)
    ∙ bind-cong (leaf_value env l) (λ v. infix_loop_stops f env highest v rest loose)

leaf_not_lparen : (l : Leaf) → is_kind (leaf_token l).kind lparen ≡ false
unfolding is_kind
leaf_not_lparen (number place v) = refl
leaf_not_lparen (thread pos) = refl
leaf_not_lparen (name place) = refl

-- `@addr`, up to what may follow it.
bare_prefix :
    (env : Environment) (l : Leaf) (f : ℕ) (t : Token) (rest : Tokens)
    → get_precedence (peek rest).kind ≤ highest
    → parse_prefix (suc (suc (suc f))) env at t (leaf_token l ∷ rest)
      ≡ (leaf_value env l >>= λ address. parse_offset (suc (suc f)) env (address, rest))
unfolding parse_prefix
bare_prefix env l f t rest loose =
    rw (leaf_not_lparen l, leaf_operand env l f rest loose)
      (bind_assoc (leaf_value env l) (λ v. ok (v, rest)) (parse_offset (suc (suc f)) env))

pub leaf_prefix :
    (env : Environment) (l : Leaf) (f : ℕ) (t : Token) (rest : Tokens)
    → get_precedence (peek rest).kind ≤ highest
    → is_kind (peek rest).kind lbracket ≡ false
    → 2 < f
    → Prefix env f at t
        (leaf_token l ∷ [])
        rest
        (leaf_value env l >>= λ address. perform_read env address 4)
unfolding parse_offset
leaf_prefix env l f t rest loose other h =
    let split : f ≡ suc (suc (suc (f - 3))) = omega arith in
    rw split (
      bare_prefix env l (f - 3) t rest loose
      ∙ bind-cong (leaf_value env l) (λ address. rw other)
      ∙ sym (bind_assoc (leaf_value env l) _ _))

pub offset_prefix :
    (env : Environment) (l : Leaf) (e : Expr)
    → Reads env e
    → (f : ℕ) (t : Token) (o c : Place) (rest : Tokens) → Fits lowest e
    → need e + 3 < f
    → Prefix env f at t (leaf_token l ∷ mark lbracket o ∷ (print e ++ mark rbracket c ∷ [])) rest (
        leaf_value env l >>= λ address.
        eval env e >>= λ offset. perform_read env ((address + offset) % 2 ^ 32) 4)
unfolding parse_offset
offset_prefix env l e reads f t o c rest fits h =
    let split : f ≡ suc (suc (suc (f - 3))) = omega arith in
    rw split (
      bare_prefix env l (f - 3) t (mark lbracket o ∷ ((print e ++ mark rbracket c ∷ []) ++ rest))
        (omega arith)
      ∙ bind-cong (leaf_value env l) bracket
      ∙ sym (bind_assoc (leaf_value env l) _ _))
  where
    bracket :
        (address : ℕ)
        → parse_offset
            (suc (suc (f - 3)))
            env
            (address, mark lbracket o ∷ ((print e ++ mark rbracket c ∷ []) ++ rest))
          ≡ ((eval env e >>= λ offset. perform_read env ((address + offset) % 2 ^ 32) 4) >>= λ v.
              ok (v, rest))
    bracket address =
        rw
          (inner env e reads (suc (f - 3)) rbracket c [] rest fits (omega arith) refl (omega arith))
          (bind_assoc (eval env e) (λ v. ok (v, mark rbracket c ∷ rest)) _
            ∙ bind-cong (eval env e) (λ offset.
              read_behind-close env rbracket expected_rbracket ((address + offset) % 2 ^ 32) 4 c
                rest refl)
            ∙ sym (bind_assoc (eval env e) _ _))
