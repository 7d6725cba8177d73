-- ===== src/Expr/Parser/Grammar/Correct.antt =====
-- The parser computes the value of every tree that fits, from its tokens.
use xbdm_gdb_bridge.Prelude.{
  [], append_assoc, arith, false, length, length-append, ltb, refl, suc, sym, true, zero, ℕ, ◌*◌,
  ◌++◌, ◌+◌, ◌-◌, ◌<◌, ◌∙◌, ◌∷◌, ◌≡◌, ◌≤◌,
}
use xbdm_gdb_bridge.Expr.Token.{
  assertion_failed, Result, err, out_of_fuel, or, and, eq, not_eq, lt, gt, lte, gte, plus, minus,
  asterisk, Result, TokenType, Tokens, at, comma, end_of_file, get_precedence, highest, lbracket,
  lowest, lparen, ok, rbracket, rparen, ◌>>=◌,
}
use xbdm_gdb_bridge.Expr.Parser.{
  parse_tokens, Environment, apply_operator, infix_loop, is_kind, parse_infix, peek,
}
use xbdm_gdb_bridge.Expr.Parser.Grammar.{
  Expr, Fits, Place, binary, eval, group, leaf, leaf_token, leaf_value, mark, print, read,
  read_leaf, read_offset, read_sized,
}
use xbdm_gdb_bridge.Expr.Parser.Grammar.Forms.{
  group_prefix, leaf_prefix, offset_prefix, read_prefix, sized_prefix,
}
use xbdm_gdb_bridge.Expr.Parser.Grammar.Reads.{
  Follows, Reads, bind-cong, bind_assoc, leaf_not_end, leaf_reads, need, operand, prefix_reads,
  spine, weight,
}

infix_operation :
    (env : Environment) (r : Expr)
    → Reads env r
    → (kind : TokenType) (place : Place) (m f a : ℕ) (rest : Tokens) → m < get_precedence kind
    → Fits (get_precedence kind) r
    → Follows m rest
    → need r < f
    → parse_infix f env (mark kind place) a (print r ++ rest)
      ≡ ((eval env r >>= λ b. apply_operator a b kind) >>= λ v. ok (v, rest))
unfolding parse_infix
infix_operation env r reads kind place m zero a rest tight fits follows h = absurd (omega arith)
infix_operation env r reads kind place m (suc f) a rest tight fits follows h =
    rw (operand env r reads (get_precedence kind) f rest fits (omega arith) follows.1 (omega arith))
      (bind_assoc (eval env r) (λ v. ok (v, rest)) _ ∙ sym (bind_assoc (eval env r) _ _))

-- One operator and its right operand, behind a left operand.
infix-Reads :
    (env : Environment) (r : Expr)
    → Reads env r
    → (kind : TokenType) (place : Place) (m p f a : ℕ) (rest : Tokens) → m < get_precedence kind
    → Fits (get_precedence kind) r
    → p ≤ m
    → Follows m rest
    → need r < f
    → infix_loop (suc f) env p a (mark kind place ∷ (print r ++ rest))
      ≡ ((eval env r >>= λ b. apply_operator a b kind) >>= λ v. infix_loop f env p v rest)
unfolding infix_loop
infix-Reads env r reads kind place m p f a rest tight fits le follows h =
    let enters : ltb p (get_precedence kind) ≡ true = ground arith in
    rw (enters, operation)
      (bind_assoc (eval env r >>= λ b. apply_operator a b kind) (λ v. ok (v, rest))
        (λ q. infix_loop f env p q.0 q.1))
  where
    operation :
        parse_infix f env (mark kind place) a (print r ++ rest)
        ≡ ((eval env r >>= λ b. apply_operator a b kind) >>= λ v. ok (v, rest))
    operation = infix_operation env r reads kind place m f a rest tight fits follows h

-- No operator is a bracket.
operator_not_lbracket :
    (kind : TokenType) → lowest < get_precedence kind → is_kind kind lbracket ≡ false
unfolding get_precedence is_kind
operator_not_lbracket lbracket h = absurd (omega arith)
operator_not_lbracket end_of_file h = refl
operator_not_lbracket lparen h = refl
operator_not_lbracket rparen h = refl
operator_not_lbracket comma h = refl
operator_not_lbracket _ h = refl

binary-Reads :
    (env : Environment) (l r : Expr) (kind : TokenType) (place : Place)
    → Reads env l
    → Reads env r
    → Reads env (binary l kind place r)
unfolding print eval spine weight Fits peek
binary-Reads env l r kind place reads_l reads_r m p f rest (tight, pos, bound, left, right) le
      follows h =
    let split : suc (spine l) + f ≡ spine l + suc f = omega arith in
    rw (split, append_assoc (print l) (mark kind place ∷ print r) rest)
      (reads_l (get_precedence kind - 1) p (suc f) (mark kind place ∷ (print r ++ rest)) left
          (omega arith) (omega arith, operator_not_lbracket kind pos) (omega arith)
        ∙ bind-cong (eval env l) (λ a.
          infix-Reads env r reads_r kind place m p f a rest tight right le follows (omega arith))
        ∙ sym (bind_assoc (eval env l) _ _))

precedence-le : (kind : TokenType) → get_precedence kind ≤ highest
unfolding get_precedence
precedence-le or = omega arith
precedence-le and = omega arith
precedence-le eq = omega arith
precedence-le not_eq = omega arith
precedence-le lt = omega arith
precedence-le gt = omega arith
precedence-le lte = omega arith
precedence-le gte = omega arith
precedence-le plus = omega arith
precedence-le minus = omega arith
precedence-le asterisk = omega arith
precedence-le lparen = omega arith
precedence-le _ = omega arith

reads : (env : Environment) (e : Expr) → Reads env e
unfolding print eval spine weight Fits is_kind
reads env (leaf l) m p zero rest fits le follows h = absurd (omega arith)
reads env (leaf l) m p (suc f) rest fits le follows h =
    let split : spine (leaf l) + suc f ≡ suc (suc f) = omega arith in
    rw split (
      prefix_reads (suc f) env p (leaf_token l) rest rest (leaf_value env l) (leaf_not_end l)
        (leaf_reads f env l rest))
reads env (group o e c) m p f rest fits le follows h =
    let split : spine (group o e c) + f ≡ suc f = omega arith in
    rw split (
      prefix_reads f env p (mark lparen o) _ rest (eval env e) refl
        (group_prefix env e (reads env e) f (mark lparen o) c rest fits (omega arith)))
reads env (binary l kind place r) m p f rest fits le follows h =
    binary-Reads env l r kind place (reads env l) (reads env r) m p f rest fits le follows h
reads env (read a o e c) m p f rest fits le follows h =
    let split : spine (read a o e c) + f ≡ suc f = omega arith in
    rw split (
      prefix_reads f env p (mark at a) _ rest _ refl
        (read_prefix env e (reads env e) f (mark at a) o c rest fits (omega arith)))
reads env (read_sized a o e k s c) m p f rest (fits, fits_size) le follows h =
    let split : spine (read_sized a o e k s c) + f ≡ suc f = omega arith in
    rw split (
      prefix_reads f env p (mark at a) _ rest _ refl (
        sized_prefix env e s (reads env e) (reads env s) f (mark at a) o k c rest fits fits_size
          (omega arith)))
reads env (read_leaf a l) m p f rest fits le follows h =
    let split : spine (read_leaf a l) + f ≡ suc f = omega arith in
    rw split (
      prefix_reads f env p (mark at a) _ rest _ refl (
        leaf_prefix env l f (mark at a) rest (precedence-le (peek rest).kind) follows.1
          (omega arith)))
reads env (read_offset a l o e c) m p f rest fits le follows h =
    let split : spine (read_offset a l o e c) + f ≡ suc f = omega arith in
    rw split (
      prefix_reads f env p (mark at a) _ rest _ refl
        (offset_prefix env l e (reads env e) f (mark at a) o c rest fits (omega arith)))

need-le : (e : Expr) → need e ≤ 3 * length (print e)
unfolding spine weight print
need-le (leaf l) = omega arith
need-le (group o e c) =
    let whole = need-le e in rw (length-append (print e) (mark rparen c ∷ [])) (omega arith)
need-le (binary l kind place r) =
    let left = need-le l in
    let right = need-le r in rw (length-append (print l) (mark kind place ∷ print r)) (omega arith)
need-le (read a o e c) =
    let whole = need-le e in rw (length-append (print e) (mark rparen c ∷ [])) (omega arith)
need-le (read_sized a o e k s c) =
    let whole = need-le e in
    let size = need-le s in
    rw
      (
        length-append (print e) (mark comma k ∷ (print s ++ mark rparen c ∷ [])),
        length-append (print s) (mark rparen c ∷ []),
      )
      (omega arith)
need-le (read_leaf a l) = omega arith
need-le (read_offset a l o e c) =
    let whole = need-le e in rw (length-append (print e) (mark rbracket c ∷ [])) (omega arith)

-- The first token of a tree is not the end.
first_not_end :
    (e : Expr) (rest : Tokens) → is_kind (peek (print e ++ rest)).kind end_of_file ≡ false
unfolding print peek is_kind
first_not_end (leaf l) rest = leaf_not_end l
first_not_end (group o e c) rest = refl
first_not_end (binary l kind place r) rest =
    rw (append_assoc (print l) (mark kind place ∷ print r) rest)
      (first_not_end l (mark kind place ∷ (print r ++ rest)))
first_not_end (read a o e c) rest = refl
first_not_end (read_sized a o e k s c) rest = refl
first_not_end (read_leaf a l) rest = refl
first_not_end (read_offset a l o e c) rest = refl

bind_ok : {A : Type 0} (r : Result A) → (r >>= ok) ≡ r
bind_ok (ok a) = refl
bind_ok (err _) = refl
bind_ok out_of_fuel = refl
bind_ok assertion_failed = refl

-- Parsing the tokens of a tree of numbers, registers, `tid`, groups, memory reads and binary
-- operators whose nesting respects the precedences (`Fits lowest`), followed by the end-of-file
-- token, gives the value of the tree, or the error of evaluating it from left to right.
pub parse_tokens-print :
    (env : Environment) (e : Expr) (last : Place)
    → Fits lowest e
    → parse_tokens env (print e ++ mark end_of_file last ∷ []) ≡ eval env e
unfolding parse_tokens peek is_kind get_precedence
parse_tokens-print env e last fits =
    let ts = print e ++ mark end_of_file last ∷ [] in
    let fuel : need e ≤ 3 * length ts + 4 =
      rw (length-append (print e) (mark end_of_file last ∷ [])) (omega (arith, need-le e)) in
    rw
      (
        first_not_end e (mark end_of_file last ∷ []),
        operand env e (reads env e) lowest (3 * length ts + 4) (mark end_of_file last ∷ []) fits
            (omega arith) refl fuel,
      )
      (bind_assoc (eval env e) _ _ ∙ bind_ok (eval env e))
