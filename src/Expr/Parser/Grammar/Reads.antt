-- ===== src/Expr/Parser/Grammar/Reads.antt =====
-- The parser on the tokens of a tree that fits.
use xbdm_gdb_bridge.Prelude.{arith, false, ltb, refl, suc, ℕ, ◌++◌, ◌+◌, ◌-◌, ◌∙◌, ◌∷◌, ◌≡◌, ◌≤◌}
use xbdm_gdb_bridge.Expr.Token.{
  assertion_failed, Result, Token, Tokens, end_of_file, err, get_precedence, lbracket, ok,
  out_of_fuel, ◌>>=◌,
}
use xbdm_gdb_bridge.Expr.Parser.{
  Environment, infix_loop, is_kind, parse_expression, parse_prefix, peek,
}
use xbdm_gdb_bridge.Expr.Parser.Grammar.{
  Expr, Fits, Leaf, binary, eval, group, leaf, leaf_token, leaf_value, name, number, print, read,
  read_leaf, read_offset, read_sized, thread,
}

-- The calls that a tree costs along its left edge, and the fuel that the calls off it need.
unfoldable pub spine : Expr → ℕ
spine (binary l kind place r) = suc (spine l)
spine _ = 1

unfoldable pub weight : Expr → ℕ
weight (leaf l) = 1
weight (group o e c) = spine e + weight e + 2
weight (binary l kind place r) = weight l + (spine r + weight r) + 2
weight (read a o e c) = spine e + weight e + 3
weight (read_sized a o e k s c) = spine e + weight e + (spine s + weight s) + 4
weight (read_leaf a l) = 4
weight (read_offset a l o e c) = spine e + weight e + 6

-- Fuel for a tree as an operand.
abbrev pub need : Expr → ℕ
need e = spine e + weight e + 1

-- What may stand behind a tree whose operators bind tighter than `m`.
abbrev pub Follows : ℕ → Tokens → Type 0
Follows m rest =
    (get_precedence (peek rest).kind ≤ suc m) × (is_kind (peek rest).kind lbracket ≡ false)

-- The parser reads the tree off the front, and goes on with its loop behind it.
abbrev pub Reads : Environment → Expr → Type 0
Reads env e =
    (m p f : ℕ) (rest : Tokens)
    → Fits m e
    → p ≤ m
    → Follows m rest
    → weight e ≤ f
    → parse_expression (spine e + f) env p (print e ++ rest)
      ≡ (eval env e >>= λ v. infix_loop f env p v rest)

pub infix_loop_stops :
    (f : ℕ) (env : Environment) (p v : ℕ) (rest : Tokens)
    → get_precedence (peek rest).kind ≤ p
    → infix_loop (suc f) env p v rest ≡ ok (v, rest)
unfolding infix_loop
infix_loop_stops f env p v rest h =
    let loose : ltb p (get_precedence (peek rest).kind) ≡ false = ground arith in rw loose

pub bind-cong :
    {A B : Type 0} (r : Result A) {g h : A → Result B}
    → ((a : A) → g a ≡ h a)
    → (r >>= g) ≡ (r >>= h)
bind-cong (ok a) e = e a
bind-cong (err _) e = refl
bind-cong out_of_fuel e = refl
bind-cong assertion_failed e = refl

pub bind_assoc :
    {A B C : Type 0} (r : Result A) (g : A → Result B) (h : B → Result C)
    → ((r >>= g) >>= h) ≡ (r >>= λ a. g a >>= h)
bind_assoc (ok a) g h = refl
bind_assoc (err _) g h = refl
bind_assoc out_of_fuel g h = refl
bind_assoc assertion_failed g h = refl

-- A tree as an operand: the loop behind it stops at once.
pub operand :
    (env : Environment) (e : Expr)
    → Reads env e
    → (p f : ℕ) (rest : Tokens) → Fits p e
    → get_precedence (peek rest).kind ≤ p
    → is_kind (peek rest).kind lbracket ≡ false
    → need e ≤ f
    → parse_expression f env p (print e ++ rest) ≡ (eval env e >>= λ v. ok (v, rest))
operand env e reads p f rest fits loose other h =
    let split : f ≡ spine e + suc (f - spine e - 1) = omega arith in
    rw split (
      reads p p (suc (f - spine e - 1)) rest fits (omega arith) (omega arith, other) (omega arith)
      ∙ bind-cong (eval env e) (λ v. infix_loop_stops (f - spine e - 1) env p v rest loose))

-- A tree that `ParsePrefix` reads whole.
pub prefix_reads :
    (f : ℕ) (env : Environment) (p : ℕ) (t : Token) (ts rest : Tokens) (r : Result ℕ)
    → is_kind t.kind end_of_file ≡ false
    → parse_prefix f env t.kind t ts ≡ (r >>= λ v. ok (v, rest))
    → parse_expression (suc f) env p (t ∷ ts) ≡ (r >>= λ v. infix_loop f env p v rest)
unfolding parse_expression
prefix_reads f env p t ts rest r more e =
    rw (more, e) (bind_assoc r (λ v. ok (v, rest)) (λ q. infix_loop f env p q.0 q.1))

pub leaf_reads :
    (f : ℕ) (env : Environment) (l : Leaf) (rest : Tokens)
    → parse_prefix (suc f) env (leaf_token l).kind (leaf_token l) rest
      ≡ (leaf_value env l >>= λ v. ok (v, rest))
unfolding parse_prefix leaf_value
leaf_reads f env (number place v) rest = refl
leaf_reads f env (thread pos) rest = ground arith
leaf_reads f env (name place) rest = refl

pub leaf_not_end : (l : Leaf) → is_kind (leaf_token l).kind end_of_file ≡ false
unfolding is_kind
leaf_not_end (number place v) = refl
leaf_not_end (thread pos) = refl
leaf_not_end (name place) = refl
