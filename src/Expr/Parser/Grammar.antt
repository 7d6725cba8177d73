-- ===== src/Expr/Parser/Grammar.antt =====
-- The language of the parser: expression trees, their values, and their tokens. A tree whose
-- operators bind as `Fits` says is read back by the parser as that tree.
pub mod Reads
pub mod Forms
pub mod Correct
use xbdm_gdb_bridge.Prelude.{
  Bytes, [], codes, none, some, ℕ, ◌%◌, ◌++◌, ◌+◌, ◌-◌, ◌<◌, ◌^◌, ◌∷◌, ◌≤◌,
}
use xbdm_gdb_bridge.Expr.Token.{
  Result, Token, TokenType, Tokens, at, comma, err, get_precedence, identifier, int, lbracket,
  lowest, lparen, ok, product, rbracket, register, rparen, tid_unavailable, ◌>>=◌,
}
use xbdm_gdb_bridge.Expr.Registers.{resolve_register_value}
use xbdm_gdb_bridge.Expr.Lexer.{token}
use xbdm_gdb_bridge.Expr.Parser.{Environment, apply_operator, perform_read}

-- What a token holds beside its kind and value: its literal and its position.
abbrev pub Place : Type 0
Place = Bytes × ℕ

abbrev pub mark : TokenType → Place → Token
mark kind place = token kind place.0 0 place.1

pub data Leaf : Type 0 where
  number : Place → ℕ → Leaf
  thread : ℕ → Leaf
  name : Place → Leaf

pub data Expr : Type 0 where
  leaf : Leaf → Expr
  group : Place → Expr → Place → Expr
  binary : Expr → TokenType → Place → Expr → Expr
  read : Place → Place → Expr → Place → Expr
  read_sized : Place → Place → Expr → Place → Expr → Place → Expr
  read_leaf : Place → Leaf → Expr
  read_offset : Place → Leaf → Place → Expr → Place → Expr

abbrev pub leaf_token : Leaf → Token
leaf_token (number place v) = token int place.0 v place.1
leaf_token (thread pos) = token identifier (codes "tid") 0 pos
leaf_token (name place) = mark register place

unfoldable pub leaf_value : Environment → Leaf → Result ℕ
leaf_value env (number place v) = ok v
leaf_value env (thread pos) = elim env.thread_id [ none ↦ err tid_unavailable | some id ↦ ok id ]
leaf_value env (name place) = resolve_register_value env.context place.0

-- The tokens of a tree.
unfoldable pub print : Expr → Tokens
print (leaf l) = leaf_token l ∷ []
print (group o e c) = mark lparen o ∷ (print e ++ mark rparen c ∷ [])
print (binary l kind place r) = print l ++ mark kind place ∷ print r
print (read a o e c) = mark at a ∷ mark lparen o ∷ (print e ++ mark rparen c ∷ [])
print (read_sized a o e k s c) =
    mark at a ∷ mark lparen o ∷ (print e ++ mark comma k ∷ (print s ++ mark rparen c ∷ []))
print (read_leaf a l) = mark at a ∷ leaf_token l ∷ []
print (read_offset a l o e c) =
    mark at a ∷ leaf_token l ∷ mark lbracket o ∷ (print e ++ mark rbracket c ∷ [])

-- The value of a tree: operands from left to right, reads of 4 bytes unless a size is given.
unfoldable pub eval : Environment → Expr → Result ℕ
eval env (leaf l) = leaf_value env l
eval env (group o e c) = eval env e
eval env (binary l kind place r) = eval env l >>= λ a. eval env r >>= λ b. apply_operator a b kind
eval env (read a o e c) = eval env e >>= λ address. perform_read env address 4
eval env (read_sized a o e k s c) =
    eval env e >>= λ address. eval env s >>= λ size. perform_read env address size
eval env (read_leaf a l) = leaf_value env l >>= λ address. perform_read env address 4
eval env (read_offset a l o e c) = leaf_value env l >>= λ address.
    eval env e >>= λ offset. perform_read env ((address + offset) % 2 ^ 32) 4

-- Every operator outside parentheses binds tighter than `m` and is one: the left operand of one
-- with precedence q as tight as q, and the right operand tighter.
unfoldable pub Fits : ℕ → Expr → Type 0
Fits m (leaf l) = Unit {0}
Fits m (group o e c) = Fits lowest e
Fits m (binary l kind place r) =
    (m < get_precedence kind)
    × (lowest < get_precedence kind)
    × (get_precedence kind ≤ product)
    × Fits (get_precedence kind - 1) l
    × Fits (get_precedence kind) r
Fits m (read a o e c) = Fits lowest e
Fits m (read_sized a o e k s c) = Fits lowest e × Fits lowest s
Fits m (read_leaf a l) = Unit {0}
Fits m (read_offset a l o e c) = Fits lowest e
