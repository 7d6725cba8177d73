-- ===== src/Args/Flatten/Parens.antt =====
-- The tokenizer on the text of an argument in parentheses.
use xbdm_gdb_bridge.Prelude.{
  some, Option-cases, Bool, Bytes, List, [], append_assoc, append-nil, arith, false, inl, inr, refl,
  suc, true, zero, ℕ, ◌++◌, ◌+◌, ◌∙◌, ◌∷◌, ◌≡◌, ap,
}
use xbdm_gdb_bridge.Args.Data.{Argument, basic, parenthesized}
use xbdm_gdb_bridge.Args.Tokenizer.{
  Scan, append_char, on_char, tokenize_loop, on_plain, on_parenthesis, on_parenthesized,
}
use xbdm_gdb_bridge.Args.Flatten.Words.{depth_after, nests, state, tokenize_step}

-- The state behind `depth` parentheses inside the first.
abbrev inside : List Argument → Bytes → ℕ → Scan
inside args token depth = state args token false (depth + 1) true true parenthesized

nested_char :
    (args : List Argument) (token : Bytes) (depth c next : ℕ)
    → depth_after depth c ≡ some next
    → on_char (inside args token depth) c ≡ inside args (token ++ c ∷ []) next
unfolding on_char on_parenthesized append_char depth_after
nested_char args token zero c next h = ground arith
nested_char args token (suc depth) c next h = ground arith

last_close :
    (args : List Argument) (token : Bytes)
    → on_char (inside args token 0) b')' ≡ state args (token ++ []) false 0 true true parenthesized
unfolding on_char on_parenthesized append_char
last_close args token = rw (append-nil token)

nested_tail :
    (args : List Argument) (token : Bytes) (depth : ℕ) (cs rest : Bytes)
    → nests depth cs ≡ true
    → tokenize_loop (inside args token depth) (cs ++ b')' ∷ rest)
      ≡ tokenize_loop (state args (token ++ cs) false 0 true true parenthesized) rest
unfolding nests
nested_tail args token depth [] rest h =
    let none_open : depth ≡ 0 = ground arith in
    rw none_open (
      tokenize_step (inside args token 0) b')' rest refl
      ∙ ap (λ s. tokenize_loop s rest) (last_close args token))
nested_tail args token depth (c ∷ cs) rest h = elim (Option-cases (depth_after depth c)) [
  | inl e ↦ ground (arith, e)
  | inr (next, e) ↦
      let others : nests next cs ≡ true = ground arith in
      tokenize_step (inside args token depth) c (cs ++ b')' ∷ rest) refl
      ∙ ap (λ s. tokenize_loop s (cs ++ b')' ∷ rest)) (nested_char args token depth c next e)
      ∙ nested_tail args (token ++ c ∷ []) next cs rest others
      ∙ ap (λ t. tokenize_loop (state args t false 0 true true parenthesized) rest)
          (append_assoc token (c ∷ []) cs)
]

pub read_parenthesized :
    (args : List Argument) (flag : Bool) (value rest : Bytes)
    → nests 0 value ≡ true
    → tokenize_loop (state args [] false 0 flag false basic) (b'(' ∷ (value ++ b')' ∷ rest))
      ≡ tokenize_loop (state args value false 0 true true parenthesized) rest
unfolding on_char on_plain on_parenthesis
read_parenthesized args flag value rest h =
    tokenize_step (state args [] false 0 flag false basic) b'(' _ refl
    ∙ nested_tail args [] 0 value rest h
