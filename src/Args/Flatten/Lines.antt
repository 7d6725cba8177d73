-- ===== src/Args/Flatten/Lines.antt =====
-- A flattened command line is tokenized to the arguments that it was made from.
use xbdm_gdb_bridge.Prelude.{
  Bool, Bytes, List, [], append_assoc, append-nil, ap, arith, false, refl, sym, true, ℕ, ◌&&◌, ◌++◌,
  ◌∙◌, ◌∷◌, ◌≡◌,
}
use xbdm_gdb_bridge.Cstd.{lower}
use xbdm_gdb_bridge.Args.Data.{
  ArgKind, ArgParser, Argument, argument, basic, not_found, parenthesized, quoted, syntax_error,
}
use xbdm_gdb_bridge.Args.Tokenizer.{
  Scan, flush_token, is_empty, on_char, on_plain, tokenize, tokenize_loop,
}
use xbdm_gdb_bridge.Args.Parser.{from_line, from_tokens, make}
use xbdm_gdb_bridge.Args.Flatten.{
  escape_quotes, argument_text, flatten, flatten_args, flatten_loop, separate,
}
use xbdm_gdb_bridge.Args.Flatten.Parens.{read_parenthesized}
use xbdm_gdb_bridge.Args.Flatten.Words.{
  is_printable, is_word, read_quoted, read_word, state, tokenize_step,
}

unfoldable pub all_printable : List Argument → Bool
unfolding is_printable
all_printable [] = true
all_printable (arg ∷ rest) = is_printable arg && all_printable rest

-- The arguments behind the first, each with its blank.
tail_text : List Argument → Bytes
tail_text [] = []
tail_text (arg ∷ rest) = b' ' ∷ (argument_text arg ++ tail_text rest)

-- The state that the text of an argument leads to.
abbrev Reaches : List Argument → Bool → Argument → Type 0
Reaches args flag arg =
    (rest : Bytes)
    → (after : Bool) × (tokenize_loop (state args [] false 0 flag false basic)
          (argument_text arg ++ rest)
        ≡ tokenize_loop (state args arg.value false 0 after true arg.type.val) rest)

Reaches-by_kind :
    (args : List Argument) (flag : Bool) (text message : Bytes) (kind : ArgKind)
    → is_printable (record { value = text; type = record { val = kind; message = message } }) ≡ true
    → Reaches args flag (record { value = text; type = record { val = kind; message = message } })
unfolding argument_text is_printable
Reaches-by_kind args flag text message basic h rest =
    (flag, read_word args flag text rest (ground arith))
Reaches-by_kind args flag text message quoted h rest = (
  flag,
  rw (append_assoc (escape_quotes text) (b'"' ∷ []) rest)
      (read_quoted args flag text rest (ground arith)),
)
Reaches-by_kind args flag text message parenthesized h rest = (
  true,
  rw (append_assoc text (b')' ∷ []) rest) (read_parenthesized args flag text rest (ground arith)),
)
Reaches-by_kind args flag text message not_found h rest = ground arith
Reaches-by_kind args flag text message syntax_error h rest = ground arith

no_message : (arg : Argument) → is_printable arg ≡ true → argument arg.value arg.type.val ≡ arg
unfolding is_printable
no_message arg h =
    let e : arg.type.message ≡ [] = message_empty arg.type.message (ground arith) in
    ap (λ m. record { value = arg.value; type = record { val = arg.type.val; message = m } })
      (sym e)
  where
    message_empty : (m : Bytes) → is_empty m ≡ true → m ≡ []
    message_empty [] e = refl
    message_empty (c ∷ cs) e = ground arith

-- The arguments that the tokenizer has at the end of a line.
abbrev finish : Scan → List Argument
finish s = (flush_token s).args

flushes :
    (args : List Argument) (text : Bytes) (flag : Bool) (kind : ArgKind)
    → on_char (state args text false 0 flag true kind) b' '
      ≡ state (args ++ argument text kind ∷ []) [] false 0 flag false basic
unfolding on_char on_plain flush_token
flushes args text flag kind = refl

tokenize_tail :
    (more args : List Argument) (text : Bytes) (flag : Bool) (kind : ArgKind)
    → all_printable more ≡ true
    → finish (tokenize_loop (state args text false 0 flag true kind) (tail_text more))
      ≡ args ++ argument text kind ∷ more
unfolding tail_text all_printable tokenize_loop flush_token
tokenize_tail [] args text flag kind h = refl
tokenize_tail (a ∷ more) args text flag kind h =
    let first : is_printable a ≡ true = ground arith in
    let others : all_printable more ≡ true = ground arith in
    let word = argument text kind in
    let (after, read) =
      Reaches-by_kind (args ++ word ∷ []) flag a.value a.type.message a.type.val first
        (tail_text more) in
    ap finish (
      tokenize_step (state args text false 0 flag true kind) b' '
        (argument_text a ++ tail_text more) refl
      ∙ ap (λ s. tokenize_loop s (argument_text a ++ tail_text more)) (flushes args text flag kind)
      ∙ read)
    ∙ tokenize_tail more (args ++ word ∷ []) a.value after a.type.val others
    ∙ append_assoc args (word ∷ []) (argument a.value a.type.val ∷ more)
    ∙ ap (λ b. args ++ word ∷ b ∷ more) (no_message a first)

is_empty-append : (xs : Bytes) (c : ℕ) (ys : Bytes) → is_empty (xs ++ c ∷ ys) ≡ false
is_empty-append [] c ys = refl
is_empty-append (x ∷ xs) c ys = refl

flatten_loop-tail :
    (more : List Argument) (out : Bytes)
    → is_empty out ≡ false
    → flatten_loop out more ≡ out ++ tail_text more
unfolding flatten_loop tail_text separate
flatten_loop-tail [] out full = sym (append-nil out)
flatten_loop-tail (a ∷ more) out full =
    rw (full, append_assoc out (b' ' ∷ []) (argument_text a))
      (flatten_loop-tail more (out ++ b' ' ∷ argument_text a)
          (is_empty-append out b' ' (argument_text a))
        ∙ append_assoc out (b' ' ∷ argument_text a) (tail_text more))

has_text :
    (text message : Bytes) (kind : ArgKind)
    → is_printable (record { value = text; type = record { val = kind; message = message } }) ≡ true
    → is_empty
        (argument_text (record { value = text; type = record { val = kind; message = message } }))
      ≡ false
unfolding is_printable argument_text is_word
has_text [] message basic h = ground arith
has_text (c ∷ cs) message basic h = refl
has_text text message quoted h = refl
has_text text message parenthesized h = refl
has_text text message not_found h = ground arith
has_text text message syntax_error h = ground arith

flatten_words :
    (more : List Argument) → all_printable more ≡ true → tokenize (flatten_loop [] more) ≡ more
unfolding tokenize tokenize_loop flush_token flatten_loop all_printable separate
flatten_words [] h = refl
flatten_words (a ∷ more) h =
    let first : is_printable a ≡ true = ground arith in
    let others : all_printable more ≡ true = ground arith in
    let (after, read) =
      Reaches-by_kind [] false a.value a.type.message a.type.val first (tail_text more) in
    ap tokenize
      (flatten_loop-tail more (argument_text a) (has_text a.value a.type.message a.type.val first))
    ∙ ap finish read
    ∙ tokenize_tail more [] a.value after a.type.val others
    ∙ ap (λ b. b ∷ more) (no_message a first)

-- Arguments that are printable (bare words without blanks and parentheses, quoted text that does
-- not end in a backslash, text with matching parentheses) are what `Tokenize` finds in the text
-- that `FlattenArgs` makes of them: values and kinds, in order.
pub tokenize-flatten_args :
    (p : ArgParser) → all_printable p.arguments ≡ true → tokenize (flatten_args p) ≡ p.arguments
unfolding flatten_args
tokenize-flatten_args p h = flatten_words p.arguments h

-- A command line whose command is a bare word in lower case, and whose arguments are printable, is
-- parsed back from the text that `Flatten` makes of it.
pub from_line-flatten :
    (p : ArgParser)
    → is_word p.command ≡ true
    → lower p.command ≡ p.command
    → all_printable p.arguments ≡ true
    → from_line (flatten p) ≡ p
unfolding flatten from_line from_tokens make all_printable is_printable
from_line-flatten p word low h =
    let whole : all_printable (argument p.command basic ∷ p.arguments) ≡ true = ground arith in
    ap from_tokens (flatten_words (argument p.command basic ∷ p.arguments) whole)
    ∙ ap (λ c. record { command = c; arguments = p.arguments }) low
