-- ===== src/Args/Tokenizer.antt =====
-- `ArgParser::Tokenize` of src/util/parsing.cpp: blanks separate the words, a word in quotes may
-- hold blanks and `\"`, and a word with parentheses runs to the one that closes the first.
use xbdm_gdb_bridge.Prelude.{
  Bool, Bytes, List, [], false, if◌then◌else◌, not, true, ℕ, ◌++◌, ◌&&◌, ◌==◌, ◌||◌, ◌∷◌, ◌-◌, ◌+◌,
  ltb,
}
use xbdm_gdb_bridge.Args.Data.{ArgType, Argument, basic, parenthesized, plain, quoted}

-- The local variables.
pub record Scan : Type 0 where
  pub args : List Argument
  pub current_token : Bytes
  pub in_quote : Bool
  pub paren_depth : ℕ
  pub stripping_outer_parens : Bool
  pub token_dirty : Bool
  pub current_type : ArgType

abbrev pub is_empty : Bytes → Bool
is_empty [] = true
is_empty (_ ∷ _) = false

abbrev pub starts_quote : Bytes → Bool
starts_quote [] = false
starts_quote (c ∷ _) = c == b'"'

abbrev pub is_blank : ℕ → Bool
is_blank c = c == b' ' || c == 9

unfoldable pub append_char : Scan → ℕ → Scan
append_char s c = record s { current_token = s.current_token ++ c ∷ [] }

unfoldable pub flush_token : Scan → Scan
flush_token s =
    if s.token_dirty
    then record s {
      args = s.args ++ record { value = s.current_token; type = s.current_type } ∷ [];
      current_token = [];
      token_dirty = false;
      current_type = plain basic;
    }
    else s

-- Inside quotes, but for `\"`.
unfoldable pub on_quoted : Scan → ℕ → Scan
unfolding append_char
on_quoted s c = if c == b'"' then record s { in_quote = false } else append_char s c

-- Inside parentheses.
unfoldable pub on_parenthesized : Scan → ℕ → Scan
unfolding append_char
on_parenthesized s c =
    if c == b'('
    then append_char (record s { paren_depth = s.paren_depth + 1 }) c
    else if c == b')'
    then (let closed = record s { paren_depth = s.paren_depth - 1 } in
        if ltb 0 closed.paren_depth || not s.stripping_outer_parens
        then append_char closed c
        else closed)
    else append_char s c

unfoldable pub on_quote_mark : Scan → Scan
unfolding append_char
on_quote_mark s =
    if is_empty s.current_token
    then record s { in_quote = true; token_dirty = true; current_type = plain quoted }
    else append_char (record s { token_dirty = true }) b'"'

unfoldable pub on_parenthesis : Scan → Scan
unfolding append_char
on_parenthesis s =
    let opened = record s {
      paren_depth = 1;
      token_dirty = true;
      current_type = plain parenthesized;
      stripping_outer_parens = is_empty s.current_token;
    } in
    if is_empty s.current_token then opened else append_char opened b'('

-- Outside quotes and parentheses.
unfoldable pub on_plain : Scan → ℕ → Scan
unfolding flush_token on_quote_mark on_parenthesis append_char
on_plain s c =
    if is_blank c
    then flush_token s
    else if c == b'"'
    then on_quote_mark s
    else if c == b'('
    then on_parenthesis s
    else append_char (record s { token_dirty = true }) c

unfoldable pub on_char : Scan → ℕ → Scan
unfolding on_quoted on_parenthesized on_plain
on_char s c =
    if s.in_quote
    then on_quoted s c
    else if ltb 0 s.paren_depth
    then on_parenthesized s c
    else on_plain s c

-- Whether the loop takes `c` and the next character as `\"`.
abbrev pub is_escaped_quote : Scan → ℕ → Bytes → Bool
is_escaped_quote s c rest = s.in_quote && (c == b'\\' && starts_quote rest)

unfoldable pub tokenize_loop : Scan → Bytes → Scan
tokenize_loop s [] = s
tokenize_loop s (c ∷ []) = on_char s c
tokenize_loop s (c ∷ d ∷ rest) = elim (is_escaped_quote s c (d ∷ rest)) [
  | true ↦ tokenize_loop (append_char s b'"') rest
  | false ↦ tokenize_loop (on_char s c) (d ∷ rest)
]

abbrev pub initial : Scan
initial = record {
  args = [];
  current_token = [];
  in_quote = false;
  paren_depth = 0;
  stripping_outer_parens = false;
  token_dirty = false;
  current_type = plain basic;
}

unfoldable pub tokenize : Bytes → List Argument
tokenize input = (flush_token (tokenize_loop initial input)).args
