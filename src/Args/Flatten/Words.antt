-- ===== src/Args/Flatten/Words.antt =====
-- The tokenizer on the text of one argument.
use xbdm_gdb_bridge.Prelude.{
  Option, none, some, ==_iff, Bool, Bool-cases, Bytes, List, [], append_assoc, append-nil, arith,
  false, if◌then◌else◌, inl, inr, not, refl, suc, true, zero, ℕ, ◌&&◌, ◌++◌, ◌==◌, ◌∙◌, ◌∷◌, ◌≡◌,
  ap,
}
use xbdm_gdb_bridge.Args.Data.{ArgKind, Argument, basic, parenthesized, plain, quoted}
use xbdm_gdb_bridge.Args.Tokenizer.{
  Scan, append_char, is_blank, is_empty, is_escaped_quote, on_char, starts_quote, tokenize_loop,
  on_plain, on_quote_mark, on_quoted,
}
use xbdm_gdb_bridge.Args.Flatten.{escape_quotes}

-- What a bare word may hold, but for its first character, which is no quote either.
abbrev pub is_word_char : ℕ → Bool
is_word_char c = not (is_blank c) && not (c == b'(')

unfoldable pub is_word_tail : Bytes → Bool
is_word_tail [] = true
is_word_tail (c ∷ cs) = is_word_char c && is_word_tail cs

unfoldable pub is_word : Bytes → Bool
unfolding is_word_tail
is_word [] = false
is_word (c ∷ cs) = is_word_char c && (not (c == b'"') && is_word_tail cs)

-- The text of a quoted argument must not end in a backslash, which would escape the closing quote.
unfoldable pub ends_safely : Bytes → Bool
ends_safely [] = true
ends_safely (c ∷ []) = not (c == b'\\')
ends_safely (c ∷ d ∷ cs) = ends_safely (d ∷ cs)

-- How many parentheses are open inside the first one behind `c`; `none` if `c` closes the first.
unfoldable pub depth_after : ℕ → ℕ → Option ℕ
depth_after depth c =
    if c == b'('
    then some (suc depth)
    else if c == b')'
    then elim depth [ zero ↦ none | suc d ↦ some d ]
    else some depth

-- Parentheses that match, `depth` of them being open.
unfoldable pub nests : ℕ → Bytes → Bool
unfolding depth_after
nests depth [] = depth == 0
nests depth (c ∷ cs) = elim (depth_after depth c) [ none ↦ false | some d ↦ nests d cs ]

-- An argument that the tokenizer can read back.
unfoldable pub is_printable : Argument → Bool
unfolding is_word ends_safely nests
is_printable arg = is_empty arg.type.message && elim arg.type.val [
  | basic ↦ is_word arg.value
  | quoted ↦ ends_safely arg.value
  | parenthesized ↦ nests 0 arg.value
  | _ ↦ false
]

-- A state of the tokenizer: the arguments and the token so far, the quote and the depth.
abbrev pub state : List Argument → Bytes → Bool → ℕ → Bool → Bool → ArgKind → Scan
state args token in_quote depth stripping dirty kind = record {
  args = args;
  current_token = token;
  in_quote = in_quote;
  paren_depth = depth;
  stripping_outer_parens = stripping;
  token_dirty = dirty;
  current_type = plain kind;
}

pub tokenize_step :
    (s : Scan) (c : ℕ) (rest : Bytes)
    → is_escaped_quote s c rest ≡ false
    → tokenize_loop s (c ∷ rest) ≡ tokenize_loop (on_char s c) rest
unfolding tokenize_loop
tokenize_step s c [] h = refl
tokenize_step s c (d ∷ rest) h = rw (h, tokenize_loop)

is_empty-snoc : (xs : Bytes) (x : ℕ) → is_empty (xs ++ x ∷ []) ≡ false
is_empty-snoc [] x = refl
is_empty-snoc (y ∷ ys) x = refl

word_char :
    (args : List Argument) (token : Bytes) (flag : Bool) (c : ℕ)
    → is_empty token ≡ false
    → is_word_char c ≡ true
    → on_char (state args token false 0 flag true basic) c
      ≡ state args (token ++ c ∷ []) false 0 flag true basic
unfolding on_char on_plain on_quote_mark append_char
word_char args token flag c full h = elim (Bool-cases (c == b'"')) [
  | inl e ↦ let e' : c ≡ b'"' = (==_iff c b'"').0 e in rw (e', full)
  | inr n ↦ ground arith
]

word_tail :
    (args : List Argument) (token : Bytes) (flag : Bool) (cs rest : Bytes)
    → is_empty token ≡ false
    → is_word_tail cs ≡ true
    → tokenize_loop (state args token false 0 flag true basic) (cs ++ rest)
      ≡ tokenize_loop (state args (token ++ cs) false 0 flag true basic) rest
unfolding is_word_tail
word_tail args token flag [] rest full h = rw (append-nil token)
word_tail args token flag (c ∷ cs) rest full h =
    let first : is_word_char c ≡ true = ground arith in
    let others : is_word_tail cs ≡ true = ground arith in
    tokenize_step (state args token false 0 flag true basic) c (cs ++ rest) refl
    ∙ ap (λ s. tokenize_loop s (cs ++ rest)) (word_char args token flag c full first)
    ∙ word_tail args (token ++ c ∷ []) flag cs rest (is_empty-snoc token c) others
    ∙ ap (λ t. tokenize_loop (state args t false 0 flag true basic) rest)
        (append_assoc token (c ∷ []) cs)

first_char :
    (args : List Argument) (flag : Bool) (c : ℕ)
    → is_word_char c ≡ true
    → (c == b'"') ≡ false
    → on_char (state args [] false 0 flag false basic) c
      ≡ state args (c ∷ []) false 0 flag true basic
unfolding on_char on_plain append_char
first_char args flag c h no_quote = ground arith

pub read_word :
    (args : List Argument) (flag : Bool) (value rest : Bytes)
    → is_word value ≡ true
    → tokenize_loop (state args [] false 0 flag false basic) (value ++ rest)
      ≡ tokenize_loop (state args value false 0 flag true basic) rest
unfolding is_word
read_word args flag [] rest h = ground arith
read_word args flag (c ∷ cs) rest h =
    let first : is_word_char c ≡ true = ground arith in
    let no_quote : (c == b'"') ≡ false = ground arith in
    let others : is_word_tail cs ≡ true = ground arith in
    tokenize_step (state args [] false 0 flag false basic) c (cs ++ rest) refl
    ∙ ap (λ s. tokenize_loop s (cs ++ rest)) (first_char args flag c first no_quote)
    ∙ word_tail args (c ∷ []) flag cs rest refl others

safe_backslash :
    (c : ℕ) (cs rest : Bytes)
    → ends_safely (c ∷ cs) ≡ true
    → (c == b'\\' && starts_quote (escape_quotes cs ++ b'"' ∷ rest)) ≡ false
unfolding ends_safely escape_quotes
safe_backslash c [] rest h = ground arith
safe_backslash c (d ∷ cs) rest h = elim (Bool-cases (d == b'"')) [
  | inl e ↦ rw e (ground arith)
  | inr n ↦ rw n (ground arith)
]

ends_safely-tail : (c : ℕ) (cs : Bytes) → ends_safely (c ∷ cs) ≡ true → ends_safely cs ≡ true
unfolding ends_safely
ends_safely-tail c [] h = refl
ends_safely-tail c (d ∷ cs) h = h

quoted_char :
    (args : List Argument) (token : Bytes) (flag : Bool) (c : ℕ)
    → (c == b'"') ≡ false
    → on_char (state args token true 0 flag true quoted) c
      ≡ state args (token ++ c ∷ []) true 0 flag true quoted
unfolding on_char on_quoted append_char
quoted_char args token flag c h = rw h

quote_close :
    (args : List Argument) (token : Bytes) (flag : Bool)
    → on_char (state args token true 0 flag true quoted) b'"'
      ≡ state args (token ++ []) false 0 flag true quoted
unfolding on_char on_quoted
quote_close args token flag = rw (append-nil token)

quoted_escape :
    (args : List Argument) (token : Bytes) (flag : Bool) (rest : Bytes)
    → tokenize_loop (state args token true 0 flag true quoted) (b'\\' ∷ b'"' ∷ rest)
      ≡ tokenize_loop (state args (token ++ b'"' ∷ []) true 0 flag true quoted) rest
unfolding tokenize_loop append_char
quoted_escape args token flag rest = refl

quoted_tail :
    (args : List Argument) (token : Bytes) (flag : Bool) (cs rest : Bytes)
    → ends_safely cs ≡ true
    → tokenize_loop (state args token true 0 flag true quoted) (escape_quotes cs ++ b'"' ∷ rest)
      ≡ tokenize_loop (state args (token ++ cs) false 0 flag true quoted) rest
unfolding escape_quotes
quoted_tail args token flag [] rest h =
    tokenize_step (state args token true 0 flag true quoted) b'"' rest refl
    ∙ ap (λ s. tokenize_loop s rest) (quote_close args token flag)
quoted_tail args token flag (c ∷ cs) rest h = elim (Bool-cases (c == b'"')) [
  | inl e ↦
      (let e' : c ≡ b'"' = (==_iff c b'"').0 e in
        rw e' (
          quoted_escape args token flag (escape_quotes cs ++ b'"' ∷ rest)
          ∙ quoted_tail args (token ++ b'"' ∷ []) flag cs rest (ends_safely-tail c cs h)
          ∙ ap (λ t. tokenize_loop (state args t false 0 flag true quoted) rest)
              (append_assoc token (b'"' ∷ []) cs)))
  | inr n ↦ rw n (
      tokenize_step (state args token true 0 flag true quoted) c (escape_quotes cs ++ b'"' ∷ rest)
        (safe_backslash c cs rest h)
      ∙ ap (λ s. tokenize_loop s (escape_quotes cs ++ b'"' ∷ rest))
          (quoted_char args token flag c n)
      ∙ quoted_tail args (token ++ c ∷ []) flag cs rest (ends_safely-tail c cs h)
      ∙ ap (λ t. tokenize_loop (state args t false 0 flag true quoted) rest)
          (append_assoc token (c ∷ []) cs))
]

pub read_quoted :
    (args : List Argument) (flag : Bool) (value rest : Bytes)
    → ends_safely value ≡ true
    → tokenize_loop
        (state args [] false 0 flag false basic)
        (b'"' ∷ (escape_quotes value ++ b'"' ∷ rest))
      ≡ tokenize_loop (state args value false 0 flag true quoted) rest
unfolding on_char on_plain on_quote_mark
read_quoted args flag value rest h =
    tokenize_step (state args [] false 0 flag false basic) b'"' _ refl
    ∙ quoted_tail args [] flag value rest h
