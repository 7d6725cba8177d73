-- ===== src/Args/Commands.antt =====
-- `command_line_command_tokenizer::SplitCommands` of src/util/parsing.cpp.
use xbdm_gdb_bridge.Prelude.{
  arith, not, same_iff, Bool-cases, inl, inr, append-nil, append_assoc, sym, ◌∙◌, ◌≢◌, ◌&&◌, Bytes,
  List, [], codes, if◌then◌else◌, same, ◌++◌, ◌∷◌, ◌≡◌, refl, true, false, Bool, ap,
}

abbrev pub command_delimiter : Bytes
command_delimiter = codes "&&"

-- The loop: the commands so far, and the words of the command that is being read.
unfoldable pub split_loop : List (List Bytes) → List Bytes → List Bytes → List (List Bytes)
split_loop ret cmd [] = ret ++ cmd ∷ []
split_loop ret cmd (elem ∷ rest) =
    let ended = split_loop (ret ++ cmd ∷ []) [] rest in
    let continued = split_loop ret (cmd ++ elem ∷ []) rest in
    if same elem command_delimiter then ended else continued

unfoldable pub split_commands : List Bytes → List (List Bytes)
unfolding split_loop
split_commands [] = []
split_commands (elem ∷ rest) = split_loop [] [] (elem ∷ rest)

-- The words of a list of commands, with a delimiter between two.
unfoldable pub join : List (List Bytes) → List Bytes
join [] = []
join (cmd ∷ []) = cmd
join (cmd ∷ next ∷ rest) = cmd ++ command_delimiter ∷ join (next ∷ rest)

-- No word of the command is the delimiter.
unfoldable pub has_no_delimiter : List Bytes → Bool
has_no_delimiter [] = true
has_no_delimiter (elem ∷ rest) = not (same elem command_delimiter) && has_no_delimiter rest

unfoldable pub all_free : List (List Bytes) → Bool
unfolding has_no_delimiter
all_free [] = true
all_free (cmd ∷ rest) = has_no_delimiter cmd && all_free rest

-- A command in front of more words is read whole.
split_loop-append :
    (ret : List (List Bytes)) (cmd free rest : List Bytes)
    → has_no_delimiter free ≡ true
    → split_loop ret cmd (free ++ rest) ≡ split_loop ret (cmd ++ free) rest
unfolding split_loop has_no_delimiter
split_loop-append ret cmd [] rest h = rw (append-nil cmd)
split_loop-append ret cmd (elem ∷ free) rest h =
    let other : same elem command_delimiter ≡ false = ground arith in
    let others : has_no_delimiter free ≡ true = ground arith in
    rw other (
      split_loop-append ret (cmd ++ elem ∷ []) free rest others
      ∙ ap (λ c. split_loop ret c rest) (append_assoc cmd (elem ∷ []) free))

split_loop-join :
    (ret : List (List Bytes)) (cmd : List Bytes) (rest : List (List Bytes))
    → all_free (cmd ∷ rest) ≡ true
    → split_loop ret [] (join (cmd ∷ rest)) ≡ ret ++ cmd ∷ rest
unfolding join all_free split_loop
split_loop-join ret cmd [] h =
    let free : has_no_delimiter cmd ≡ true = ground arith in
    ap (split_loop ret []) (sym (append-nil cmd)) ∙ split_loop-append ret [] cmd [] free
split_loop-join ret cmd (next ∷ rest) h =
    let free : has_no_delimiter cmd ≡ true = ground arith in
    let others : all_free (next ∷ rest) ≡ true = ground arith in
    split_loop-append ret [] cmd (command_delimiter ∷ join (next ∷ rest)) free
    ∙ split_loop-join (ret ++ cmd ∷ []) next rest others
    ∙ append_assoc ret (cmd ∷ []) (next ∷ rest)

split_commands_loop :
    (words : List Bytes) → words ≢ [] → split_commands words ≡ split_loop [] [] words
unfolding split_commands
split_commands_loop [] h = absurd (h refl)
split_commands_loop (elem ∷ rest) h = refl

append-cons_nonempty : (cmd rest : List Bytes) (elem : Bytes) → cmd ++ elem ∷ rest ≢ []
append-cons_nonempty [] rest elem e = cc
append-cons_nonempty (c ∷ cmd) rest elem e = cc

-- Commands none of whose words is the delimiter, and that are not a single command without words,
-- are split again from their words with delimiters between them.
pub split_commands-join :
    (cmds : List (List Bytes))
    → all_free cmds ≡ true
    → cmds ≢ [] ∷ []
    → split_commands (join cmds) ≡ cmds
unfolding join split_commands
split_commands-join [] h some_words = refl
split_commands-join (cmd ∷ []) h some_words =
    split_commands_loop cmd (λ e. some_words (ap (λ c. c ∷ []) e)) ∙ split_loop-join [] cmd [] h
split_commands-join (cmd ∷ next ∷ rest) h some_words =
    split_commands_loop (join (cmd ∷ next ∷ rest))
      (append-cons_nonempty cmd (join (next ∷ rest)) command_delimiter)
    ∙ split_loop-join [] cmd (next ∷ rest) h

-- A list of commands, and words behind its last command.
join-snoc :
    (cmds : List (List Bytes)) (cmd rest : List Bytes)
    → join (cmds ++ (cmd ++ rest) ∷ []) ≡ join (cmds ++ cmd ∷ []) ++ rest
unfolding join
join-snoc [] cmd rest = refl
join-snoc (c ∷ []) cmd rest = sym (append_assoc c (command_delimiter ∷ cmd) rest)
join-snoc (c ∷ d ∷ cmds) cmd rest =
    ap (λ t. c ++ command_delimiter ∷ t) (join-snoc (d ∷ cmds) cmd rest)
    ∙ sym (append_assoc c (command_delimiter ∷ join (d ∷ (cmds ++ cmd ∷ []))) rest)

join-next :
    (cmds : List (List Bytes)) (cmd : List Bytes)
    → join ((cmds ++ cmd ∷ []) ++ [] ∷ []) ≡ join (cmds ++ cmd ∷ []) ++ command_delimiter ∷ []
unfolding join
join-next [] cmd = refl
join-next (c ∷ []) cmd = sym (append_assoc c (command_delimiter ∷ cmd) (command_delimiter ∷ []))
join-next (c ∷ d ∷ cmds) cmd =
    ap (λ t. c ++ command_delimiter ∷ t) (join-next (d ∷ cmds) cmd)
    ∙ sym (
        append_assoc c (command_delimiter ∷ join (d ∷ (cmds ++ cmd ∷ []))) (command_delimiter ∷ []))

join-split_loop :
    (ret : List (List Bytes)) (cmd words : List Bytes)
    → join (split_loop ret cmd words) ≡ join (ret ++ cmd ∷ []) ++ words
unfolding split_loop
join-split_loop ret cmd [] = sym (append-nil (join (ret ++ cmd ∷ [])))
join-split_loop ret cmd (elem ∷ rest) = elim (Bool-cases (same elem command_delimiter)) [
  | inl e ↦ rw e (
      join-split_loop (ret ++ cmd ∷ []) [] rest
      ∙ ap (λ t. t ++ rest) (join-next ret cmd)
      ∙ append_assoc (join (ret ++ cmd ∷ [])) (command_delimiter ∷ []) rest
      ∙ ap (λ d. join (ret ++ cmd ∷ []) ++ d ∷ rest) (sym ((same_iff elem command_delimiter).0 e)))
  | inr n ↦ rw n (
      join-split_loop ret (cmd ++ elem ∷ []) rest
      ∙ ap (λ t. t ++ rest) (join-snoc ret cmd (elem ∷ []))
      ∙ append_assoc (join (ret ++ cmd ∷ [])) (elem ∷ []) rest)
]

-- Splitting loses nothing: the commands with delimiters between them are the words again.
pub join-split_commands : (words : List Bytes) → join (split_commands words) ≡ words
unfolding join split_commands
join-split_commands [] = refl
join-split_commands (elem ∷ rest) = join-split_loop [] [] (elem ∷ rest)
