-- ===== src/Args/Tests.antt =====
-- The theorems on the shell's command lines, at concrete inputs.
use xbdm_gdb_bridge.Prelude.{Bytes, List, [], codes, refl, ◌∷◌, ◌≡◌, arith, ◌≢◌}
use xbdm_gdb_bridge.Cstd.{lower}
use xbdm_gdb_bridge.Args.Data.{ArgParser, Argument, argument, basic, parenthesized, quoted}
use xbdm_gdb_bridge.Args.Tokenizer.{on_char, tokenize, tokenize_loop, flush_token}
use xbdm_gdb_bridge.Args.Parser.{from_line}
use xbdm_gdb_bridge.Args.Flatten.{flatten, flatten_args}
use xbdm_gdb_bridge.Args.Flatten.Words.{is_word}
use xbdm_gdb_bridge.Args.Flatten.Lines.{all_printable, from_line-flatten}
use xbdm_gdb_bridge.Args.Commands.{all_free, join, split_commands, split_commands-join}

abbrev items : List Argument
items =
    argument (codes "0x10") basic
    ∷ argument (codes "a \"b\" (") quoted
    ∷ argument (codes "$esp + (4)") parenthesized
    ∷ []

abbrev line : ArgParser
line = record { command = codes "break"; arguments = items }

from_line-flatten_example : from_line (flatten line) ≡ line
unfolding is_word lower all_printable
from_line-flatten_example = from_line-flatten line refl refl refl

abbrev commands : List (List Bytes)
commands = (codes "run" ∷ codes "x" ∷ []) ∷ (codes "info" ∷ []) ∷ []

some_words : commands ≢ [] ∷ []
some_words e = ground arith

split_commands-join_example : split_commands (join commands) ≡ commands
unfolding all_free join
split_commands-join_example = split_commands-join commands refl some_words

abbrev condition : Argument
condition = argument (codes "IF") basic

-- A quoted argument that ends in a backslash is not read back: the backslash escapes its quote.
last_backslash :
    tokenize
      (flatten_args (record { command = []; arguments = argument (codes "a\\") quoted ∷ [] }))
    ≡ argument (codes "a\"") quoted ∷ []
unfolding tokenize tokenize_loop flush_token flatten_args on_char
last_backslash = refl
